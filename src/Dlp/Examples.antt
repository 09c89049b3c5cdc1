-- ===== src/Dlp/Examples.antt =====
-- Scans with one expression for cards and a test card number.
use aiagentguard.Json.{Items, Value, cons, count, dict, end, field, get, list, nil, num, str}
use aiagentguard.Dlp.{
  Pattern, Expressions, matched, plain, mask, luhn, visit, visit_fields, visit_text, apply_patterns,
  mask_cards, scan,
}
use aiagentguard.Dlp.Custom.{
  has_reference, pattern_of, entries_of, validate_custom_patterns, IsSafe,
  validate_custom_patterns-Safe,
}
use aiagentguard.Dlp.Luhn.{luhn_digits, total_of, luhn_digits_detects}
use aiagentguard.Dlp.Masking.{all_masked, scan_masked}
use aiagentguard.Dlp.Reports.{scan_quiet}
use aiagentguard.Prelude.{
  ℕ, String, ◌≡◌, refl, true, false, [], ◌∷◌, ◌++◌, str_eq, if◌then◌else◌, arith, Option, some, ◌≤◌,
  length, All, List,
}
use text.Mathlib.TextLemmas.{append-nil}

abbrev expressions : Expressions
expressions = record {
  secret_key = str_eq "password";
  patterns = [];
  cards = λ text. (if str_eq text "4111 1111 1111 1111" then matched text else plain text) ∷ [];
}

abbrev one_piece : String → Expressions
one_piece name = record { secret_key = str_eq name; patterns = []; cards = λ text. plain text ∷ [] }

abbrev sign_in : Value ℕ
sign_in = dict (
    field "user" (str "mia")
      (field "password" (str "hunter2") (field "card" (str "4111 1111 1111 1111") end)))

sign_in_masked :
    (scan expressions sign_in).0
    ≡ dict (field "user" (str "mia") (field "password" (str mask) (field "card" (str mask) end)))
unfolding scan visit visit_fields visit_text apply_patterns mask_cards luhn luhn_digits total_of
sign_in_masked = refl

scan_masked_example : all_masked expressions (scan expressions sign_in).0 ≡ true
scan_masked_example = scan_masked expressions sign_in

abbrev order : Value ℕ
order = dict (field "user" (str "mia") (field "amount" (num 20) end))

order_kept : (scan (one_piece "password") order).0 ≡ order
unfolding scan visit visit_fields visit_text apply_patterns mask_cards
order_kept = scan_quiet (one_piece "password") tt (λ text. append-nil text) order refl

luhn_digits_detects_example :
    luhn_digits ((4 ∷ 1 ∷ 1 ∷ []) ++ 7 ∷ 1 ∷ 1 ∷ 1 ∷ 1 ∷ 1 ∷ 1 ∷ 1 ∷ 1 ∷ 1 ∷ 1 ∷ 1 ∷ 1 ∷ []) ≡ false
unfolding luhn_digits total_of
luhn_digits_detects_example =
    luhn_digits_detects (4 ∷ 1 ∷ 1 ∷ []) (1 ∷ 1 ∷ 1 ∷ 1 ∷ 1 ∷ 1 ∷ 1 ∷ 1 ∷ 1 ∷ 1 ∷ 1 ∷ 1 ∷ []) 1 7
      (omega arith) (omega arith) (λ e. omega arith) refl

abbrev compile : String → Option (String → ℕ × String)
compile expression = some (λ text. (0, text))

abbrev employee : Items ℕ
employee =
    cons (dict (field "pattern" (str "EMP-[0-9][0-9]?") (field "name" (str "employee") end))) nil

abbrev compiled_employee : List Pattern
compiled_employee = record { kind = "employee"; sub = λ text. (0, text) } ∷ []

employee_accepted : validate_custom_patterns compile (list employee) ≡ some compiled_employee
unfolding validate_custom_patterns entries_of pattern_of has_reference get count
employee_accepted = refl

validate_custom_patterns-Safe_example :
    (length compiled_employee ≤ 32)
    × (length compiled_employee ≡ count employee)
    × All (IsSafe compile) compiled_employee
validate_custom_patterns-Safe_example =
    validate_custom_patterns-Safe compile employee compiled_employee employee_accepted
