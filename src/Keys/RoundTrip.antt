-- ===== src/Keys/RoundTrip.antt =====
-- Keys say whose they are: `parse_machine_key` and `parse_admin_key` of
-- apps/api/agentguard_api/security.py read what `make_machine_key` and `make_admin_key` write.
use Prim.Native.Char.{Char, code}
use Prim.Native.String.{◌∷◌ as str_cons, ◌++◌ as str_append}
use text.Mathlib.TextLemmas.{nil-append, cons-append}
use aiagentguard.Keys.{
  underscore, cut, split, and_then, key_text, parse_machine_key, parse_admin_key, make_machine_key,
  make_admin_key,
}
use aiagentguard.Prelude.{
  ℕ, suc, String, ◌≡◌, refl, ap, sym, subst, ◌∙◌, eq_iff, true, false, none, some, List, [], ◌∷◌,
  ◌==◌, str_eq, str_in, Bool-cases, inl, inr, arith,
}

-- A text without `_`.
abbrev pub IsPlain : String → Type 0
IsPlain s = cut s ≡ none

tail_plain :
    (c : Char) (s : String)
    → cut (String.◌∷◌ c s) ≡ none
    → (code c == underscore ≡ false) × (cut s ≡ none)
unfolding cut
tail_plain c s h = ground arith

mark-append : (rest : String) → str_append "_" rest ≡ str_cons "_" rest
mark-append rest = cons-append "_" "" rest ∙ ap (str_cons "_") (nil-append rest)

cut-mark : (rest : String) → cut (str_cons "_" rest) ≡ some ("", rest)
unfolding cut
cut-mark rest = refl

cut-and_then : (s rest : String) → IsPlain s → cut (and_then s rest) ≡ some (s, rest)
unfolding cut
cut-and_then String.[] rest h =
    ap cut (nil-append (str_append "_" rest) ∙ mark-append rest) ∙ cut-mark rest
cut-and_then (String.◌∷◌ c s) rest h =
    let (other, plain) = tail_plain c s h in
    ap cut (cons-append c s (str_append "_" rest))
    ∙ cut_later c s rest other (cut-and_then s rest plain)
  where
    cut_later :
        (c : Char) (s rest : String)
        → code c == underscore ≡ false
        → cut (and_then s rest) ≡ some (s, rest)
        → cut (str_cons c (and_then s rest)) ≡ some (str_cons c s, rest)
    cut_later c s rest other later = rw (other, later)

split-cut :
    (n : ℕ) (s head rest : String)
    → cut s ≡ some (head, rest)
    → split (suc n) s ≡ head ∷ split n rest
unfolding split
split-cut n s head rest e = rw (e, split)

split-key_text :
    (kind environment organization_id id secret : String)
    → IsPlain kind
    → IsPlain environment
    → IsPlain organization_id
    → IsPlain id
    → split 4 (key_text kind environment organization_id id secret)
      ≡ kind ∷ environment ∷ organization_id ∷ id ∷ secret ∷ []
unfolding split
split-key_text kind environment organization_id id secret k e o i =
    let after_organization = and_then id secret in
    let after_environment = and_then organization_id after_organization in
    let after_kind = and_then environment after_environment in
    split-cut 3 (and_then kind after_kind) kind after_kind (cut-and_then kind after_kind k)
    ∙ ap (λ ps. kind ∷ ps)
        (split-cut 2 after_kind environment after_environment
            (cut-and_then environment after_environment e)
          ∙ ap (λ ps. environment ∷ ps)
              (split-cut 1 after_environment organization_id after_organization
                  (cut-and_then organization_id after_organization o)
                ∙ ap (λ ps. organization_id ∷ ps)
                    (split-cut 0 after_organization id secret (cut-and_then id secret i))))

abbrev pub environments : List String
environments = "development" ∷ "staging" ∷ "production" ∷ []

environment-IsPlain :
    (environment : String) → str_in environment environments ≡ true → IsPlain environment
unfolding cut
environment-IsPlain environment h = elim (Bool-cases (str_eq environment "development")) [
  | inl p ↦ subst IsPlain (sym ((eq_iff environment "development").0 p)) refl
  | inr p ↦ elim (Bool-cases (str_eq environment "staging")) [
    | inl q ↦ subst IsPlain (sym ((eq_iff environment "staging").0 q)) refl
    | inr q ↦ elim (Bool-cases (str_eq environment "production")) [
      | inl r ↦ subst IsPlain (sym ((eq_iff environment "production").0 r)) refl
      | inr r ↦ absurd (ground arith)
    ]
  ]
]

kind-IsPlain : IsPlain "agk" × IsPlain "agu"
unfolding cut
kind-IsPlain = (refl, refl)

-- Where the ids hold no `_` and the environment is known, a machine key names its organization, its
-- credential and its environment, an admin key its organization and itself, whatever the secret is,
-- and neither is read as the other.
pub keys_read_back :
    (digest : String → String) (environment organization_id id secret : String)
    → str_in environment environments ≡ true
    → IsPlain organization_id
    → IsPlain id
    → let machine = (make_machine_key digest environment organization_id id secret).0 in
      let admin = (make_admin_key digest environment organization_id id secret).0 in
      (parse_machine_key machine ≡ some (organization_id, id, environment))
      × (parse_admin_key admin ≡ some (organization_id, id))
      × (parse_admin_key machine ≡ none)
      × (parse_machine_key admin ≡ none)
unfolding parse_machine_key parse_admin_key
keys_read_back digest environment organization_id id secret known o i =
    let e = environment-IsPlain environment known in
    let machine = split-key_text "agk" environment organization_id id secret kind-IsPlain.0 e o i in
    let admin = split-key_text "agu" environment organization_id id secret kind-IsPlain.1 e o i in
    (rw (machine, known), rw admin, rw machine, rw admin)
