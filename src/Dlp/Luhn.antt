-- ===== src/Dlp/Luhn.antt =====
-- The Luhn test: `_luhn` of packages/shared-types/agentguard_shared/__init__.py.
use aiagentguard.Prelude.{
  ℕ, ◌+◌, ◌-◌, ◌*◌, ◌%◌, ◌≡◌, ◌≢◌, ◌<◌, Bool, true, false, not, ◌||◌, List, [], ◌∷◌, ◌++◌, length,
  all, ltb, ◌==◌, if◌then◌else◌, arith, Bool-cases, inl, inr, ap, sym, ◌∙◌,
}
use mathlib.Core.List.{reverse, reverse-append, reverse-cons, append_assoc}

-- A digit at an odd place from the right is doubled.
abbrev pub weigh : Bool → ℕ → ℕ
weigh false d = d
weigh true d = if ltb 9 (2 * d) then 2 * d - 9 else 2 * d

-- The loop over the reversed digits.
unfoldable pub total_of : Bool → List ℕ → ℕ
total_of odd [] = 0
total_of odd (d ∷ ds) = weigh odd d + total_of (not odd) ds

abbrev all_same : List ℕ → Bool
all_same [] = false
all_same (d ∷ ds) = all (λ e. e == d) ds

unfoldable pub luhn_digits : List ℕ → Bool
luhn_digits ds =
    if ltb (length ds) 13 || (ltb 19 (length ds) || all_same ds)
    then false
    else total_of false (reverse ds) % 10 == 0

-- All digits but one decide on a constant and on how that one is weighed.
one_digit :
    (odd : Bool) (before after : List ℕ)
    → (rest : ℕ) × (own : Bool) × ((d : ℕ)
        → total_of odd (before ++ d ∷ after) ≡ rest + weigh own d)
unfolding total_of
one_digit odd [] after = (total_of (not odd) after, odd, λ d. omega arith)
one_digit odd (b ∷ before) after =
    let (rest, own, h) = one_digit (not odd) before after in
    (weigh odd b + rest, own, λ d. omega (arith, h d))

weigh_inj : (own : Bool) (d e : ℕ) → d < 10 → e < 10 → weigh own d ≡ weigh own e → d ≡ e
weigh_inj false d e p q h = h
weigh_inj true d e p q h = ground arith

weigh_lt : (own : Bool) (d : ℕ) → d < 10 → weigh own d < 10
weigh_lt false d p = p
weigh_lt true d p = ground arith

passes_total : (ds : List ℕ) → luhn_digits ds ≡ true → total_of false (reverse ds) % 10 ≡ 0
unfolding luhn_digits
passes_total ds h = ground arith

reverse_around : (xs ys : List ℕ) (d : ℕ) → reverse (xs ++ d ∷ ys) ≡ reverse ys ++ d ∷ reverse xs
reverse_around xs ys d =
    reverse-append xs (d ∷ ys)
    ∙ (ap (λ zs. zs ++ reverse xs) (reverse-cons d ys)
        ∙ append_assoc (reverse ys) (d ∷ []) (reverse xs))

-- A card number in which one digit is another than in a number that passes does not pass.
pub luhn_digits_detects :
    (before after : List ℕ) (d e : ℕ)
    → d < 10
    → e < 10
    → d ≢ e
    → luhn_digits (before ++ d ∷ after) ≡ true
    → luhn_digits (before ++ e ∷ after) ≡ false
luhn_digits_detects before after d e p q differ passes =
    elim (Bool-cases (luhn_digits (before ++ e ∷ after))) [
      | inr fails ↦ fails
      | inl also ↦
          let (rest, own, sum) = one_digit false (reverse after) (reverse before) in
          let first : (rest + weigh own d) % 10 ≡ 0 =
            ap (λ n. n % 10) (sym (ap (total_of false) (reverse_around before after d) ∙ sum d))
            ∙ passes_total (before ++ d ∷ after) passes in
          let second : (rest + weigh own e) % 10 ≡ 0 =
            ap (λ n. n % 10) (sym (ap (total_of false) (reverse_around before after e) ∙ sum e))
            ∙ passes_total (before ++ e ∷ after) also in
          absurd
            (differ (weigh_inj own d e p q (omega (arith, weigh_lt own d p, weigh_lt own e q))))
    ]
