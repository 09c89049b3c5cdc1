-- ===== src/Risk/Bounds.antt =====
-- The score is bounded and marks never lower it: packages/risk-engine/agentguard_risk/__init__.py.
use aiagentguard.Json.{Numbers, bool, dict, Fields, field, get}
use aiagentguard.Risk.{Amounts, Factor, when, total, factors_of, score}
use aiagentguard.Prelude.{
  ℕ, ◌+◌, ◌≤◌, String, ◌≡◌, Bool, true, false, List, [], ◌∷◌, ◌++◌, min, arith,
}

total-append : (xs ys : List Factor) → total (xs ++ ys) ≡ total xs + total ys
unfolding total
total-append [] ys = omega arith
total-append (x ∷ xs) ys = omega (arith, total-append xs ys)

total_mono : (xs ys zs : List Factor) → total ys ≤ total zs → total (xs ++ ys) ≤ total (xs ++ zs)
total_mono xs ys zs h = omega (arith, total-append xs ys, total-append xs zs)

total-when :
    (reason : String) (points : ℕ) (condition : Bool) (rest : List Factor)
    → total (when reason points condition ++ rest) ≤ total (when reason points true ++ rest)
unfolding total
total-when reason points true rest = omega arith
total-when reason points false rest = omega arith

-- The marks of a tool that `score` reads by `is True`.
pub data Mark : Type 0 where
  financial destructive sensitive_data : Mark

abbrev pub key_of : Mark → String
key_of financial = "financial"
key_of destructive = "destructive"
key_of sensitive_data = "sensitive_data"

min_mono : (a b : ℕ) → a ≤ b → (min 100 a ≤ min 100 b) × (min 100 b ≤ 100)
min_mono a b h = (omega arith, omega arith)

module _ (numbers : Numbers) (amounts : Amounts numbers) where
  open numbers use {Number}

  marked :
      (mark : Mark) (tool agent context history : Fields Number)
      → total (factors_of numbers amounts tool agent context history)
        ≤ total (
            factors_of numbers amounts (field (key_of mark) (bool true) tool) agent context history)
  unfolding factors_of get
  marked financial tool agent context history = search (total-when)
  marked destructive tool agent context history = search (total_mono, total-when)
  marked sensitive_data tool agent context history = search (total_mono, total-when)

  -- To mark a tool as financial, destructive or sensitive never lowers its score, whatever the rest
  -- of the input is, and no score is above 100.
  pub mark_raises :
      (mark : Mark) (tool agent context history : Fields Number)
      → ((score numbers amounts (dict tool) (dict agent) (dict context) (dict history)).0
          ≤ (score numbers amounts
              (dict (field (key_of mark) (bool true) tool))
              (dict agent)
              (dict context)
              (dict history)).0)
        × ((score numbers amounts
              (dict (field (key_of mark) (bool true) tool))
              (dict agent)
              (dict context)
              (dict history)).0
            ≤ 100)
  unfolding score
  mark_raises mark tool agent context history =
      min_mono (total (factors_of numbers amounts tool agent context history))
        (total
          (factors_of numbers amounts (field (key_of mark) (bool true) tool) agent context history))
        (marked mark tool agent context history)
