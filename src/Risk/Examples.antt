-- ===== src/Risk/Examples.antt =====
-- A refund in production, and the theorem on marks at it. Numbers and decimals are naturals.
use aiagentguard.Json.{Numbers, Value, bool, num, str, dict, Fields, end, field, get, items, py_eq}
use aiagentguard.Risk.{Amounts, number_of, factors_of, total, score}
use aiagentguard.Risk.Bounds.{destructive, mark_raises}
use aiagentguard.Prelude.{
  ℕ, ◌*◌, ◌≤◌, String, ◌≡◌, refl, true, none, some, ltb, ◌==◌, str_eq, if◌then◌else◌,
}
use aiagentguard.Prelude.Int.{pos}

abbrev naturals : Numbers
naturals = record {
  Number = ℕ;
  num_eq = ◌==◌;
  of_bool = λ b. if b then 1 else 0;
  text = λ n. if n == 6000 then "6000" else "0";
  as_int = λ n. some (pos n);
  num_finite = λ n. true;
  Decimal = ℕ;
  parse = λ s. if str_eq s "6000" then some 6000 else if str_eq s "0" then some 0 else none;
  is_finite = λ d. true;
  dec_ltb = ltb;
  dec_eqb = ◌==◌;
}

abbrev show_number : Value ℕ → String
show_number (num n) = naturals.text n
show_number _ = ""

abbrev amounts : Amounts naturals
amounts = record { show = show_number; of_nat = λ n. n; times = ◌*◌ }

abbrev tool : Fields ℕ
tool = field "financial" (bool true) (field "environment" (str "production") end)

abbrev context : Fields ℕ
context = field "amount" (num 6000) end

-- 25 for a financial tool, 20 for production, 10 and 5 for the first uses, 15 for the amount.
refund_score : (score naturals amounts (dict tool) (dict end) (dict context) (dict end)).0 ≡ 75
unfolding score factors_of number_of total get items py_eq
refund_score = refl

mark_raises_example :
    ((score naturals amounts (dict tool) (dict end) (dict context) (dict end)).0
      ≤ (score naturals amounts
          (dict (field "destructive" (bool true) tool))
          (dict end)
          (dict context)
          (dict end)).0)
    × ((score naturals amounts
          (dict (field "destructive" (bool true) tool))
          (dict end)
          (dict context)
          (dict end)).0
        ≤ 100)
mark_raises_example = mark_raises naturals amounts destructive tool end context end
