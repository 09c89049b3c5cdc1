-- ===== src/Authorize/Inputs.antt =====
-- What `authorize` of apps/api/agentguard_api/authorization.py is given, and how it checks an amount
-- and a currency, with `amount_to_minor` of apps/api/agentguard_api/limits.py.
use aiagentguard.Json.{Numbers, Value, null, bool, num, Fields, get, truthy}
use aiagentguard.Prelude.{
  ℕ, String, Bool, not, ◌&&◌, ◌||◌, Option, none, some, List, all, length, ◌==◌, if◌then◌else◌,
  upper,
}

-- What the pipeline does with decimals: `minor_of d` is `int((d * 100).quantize(Decimal("1"), …))`,
-- `major_of n` is `n / 100`, `number n` the number itself, and `cap` is `Decimal("90000000000")`;
-- `is_alpha` is `str.isalpha` on one character.
pub record Money (numbers : Numbers) : Type 0 where
  pub show : Value numbers.Number → String
  pub zero_decimal : numbers.Decimal
  pub cap : numbers.Decimal
  pub minor_of : numbers.Decimal → ℕ
  pub major_of : ℕ → numbers.Number
  pub number : ℕ → numbers.Number
  pub is_alpha : ℕ → Bool

-- AuthorizationInput of apps/api/agentguard_api/schemas.py.
pub record Payload (N : Type 0) : Type 0 where
  pub tool : String
  pub arguments : Fields N
  pub context : Fields N
  pub idempotency_key : Option String

module _ (numbers : Numbers) (money : Money numbers) where
  open numbers use {Number, Decimal}

  abbrev in_range : Decimal → Bool
  in_range d =
      numbers.is_finite d
      && not (numbers.dec_ltb d money.zero_decimal || numbers.dec_ltb money.cap d)

  -- A text that stands for no decimal, and a decimal out of range, are refused.
  unfoldable pub minor_of_text : String → Option ℕ
  minor_of_text text = elim (numbers.parse text) [
    | none ↦ none
    | some d ↦ if in_range d then some (money.minor_of d) else none
  ]

  abbrev minor_of_value : Value Number → Option ℕ
  minor_of_value null = none
  minor_of_value (bool b) = none
  minor_of_value raw = minor_of_text (money.show raw)

  -- `none` is the answer 422.
  unfoldable pub amount_to_minor : Bool → Fields Number → Option ℕ
  amount_to_minor required arguments = elim (get "amount" arguments) [
    | none ↦ if required then none else minor_of_value (num (money.number 0))
    | some raw ↦ minor_of_value raw
  ]

  abbrev pub or_else : Option (Value Number) → String → String
  or_else none default = default
  or_else (some v) default = if truthy numbers v then money.show v else default

  -- `arguments.get("currency") or tool.config.get("currency") or "USD"`, in upper case.
  unfoldable pub currency_of : Fields Number → Fields Number → List ℕ
  currency_of arguments config =
      upper (or_else (get "currency" arguments) (or_else (get "currency" config) "USD"))

-- `len(currency) != 3 or not currency.isalpha()`, where `is_alpha` tells the letters of Unicode.
unfoldable pub valid_currency : (ℕ → Bool) → List ℕ → Bool
valid_currency is_alpha codes = (length codes == 3) && all is_alpha codes
