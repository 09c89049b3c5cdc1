-- ===== src/Risk.antt =====
-- The risk score: packages/risk-engine/agentguard_risk/__init__.py. Decimals that are read from facts
-- are the parameter `Amounts`: the text of a value, `Decimal` of a text, its order and its multiples.
-- Arguments that are no dictionary are empty dictionaries.
pub mod Bounds
mod Examples
use Prim.Native.String.{count as text_length}
use aiagentguard.Json.{
  Numbers, Value, null, bool, num, str, list, dict, Items, nil, Fields, end, get, items, py_eq,
  truthy,
}
use aiagentguard.Prelude.{
  ℕ, ◌+◌, String, Bool, true, false, not, ◌&&◌, ◌||◌, Option, none, some, List, [], ◌∷◌, ◌++◌, any,
  ltb, if◌then◌else◌, str_eq, str_in, min,
}

-- `zero ≤ d` is `Decimal.__ge__`; `times n d` is `d * n` and `of_nat n` is `Decimal(n)`.
pub record Amounts (numbers : Numbers) : Type 0 where
  pub show : Value numbers.Number → String
  pub of_nat : ℕ → numbers.Decimal
  pub times : ℕ → numbers.Decimal → numbers.Decimal

pub record Factor : Type 0 where
  pub reason : String
  pub points : ℕ

-- `add(reason, points, condition)`.
abbrev pub when : String → ℕ → Bool → List Factor
when reason points condition =
    if condition then record { reason = reason; points = points } ∷ [] else []

unfoldable pub total : List Factor → ℕ
total [] = 0
total (f ∷ fs) = f.points + total fs

module _ (numbers : Numbers) (amounts : Amounts numbers) where
  open numbers use {Number, Decimal}

  -- `dict.get(key, default)`.
  abbrev pub get_value : String → Fields Number → Value Number → Value Number
  get_value key facts default = elim (get key facts) [ none ↦ default | some v ↦ v ]

  abbrev zero_decimal : Decimal
  zero_decimal = amounts.of_nat 0

  -- `_number`: what is no finite decimal of at most 128 characters, or is negative, counts as 0.
  unfoldable pub number_of : Value Number → Decimal
  number_of value =
      if ltb 128 (text_length (amounts.show value))
      then zero_decimal
      else elim (numbers.parse (amounts.show value)) [
        | none ↦ zero_decimal
        | some d ↦
            if numbers.is_finite d && not (numbers.dec_ltb d zero_decimal) then d else zero_decimal
      ]

  abbrev is_true : String → Fields Number → Bool
  is_true key facts = elim (get key facts) [ some (bool true) ↦ true | _ ↦ false ]

  abbrev one_of : Value Number → List String → Bool
  one_of (str text) allowed = str_in text allowed
  one_of _ allowed = false

  -- `value == 0`.
  abbrev is_zero : Value Number → Bool
  is_zero (num n) = numbers.num_eq n (numbers.of_bool false)
  is_zero (bool b) = not b
  is_zero _ = false

  abbrev dict_of : Value Number → Fields Number
  dict_of (dict facts) = facts
  dict_of _ = end

  abbrev list_of : Value Number → List (Value Number)
  list_of (list xs) = items xs
  list_of _ = []

  abbrev exceeds : Decimal → Decimal → Bool
  exceeds a b = numbers.dec_ltb b a

  -- `max(Decimal(20), frequency * 3)`.
  abbrev busiest : Decimal → Decimal
  busiest frequency =
      let usual = amounts.times 3 frequency in
      if numbers.dec_ltb (amounts.of_nat 20) usual then usual else amounts.of_nat 20

  unfoldable pub factors_of :
      Fields Number → Fields Number → Fields Number → Fields Number → List Factor
  factors_of tool agent context history =
      let zero_number : Value Number = num (numbers.of_bool false) in
      let environment = get_value "environment" tool (get_value "environment" agent null) in
      let arguments = dict_of (get_value "arguments" context null) in
      let amount =
        number_of (get_value "amount" context (get_value "amount" arguments zero_number)) in
      let historical = number_of (get_value "average_amount" history zero_number) in
      let destination = get_value "destination" context null in
      let known = list_of (get_value "known_destinations" history (list nil)) in
      when "Financial operation" 25 (is_true "financial" tool)
      ++ (when "Destructive operation" 30 (is_true "destructive" tool)
          ++ (when "Write operation" 5 (
                one_of (get_value "read_write_classification" tool null)
                  ("write" ∷ "read_write" ∷ []))
              ++ (when "Production environment" 20 (one_of environment ("production" ∷ "prod" ∷ []))
                  ++ (when "Sensitive data" 10 (is_true "sensitive_data" tool)
                      ++ (when "First tool use" 10
                            (is_zero (get_value "tool_uses" history zero_number))
                          ++ (when "New agent" 5
                                (is_zero (get_value "agent_uses" history zero_number))
                              ++ (when "Amount above historical average" 15 (
                                    exceeds amount (amounts.times 2 historical)
                                    && exceeds historical zero_decimal)
                                  ++ (when "High transaction amount" 15
                                        (exceeds amount (amounts.of_nat 5000))
                                      ++ (when "Unusual request frequency" 8 (
                                            exceeds
                                              (number_of
                                                (get_value "recent_requests" history zero_number))
                                              (busiest (
                                                number_of (
                                                  get_value "average_frequency" history
                                                    zero_number))))
                                          ++ (when "New destination" 8 (
                                                truthy numbers destination
                                                && not (any (py_eq numbers destination) known))
                                              ++ (when "Unusual parameters" 8
                                                    (is_true "unusual_parameters" history)
                                                  ++ when "Previous incidents" 12 (
                                                      exceeds
                                                        (number_of (
                                                          get_value "incidents" history
                                                            zero_number))
                                                        zero_decimal))))))))))))

  unfoldable pub score : Value Number → Value Number → Value Number → Value Number → ℕ × List Factor
  score tool agent context history =
      let factors = factors_of (dict_of tool) (dict_of agent) (dict_of context) (dict_of history) in
      (min 100 (total factors), factors)
