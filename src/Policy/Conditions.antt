-- ===== src/Policy/Conditions.antt =====
-- Conditions: `_decimal`, `_validate_when`, `_get` and `_when` of
-- packages/policy-engine/agentguard_policy/__init__.py.
use Prim.Native.String
use text.Mathlib.Text.{starts_with}
use aiagentguard.Json.{
  Numbers, Value, bool, num, str, list, dict, Items, nil, cons, Fields, end, field, get, size,
  count, items, elements, is_bool, is_dict, py_eq,
}
use aiagentguard.Policy.Errors.{
  Result, ok, err, value_error, type_error, uncaught, ◌>>=◌, ◌>>◌, require,
}
use aiagentguard.Policy.Keys.{
  Op, eq, ne, gt, gte, lt, lte, in_, not_in, contains, exists, key_op, valid_path, split_dots,
}
use aiagentguard.Prelude.{
  ℕ, suc, String, Bool, true, false, not, ◌||◌, ◌&&◌, Option, none, some, List, [], ◌∷◌, any,
  str_eq, str_in, ltb, if◌then◌else◌,
}

abbrev pub is_list : {N : Type 0} → Value N → Bool
is_list (list xs) = true
is_list _ = false

-- `len(value) > n` for a list.
abbrev pub longer : {N : Type 0} → ℕ → Value N → Bool
longer n (list xs) = ltb n (count xs)
longer n _ = false

abbrev pub is_empty : {N : Type 0} → Value N → Bool
is_empty (list nil) = true
is_empty _ = false

abbrev pub is_order : Op → Bool
is_order gt = true
is_order gte = true
is_order lt = true
is_order lte = true
is_order _ = false

abbrev is_membership : Op → Bool
is_membership in_ = true
is_membership not_in = true
is_membership _ = false

abbrev is_exists : Op → Bool
is_exists exists = true
is_exists _ = false

-- `needle in text` for texts.
unfoldable pub has_text : String → String → Bool
has_text needle String.[] = str_eq needle ""
has_text needle (String.◌∷◌ c s) =
    starts_with (Prim.Native.String.◌∷◌ c s) needle || has_text needle s

module _ (numbers : Numbers) where
  open numbers use {Number, text, Decimal, parse, is_finite, dec_ltb, dec_eqb}

  parse_finite : String → Result Decimal
  parse_finite digits =
      if ltb 128 (Prim.Native.String.count digits)
      then err (value_error "Numeric value is too large")
      else elim (parse digits) [
        | none ↦ err (value_error "Expected finite numeric value")
        | some d ↦ if is_finite d then ok d else err (value_error "Expected finite numeric value")
      ]

  -- The text of a list or of a dictionary is never a number, so either error below is a
  -- `ValueError` of `_decimal`.
  unfoldable pub decimal : Value Number → Result Decimal
  unfolding parse_finite
  decimal (num n) = parse_finite (text n)
  decimal (str s) = parse_finite s
  decimal _ = err (value_error "Expected finite numeric value")

  -- The last branch of the loop of `_validate_when`.
  unfoldable pub validate_condition : String → Value Number → Result (Unit {0})
  validate_condition key value = do
    (path, op) ← key_op key
    require (valid_path path) "Invalid condition path"
    require (not (is_membership op) || is_list value && not (longer 256 value))
        "in or not_in requires a bounded list"
    require (not (is_exists op) || is_bool value) "exists requires a boolean"
    if is_order op
        then (decimal value >>= λ d. ok tt)
        else require (not (is_dict value)) "Unsupported condition value"

  unfoldable mutual
    pub validate_when : ℕ → Value Number → Result (Unit {0})
    validate_when depth (dict fields) =
        let each = validate_fields depth fields in
        if ltb 16 depth || ltb 64 (size fields)
        then err (value_error "Conditions must be bounded objects")
        else each
    validate_when depth _ = err (value_error "Conditions must be bounded objects")

    pub validate_fields : ℕ → Fields Number → Result (Unit {0})
    validate_fields depth end = ok tt
    validate_fields depth (field key value rest) =
        let later = validate_fields depth rest in
        let clauses = validate_clauses (suc depth) value in
        let deeper = validate_when (suc depth) value in
        (if str_in key ("all" ∷ "any" ∷ [])
          then require (is_list value && not (is_empty value) && not (longer 64 value))
              "all or any requires a nonempty bounded list"
            >> clauses
          else if str_eq key "not"
          then deeper
          else validate_condition key value)
        >> later

    -- The inner loop, over the clauses of `all` or `any`.
    pub validate_clauses : ℕ → Value Number → Result (Unit {0})
    validate_clauses depth (list clauses) = validate_items depth clauses
    validate_clauses depth _ = ok tt

    pub validate_items : ℕ → Items Number → Result (Unit {0})
    validate_items depth nil = ok tt
    validate_items depth (cons clause rest) =
        let later = validate_items depth rest in validate_when depth clause >> later

  walk : List String → Value Number → Option (Value Number)
  walk [] current = some current
  walk (part ∷ parts) (dict fields) = elim (get part fields) [ none ↦ none | some v ↦ walk parts v ]
  walk (part ∷ parts) _ = none

  -- Registry objects are selected by their id or name; `none` is `MISSING`.
  abbrev select_registry : String → Value Number → Option (Value Number)
  select_registry path (dict fields) =
      if str_in path ("agent" ∷ "tool" ∷ "team" ∷ "workspace" ∷ "organization" ∷ [])
      then elim (get "id" fields) [ none ↦ get "name" fields | some v ↦ some v ]
      else some (dict fields)
  select_registry path v = some v

  unfoldable pub get_fact : Fields Number → String → Option (Value Number)
  unfolding walk
  get_fact facts path = elim (walk (split_dots path) (dict facts)) [
    | none ↦ none
    | some v ↦ select_registry path v
  ]

  abbrev same_kind : Value Number → Value Number → Bool
  same_kind a b = if is_bool a then is_bool b else not (is_bool b)

  -- `True == 1` does not let a condition pass; amounts are compared as decimals.
  unfoldable pub equal : String → Value Number → Value Number → Result Bool
  equal path actual expected =
      if str_eq path "amount" && not (is_bool actual)
      then (do left ← decimal actual; right ← decimal expected; ok (dec_eqb left right))
      else ok (py_eq numbers actual expected && same_kind actual expected)

  unfoldable pub contained : Value Number → Value Number → Result Bool
  contained actual expected = elim (elements expected) [
    | none ↦ err type_error
    | some xs ↦ ok (any (λ item. py_eq numbers actual item && same_kind actual item) xs)
  ]

  -- `isinstance(actual, (str, list)) and expected in actual`.
  unfoldable pub holds_item : Value Number → Value Number → Result Bool
  holds_item (list xs) expected = ok (any (λ item. py_eq numbers item expected) (items xs))
  holds_item (str s) (str needle) = ok (has_text needle s)
  holds_item (str s) expected = err type_error
  holds_item actual expected = ok false

  abbrev order_by : (Decimal → Decimal → Bool) → Value Number → Value Number → Result Bool
  order_by test actual expected = do
    left ← decimal actual
    right ← decimal expected
    ok (test left right)

  -- The tests on a fact that is there.
  unfoldable pub test_op : Op → String → Value Number → Value Number → Result Bool
  unfolding equal contained holds_item
  test_op eq path actual expected = equal path actual expected
  test_op ne path actual expected = do same ← equal path actual expected; ok (not same)
  test_op gt path actual expected = order_by (λ l r. dec_ltb r l) actual expected
  test_op gte path actual expected = order_by (λ l r. dec_ltb r l || dec_eqb l r) actual expected
  test_op lt path actual expected = order_by dec_ltb actual expected
  test_op lte path actual expected = order_by (λ l r. dec_ltb l r || dec_eqb l r) actual expected
  test_op in_ path actual expected = contained actual expected
  test_op not_in path actual expected = do found ← contained actual expected; ok (not found)
  test_op contains path actual expected = holds_item actual expected
  test_op exists path actual expected = ok (py_eq numbers (bool true) expected)

  abbrev pub test_missing : Op → Value Number → Bool
  test_missing exists expected = py_eq numbers (bool false) expected
  test_missing _ expected = false

  -- The last branch of the loop of `_when`.
  unfoldable pub test_condition : String → Value Number → Fields Number → Result Bool
  test_condition key expected facts = do
    (path, op) ← key_op key
    elim (get_fact facts path) [
      | none ↦ ok (test_missing op expected)
      | some actual ↦ test_op op path actual expected
    ]

  -- `_when`: all the conditions of an object hold, tested from the first on.
  unfoldable mutual
    pub when : Value Number → Fields Number → Result Bool
    when (dict fields) facts = when_fields fields facts
    when _ facts = err uncaught

    pub when_fields : Fields Number → Fields Number → Result Bool
    when_fields end facts = ok true
    when_fields (field key expected rest) facts =
        let later = when_fields rest facts in
        let every = when_all expected facts in
        let some_clause = when_any expected facts in
        let inner = when expected facts in
        (if str_eq key "all"
          then every
          else if str_eq key "any"
          then some_clause
          else if str_eq key "not"
          then (inner >>= λ holds. ok (not holds))
          else test_condition key expected facts)
        >>= λ holds. elim holds [ true ↦ later | false ↦ ok false ]

    -- `all(_when(clause, facts) for clause in expected)`; on what is no list the first element, if
    -- there is one, is a text.
    pub when_all : Value Number → Fields Number → Result Bool
    when_all (list clauses) facts = all_items clauses facts
    when_all (str s) facts = if str_eq s "" then ok true else err uncaught
    when_all (dict end) facts = ok true
    when_all (dict (field k v rest)) facts = err uncaught
    when_all _ facts = err type_error

    pub when_any : Value Number → Fields Number → Result Bool
    when_any (list clauses) facts = any_items clauses facts
    when_any (str s) facts = if str_eq s "" then ok false else err uncaught
    when_any (dict end) facts = ok false
    when_any (dict (field k v rest)) facts = err uncaught
    when_any _ facts = err type_error

    pub all_items : Items Number → Fields Number → Result Bool
    all_items nil facts = ok true
    all_items (cons clause rest) facts =
        let later = all_items rest facts in
        when clause facts >>= λ holds. elim holds [ true ↦ later | false ↦ ok false ]

    pub any_items : Items Number → Fields Number → Result Bool
    any_items nil facts = ok false
    any_items (cons clause rest) facts =
        let later = any_items rest facts in
        when clause facts >>= λ holds. elim holds [ true ↦ ok true | false ↦ later ]
