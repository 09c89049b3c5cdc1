-- ===== src/Policy/Safety.antt =====
-- No policy makes `evaluate` crash: what `_validate_when` lets through never raises an exception
-- that `evaluate` does not catch (packages/policy-engine/agentguard_policy/__init__.py).
use aiagentguard.Json.{Numbers, Value, list, dict, Items, nil, cons, Fields, end, field}
use aiagentguard.Policy.Errors.{Result, ok, err, uncaught, ◌>>=◌, ◌>>◌, require}
use aiagentguard.Policy.Keys.{Op, exists, key_op}
use aiagentguard.Policy.Conditions.{
  is_list, is_empty, longer, test_missing, decimal, equal, contained, test_op, test_condition,
  validate_condition, validate_when, validate_fields, validate_clauses, validate_items, when,
  when_fields, when_all, when_any, all_items, any_items, get_fact,
}
use aiagentguard.Prelude.{
  ℕ, suc, String, ◌≡◌, refl, Bool, true, false, not, ◌||◌, ◌&&◌, none, some, arith, str_eq,
  if◌then◌else◌, Option-cases, inl, inr,
}

-- The computation does not end in an `AttributeError`.
abbrev pub Safe : {A : Type 0} → Result A → Type 0
Safe r = r ≡ err uncaught → ⊥

pub Safe-bind :
    {A B : Type 0} (m : Result A) (f : A → Result B)
    → Safe m
    → ((a : A) → m ≡ ok a → Safe (f a))
    → Safe (m >>= f)
Safe-bind (ok a) f sm sf h = sf a refl h
Safe-bind (err e) f sm sf h = sm (cc)

pub key_op-Safe : (key : String) → Safe (key_op key)
unfolding key_op
key_op-Safe key h = ground arith

-- One turn of the loop of `_when`, over the verdicts of its parts, against the same turn of
-- `_validate_when`.
turn-Safe :
    (all_key any_key not_key well_formed a_list : Bool)
    (clauses deeper condition validated_later : Result (Unit {0}))
    (every some_clause inner test later : Result Bool)
    → (well_formed ≡ true → a_list ≡ true)
    → (a_list ≡ true → clauses ≡ ok tt → Safe every)
    → (a_list ≡ true → clauses ≡ ok tt → Safe some_clause)
    → (deeper ≡ ok tt → Safe inner)
    → Safe test
    → (validated_later ≡ ok tt → Safe later)
    → ((if all_key || (any_key || false)
          then require well_formed "all or any requires a nonempty bounded list" >> clauses
          else if not_key
          then deeper
          else condition)
        >> validated_later)
      ≡ ok tt
    → Safe (
        (if all_key
          then every
          else if any_key
          then some_clause
          else if not_key
          then (inner >>= λ holds. ok (not holds))
          else test)
        >>= λ holds. elim holds [ true ↦ later | false ↦ ok false ])
turn-Safe all_key any_key not_key well_formed a_list clauses deeper condition validated_later every
      some_clause inner test later wl e s i t l h k =
    ground arith

module _ (numbers : Numbers) where
  open numbers use {Number}

  pub decimal-Safe : (v : Value Number) → Safe (decimal numbers v)
  unfolding decimal
  decimal-Safe v h = ground arith

  contained-Safe : (a e : Value Number) → Safe (contained numbers a e)
  unfolding contained
  contained-Safe a e h = ground arith

  equal-Safe : (path : String) (a e : Value Number) → Safe (equal numbers path a e)
  unfolding equal
  equal-Safe path a e h = ground (arith, decimal-Safe a, decimal-Safe e)

  test_op-Safe : (op : Op) (path : String) (a e : Value Number) → Safe (test_op numbers op path a e)
  unfolding test_op
  test_op-Safe exists path a e h = cc
  test_op-Safe op path a e h = ground (arith, decimal-Safe a, decimal-Safe e)

  test_condition-Safe :
      (key : String) (e : Value Number) (facts : Fields Number)
      → Safe (test_condition numbers key e facts)
  unfolding test_condition
  test_condition-Safe key e facts =
      Safe-bind (key_op key) _ (key_op-Safe key) λ found parsed. missing_or found
    where
      missing_or :
          (found : String × Op)
          → Safe (elim (get_fact numbers facts found.0) [
            | none ↦ ok (test_missing numbers found.1 e)
            | some actual ↦ test_op numbers found.1 found.0 actual e
          ])
      missing_or found h = elim (Option-cases (get_fact numbers facts found.0)) [
        | inl missing ↦ cc (missing, h)
        | inr (actual, there) ↦ test_op-Safe found.1 found.0 actual e (rw there at h)
      ]

  items_turn-Safe :
      (clause validated_later : Result (Unit {0})) (holds later : Result Bool)
      → (clause ≡ ok tt → Safe holds)
      → (validated_later ≡ ok tt → Safe later)
      → (clause >> validated_later) ≡ ok tt
      → Safe (holds >>= λ b. elim b [ true ↦ later | false ↦ ok false ])
        × Safe (holds >>= λ b. elim b [ true ↦ ok true | false ↦ later ])
  items_turn-Safe clause validated_later holds later c l h = (λ k. ground arith, λ k. ground arith)

  mutual
    unfolding validate_when when

    pub when-Safe :
        (v : Value Number) (depth : ℕ) (facts : Fields Number)
        → validate_when numbers depth v ≡ ok tt
        → Safe (when numbers v facts)
    when-Safe (dict fields) depth facts h = fields-Safe fields depth facts (ground arith)
    when-Safe v depth facts h = cc

    fields-Safe :
        (fs : Fields Number) (depth : ℕ) (facts : Fields Number)
        → validate_fields numbers depth fs ≡ ok tt
        → Safe (when_fields numbers fs facts)
    fields-Safe end depth facts h = cc
    fields-Safe (field key v rest) depth facts h =
        turn-Safe (str_eq key "all") (str_eq key "any") (str_eq key "not")
          (is_list v && not (is_empty v) && not (longer 64 v)) (is_list v)
          (validate_clauses numbers (suc depth) v) (validate_when numbers (suc depth) v)
          (validate_condition numbers key v) (validate_fields numbers depth rest)
          (when_all numbers v facts) (when_any numbers v facts) (when numbers v facts)
          (test_condition numbers key v facts) (when_fields numbers rest facts) (λ e. ground arith)
          (all-Safe v (suc depth) facts) (any-Safe v (suc depth) facts)
          (when-Safe v (suc depth) facts) (test_condition-Safe key v facts)
          (fields-Safe rest depth facts) h

    all-Safe :
        (v : Value Number) (depth : ℕ) (facts : Fields Number)
        → is_list v ≡ true
        → validate_clauses numbers depth v ≡ ok tt
        → Safe (when_all numbers v facts)
    all-Safe (list xs) depth facts l h = all_items-Safe xs depth facts h
    all-Safe v depth facts l h = cc

    any-Safe :
        (v : Value Number) (depth : ℕ) (facts : Fields Number)
        → is_list v ≡ true
        → validate_clauses numbers depth v ≡ ok tt
        → Safe (when_any numbers v facts)
    any-Safe (list xs) depth facts l h = any_items-Safe xs depth facts h
    any-Safe v depth facts l h = cc

    all_items-Safe :
        (xs : Items Number) (depth : ℕ) (facts : Fields Number)
        → validate_items numbers depth xs ≡ ok tt
        → Safe (all_items numbers xs facts)
    all_items-Safe nil depth facts h = cc
    all_items-Safe (cons x xs) depth facts h =
        (items_turn-Safe (validate_when numbers depth x) (validate_items numbers depth xs)
          (when numbers x facts) (all_items numbers xs facts) (when-Safe x depth facts)
          (all_items-Safe xs depth facts) h).0

    any_items-Safe :
        (xs : Items Number) (depth : ℕ) (facts : Fields Number)
        → validate_items numbers depth xs ≡ ok tt
        → Safe (any_items numbers xs facts)
    any_items-Safe nil depth facts h = cc
    any_items-Safe (cons x xs) depth facts h =
        (items_turn-Safe (validate_when numbers depth x) (validate_items numbers depth xs)
          (when numbers x facts) (any_items numbers xs facts) (when-Safe x depth facts)
          (any_items-Safe xs depth facts) h).1
