-- ===== src/Policy/Checked.antt =====
-- What `validate_policy` and `parse_policy` of packages/policy-engine/agentguard_policy/__init__.py
-- have checked of a document that they let through, and that they raise nothing unexpected.
use aiagentguard.Json.{
  Numbers, Value, null, str, list, dict, Items, nil, cons, Fields, end, field, get, keys, dumps_ok,
}
use aiagentguard.Policy.Errors.{
  Error, uncaught, Result, ok, err, ◌>>=◌, ◌>>◌, >>=-eq-ok, Result-cases, require,
}
use aiagentguard.Policy.Conditions.{
  is_list, is_empty, longer, validate_condition, validate_when, validate_fields, validate_clauses,
  validate_items,
}
use Prim.Native.String
use aiagentguard.Policy.Documents.{
  Loaded, loaded, yaml_error, raised, policy_keys, is_int, action_of, get_or, check_scope,
  check_rule_list, check_rule, check_rules, check_policy, parse_policy, load,
}
use aiagentguard.Policy.Safety.{Safe, Safe-bind, key_op-Safe, decimal-Safe}
use aiagentguard.Prelude.{
  ℕ, suc, String, ◌≡◌, refl, Bool, true, not, ◌&&◌, ◌⊎◌, ltb, Bool-cases, none, some, [], ◌∷◌,
  arith, str_eq, str_in, subst, all, if◌then◌else◌, inl, inr,
}

Loaded-cases :
    {N : Type 0} (r : Loaded N)
    → ((v : Value N) × (r ≡ loaded v)) ⊎ ((r ≡ yaml_error) ⊎ ((e : Error) × (r ≡ raised e)))
Loaded-cases (loaded v) = inl (v, refl)
Loaded-cases yaml_error = inr (inl refl)
Loaded-cases (raised e) = inr (inr (e, refl))

-- One turn of the loop of `_validate_when`, over the verdicts of its parts.
validator_turn-Safe :
    (combined not_key well_formed : Bool) (clauses deeper condition later : Result (Unit {0}))
    → Safe clauses
    → Safe deeper
    → Safe condition
    → Safe later
    → Safe (
        (if combined
          then require well_formed "all or any requires a nonempty bounded list" >> clauses
          else if not_key
          then deeper
          else condition)
        >> later)
validator_turn-Safe combined not_key well_formed clauses deeper condition later c d t l h =
    ground arith

pub action_of-Safe : {N : Type 0} (v : Value N) → Safe (action_of v)
unfolding action_of
action_of-Safe v h = ground arith

module _ (numbers : Numbers) where
  open numbers use {Number}

  condition-Safe : (key : String) (v : Value Number) → Safe (validate_condition numbers key v)
  unfolding validate_condition
  condition-Safe key v h = ground (arith, key_op-Safe key, decimal-Safe numbers v)

  mutual
    unfolding validate_when

    validator-Safe : (v : Value Number) (depth : ℕ) → Safe (validate_when numbers depth v)
    validator-Safe (dict fields) depth h = ground (arith, fields_validator-Safe fields depth)
    validator-Safe v depth h = cc

    fields_validator-Safe :
        (fs : Fields Number) (depth : ℕ) → Safe (validate_fields numbers depth fs)
    fields_validator-Safe end depth h = cc
    fields_validator-Safe (field key v rest) depth h =
        validator_turn-Safe (str_in key ("all" ∷ "any" ∷ [])) (str_eq key "not")
          (is_list v && not (is_empty v) && not (longer 64 v))
          (validate_clauses numbers (suc depth) v) (validate_when numbers (suc depth) v)
          (validate_condition numbers key v) (validate_fields numbers depth rest)
          (clauses_validator-Safe v (suc depth)) (validator-Safe v (suc depth))
          (condition-Safe key v) (fields_validator-Safe rest depth) h

    clauses_validator-Safe :
        (v : Value Number) (depth : ℕ) → Safe (validate_clauses numbers depth v)
    clauses_validator-Safe (list xs) depth h = items_validator-Safe xs depth h
    clauses_validator-Safe v depth h = cc

    items_validator-Safe : (xs : Items Number) (depth : ℕ) → Safe (validate_items numbers depth xs)
    items_validator-Safe nil depth h = cc
    items_validator-Safe (cons x xs) depth h =
        Safe-bind (validate_when numbers depth x) (λ u. validate_items numbers depth xs)
          (validator-Safe x depth) (λ u e. items_validator-Safe xs depth) h

  -- What `validate_policy` has checked of the rules of a policy, and of a document.
  abbrev pub IsCheckedRule : Value Number → Type 0
  IsCheckedRule (dict rule) = validate_when numbers 0 (get_or "when" rule (dict end)) ≡ ok tt
  IsCheckedRule _ = ⊥

  abbrev pub AreChecked : Items Number → Type 0
  AreChecked nil = Unit
  AreChecked (cons rule rest) = IsCheckedRule rule × AreChecked rest

  pub record IsChecked (doc : Fields Number) : Type 0 where
    pub subject : validate_when numbers 0 (get_or "subject" doc (dict end)) ≡ ok tt
    pub resource : validate_when numbers 0 (get_or "resource" doc (dict end)) ≡ ok tt
    pub rules : (rs : Items Number) × (get "rules" doc ≡ some (list rs)) × AreChecked rs

  check_rule-Safe : (rule : Value Number) → Safe (check_rule numbers rule)
  unfolding check_rule
  check_rule-Safe (dict rule) h = ground (
    arith,
    action_of-Safe (get_or "action" rule null),
    validator-Safe (get_or "when" rule (dict end)) 0,
  )
  check_rule-Safe rule h = cc

  check_rules-Safe : (rules : Items Number) → Safe (check_rules numbers rules)
  unfolding check_rules
  check_rules-Safe nil h = cc
  check_rules-Safe (cons rule rest) h =
      Safe-bind (check_rule numbers rule) (λ u. check_rules numbers rest) (check_rule-Safe rule)
        (λ u e. check_rules-Safe rest) h

  check_rule-IsCheckedRule :
      (rule : Value Number) → check_rule numbers rule ≡ ok tt → IsCheckedRule rule
  unfolding check_rule
  check_rule-IsCheckedRule (dict rule) h = ground arith
  check_rule-IsCheckedRule rule h = cc

  check_rules-AreChecked :
      (rules : Items Number) → check_rules numbers rules ≡ ok tt → AreChecked rules
  unfolding check_rules
  check_rules-AreChecked nil h = tt
  check_rules-AreChecked (cons rule rest) h =
      let (u, first, others) =
        >>=-eq-ok (check_rule numbers rule) (λ u. check_rules numbers rest) h in
      (check_rule-IsCheckedRule rule first, check_rules-AreChecked rest others)

  check_scope-Safe : (selector : Value Number) → Safe (check_scope numbers selector)
  unfolding check_scope
  check_scope-Safe selector h = ground (arith, validator-Safe selector 0)

  check_scope_lem :
      (selector : Value Number)
      → check_scope numbers selector ≡ ok tt
      → validate_when numbers 0 selector ≡ ok tt
  unfolding check_scope
  check_scope_lem selector h = ground arith

  check_rule_list-Safe : (v : Value Number) → Safe (check_rule_list numbers v)
  unfolding check_rule_list
  check_rule_list-Safe v h = ground arith

  check_rule_list_lem :
      (doc : Fields Number) (rs : Items Number)
      → check_rule_list numbers (get_or "rules" doc null) ≡ ok rs
      → get "rules" doc ≡ some (list rs)
  unfolding check_rule_list get_or
  check_rule_list_lem doc rs h = ground arith

  -- The steps of `validate_policy`, over their verdicts.
  abbrev steps :
      Result (Unit {0})
      → Result (Unit {0})
      → Result (Unit {0})
      → Result (Items Number)
      → Result (Unit {0})
      → Result (Unit {0})
      → Fields Number
      → Result (Fields Number)
  steps known subject resource rule_list priority dumped doc = do
    known
    subject
    resource
    rules ← rule_list
    priority
    check_rules numbers rules
    dumped
    ok doc

  module _ (known subject resource : Result (Unit {0})) (priority dumped : Result (Unit {0}))
      (doc : Fields Number) where
    steps-Safe :
        (rule_list : Result (Items Number))
        → Safe known
        → Safe subject
        → Safe resource
        → Safe rule_list
        → Safe priority
        → Safe dumped
        → Safe (steps known subject resource rule_list priority dumped doc)
    steps-Safe (ok rules) k s r l p d h = ground (arith, check_rules-Safe rules)
    steps-Safe (err e) k s r l p d h = ground arith

    steps-ok :
        (rule_list : Result (Items Number)) {doc' : Fields Number}
        → steps known subject resource rule_list priority dumped doc ≡ ok doc'
        → (rules : Items Number) × (rule_list ≡ ok rules)
          × (check_rules numbers rules ≡ ok tt)
          × (subject ≡ ok tt)
          × (resource ≡ ok tt)
          × (doc ≡ doc')
    steps-ok (ok rules) h = (rules, refl, ground arith, ground arith, ground arith, ground arith)
    steps-ok (err e) h = absurd (ground arith)

  module _ (doc : Fields Number) where
    known : Result (Unit {0})
    known = require (all (λ key. str_in key policy_keys) (keys doc)) "Unknown policy keys"

    priority : Result (Unit {0})
    priority =
        require (elim (get "priority" doc) [ none ↦ true | some v ↦ is_int numbers v ])
          "Policy priority must be an integer"

    dumped : Result (Unit {0})
    dumped = require (dumps_ok numbers doc) "Out of range float values are not JSON compliant"

    check_policy-steps :
        check_policy numbers (dict doc)
        ≡ steps known
            (check_scope numbers (get_or "subject" doc (dict end)))
            (check_scope numbers (get_or "resource" doc (dict end)))
            (check_rule_list numbers (get_or "rules" doc null))
            priority
            dumped
            doc
    unfolding check_policy known priority dumped
    check_policy-steps = refl

    document-Safe : Safe (check_policy numbers (dict doc))
    unfolding known priority dumped
    document-Safe = rw check_policy-steps (
        steps-Safe known (check_scope numbers (get_or "subject" doc (dict end)))
          (check_scope numbers (get_or "resource" doc (dict end))) priority dumped doc
          (check_rule_list numbers (get_or "rules" doc null)) (λ h. ground arith)
          (check_scope-Safe (get_or "subject" doc (dict end)))
          (check_scope-Safe (get_or "resource" doc (dict end)))
          (check_rule_list-Safe (get_or "rules" doc null)) (λ h. ground arith) (λ h. ground arith))

    document-IsChecked :
        {doc' : Fields Number} → check_policy numbers (dict doc) ≡ ok doc' → IsChecked doc'
    document-IsChecked h =
        let (rules, listed, checked, subject, resource, same) =
          steps-ok known (check_scope numbers (get_or "subject" doc (dict end)))
            (check_scope numbers (get_or "resource" doc (dict end))) priority dumped doc
            (check_rule_list numbers (get_or "rules" doc null)) (rw check_policy-steps at h) in
        subst IsChecked same (record {
          subject = check_scope_lem (get_or "subject" doc (dict end)) subject;
          resource = check_scope_lem (get_or "resource" doc (dict end)) resource;
          rules =
              (rules, check_rule_list_lem doc rules listed, check_rules-AreChecked rules checked);
        })

  check_policy-Safe : (v : Value Number) → Safe (check_policy numbers v)
  check_policy-Safe (dict doc) h = document-Safe doc h
  check_policy-Safe v h = unfold check_policy in cc

  check_policy-IsChecked :
      (v : Value Number) {doc : Fields Number} → check_policy numbers v ≡ ok doc → IsChecked doc
  check_policy-IsChecked (dict fields) h = document-IsChecked fields h
  check_policy-IsChecked v h = unfold check_policy in cc

  module _ (safe_load : String → Loaded Number) where
    -- The reader raises no uncaught exception on a document that is a text.
    abbrev pub Reads : Value Number → Type 0
    Reads (str text) = safe_load text ≡ raised uncaught → ⊥
    Reads v = Unit

    load-Safe : (v : Value Number) → Reads v → Safe (load numbers safe_load v)
    unfolding load
    load-Safe (str text) r h = elim (Loaded-cases (safe_load text)) [
      | inl (value, e) ↦ ground arith
      | inr (inl e) ↦ ground arith
      | inr (inr (error, e)) ↦ elim (Bool-cases (ltb 262144 (Prim.Native.String.count text))) [
        | inl long ↦ ground arith
        | inr short ↦ r (ground arith)
      ]
    ]
    load-Safe v r h = ground arith

    pub parse_policy-Safe : (v : Value Number) → Reads v → Safe (parse_policy numbers safe_load v)
    unfolding parse_policy
    parse_policy-Safe v r h = elim (Result-cases (load numbers safe_load v)) [
      | inl (document, returned) ↦ ground (arith, check_policy-Safe document)
      | inr (e, failed) ↦ ground (arith, load-Safe v r)
    ]

    pub parse_policy-IsChecked :
        (v : Value Number) {doc : Fields Number}
        → parse_policy numbers safe_load v ≡ ok doc
        → IsChecked doc
    unfolding parse_policy
    parse_policy-IsChecked v h =
        let (document, returned, rest) = >>=-eq-ok (load numbers safe_load v) _ h in
        check_policy-IsChecked document (ground arith)
