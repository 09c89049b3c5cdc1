-- ===== src/Policy/Totality.antt =====
-- `evaluate` of packages/policy-engine/agentguard_policy/__init__.py always returns a decision.
use aiagentguard.Json.{Numbers, Value, null, list, dict, Items, nil, cons, Fields, end, count}
use aiagentguard.Policy.Errors.{Result, ok, err, uncaught, ◌>>=◌, Result-cases}
use aiagentguard.Policy.Documents.{Loaded, get_or, parse_policy}
use aiagentguard.Policy.Safety.{Safe, Safe-bind, when-Safe}
use aiagentguard.Policy.Checked.{
  IsChecked, IsCheckedRule, Reads, AreChecked, action_of-Safe, parse_policy-Safe,
  parse_policy-IsChecked,
}
use aiagentguard.Policy.Evaluation.{
  Decision, Version, find_rule, find_rules, priority_of, find_in_document, find_in_policy, find_all,
  outer_or, version_of, decide, evaluate, recovered,
}
use aiagentguard.Prelude.{String, ◌≡◌, refl, arith, Bool-cases, ltb, inl, inr}
use aiagentguard.Prelude.Int.{ℤ}

module _ (numbers : Numbers) (safe_load : String → Loaded numbers.Number)
    (show : Value numbers.Number → String) where
  open numbers use {Number}

  find_rule-Safe :
      (priority : ℤ) (id : Value Number) (stamp : Version Number) (facts : Fields Number)
      (rule : Value Number)
      → IsCheckedRule numbers rule
      → Safe (find_rule numbers safe_load show priority id stamp facts rule)
  unfolding find_rule
  find_rule-Safe priority id stamp facts (dict rule) c h = ground (
    arith,
    when-Safe numbers (get_or "when" rule (dict end)) 0 facts c,
    action_of-Safe (get_or "action" rule null),
  )
  find_rule-Safe priority id stamp facts rule c h = absurd c

  find_rules-Safe :
      (priority : ℤ) (id : Value Number) (stamp : Version Number) (facts : Fields Number)
      (rules : Items Number)
      → AreChecked numbers rules
      → Safe (find_rules numbers safe_load show priority id stamp facts rules)
  unfolding find_rules
  find_rules-Safe priority id stamp facts nil c h = cc
  find_rules-Safe priority id stamp facts (cons rule rest) c h = ground (
    arith,
    find_rule-Safe priority id stamp facts rule c.0,
    find_rules-Safe priority id stamp facts rest c.1,
  )

  priority_of-Safe :
      (outer doc : Fields Number) → Safe (priority_of numbers safe_load show outer doc)
  unfolding priority_of
  priority_of-Safe outer doc h = ground arith

  find_in_document-Safe :
      (outer doc facts : Fields Number)
      → IsChecked numbers doc
      → Safe (find_in_document numbers safe_load show outer doc facts)
  unfolding find_in_document
  find_in_document-Safe outer doc facts c h =
      let (rules, listed, checked) = c.rules in
      let id = outer_or numbers safe_load show "id" outer doc (get_or "name" doc null) in
      let stamp = version_of numbers safe_load show outer doc in
      elim (Result-cases (priority_of numbers safe_load show outer doc)) [
        | inl (priority, given) ↦ ground (
          arith,
          when-Safe numbers (get_or "subject" doc (dict end)) 0 facts c.subject,
          when-Safe numbers (get_or "resource" doc (dict end)) 0 facts c.resource,
          find_rules-Safe priority id stamp facts rules checked,
        )
        | inr (e, failed) ↦ ground (arith, priority_of-Safe outer doc)
      ]

  -- The YAML reader raises no uncaught exception on the document of a policy, where that is a text.
  abbrev pub ReadsPolicy : Value Number → Type 0
  ReadsPolicy (dict outer) = Reads numbers safe_load (get_or "document" outer (dict outer))
  ReadsPolicy policy = Unit

  abbrev pub ReadsPolicies : Items Number → Type 0
  ReadsPolicies nil = Unit
  ReadsPolicies (cons policy rest) = ReadsPolicy policy × ReadsPolicies rest

  abbrev pub ReadsAll : Value Number → Type 0
  ReadsAll (list policies) = ReadsPolicies policies
  ReadsAll policies = Unit

  find_in_policy-Safe :
      (policy : Value Number) (facts : Fields Number)
      → ReadsPolicy policy
      → Safe (find_in_policy numbers safe_load show policy facts)
  unfolding find_in_policy
  find_in_policy-Safe (dict outer) facts r h =
      Safe-bind (parse_policy numbers safe_load (get_or "document" outer (dict outer)))
        (λ doc. find_in_document numbers safe_load show outer doc facts)
        (parse_policy-Safe numbers safe_load (get_or "document" outer (dict outer)) r)
        (λ doc parsed.
          find_in_document-Safe outer doc facts (
            parse_policy-IsChecked numbers safe_load (get_or "document" outer (dict outer)) parsed))
        h
  find_in_policy-Safe policy facts r h = cc

  find_all-Safe :
      (policies : Items Number) (facts : Fields Number)
      → ReadsPolicies policies
      → Safe (find_all numbers safe_load show policies facts)
  unfolding find_all
  find_all-Safe nil facts r h = cc
  find_all-Safe (cons policy rest) facts r h =
      ground (arith, find_in_policy-Safe policy facts r.0, find_all-Safe rest facts r.1)

  recovered_total :
      (r : Result (Decision Number))
      → Safe r
      → (d : Decision Number) × (recovered numbers safe_load show r ≡ ok d)
  recovered_total (ok d) s = (d, refl)
  recovered_total (err uncaught) s = absurd (s refl)
  recovered_total (err e) s = (_, refl)

  -- Whatever the stored policies and the facts are, `evaluate` returns a decision, provided that on the
  -- policies' documents that are texts the YAML reader raises only exceptions that are caught:
  -- every exception that the code itself raises is one that `evaluate` catches.
  pub evaluate_total :
      (policies facts : Value Number)
      → ReadsAll policies
      → (d : Decision Number) × (evaluate numbers safe_load show policies facts ≡ ok d)
  unfolding evaluate
  evaluate_total (list policies) (dict facts) r = elim (Bool-cases (ltb 1024 (count policies))) [
    | inl long ↦ rw long (_, refl)
    | inr fits ↦ rw fits (
        recovered_total
          (find_all numbers safe_load show policies facts >>= λ found. ok (decide found.0 found.1))
          (Safe-bind (find_all numbers safe_load show policies facts)
            (λ found. ok (decide found.0 found.1)) (find_all-Safe policies facts r)
            (λ found e. λ h. cc)))
  ]
  evaluate_total policies facts r = (_, refl)
