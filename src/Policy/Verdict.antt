-- ===== src/Policy/Verdict.antt =====
-- What a decision of `evaluate` says of the stored policies
-- (packages/policy-engine/agentguard_policy/__init__.py).
use mathlib.Core.List.{Memᴰ}
use mathlib.Core.Path.{subst₂}
use aiagentguard.Json.{Numbers, Value, null, bool, list, dict, Items, nil, cons, Fields, end, count}
use aiagentguard.Policy.Errors.{
  Result, ok, err, value_error, type_error, key_error, uncaught, ◌>>=◌, >>=-eq-ok,
}
use aiagentguard.Policy.Conditions.{when}
use aiagentguard.Policy.Documents.{Action, Loaded, deny, get_or, parse_policy}
use aiagentguard.Policy.Evaluation.{
  Match, Decision, Version, Found, both, rank, find_rules, priority_of, rules_of, is_false,
  outer_or, version_of, find_in_document, find_in_policy, find_all, winner, decide, recovered,
  evaluate,
}
use aiagentguard.Policy.Winner.{Outranked, winner-mem, winner_best}
use aiagentguard.Policy.Sources.{
  In, Applies, mem-append, mem_left, mem_right, not-mem-nil, moved, find_rules-mem,
  find_rules_complete,
}
use aiagentguard.Prelude.{
  String, ◌≡◌, ◌≢◌, refl, Bool, true, false, not, List, [], ◌∷◌, ◌++◌, arith, Bool-cases, inl, inr,
  ◌⊎◌, subst, sym, ap, ◌∙◌, if◌then◌else◌, ltb, ◌≤◌,
}
use aiagentguard.Prelude.Int.{ℤ, ltb_ℤ}

In-head : {N : Type 0} {v w : Value N} {rest : Items N} → In v (cons w nil) → In v (cons w rest)
In-head In.first = In.first
In-head (In.later there) = elim there [ ]

head_or_tail :
    {N : Type 0} {v w : Value N} {rest : Items N} → In v (cons w rest) → (v ≡ w) ⊎ In v rest
head_or_tail In.first = inl refl
head_or_tail (In.later there) = inr there

ok_inj : {A : Type 0} {a b : A} → ok a ≡ ok b → a ≡ b
ok_inj h = cc

abbrev HasMatch : {N : Type 0} → ℤ → Action → List (Match N) → Type 0
HasMatch {N} priority action ms =
    (m : Match N) × Memᴰ m ms × (m.action ≡ action) × (m.priority ≡ priority)

module _ (numbers : Numbers) (safe_load : String → Loaded numbers.Number)
    (show : Value numbers.Number → String) where
  open numbers use {Number}

  abbrev id_of : Fields Number → Fields Number → Value Number
  id_of outer doc = outer_or numbers safe_load show "id" outer doc (get_or "name" doc null)

  abbrev stamp_of : Fields Number → Fields Number → Version Number
  stamp_of outer doc = version_of numbers safe_load show outer doc

  -- The gates of a document, and what it finds behind them.
  record Passes (outer doc facts : Fields Number) (found : Found numbers) : Type 0 where
    priority : ℤ
    rules : Items Number
    enabled :
        is_false numbers safe_load show
          (outer_or numbers safe_load show "enabled" outer doc (bool true))
        ≡ false
    ranked : priority_of numbers safe_load show outer doc ≡ ok priority
    subject : when numbers (get_or "subject" doc (dict end)) facts ≡ ok true
    resource : when numbers (get_or "resource" doc (dict end)) facts ≡ ok true
    listed : rules_of numbers safe_load show doc ≡ ok rules
    finds :
        find_rules numbers safe_load show priority
          (id_of outer doc)
          (stamp_of outer doc)
          facts
          rules
        ≡ ok found

  -- Where a match was found, the gate was open.
  gate :
      {found : Found numbers} (m : Match Number) (open_gate : Bool) (rest : Result (Found numbers))
      → Memᴰ m found.0
      → (if not open_gate then ok ([], []) else rest) ≡ ok found
      → (open_gate ≡ true) × (rest ≡ ok found)
  gate m true rest h e = (refl, e)
  gate m false rest h e = absurd (not-mem-nil m (moved numbers safe_load show m e h))

  module _ (outer doc facts : Fields Number) where
    -- A document that finds a match has passed every gate.
    document_gates :
        {found : Found numbers} (m : Match Number)
        → find_in_document numbers safe_load show outer doc facts ≡ ok found
        → Memᴰ m found.0
        → Passes outer doc facts found
    unfolding find_in_document
    document_gates {found} m e h =
        elim (Bool-cases (
          is_false numbers safe_load show
            (outer_or numbers safe_load show "enabled" outer doc (bool true)))) [
              | inl off ↦ absurd (not-mem-nil m (moved numbers safe_load show m (rw off at e) h))
              | inr on ↦
                  let (priority, ranked, e1) =
                    >>=-eq-ok (priority_of numbers safe_load show outer doc) _ (rw on at e) in
                  let (subject, s, e2) =
                    >>=-eq-ok (when numbers (get_or "subject" doc (dict end)) facts) _ e1 in
                  let (s_open, e3) = gate m subject _ h e2 in
                  let (resource, r, e4) =
                    >>=-eq-ok (when numbers (get_or "resource" doc (dict end)) facts) _ e3 in
                  let (r_open, e5) = gate m resource _ h e4 in
                  let (rules, listed, finds) =
                    >>=-eq-ok (rules_of numbers safe_load show doc) _ e5 in
                  record {
                    priority = priority;
                    rules = rules;
                    enabled = on;
                    ranked = ranked;
                    subject = s ∙ ap ok s_open;
                    resource = r ∙ ap ok r_open;
                    listed = listed;
                    finds = finds;
                  }
            ]

    -- A document whose gates are open finds what its rules find.
    document_opens :
        {found : Found numbers} (priority : ℤ) (rules : Items Number)
        → find_in_document numbers safe_load show outer doc facts ≡ ok found
        → is_false numbers safe_load show
            (outer_or numbers safe_load show "enabled" outer doc (bool true))
          ≡ false
        → priority_of numbers safe_load show outer doc ≡ ok priority
        → when numbers (get_or "subject" doc (dict end)) facts ≡ ok true
        → when numbers (get_or "resource" doc (dict end)) facts ≡ ok true
        → rules_of numbers safe_load show doc ≡ ok rules
        → find_rules numbers safe_load show priority
            (id_of outer doc)
            (stamp_of outer doc)
            facts
            rules
          ≡ ok found
    unfolding find_in_document
    document_opens priority rules e on ranked s r listed = ground arith

  module _ (facts : Fields Number) where
    -- A rule that applies in one list of policies applies in a longer one.
    among :
        {ps qs : Items Number} {priority : ℤ} {action : Action}
        → ((v : Value Number) → In v ps → In v qs)
        → Applies numbers safe_load show ps facts priority action
        → Applies numbers safe_load show qs facts priority action
    among wider a = record {
      outer = a.outer;
      doc = a.doc;
      rules = a.rules;
      rule = a.rule;
      stored = wider (dict a.outer) a.stored;
      parsed = a.parsed;
      enabled = a.enabled;
      subject = a.subject;
      resource = a.resource;
      listed = a.listed;
      in_rules = a.in_rules;
      condition = a.condition;
      acts = a.acts;
      decides = a.decides;
      ranked = a.ranked;
    }

    policy-mem :
        (policy : Value Number) {found : Found numbers} (m : Match Number)
        → find_in_policy numbers safe_load show policy facts ≡ ok found
        → Memᴰ m found.0
        → Applies numbers safe_load show (cons policy nil) facts m.priority m.action
    unfolding find_in_policy
    policy-mem (dict outer) m e h =
        let (doc, parsed, found_in) =
          >>=-eq-ok (parse_policy numbers safe_load (get_or "document" outer (dict outer))) _ e in
        let p = document_gates outer doc facts m found_in h in
        let (rule, there, fired) =
          find_rules-mem numbers safe_load show p.priority (id_of outer doc) (stamp_of outer doc)
            facts p.rules m p.finds h in
        record {
          outer = outer;
          doc = doc;
          rules = p.rules;
          rule = rule;
          stored = In.first;
          parsed = parsed;
          enabled = p.enabled;
          subject = p.subject;
          resource = p.resource;
          listed = p.listed;
          in_rules = there;
          condition = fired.0;
          acts = fired.1;
          decides = fired.2;
          ranked = p.ranked ∙ ap ok (sym fired.3);
        }
    policy-mem policy m e h = cc

    -- Every match comes from a rule that applies.
    find_all-mem :
        (policies : Items Number) {found : Found numbers} (m : Match Number)
        → find_all numbers safe_load show policies facts ≡ ok found
        → Memᴰ m found.0
        → Applies numbers safe_load show policies facts m.priority m.action
    unfolding find_all
    find_all-mem nil m e h = absurd (not-mem-nil m (moved numbers safe_load show m e h))
    find_all-mem (cons policy rest) m e h =
        let (one, head_found, e1) =
          >>=-eq-ok (find_in_policy numbers safe_load show policy facts) _ e in
        let (others, tail_found, e2) =
          >>=-eq-ok (find_all numbers safe_load show rest facts) _ e1 in
        elim (mem-append m one.0 others.0 (moved numbers safe_load show m e2 h)) [
          | inl l ↦ among (λ v. In-head {v = v}) (policy-mem policy m head_found l)
          | inr r ↦ among (λ v there. In.later there) (find_all-mem rest m tail_found r)
        ]

    policy_complete :
        (priority : ℤ) (action : Action) (policies : Items Number) {found : Found numbers}
        (a : Applies numbers safe_load show policies facts priority action)
        → find_in_policy numbers safe_load show (dict a.outer) facts ≡ ok found
        → HasMatch priority action found.0
    unfolding find_in_policy
    policy_complete priority action policies {found} a e =
        let (doc, parsed, found_in) =
          >>=-eq-ok (parse_policy numbers safe_load (get_or "document" a.outer (dict a.outer))) _
            e in
        let same : doc ≡ a.doc = ok_inj (sym parsed ∙ a.parsed) in
        let opened =
          document_opens a.outer a.doc facts priority a.rules
            (subst (λ d. find_in_document numbers safe_load show a.outer d facts ≡ ok found) same
              found_in)
            a.enabled a.ranked a.subject a.resource a.listed in
        find_rules_complete numbers safe_load show priority (id_of a.outer a.doc)
          (stamp_of a.outer a.doc) facts a.rules a.rule action opened a.in_rules a.condition a.acts
          a.decides

    -- Every rule that applies has its match.
    find_all_complete :
        (priority : ℤ) (action : Action) (all_policies : Items Number)
        (a : Applies numbers safe_load show all_policies facts priority action)
        (policies : Items Number) {found : Found numbers}
        → In (dict a.outer) policies
        → find_all numbers safe_load show policies facts ≡ ok found
        → HasMatch priority action found.0
    unfolding find_all
    find_all_complete priority action all_policies a nil i e = elim i [ ]
    find_all_complete priority action all_policies a (cons policy rest) {found} i e =
        let (one, head_found, e1) =
          >>=-eq-ok (find_in_policy numbers safe_load show policy facts) _ e in
        let (others, tail_found, e2) =
          >>=-eq-ok (find_all numbers safe_load show rest facts) _ e1 in
        let same : both numbers one others ≡ found = cc in
        subst (λ (f : Found numbers). HasMatch priority action f.0) same
          (split_in i one others
            (λ same.
              policy_complete priority action all_policies {found = one} a (rw same head_found))
            (λ there. find_all_complete priority action all_policies a rest there tail_found))
      where
        split_in :
            In (dict a.outer) (cons policy rest)
            → (one others : Found numbers)
            → (dict a.outer ≡ policy → HasMatch priority action one.0)
            → (In (dict a.outer) rest → HasMatch priority action others.0)
            → HasMatch priority action (one.0 ++ others.0)
        split_in i one others h t = elim (head_or_tail i) [
          | inl same ↦ let (m, l, act, p) = h same in (m, mem_left m one.0 others.0 l, act, p)
          | inr there ↦ let (m, l, act, p) = t there in (m, mem_right m one.0 others.0 l, act, p)
        ]

  -- A decision that is not deny is the action of the winning match.
  found_by :
      (policies : Items Number) (facts : Fields Number) (r : Result (Found numbers))
      {d : Decision Number}
      → recovered numbers safe_load show (r >>= λ found. ok (decide found.0 found.1)) ≡ ok d
      → d.decision ≢ deny
      → (found : Found numbers) × (r ≡ ok found)
        × ((m : Match Number) × (ms : List (Match Number)) × (found.0 ≡ m ∷ ms)
            × (d.decision ≡ (winner m ms).action))
  unfolding decide
  found_by policies facts (ok ([], obligations)) e h = absurd (h (ground arith))
  found_by policies facts (ok (m ∷ ms, obligations)) e h = (
    (m ∷ ms, obligations),
    refl,
    (m, ms, refl, sym (ap (λ (x : Decision Number). x.decision) (ok_inj e))),
  )
  found_by policies facts (err uncaught) e h = absurd (cc)
  found_by policies facts (err (value_error text)) e h =
      absurd (h (sym (ap (λ (x : Decision Number). x.decision) (ok_inj e))))
  found_by policies facts (err type_error) e h =
      absurd (h (sym (ap (λ (x : Decision Number). x.decision) (ok_inj e))))
  found_by policies facts (err key_error) e h =
      absurd (h (sym (ap (λ (x : Decision Number). x.decision) (ok_inj e))))

  module _ (policies : Items Number) (facts : Fields Number) where
    -- Anything but deny has to be earned: some rule that applies has that action, and every rule
    -- that applies has lower priority, or the same priority and an action that is no more severe.
    pub decision_is_earned :
        {d : Decision Number}
        → evaluate numbers safe_load show (list policies) (dict facts) ≡ ok d
        → d.decision ≢ deny
        → (p : ℤ) × Applies numbers safe_load show policies facts p d.decision
          × ((q : ℤ) (action : Action)
              → Applies numbers safe_load show policies facts q action
              → (ltb_ℤ q p ≡ true) ⊎ ((q ≡ p) × (rank action ≤ rank d.decision)))
    unfolding evaluate
    decision_is_earned {d} e h = elim (Bool-cases (ltb 1024 (count policies))) [
      | inl long ↦
          absurd (h (sym (ap (λ (x : Decision Number). x.decision) (ok_inj (rw long at e)))))
      | inr fits ↦
          let (found, all_found, (m, ms, listed, same)) =
            found_by policies facts (find_all numbers safe_load show policies facts) (rw fits at e)
              h in
          let w = winner m ms in
          (
            w.priority,
            subst (λ a. Applies numbers safe_load show policies facts w.priority a) (sym same)
                (find_all-mem facts policies w all_found
                  (subst (λ l. Memᴰ w l) (sym listed) (winner-mem m ms))),
            λ q action a.
                let (x, there, acts, ranked) =
                  find_all_complete facts q action policies a policies a.stored all_found in
                let beaten : Outranked x w =
                  winner_best x m ms (subst (λ l. Memᴰ x l) listed there) in
                subst₂
                  (λ q a. (ltb_ℤ q w.priority ≡ true) ⊎ ((q ≡ w.priority) × (rank action ≤ rank a)))
                  ranked (sym same)
                  (subst
                    (λ a.
                      (ltb_ℤ x.priority w.priority ≡ true)
                      ⊎ ((x.priority ≡ w.priority) × (rank a ≤ rank w.action)))
                    acts beaten),
          )
    ]
