-- ===== src/Policy/Sources.antt =====
-- Where the matches of `evaluate` come from (packages/policy-engine/agentguard_policy/__init__.py):
-- a rule matches exactly when it applies.
use mathlib.Core.List.{Memᴰ}
use aiagentguard.Json.{Numbers, Value, null, bool, dict, Items, nil, cons, Fields, end}
use aiagentguard.Policy.Errors.{ok, ◌>>=◌, >>=-eq-ok}
use aiagentguard.Policy.Conditions.{when}
use aiagentguard.Policy.Documents.{
  Action, Loaded, allow, deny, require_approval, warn, redact, rate_limit, action_of, get_or,
  parse_policy,
}
use aiagentguard.Policy.Evaluation.{
  Match, Version, Found, both, severity, add_rule, find_rule, find_rules, priority_of, rules_of,
  is_false, outer_or,
}
use aiagentguard.Prelude.{
  String, ◌≡◌, ◌≢◌, refl, Bool, true, false, not, none, List, [], ◌∷◌, ◌++◌, arith, inl, inr, ◌⊎◌,
  subst, sym, ap, ◌∙◌, if◌then◌else◌,
}
use aiagentguard.Prelude.Int.{ℤ}

-- A value stands in a list of values.
pub data In {N : Type 0} (v : Value N) : Items N → Type 0 where
  first : {rest : Items N} → In v (cons v rest)
  later : {w : Value N} {rest : Items N} → In v rest → In v (cons w rest)

pub mem-append : {A : Type 0} (x : A) (xs ys : List A) → Memᴰ x (xs ++ ys) → Memᴰ x xs ⊎ Memᴰ x ys
mem-append x [] ys h = inr h
mem-append x (y ∷ xs) ys (Memᴰ.head e) = inl (Memᴰ.head e)
mem-append x (y ∷ xs) ys (Memᴰ.tail h) = elim (mem-append x xs ys h) [
  | inl l ↦ inl (Memᴰ.tail l)
  | inr r ↦ inr r
]

pub mem_left : {A : Type 0} (x : A) (xs ys : List A) → Memᴰ x xs → Memᴰ x (xs ++ ys)
mem_left x [] ys h = elim h [ ]
mem_left x (y ∷ xs) ys (Memᴰ.head e) = Memᴰ.head e
mem_left x (y ∷ xs) ys (Memᴰ.tail h) = Memᴰ.tail (mem_left x xs ys h)

pub mem_right : {A : Type 0} (x : A) (xs ys : List A) → Memᴰ x ys → Memᴰ x (xs ++ ys)
mem_right x [] ys h = h
mem_right x (y ∷ xs) ys h = Memᴰ.tail (mem_right x xs ys h)

pub not-mem-nil : {A : Type 0} (x : A) → Memᴰ x [] → ⊥
not-mem-nil x h = elim h [ ]

module _ (numbers : Numbers) (safe_load : String → Loaded numbers.Number)
    (show : Value numbers.Number → String) where
  open numbers use {Number}

  -- A rule of a stored policy applies to the facts, with this action and this priority: the policy
  -- is valid and enabled, its subject and resource hold, and so does the rule's condition.
  pub record Applies (policies : Items Number) (facts : Fields Number) (priority : ℤ)
      (action : Action) : Type 0 where
    pub outer : Fields Number
    pub doc : Fields Number
    pub rules : Items Number
    pub rule : Fields Number
    pub stored : In (dict outer) policies
    pub parsed : parse_policy numbers safe_load (get_or "document" outer (dict outer)) ≡ ok doc
    pub enabled :
        is_false numbers safe_load show
          (outer_or numbers safe_load show "enabled" outer doc (bool true))
        ≡ false
    pub subject : when numbers (get_or "subject" doc (dict end)) facts ≡ ok true
    pub resource : when numbers (get_or "resource" doc (dict end)) facts ≡ ok true
    pub listed : rules_of numbers safe_load show doc ≡ ok rules
    pub in_rules : In (dict rule) rules
    pub condition : when numbers (get_or "when" rule (dict end)) facts ≡ ok true
    pub acts : action_of (get_or "action" rule null) ≡ ok action
    pub decides : severity action ≢ none
    pub ranked : priority_of numbers safe_load show outer doc ≡ ok priority

  -- A match that a computation found is in what it returned.
  pub moved :
      {found given : Found numbers} (m : Match Number)
      → ok given ≡ ok found
      → Memᴰ m found.0
      → Memᴰ m given.0
  moved {found} {given} m e h =
      let same : given ≡ found = cc in subst (λ (f : Found numbers). Memᴰ m f.0) (sym same) h

  module _ (priority : ℤ) (id : Value Number) (stamp : Version Number) (facts : Fields Number) where
    add_rule-mem :
        (rule : Fields Number) (action : Action) (m : Match Number)
        → Memᴰ m (add_rule numbers safe_load show priority id stamp rule action).0
        → (m.action ≡ action) × (m.priority ≡ priority) × (severity action ≢ none)
    unfolding add_rule
    add_rule-mem rule allow m (Memᴰ.head e) =
        (ap (λ (x : Match Number). x.action) e, ap (λ (x : Match Number). x.priority) e, λ n. cc)
    add_rule-mem rule deny m (Memᴰ.head e) =
        (ap (λ (x : Match Number). x.action) e, ap (λ (x : Match Number). x.priority) e, λ n. cc)
    add_rule-mem rule require_approval m (Memᴰ.head e) =
        (ap (λ (x : Match Number). x.action) e, ap (λ (x : Match Number). x.priority) e, λ n. cc)
    add_rule-mem rule allow m (Memᴰ.tail h) = absurd (not-mem-nil m h)
    add_rule-mem rule deny m (Memᴰ.tail h) = absurd (not-mem-nil m h)
    add_rule-mem rule require_approval m (Memᴰ.tail h) = absurd (not-mem-nil m h)
    add_rule-mem rule warn m h = elim h [ ]
    add_rule-mem rule redact m h = elim h [ ]
    add_rule-mem rule rate_limit m h = elim h [ ]

    abbrev pub Fires : Fields Number → Match Number → Type 0
    Fires rule m =
        (when numbers (get_or "when" rule (dict end)) facts ≡ ok true)
        × (action_of (get_or "action" rule null) ≡ ok m.action)
        × (severity m.action ≢ none)
        × (m.priority ≡ priority)

    fires :
        (rule : Fields Number) {found : Found numbers} (m : Match Number) (holds : Bool)
        → when numbers (get_or "when" rule (dict end)) facts ≡ ok holds
        → (if not holds
            then ok ([], [])
            else (action_of (get_or "action" rule null) >>= λ action.
                ok (add_rule numbers safe_load show priority id stamp rule action)))
          ≡ ok found
        → Memᴰ m found.0
        → Fires rule m
    fires rule m true c e h =
        let (action, acts, added) =
          >>=-eq-ok (action_of (get_or "action" rule null))
            (λ action. ok (add_rule numbers safe_load show priority id stamp rule action)) e in
        let (same, ranked, decides) = add_rule-mem rule action m (moved m added h) in
        (c, acts ∙ ap ok (sym same), rw same decides, ranked)
    fires rule m false c e h = absurd (not-mem-nil m (moved m e h))

    find_rule-mem :
        (rule : Value Number) {found : Found numbers} (m : Match Number)
        → find_rule numbers safe_load show priority id stamp facts rule ≡ ok found
        → Memᴰ m found.0
        → (fields : Fields Number) × (rule ≡ dict fields) × Fires fields m
    unfolding find_rule
    find_rule-mem (dict rule) m e h =
        let (holds, c, chosen) =
          >>=-eq-ok (when numbers (get_or "when" rule (dict end)) facts) _ e in
        (rule, refl, fires rule m holds c chosen h)
    find_rule-mem rule m e h = cc

    pub find_rules-mem :
        (rules : Items Number) {found : Found numbers} (m : Match Number)
        → find_rules numbers safe_load show priority id stamp facts rules ≡ ok found
        → Memᴰ m found.0
        → (rule : Fields Number) × In (dict rule) rules × Fires rule m
    unfolding find_rules
    find_rules-mem nil m e h = absurd (not-mem-nil m (moved m e h))
    find_rules-mem (cons rule rest) m e h =
        let (one, head_found, e1) =
          >>=-eq-ok (find_rule numbers safe_load show priority id stamp facts rule) _ e in
        let (others, tail_found, e2) =
          >>=-eq-ok (find_rules numbers safe_load show priority id stamp facts rest) _ e1 in
        elim (mem-append m one.0 others.0 (moved m e2 h)) [
          | inl l ↦
              let (fields, same, f) = find_rule-mem rule m head_found l in
              (fields, subst (λ v. In v (cons rule rest)) same In.first, f)
          | inr r ↦
              let (fields, there, f) = find_rules-mem rest m tail_found r in
              (fields, In.later there, f)
        ]

    -- A match of this action and priority.
    abbrev pub Has : Action → List (Match Number) → Type 0
    Has action ms = (m : Match Number) × Memᴰ m ms × (m.action ≡ action) × (m.priority ≡ priority)

    add_rule_complete :
        (rule : Fields Number) (action : Action)
        → severity action ≢ none
        → Has action (add_rule numbers safe_load show priority id stamp rule action).0
    unfolding add_rule
    add_rule_complete rule allow d = (_, Memᴰ.head refl, refl, refl)
    add_rule_complete rule deny d = (_, Memᴰ.head refl, refl, refl)
    add_rule_complete rule require_approval d = (_, Memᴰ.head refl, refl, refl)
    add_rule_complete rule warn d = absurd (d refl)
    add_rule_complete rule redact d = absurd (d refl)
    add_rule_complete rule rate_limit d = absurd (d refl)

    find_rule_complete :
        (rule : Fields Number) (action : Action) {found : Found numbers}
        → find_rule numbers safe_load show priority id stamp facts (dict rule) ≡ ok found
        → when numbers (get_or "when" rule (dict end)) facts ≡ ok true
        → action_of (get_or "action" rule null) ≡ ok action
        → severity action ≢ none
        → Has action found.0
    unfolding find_rule
    find_rule_complete rule action {found} e c acts d =
        let e' : ok (add_rule numbers safe_load show priority id stamp rule action) ≡ ok found =
          ground arith in
        let same : add_rule numbers safe_load show priority id stamp rule action ≡ found = cc in
        subst (λ (f : Found numbers). Has action f.0) same (add_rule_complete rule action d)

    pub find_rules_complete :
        (rules : Items Number) (rule : Fields Number) (action : Action) {found : Found numbers}
        → find_rules numbers safe_load show priority id stamp facts rules ≡ ok found
        → In (dict rule) rules
        → when numbers (get_or "when" rule (dict end)) facts ≡ ok true
        → action_of (get_or "action" rule null) ≡ ok action
        → severity action ≢ none
        → Has action found.0
    unfolding find_rules
    find_rules_complete nil rule action e i c acts d = elim i [ ]
    find_rules_complete (cons v rest) rule action {found} e i c acts d =
        let (one, head_found, e1) =
          >>=-eq-ok (find_rule numbers safe_load show priority id stamp facts v) _ e in
        let (others, tail_found, e2) =
          >>=-eq-ok (find_rules numbers safe_load show priority id stamp facts rest) _ e1 in
        let same : both numbers one others ≡ found = cc in
        subst (λ (f : Found numbers). Has action f.0) same
          (where_found v rest i one others
            (λ e.
              find_rule_complete rule action
                (subst (λ v. find_rule numbers safe_load show priority id stamp facts v ≡ ok one)
                  (sym e) head_found)
                c acts d)
            (λ there. find_rules_complete rest rule action tail_found there c acts d))
      where
        where_found :
            (v : Value Number) (rest : Items Number)
            → In (dict rule) (cons v rest)
            → (one others : Found numbers) → (dict rule ≡ v → Has action one.0)
            → (In (dict rule) rest → Has action others.0)
            → Has action (one.0 ++ others.0)
        where_found v rest In.first one others h t =
            let (m, l, a, p) = h refl in (m, mem_left m one.0 others.0 l, a, p)
        where_found v rest (In.later there) one others h t =
            let (m, l, a, p) = t there in (m, mem_right m one.0 others.0 l, a, p)
