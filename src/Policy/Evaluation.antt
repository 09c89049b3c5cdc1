-- ===== src/Policy/Evaluation.antt =====
-- Evaluation: `evaluate` of packages/policy-engine/agentguard_policy/__init__.py. The `str` of an id
-- that is no text is the parameter `show`.
use Prim.Native.String
use text.Mathlib.Text.{is_lt}
use aiagentguard.Json.{
  Numbers, Value, null, bool, num, str, list, dict, Items, nil, cons, Fields, end, get, count,
}
use aiagentguard.Policy.Errors.{Result, ok, err, value_error, key_error, uncaught, ◌>>=◌}
use aiagentguard.Policy.Conditions.{when}
use aiagentguard.Policy.Documents.{
  Action, Loaded, allow, deny, require_approval, warn, redact, rate_limit, action_of, get_or,
  message, parse_policy,
}
use aiagentguard.Prelude.{
  ℕ, String, Bool, true, false, not, Option, none, some, List, [], ◌∷◌, ◌++◌, str_eq, ltb,
  if◌then◌else◌,
}
use aiagentguard.Prelude.Int.{ℤ, pos, ltb_ℤ}

-- `outer.get(key, doc.get(key, …))` before its default.
abbrev first_given {ℓ} : {A : Type ℓ} → Option A → Option A → Option A
first_given none b = b
first_given (some a) b = some a

-- `document.get("version", 1)`, or `None` where no policy decided.
pub data Version (N : Type 0) : Type 0 where
  no_version first_version : Version N
  stated : Value N → Version N

pub data Obligation (N : Type 0) : Type 0 where
  obliged : Action → Value N → Value N → Value N → Obligation N
  constraints : Value N → Value N → Obligation N

pub record Match (N : Type 0) : Type 0 where
  pub priority : ℤ
  pub action : Action
  pub id_text : String
  pub rule : Fields N
  pub id : Value N
  pub version : Version N

pub record Decision (N : Type 0) : Type 0 where
  pub decision : Action
  pub reason : String
  pub policy_id : Value N
  pub policy_version : Version N
  pub obligations : List (Obligation N)

-- `severity`, for the actions that decide.
abbrev pub severity : Action → Option ℕ
severity allow = some 1
severity require_approval = some 2
severity deny = some 3
severity _ = none

abbrev pub rank : Action → ℕ
rank action = elim (severity action) [ none ↦ 0 | some n ↦ n ]

abbrev pub action_name : Action → String
action_name allow = "allow"
action_name deny = "deny"
action_name require_approval = "require_approval"
action_name warn = "warn"
action_name redact = "redact"
action_name rate_limit = "rate_limit"

module _ {N : Type 0} where
  -- The sort key `(-priority, -severity, id)`, compared strictly.
  unfoldable pub precedes : Match N → Match N → Bool
  precedes a b =
      if ltb_ℤ b.priority a.priority
      then true
      else if ltb_ℤ a.priority b.priority
      then false
      else if ltb (rank b.action) (rank a.action)
      then true
      else if ltb (rank a.action) (rank b.action)
      then false
      else is_lt (Prim.Native.String.compare a.id_text b.id_text)

  -- `sorted(matches, key=…)[0]`: a stable sort puts the first of the least first.
  unfoldable pub winner : Match N → List (Match N) → Match N
  winner best [] = best
  winner best (m ∷ ms) = winner (if precedes m best then m else best) ms

  abbrev pub default_decision : String → List (Obligation N) → Decision N
  default_decision reason obligations = record {
    decision = deny;
    reason = reason;
    policy_id = null;
    policy_version = no_version;
    obligations = obligations;
  }

  abbrev is_truthy : Value N → Bool
  is_truthy (dict end) = false
  is_truthy (list nil) = false
  is_truthy _ = true

  abbrev reason_or : Value N → String → String
  reason_or (str s) default = if str_eq s "" then default else s
  reason_or _ default = default

  abbrev constraint_of : Match N → List (Obligation N)
  constraint_of m = elim (get "obligations" m.rule) [
    | none ↦ []
    | some parameters ↦ if is_truthy parameters then constraints parameters m.id ∷ [] else []
  ]

  unfoldable pub decide : List (Match N) → List (Obligation N) → Decision N
  decide [] obligations = default_decision "No matching allow policy; deny by default" obligations
  decide (m ∷ ms) obligations =
      let best = winner m ms in
      record {
        decision = best.action;
        reason = reason_or (get_or "reason" best.rule null) (
            Prim.Native.String.◌++◌ "Matched "
              (Prim.Native.String.◌++◌ (action_name best.action) " policy"));
        policy_id = best.id;
        policy_version = best.version;
        obligations = obligations ++ constraint_of best;
      }

module _ (numbers : Numbers) where
  open numbers use {Number, as_int}

  abbrev pub Found : Type 0
  Found = List (Match Number) × List (Obligation Number)

  abbrev pub both : Found → Found → Found
  both a b = (a.0 ++ b.0, a.1 ++ b.1)

  module _ (safe_load : String → Loaded Number) (show : Value Number → String) where
    abbrev id_text_of : Value Number → String
    id_text_of (str s) = s
    id_text_of v = show v

    -- What a rule that holds adds: a match if its action decides, and else an obligation.
    unfoldable pub add_rule : ℤ → Value Number → Version Number → Fields Number → Action → Found
    add_rule priority id stamp rule action = elim (severity action) [
      | none ↦ (
        [],
        obliged action id (get_or "obligations" rule (dict end)) (get_or "reason" rule (str ""))
            ∷ [],
      )
      | some n ↦ (
        (record {
          priority = priority;
          action = action;
          id_text = id_text_of id;
          rule = rule;
          id = id;
          version = stamp;
        })
            ∷ [],
        [],
      )
    ]

    -- One rule of a policy whose subject and resource hold.
    unfoldable pub find_rule :
        ℤ → Value Number → Version Number → Fields Number → Value Number → Result Found
    find_rule priority id stamp facts (dict rule) = do
      holds ← when numbers (get_or "when" rule (dict end)) facts
      if not holds
          then ok ([], [])
          else (action_of (get_or "action" rule null) >>= λ action.
              ok (add_rule priority id stamp rule action))
    find_rule priority id stamp facts rule = err uncaught

    unfoldable pub find_rules :
        ℤ → Value Number → Version Number → Fields Number → Items Number → Result Found
    find_rules priority id stamp facts nil = ok ([], [])
    find_rules priority id stamp facts (cons rule rest) =
        let later = find_rules priority id stamp facts rest in
        do first ← find_rule priority id stamp facts rule; others ← later; ok (both first others)

    abbrev pub rules_of : Fields Number → Result (Items Number)
    rules_of doc = elim (get "rules" doc) [
      | none ↦ err key_error
      | some (list rules) ↦ ok rules
      | _ ↦ err uncaught
    ]

    abbrev pub is_false : Value Number → Bool
    is_false (bool b) = not b
    is_false _ = false

    -- `outer.get(key, doc.get(key, default))`.
    abbrev pub outer_or : String → Fields Number → Fields Number → Value Number → Value Number
    outer_or key outer doc default = get_or key outer (get_or key doc default)

    unfoldable pub priority_of : Fields Number → Fields Number → Result ℤ
    priority_of outer doc = elim (first_given (get "priority" outer) (get "priority" doc)) [
      | none ↦ ok (pos 0)
      | some (num n) ↦ elim (as_int n) [
        | none ↦ err (value_error "Invalid policy priority")
        | some i ↦ ok i
      ]
      | _ ↦ err (value_error "Invalid policy priority")
    ]

    abbrev pub version_of : Fields Number → Fields Number → Version Number
    version_of outer doc = elim (first_given (get "version" outer) (get "version" doc)) [
      | none ↦ first_version
      | some v ↦ stated v
    ]

    -- One turn of the loop over the policies, after its document has been parsed.
    unfoldable pub find_in_document : Fields Number → Fields Number → Fields Number → Result Found
    find_in_document outer doc facts =
        if is_false (outer_or "enabled" outer doc (bool true)) then ok ([], []) else do
          priority ← priority_of outer doc
          subject ← when numbers (get_or "subject" doc (dict end)) facts
          if not subject then ok ([], []) else do
            resource ← when numbers (get_or "resource" doc (dict end)) facts
            if not resource then ok ([], []) else do
              rules ← rules_of doc
              find_rules priority (outer_or "id" outer doc (get_or "name" doc null))
                  (version_of outer doc) facts rules

    unfoldable pub find_in_policy : Value Number → Fields Number → Result Found
    find_in_policy (dict outer) facts = do
      doc ← parse_policy numbers safe_load (get_or "document" outer (dict outer))
      find_in_document outer doc facts
    find_in_policy policy facts = err (value_error "Malformed stored policy")

    -- The matches and the obligations of all policies, in order, or the first exception.
    unfoldable pub find_all : Items Number → Fields Number → Result Found
    find_all nil facts = ok ([], [])
    find_all (cons policy rest) facts =
        let later = find_all rest facts in
        do first ← find_in_policy policy facts; others ← later; ok (both first others)

    -- The `except` clause of `evaluate`, which does not catch an `AttributeError`.
    abbrev pub recovered : Result (Decision Number) → Result (Decision Number)
    recovered (ok decision) = ok decision
    recovered (err uncaught) = err uncaught
    recovered (err e) = ok (
        default_decision (Prim.Native.String.◌++◌ "Policy evaluation failed closed: " (message e))
          [])

    unfoldable pub evaluate : Value Number → Value Number → Result (Decision Number)
    unfolding decide
    evaluate (list policies) (dict facts) =
        if ltb 1024 (count policies)
        then ok (default_decision "Malformed policy evaluation input" [])
        else recovered (do found ← find_all policies facts; ok (decide found.0 found.1))
    evaluate policies facts = ok (default_decision "Malformed policy evaluation input" [])
