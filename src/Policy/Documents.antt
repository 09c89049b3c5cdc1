-- ===== src/Policy/Documents.antt =====
-- Policy documents: `validate_policy` and `parse_policy` of
-- packages/policy-engine/agentguard_policy/__init__.py. `yaml.safe_load` is the parameter
-- `safe_load`, which returns a value, raises `yaml.YAMLError`, or raises another exception, as its
-- constructors do on texts such as `!!timestamp x`. A value is one of the JSON kinds; the dates, sets
-- and binary data of YAML are not modelled.
use Prim.Native.String
use aiagentguard.Json.{
  Numbers, Value, null, num, str, list, dict, Items, nil, cons, Fields, end, get, keys, count,
  is_dict, dumps_ok,
}
use aiagentguard.Policy.Errors.{
  Error, Result, ok, err, value_error, type_error, key_error, uncaught, ◌>>=◌, ◌>>◌, require,
}
use aiagentguard.Policy.Conditions.{is_list, validate_when}
use aiagentguard.Prelude.{
  String, Bool, true, false, ◌||◌, Option, none, some, List, [], ◌∷◌, all, str_eq, str_in, ltb,
  ◌==◌, if◌then◌else◌,
}

-- What `yaml.safe_load` does with a text.
pub data Loaded (N : Type 0) : Type 0 where
  loaded : Value N → Loaded N
  yaml_error : Loaded N
  raised : Error → Loaded N

pub data Action : Type 0 where
  allow deny require_approval warn redact rate_limit : Action

-- A value that cannot be hashed makes the test `in ACTIONS` itself raise.
unfoldable pub action_of : {N : Type 0} → Value N → Result Action
action_of (str s) =
    if str_eq s "allow"
    then ok allow
    else if str_eq s "deny"
    then ok deny
    else if str_eq s "require_approval"
    then ok require_approval
    else if str_eq s "warn"
    then ok warn
    else if str_eq s "redact"
    then ok redact
    else if str_eq s "rate_limit"
    then ok rate_limit
    else err (value_error "Unknown policy action")
action_of (list xs) = err type_error
action_of (dict fields) = err type_error
action_of _ = err (value_error "Unknown policy action")

-- `fields.get(key, default)`.
unfoldable pub get_or : {N : Type 0} → String → Fields N → Value N → Value N
get_or key fields default = elim (get key fields) [ none ↦ default | some v ↦ v ]

abbrev pub fields_of : {N : Type 0} → Value N → Option (Fields N)
fields_of (dict fields) = some fields
fields_of _ = none

abbrev pub is_str : {N : Type 0} → Value N → Bool
is_str (str s) = true
is_str _ = false

abbrev pub policy_keys : List String
policy_keys =
    "name" ∷ "description" ∷ "subject" ∷ "resource" ∷ "rules" ∷ "priority" ∷ "id" ∷ "version"
    ∷ "enabled" ∷ []

abbrev rule_keys : List String
rule_keys = "when" ∷ "action" ∷ "reason" ∷ "obligations" ∷ []

pub record Validation (N : Type 0) : Type 0 where
  pub valid : Bool
  pub errors : List String
  pub document : Option (Fields N)

abbrev pub message : Error → String
message (value_error text) = text
message type_error = "TypeError"
message key_error = "KeyError"
message uncaught = "uncaught"

module _ (numbers : Numbers) where
  open numbers use {Number, as_int}

  -- `isinstance(value, int)` where `bool`, a subclass of `int`, is not wanted.
  abbrev pub is_int : Value Number → Bool
  is_int (num n) = elim (as_int n) [ none ↦ false | some i ↦ true ]
  is_int _ = false

  unfoldable pub check_rule : Value Number → Result (Unit {0})
  check_rule (dict rule) = do
    require (all (λ key. str_in key rule_keys) (keys rule)) "Malformed rule"
    action_of (get_or "action" rule null) >>= λ action. ok tt
    require (is_str (get_or "reason" rule (str ""))) "Rule reason must be a string"
    require
        (is_dict (get_or "obligations" rule (dict end))
          || is_list (get_or "obligations" rule (dict end)))
        "Rule obligations must be an object or list"
    validate_when numbers 0 (get_or "when" rule (dict end))
  check_rule rule = err (value_error "Malformed rule")

  unfoldable pub check_rules : Items Number → Result (Unit {0})
  check_rules nil = ok tt
  check_rules (cons rule rest) = let later = check_rules rest in check_rule rule >> later

  unfoldable pub check_rule_list : Value Number → Result (Items Number)
  check_rule_list (list rules) =
      if count rules == 0 || ltb 256 (count rules)
      then err (value_error "Policy requires 1..256 rules")
      else ok rules
  check_rule_list _ = err (value_error "Policy requires 1..256 rules")

  unfoldable pub check_scope : Value Number → Result (Unit {0})
  check_scope selector =
      require (is_dict selector) "subject or resource must be an object"
      >> validate_when numbers 0 selector

  -- The `try` block of `validate_policy`; the copy that it returns is the document.
  unfoldable pub check_policy : Value Number → Result (Fields Number)
  check_policy (dict document) = do
    require (all (λ key. str_in key policy_keys) (keys document)) "Unknown policy keys"
    check_scope (get_or "subject" document (dict end))
    check_scope (get_or "resource" document (dict end))
    rules ← check_rule_list (get_or "rules" document null)
    require (elim (get "priority" document) [ none ↦ true | some v ↦ is_int v ])
        "Policy priority must be an integer"
    check_rules rules
    require (dumps_ok numbers document) "Out of range float values are not JSON compliant"
    ok document
  check_policy document = err (value_error "Policy must be an object")

  abbrev caught : Result (Fields Number) → Result (Validation Number)
  caught (ok document) = ok (record { valid = true; errors = []; document = some document })
  caught (err uncaught) = err uncaught
  caught (err key_error) = err key_error
  caught (err e) = ok (record { valid = false; errors = message e ∷ []; document = none })

  unfoldable pub validate_policy : Value Number → Result (Validation Number)
  validate_policy document = caught (check_policy document)

  abbrev join : List String → String
  join [] = ""
  join (e ∷ []) = e
  join (e ∷ f ∷ es) = Prim.Native.String.◌++◌ e (Prim.Native.String.◌++◌ "; " (join (f ∷ es)))

  abbrev raise_invalid : Validation Number → Result (Fields Number)
  raise_invalid v = elim v.document [
    | none ↦ err (value_error (join v.errors))
    | some document ↦ if v.valid then ok document else err (value_error (join v.errors))
  ]

  module _ (safe_load : String → Loaded Number) where
    unfoldable pub load : Value Number → Result (Value Number)
    load (str text) =
        if ltb 262144 (Prim.Native.String.count text)
        then err (value_error "Policy is too large")
        else elim (safe_load text) [
          | loaded value ↦ ok value
          | yaml_error ↦ err (value_error "Malformed YAML policy")
          | raised e ↦ err e
        ]
    load value = ok value

    unfoldable pub parse_policy : Value Number → Result (Fields Number)
    unfolding validate_policy
    parse_policy value = do
      document ← load value
      result ← validate_policy document
      raise_invalid result
