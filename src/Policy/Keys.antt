-- ===== src/Policy/Keys.antt =====
-- Condition keys: `_key` of packages/policy-engine/agentguard_policy/__init__.py, with the
-- operators, the fields and the tests on a field path.
use Prim.Native.Char.{code}
use Prim.Native.String.{count, ◌∷◌ as str_cons}
use mathlib.Core.Option
use aiagentguard.Prelude.{
  ℕ, String, Bool, false, not, ◌||◌, ◌&&◌, Option, none, some, List, [], ◌∷◌, str_eq, ltb, str_in,
  codes, ◌==◌, if◌then◌else◌,
}
use aiagentguard.Policy.Errors.{Result, ok, err, value_error}

pub data Op : Type 0 where
  eq ne gt gte lt lte in_ not_in contains exists : Op

-- `sorted(OPS, key=len, reverse=True)`: two suffixes of one length never fit the same key, so
-- their order does not matter.
abbrev pub suffixes : List (String × Op)
suffixes =
    ("_contains", contains)
    ∷ ("_not_in", not_in)
    ∷ ("_exists", exists)
    ∷ ("_gte", gte)
    ∷ ("_lte", lte)
    ∷ ("_eq", eq)
    ∷ ("_ne", ne)
    ∷ ("_gt", gt)
    ∷ ("_lt", lt)
    ∷ ("_in", in_)
    ∷ []

abbrev pub fields : List String
fields =
    "organization" ∷ "organization_id" ∷ "workspace" ∷ "workspace_id" ∷ "team" ∷ "team_id" ∷ "user"
    ∷ "user_id" ∷ "agent" ∷ "agent_id" ∷ "tool" ∷ "tool_id" ∷ "provider" ∷ "amount" ∷ "environment"
    ∷ "resource" ∷ "customer" ∷ "customer_id" ∷ "time" ∷ "ip" ∷ "tags" ∷ "risk_score"
    ∷ "data_classification" ∷ "request_count" ∷ "destination" ∷ []

-- `key[:-len(suffix)]` if `key.endswith(suffix)`.
unfoldable pub strip_suffix : String → String → Option String
strip_suffix suffix String.[] = none
strip_suffix suffix (String.◌∷◌ c s) =
    let shorter = Option.map (str_cons c) (strip_suffix suffix s) in
    if str_eq suffix (str_cons c s) then some "" else shorter

unfoldable pub find_op : List (String × Op) → String → Option (String × Op)
find_op [] key = none
find_op ((suffix, op) ∷ rest) key = elim (strip_suffix suffix key) [
  | none ↦ find_op rest key
  | some field ↦ some (field, op)
]

abbrev pub dot : ℕ
dot = 46

abbrev contains_code : ℕ → List ℕ → Bool
contains_code c [] = false
contains_code c (d ∷ ds) = c == d || contains_code c ds

abbrev starts_with_code : ℕ → List ℕ → Bool
starts_with_code c [] = false
starts_with_code c (d ∷ ds) = c == d

abbrev ends_with_code : ℕ → List ℕ → Bool
ends_with_code c [] = false
ends_with_code c (d ∷ []) = c == d
ends_with_code c (d ∷ e ∷ ds) = ends_with_code c (e ∷ ds)

abbrev contains_pair : ℕ → List ℕ → Bool
contains_pair c [] = false
contains_pair c (d ∷ ds) = c == d && starts_with_code c ds || contains_pair c ds

-- The path that a condition names must have no empty part.
unfoldable pub valid_path : String → Bool
valid_path field = not (
    str_eq field ""
    || starts_with_code dot (codes field)
    || ends_with_code dot (codes field)
    || contains_pair dot (codes field))

unfoldable pub key_op : String → Result (String × Op)
unfolding find_op strip_suffix
key_op key =
    if str_eq key "" || ltb 256 (count key)
    then err (value_error "Condition key must be a nonempty field path")
    else elim (find_op suffixes key) [
      | some found ↦ ok found
      | none ↦
          if str_in key fields || contains_code dot (codes key)
          then ok (key, eq)
          else err (value_error "Unknown condition field or operator")
    ]

-- `path.split(".")`: one part more than there are dots.
unfoldable pub split_dots : String → List String
split_dots String.[] = "" ∷ []
split_dots (String.◌∷◌ c s) =
    let rest = split_dots s in
    if code c == dot
    then "" ∷ rest
    else elim rest [ [] ↦ [] | part ∷ parts ↦ str_cons c part ∷ parts ]
