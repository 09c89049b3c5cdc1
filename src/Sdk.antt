-- ===== src/Sdk.antt =====
-- The Python SDK: packages/sdk-python/agentguard/__init__.py, its synchronous half. The network, the
-- clock and what the caller's function does are parameters on a state `Net`. The log holds what the
-- client did, newest first. Wait has the loop on the deadline, Guard what `protect` is for.
pub mod Wait
pub mod Frozen
pub mod Guard
mod Examples
use aiagentguard.Json.{Numbers, Value, null, str, list, dict, Fields, end, field, get, truthy}
use aiagentguard.Prelude.{
  ℕ, zero, suc, ◌+◌, String, Bool, true, false, not, ◌&&◌, ◌||◌, Option, none, some, List, [], ◌∷◌,
  ltb, if◌then◌else◌, str_eq, str_in,
}

-- What comes of a request: `client.post` or `client.get` raises a TransportError or a TypeError, or
-- `_data` raises ServiceUnavailable, or returns a dictionary.
pub data Http (N : Type 0) : Type 0 where
  transport_error type_error invalid : Http N
  data_of : Fields N → Http N

pub data Route (N : Type 0) : Type 0 where
  authorize_path gateway_path : Route N
  status_path claim_path execute_path : Value N → Route N
  result_path : Value N → (claim_token : String) → (succeeded : Bool) → Route N

-- The exceptions that a caller sees; `type_error_raised` is that of a value that cannot be hashed, and
-- `raised` the one of the caller's function.
pub data Failure : Type 0 where
  authorization_denied approval_timeout service_unavailable type_error_raised raised : Failure

pub data Result {ℓ} (A : Type ℓ) : Type ℓ where
  done : A → Result A
  failed : Failure → Result A

pub data Event (N : Type 0) : Type 0 where
  answered : Route N → Http N → Event N
  called : (arguments : Fields N) → Event N

pub record World (N : Type 0) (Net : Type 0) : Type 0 where
  pub send : Route N → Net → Http N × Net
  pub clock : Net → ℕ
  pub sleep : Net → Net
  pub function : Fields N → Net → Option (Value N) × Net

pub record State (N : Type 0) (Net : Type 0) : Type 0 where
  pub net : Net
  pub log : List (Event N)

-- A value in a fixed set of texts; `none` is a TypeError.
unfoldable pub member : {N : Type 0} → List String → Option (Value N) → Option Bool
member texts none = some false
member texts (some (str text)) = some (str_in text texts)
member texts (some (list xs)) = none
member texts (some (dict fields)) = none
member texts (some v) = some false

abbrev pub is_text : {N : Type 0} → String → Option (Value N) → Bool
is_text text (some (str s)) = str_eq s text
is_text text _ = false

unfoldable pub set : {N : Type 0} → String → Value N → Fields N → Fields N
set key v end = field key v end
set key v (field k w rest) =
    let later = set key v rest in if str_eq k key then field k v rest else field k w later

-- `_claim`.
abbrev claim_parts : {N : Type 0} → Option (Value N) → Option (Value N) → Result (String × Fields N)
claim_parts (some (str token)) (some (dict arguments)) =
    if str_eq token "" then failed service_unavailable else done (token, arguments)
claim_parts _ _ = failed service_unavailable

unfoldable pub claim_of : {N : Type 0} → Fields N → Result (String × Fields N)
claim_of reply = claim_parts (get "claim_token" reply) (get "arguments" reply)

-- `_frozen_call` for a function with the named parameters.
unfoldable pub frozen_call : {N : Type 0} → List String → Fields N → Fields N → Result (Fields N)
frozen_call parameters bound end = done bound
frozen_call parameters bound (field name v frozen) =
    let rest = frozen_call parameters (set name v bound) frozen in
    if str_in name parameters then rest else failed service_unavailable

abbrev pub may_retry : {N : Type 0} → Http N → Bool
may_retry transport_error = true
may_retry type_error = true
may_retry _ = false

abbrev pub unwrap : {N : Type 0} → Http N → Result (Fields N)
unwrap (data_of fields) = done fields
unwrap _ = failed service_unavailable

-- What one answer about the status comes to; `none` asks again.
unfoldable pub state_of : {N : Type 0} → Fields N → Option (Result (Fields N))
state_of state = elim (member ("approved" ∷ "allowed" ∷ []) (get "status" state)) [
  | none ↦ some (failed type_error_raised)
  | some true ↦ some (done state)
  | some false ↦
      elim (member ("rejected" ∷ "denied" ∷ "expired" ∷ "cancelled" ∷ "failed" ∷ [])
        (get "status" state)) [ some true ↦ some (failed authorization_denied) | _ ↦ none ]
]

abbrev pub polled : {N : Type 0} → Http N → Option (Result (Fields N))
polled (data_of state) = state_of state
polled type_error = some (failed type_error_raised)
polled _ = some (failed service_unavailable)

module _ {N Net : Type 0} (world : World N Net) where
  unfoldable pub attempt : Route N → State N Net → Http N × State N Net
  attempt route s =
      let (reply, net) = world.send route s.net in
      (reply, record { net = net; log = answered route reply ∷ s.log })

  -- `_post`, with two attempts or one.
  unfoldable pub post : Bool → Route N → State N Net → Result (Fields N) × State N Net
  post retry route s =
      let (reply, s') = attempt route s in
      let (reply', s'') = attempt route s' in
      if retry && may_retry reply then (unwrap reply', s'') else (unwrap reply, s')

  abbrev pub slept : State N Net → State N Net
  slept s = record s { net = world.sleep s.net }

  -- The `while` loop of `_wait`; the outer `none` is that the fuel is used up.
  unfoldable pub poll : ℕ → ℕ → Value N → State N Net → Option (Result (Fields N) × State N Net)
  poll zero deadline id s = none
  poll (suc fuel) deadline id s =
      let (reply, s') = attempt (status_path id) s in
      let later = poll fuel deadline id (slept s') in
      if ltb (world.clock s.net) deadline
      then elim (polled reply) [ none ↦ later | some result ↦ some (result, s') ]
      else some (failed approval_timeout, s)

-- A computation that may use up its fuel or fail.
abbrev pub Run : Type 0 → Type 0 → Type 0 → Type 0
Run N Net A = Option (Result A × State N Net)

unfoldable pub bind :
    {N Net A B : Type 0} → Run N Net A → (A → State N Net → Run N Net B) → Run N Net B
bind none next = none
bind (some (failed why, s)) next = some (failed why, s)
bind (some (done a, s)) next = next a s

abbrev pub or_value : {N : Type 0} → Option (Value N) → Value N
or_value none = null
or_value (some v) = v

abbrev pub reported :
    {N Net : Type 0} → Result (Value N) → Result (Fields N) × State N Net → Run N Net (Value N)
reported result (done reply, s) = some (result, s)
reported result (failed why, s) = some (failed why, s)

module _ {N Net : Type 0} (world : World N Net) where
  -- The call itself with the report of its result or its failure.
  unfoldable pub call_and_report : Value N → String → Fields N → State N Net → Run N Net (Value N)
  call_and_report id token arguments s =
      let (result, net) = world.function arguments s.net in
      let after : State N Net = record { net = net; log = called arguments ∷ s.log } in
      elim result [
        | none ↦ reported (failed raised) (post world false (result_path id token false) after)
        | some value ↦ reported (done value) (post world false (result_path id token true) after)
      ]

  -- From the answer to the claim on.
  unfoldable pub claimed_call :
      List String → Fields N → Value N → Fields N → State N Net → Run N Net (Value N)
  claimed_call parameters bound id reply s = bind (some (claim_of reply, s)) (λ claim t.
      bind (some (frozen_call parameters bound claim.1, t))
        (λ arguments u. call_and_report id claim.0 arguments u))

-- `response.get("request_id") or state.get("request_id")`.
abbrev pub request_id_of :
    (numbers : Numbers) → Fields numbers.Number → Fields numbers.Number → Value numbers.Number
request_id_of numbers response state =
    let id = or_value (get "request_id" response) in
    if truthy numbers id then id else or_value (get "request_id" state)

module _ (numbers : Numbers) {Net : Type 0} (world : World numbers.Number Net) where
  open numbers use {Number}

  -- `_wait`.
  unfoldable pub wait : ℕ → ℕ → Fields Number → State Number Net → Run Number Net (Fields Number)
  wait fuel approval_time response s =
      let id = or_value (get "request_id" response) in
      elim (member ("allow" ∷ "require_approval" ∷ []) (get "decision" response)) [
        | none ↦ some (failed type_error_raised, s)
        | some false ↦ some (failed authorization_denied, s)
        | some true ↦
            if not (truthy numbers id)
            then some (failed service_unavailable, s)
            else if is_text "allow" (get "decision" response)
            then some (done response, s)
            else poll world fuel (world.clock s.net + approval_time) id s
      ]

  -- `execute`: a decision that needs no approval is the answer itself.
  unfoldable pub execute : ℕ → ℕ → State Number Net → Run Number Net (Fields Number)
  execute fuel approval_time s = bind (some (post world false gateway_path s)) (λ initial t.
      if not (is_text "require_approval" (get "decision" initial))
      then some (done initial, t)
      else bind (wait fuel approval_time initial t) (λ state u.
        some (post world false (execute_path (request_id_of numbers initial state)) u)))

  -- `wrapper` of `protect`, for a function with the named parameters and the bound arguments.
  unfoldable pub protect :
      ℕ → ℕ → List String → Fields Number → State Number Net → Run Number Net (Value Number)
  protect fuel approval_time parameters bound s =
      bind (some (post world true authorize_path s)) (λ response t.
        bind (wait fuel approval_time response t) (λ state u.
          let id = request_id_of numbers response state in
          bind (some (post world false (claim_path id) u))
            (λ reply v. claimed_call world parameters bound id reply v)))
