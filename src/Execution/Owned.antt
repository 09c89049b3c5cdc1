-- ===== src/Execution/Owned.antt =====
-- The whole handlers of an agent's requests, with `_owned_request` of
-- apps/api/agentguard_api/runtime_routes.py before the part that works on the locked request, and how
-- a claim and a report go together.
use aiagentguard.Access.{Agent, Credential, Tool, is_expired}
use aiagentguard.Execution.{
  executing, Execution, Site, Reply, refused, output, granted, ResultStatus, expire_if_needed,
  start_remote, finalize, claim_sdk_request, report_sdk_result,
}
use aiagentguard.Execution.Claims.{Claimed, claim_granted}
use aiagentguard.Prelude.{
  ℕ, ◌+◌, String, ◌≡◌, refl, Bool, true, false, not, ◌&&◌, Option, none, some, ltb, ◌==◌, str_eq,
  if◌then◌else◌, arith, Bool-cases, eq_iff, ap, ◌∙◌, inl, inr,
}

-- What `authenticate_agent` answers; when it raises instead, the handler ends with its error.
pub record Caller : Type 0 where
  pub agent : Agent
  pub credential : Credential

-- The test of the query for the request.
unfoldable pub owns : Caller → ℕ → Execution → Bool
owns caller request_id r =
    (r.id == request_id)
    && (str_eq r.organization_id caller.agent.organization_id
        && (str_eq r.agent_id caller.agent.id && str_eq r.credential_id caller.credential.id))

-- The request is the caller's own, column by column.
abbrev pub IsOwn : Caller → ℕ → Execution → Type 0
IsOwn caller request_id r =
    (r.id ≡ request_id)
    × (r.organization_id ≡ caller.agent.organization_id)
    × (r.agent_id ≡ caller.agent.id)
    × (r.credential_id ≡ caller.credential.id)

-- Two callers are one agent with one credential.
abbrev pub is_same : Caller → Caller → Bool
is_same one other =
    str_eq one.agent.organization_id other.agent.organization_id
    && (str_eq one.agent.id other.agent.id && str_eq one.credential.id other.credential.id)

owns-IsOwn :
    (caller : Caller) (request_id : ℕ) (r : Execution)
    → owns caller request_id r ≡ true
    → IsOwn caller request_id r
unfolding owns
owns-IsOwn caller request_id r h = (
  ground arith,
  (eq_iff r.organization_id caller.agent.organization_id).0 (ground arith),
  (eq_iff r.agent_id caller.agent.id).0 (ground arith),
  (eq_iff r.credential_id caller.credential.id).0 (ground arith),
)

owns-same :
    (one other : Caller) (request_id other_id : ℕ) (r : Execution)
    → IsOwn one request_id r
    → owns other other_id r ≡ ((request_id == other_id) && is_same one other)
unfolding owns
owns-same one other request_id other_id r h = rw (h.0, h.1, h.2, h.3) refl

-- `_owned_request` and the rest of a handler; `found` is what the query for the tool finds.
abbrev pub with_owned :
    Caller → (request_id : ℕ) → (found : Option Tool) → (Site → Reply × Site) → Site → Reply × Site
with_owned caller request_id found handler s =
    if not (owns caller request_id s.request)
    then (refused 404 "Request not found", s)
    else elim found [
      | none ↦ (refused 409 "Request tool no longer exists", s)
      | some tool ↦ handler (record s { tool = tool })
    ]

-- The whole handler, up to the call of the provider.
unfoldable pub execute_approved_request : ℕ → Caller → ℕ → Option Tool → Site → Reply × Site
execute_approved_request now caller request_id found s =
    with_owned caller request_id found (λ t. start_remote now (expire_if_needed now t)) s

abbrev pub is_output : Reply → Bool
is_output (output status) = true
is_output reply = false

abbrev pub is_there : Option Tool → Bool
is_there none = false
is_there (some tool) = true

module _ (digest : String → String) where
  unfoldable pub claim_request : ℕ → ℕ → String → Caller → ℕ → Option Tool → Site → Reply × Site
  claim_request now ttl claim_token caller request_id found s =
      with_owned caller request_id found (claim_sdk_request digest now ttl claim_token) s

  unfoldable pub report_result :
      ℕ → Option String → ResultStatus → Bool → Caller → ℕ → Option Tool → Site → Reply × Site
  report_result now claim status valid caller request_id found s =
      with_owned caller request_id found (report_sdk_result digest now claim status valid) s

  -- The report shows a token with the digest of the one that was handed out.
  abbrev pub presents : String → Option String → Bool
  presents token none = false
  presents token (some shown) = not (str_eq shown "") && str_eq (digest shown) (digest token)

  report_answers :
      (later until : ℕ) (token : String) (presented : Option String) (status : ResultStatus)
      (valid : Bool) (s : Site)
      → str_eq (digest token) "" ≡ false
      → s.request.status ≡ executing
      → s.request.execution_claim_hash ≡ some (digest token)
      → s.request.claim_expires_at ≡ some until
      → is_output (report_sdk_result digest later presented status valid s).0
        ≡ (presents token presented && ltb later until)
  unfolding report_sdk_result finalize is_expired
  report_answers later until token none status valid s h runs locked at = ground arith
  report_answers later until token (some shown) status valid s h runs locked at = ground arith

  report_granted :
      (now later ttl : ℕ) (token shown arguments : String) (reporter : Caller) (reported_id : ℕ)
      (again : Option Tool) (presented : Option String) (status : ResultStatus) (valid : Bool)
      (s s' : Site)
      → str_eq (digest token) "" ≡ false
      → Claimed digest now ttl token shown arguments s s'
      → is_output (report_result later presented status valid reporter reported_id again s').0 ≡ (
          owns reporter reported_id s.request
          && (is_there again && (presents token presented && ltb later (now + ttl))))
  unfolding report_result owns
  report_granted now later ttl token shown arguments reporter reported_id none presented status
        valid s s' h c =
      ground (arith, c.same_owner)
  report_granted now later ttl token shown arguments reporter reported_id (some tool) presented
        status valid s s' h c =
      ground (
        arith,
        c.same_owner,
        report_answers later (now + ttl) token presented status valid (record s' { tool = tool }) h
            c.runs c.locked c.until,
      )

  -- A claim is granted only to the agent and with the credential that made the request, while its
  -- tool exists, past all other guards of the handler. Afterwards a report is answered with a result
  -- exactly when it too comes from that agent and credential, for that request, while the tool
  -- exists, shows a token with the digest of the one handed out (itself not empty), and comes before
  -- the time to live of the claim is over.
  pub claim_then_report :
      (now later ttl : ℕ) (token shown arguments : String) (claimer reporter : Caller)
      (request_id reported_id : ℕ) (found again : Option Tool) (presented : Option String)
      (status : ResultStatus) (valid : Bool) (s : Site)
      → str_eq (digest token) "" ≡ false
      → (claim_request now ttl token claimer request_id found s).0 ≡ granted shown arguments
      → let s' = (claim_request now ttl token claimer request_id found s).1 in
        IsOwn claimer request_id s.request
        × ((tool : Tool) × (found ≡ some tool)
            × Claimed digest now ttl token shown arguments (record s { tool = tool }) s')
        × (is_output (report_result later presented status valid reporter reported_id again s').0
            ≡ (((request_id == reported_id) && is_same claimer reporter)
                && (is_there again && (presents token presented && ltb later (now + ttl)))))
  unfolding claim_request
  claim_then_report now later ttl token shown arguments claimer reporter request_id reported_id none
        again presented status valid s h e =
      absurd (ground arith)
  claim_then_report now later ttl token shown arguments claimer reporter request_id reported_id
        (some tool) again presented status valid s h e =
      elim (Bool-cases (owns claimer request_id s.request)) [
        | inr other ↦ absurd (ground arith)
        | inl own ↦
            let t : Site = record s { tool = tool } in
            let c = claim_granted digest now ttl token shown arguments t (rw own at e) in
            rw own (
              owns-IsOwn claimer request_id s.request own,
              (tool, refl, c),
              report_granted now later ttl token shown arguments reporter reported_id again
                    presented status valid t (claim_sdk_request digest now ttl token t).1 h c
                  ∙ ap
                      (λ mine.
                        mine
                        && (is_there again && (presents token presented && ltb later (now + ttl))))
                      (owns-same claimer reporter request_id reported_id s.request
                        (owns-IsOwn claimer request_id s.request own)),
            )
      ]
