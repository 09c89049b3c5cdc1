-- ===== src/Execution/Claims.antt =====
-- What a claim asks for and leaves behind, and who can report a result, after `_owned_request`: `claim_sdk_request` and
-- `report_sdk_result` of apps/api/agentguard_api/runtime_routes.py.
use aiagentguard.Access.{execution_blocked, is_expired}
use aiagentguard.Approvals.{RequestStatus, executing, awaits_approval}
use aiagentguard.Execution.{
  Site, output, granted, is_open, is_executing, ResultStatus, expire_if_needed, finalize, block,
  tool_changed, claim_sdk_request, report_sdk_result, holds_claim,
}
use aiagentguard.Prelude.{
  ℕ, ◌+◌, ◌<◌, String, ◌≡◌, Bool, true, false, Option, some, leb, str_eq, ◌&&◌, arith, Bool-cases,
  Option-cases, inl, inr,
}

-- Open requests do not wait for an approval, so nothing expires before the claim's own tests.
not_expired :
    (now : ℕ) (s : Site)
    → is_open (expire_if_needed now s).request.status ≡ true
    → expire_if_needed now s ≡ s
unfolding expire_if_needed
not_expired now s h =
    elim (Bool-cases (awaits_approval s.request.status && leb s.request.expires_at now)) [
      | inl late ↦ absurd (ground arith)
      | inr stays ↦ rw stays
    ]

module _ (digest : String → String) where
  -- The guards after `_owned_request` that a granted claim has passed, and what it writes.
  pub record Claimed (now ttl : ℕ) (token shown arguments : String) (s after : Site) : Type 0 where
    pub told : shown ≡ token
    pub sdk : str_eq s.tool.adapter "sdk" ≡ true
    pub was_open : is_open s.request.status ≡ true
    pub allowed : execution_blocked now s.access s.tool ≡ false
    pub in_time : now < s.request.expires_at
    pub snapshot : String
    pub frozen :
        s.request.payload ≡ some (record { tool_snapshot_hash = snapshot; arguments = arguments })
    pub unchanged : str_eq snapshot s.tool.snapshot ≡ true
    pub runs : after.request.status ≡ executing
    pub locked : after.request.execution_claim_hash ≡ some (digest token)
    pub until : after.request.claim_expires_at ≡ some (now + ttl)
    pub reserved : after.ledger ≡ s.ledger
    pub same_owner :
        (after.request.id ≡ s.request.id)
        × (after.request.organization_id ≡ s.request.organization_id)
        × (after.request.agent_id ≡ s.request.agent_id)
        × (after.request.credential_id ≡ s.request.credential_id)

  -- A claim that is granted has passed every guard after `_owned_request`, and leaves the request executing, locked to the
  -- digest of its token until the time to live is over, with the budget still reserved.
  pub claim_granted :
      (now ttl : ℕ) (token shown arguments : String) (s : Site)
      → (claim_sdk_request digest now ttl token s).0 ≡ granted shown arguments
      → Claimed now ttl token shown arguments s (claim_sdk_request digest now ttl token s).1
  unfolding claim_sdk_request expire_if_needed block tool_changed
  claim_granted now ttl token shown arguments s h = elim (Option-cases s.request.payload) [
    | inl missing ↦ absurd (ground arith)
    | inr (payload, e) ↦ record {
      told = ground arith;
      sdk = ground arith;
      was_open = ground arith;
      allowed = ground arith;
      in_time = ground arith;
      snapshot = payload.tool_snapshot_hash;
      frozen = ground arith;
      unchanged = ground arith;
      runs = ground arith;
      locked = ground arith;
      until = ground arith;
      reserved = ground arith;
      same_owner = (ground arith, ground arith, ground arith, ground arith);
    }
  ]

  report_again :
      (now : ℕ) (shown : Option String) (status : ResultStatus) (valid : Bool) (s : Site)
      → is_executing s.request.status ≡ false
      → (report_sdk_result digest now shown status valid s).1 ≡ s
  unfolding report_sdk_result
  report_again now shown status valid s h = rw h

  report_ends :
      (now : ℕ) (shown : Option String) (status : ResultStatus) (valid : Bool) (s : Site)
      (st : RequestStatus)
      → (report_sdk_result digest now shown status valid s).0 ≡ output st
      → is_executing (report_sdk_result digest now shown status valid s).1.request.status ≡ false
  unfolding report_sdk_result finalize
  report_ends now shown status valid s st h = ground arith

  -- A result is accepted only from who holds the token of a request that is executing, before the
  -- claim expires; and then no later report, with whatever token, changes anything.
  pub report_consumes :
      (now later : ℕ) (shown again : Option String) (status other : ResultStatus)
      (valid fits : Bool) (s : Site) (st : RequestStatus)
      → (report_sdk_result digest now shown status valid s).0 ≡ output st
      → let s' = (report_sdk_result digest now shown status valid s).1 in
        (is_executing s.request.status ≡ true)
        × (holds_claim digest shown s.request.execution_claim_hash ≡ true)
        × (is_expired now s.request.claim_expires_at ≡ false)
        × ((report_sdk_result digest later again other fits s').1 ≡ s')
  unfolding report_sdk_result finalize
  report_consumes now later shown again status other valid fits s st h = (
    ground arith,
    ground arith,
    ground arith,
    report_again later again other fits (report_sdk_result digest now shown status valid s).1
        (report_ends now shown status valid s st h),
  )
