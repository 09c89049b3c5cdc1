-- ===== src/Execution/Dispatch.antt =====
-- A request is carried out at most once: the handlers of
-- apps/api/agentguard_api/runtime_routes.py, one transaction after the other, in any order.
use aiagentguard.Approvals.{
  RequestStatus, evaluating, authorized, pending_approval, request_approved, awaits_approval,
}
use aiagentguard.Execution.{
  Site, Reply, output, granted, called, ResultStatus, result_succeeded, result_failed,
  expire_if_needed, finalize, finish_remote, block, tool_changed, start_remote, expire_claim,
  claim_sdk_request, report_sdk_result,
}
use aiagentguard.Prelude.{
  ℕ, ◌+◌, ◌≤◌, String, Bool, Option, none, List, [], ◌∷◌, if◌then◌else◌, arith,
}

-- The transactions on a request; `approve_it` is the write of a granted approval.
pub data Operation : Type 0 where
  query : (now : ℕ) → Operation
  claim : (now ttl : ℕ) → (claim_token : String) → Operation
  start : (now : ℕ) → Operation
  finish : (now : ℕ) → ResultStatus → Operation
  report : (now : ℕ) → Option String → ResultStatus → (valid : Bool) → Operation
  overdue : (now : ℕ) → Operation
  approve_it : Operation

abbrev approved_site : Site → Site
approved_site s =
    if awaits_approval s.request.status
    then record s { request = record s.request { status = request_approved } }
    else s

abbrev pub hands_out : Reply → ℕ
hands_out (granted token arguments) = 1
hands_out (called arguments) = 1
hands_out _ = 0

-- How often a request in this state can still be carried out.
abbrev pub chances : RequestStatus → ℕ
chances evaluating = 1
chances pending_approval = 1
chances authorized = 1
chances request_approved = 1
chances _ = 0

-- One transaction never gives back a chance, and uses one up when it hands out the arguments.
abbrev Spends : Site → Reply × Site → Type 0
Spends s result = hands_out result.0 + chances result.1.request.status ≤ chances s.request.status

expire-Spends :
    (now : ℕ) (s : Site)
    → chances (expire_if_needed now s).request.status ≤ chances s.request.status
unfolding expire_if_needed
expire-Spends now s = ground arith

start-Spends : (now : ℕ) (s : Site) → Spends s (start_remote now s)
unfolding start_remote block tool_changed
start-Spends now s = ground arith

overdue-Spends :
    (now : ℕ) (s : Site) → chances (expire_claim now s).request.status ≤ chances s.request.status
unfolding expire_claim
overdue-Spends now s = ground arith

finalize-Spends :
    (now : ℕ) (status : ResultStatus) (known : Option Bool) (s : Site)
    → Spends s (finalize now status known s)
unfolding finalize
finalize-Spends now result_succeeded known s = ground arith
finalize-Spends now result_failed known s = ground arith

approved-Spends : (s : Site) → chances (approved_site s).request.status ≤ chances s.request.status
approved-Spends s = ground arith

module _ (digest : String → String) where
  claim-Spends :
      (now ttl : ℕ) (token : String) (s : Site)
      → Spends s (claim_sdk_request digest now ttl token s)
  unfolding claim_sdk_request block tool_changed
  claim-Spends now ttl token s = ground (arith, expire-Spends now s)

  report-Spends :
      (now : ℕ) (shown : Option String) (status : ResultStatus) (valid : Bool) (s : Site)
      → Spends s (report_sdk_result digest now shown status valid s)
  unfolding report_sdk_result finalize
  report-Spends now shown status valid s = ground arith

  abbrev pub perform : Operation → Site → Reply × Site
  perform (query now) s = let s' = expire_if_needed now s in (output s'.request.status, s')
  perform (claim now ttl claim_token) s = claim_sdk_request digest now ttl claim_token s
  perform (start now) s = start_remote now (expire_if_needed now s)
  perform (finish now status) s = finish_remote now status s
  perform (report now shown status valid) s = report_sdk_result digest now shown status valid s
  perform (overdue now) s = let s' = expire_claim now s in (output s'.request.status, s')
  perform approve_it s = let s' = approved_site s in (output s'.request.status, s')

  perform-Spends : (o : Operation) (s : Site) → Spends s (perform o s)
  perform-Spends (query now) s = omega (arith, expire-Spends now s)
  perform-Spends (claim now ttl token) s = claim-Spends now ttl token s
  perform-Spends (start now) s =
      omega (arith, start-Spends now (expire_if_needed now s), expire-Spends now s)
  perform-Spends (finish now status) s = finalize-Spends now status none s
  perform-Spends (report now shown status valid) s = report-Spends now shown status valid s
  perform-Spends (overdue now) s = omega (arith, overdue-Spends now s)
  perform-Spends approve_it s = omega (arith, approved-Spends s)

  -- How often a sequence of transactions hands out the arguments.
  abbrev pub hand_outs : List Operation → Site → ℕ
  hand_outs [] s = 0
  hand_outs (o ∷ os) s = hands_out (perform o s).0 + hand_outs os (perform o s).1

  -- Whatever the transactions on a request and their order, its arguments are handed out at most
  -- once, to an agent's process or to the provider, and not at all from a state in which it is
  -- executing, or was executed, rejected, blocked, failed or expired.
  pub dispatched_once : (os : List Operation) (s : Site) → hand_outs os s ≤ chances s.request.status
  dispatched_once [] s = omega arith
  dispatched_once (o ∷ os) s = omega (arith, perform-Spends o s, dispatched_once os (perform o s).1)
