-- ===== src/Authorize/Earned.antt =====
-- When `authorize` answers that an action is authorized, and what it leaves of the budgets when it
-- does not.
use aiagentguard.Json.{Numbers}
use aiagentguard.Access.{active_kill_reason, is_truthy}
use aiagentguard.Approvals.{RequestStatus, authorized, pending_approval}
use aiagentguard.Budgets.{Facts, reserve_budgets, conclude}
use aiagentguard.RateLimits.{Backend, acquire_rate_limits}
use aiagentguard.Policy.Errors.{Result-cases, ok}
use aiagentguard.Policy.Documents.{Action, allow}
use aiagentguard.Policy.Evaluation.{Decision as PolicyDecision}
use aiagentguard.Authorize.Limits.{
  Capacity, consume, action_quota_available, is_admitted, is_granted, goes_on,
}
use aiagentguard.Authorize.Overrides.{Decision, allowed, decision_of, Checks, override}
use aiagentguard.Authorize.Rows.{Store, Outcome, answered}
use aiagentguard.Authorize.Lookups.{Libraries, Settings, Call, status_of, replay}
use aiagentguard.Authorize.Pipeline.{
  Prepared, Preparation, raised, prepared, prepare, facts_of, limit_facts, policy_of, checks_of,
  decision_before, request_row, write, consumed, issue, authorize_new, authorize,
}
use aiagentguard.Prelude.{
  ℕ, String, Bool, true, false, not, ◌&&◌, ◌||◌, none, some, ◌≡◌, refl, sym, ◌∙◌, ◌⊎◌, inl, inr,
  Option-cases, str_eq, arith,
}

-- Nothing stands above the policy.
abbrev pub is_clear : Checks → Bool
is_clear c =
    (str_eq c.agent.status "active"
      && not (is_truthy (active_kill_reason c.switches c.agent (some c.tool))))
    && (not c.tool.disabled
        && (not c.denied_permission
            && (not c.other_environment
                && not (
                    c.has_findings
                    && (str_eq c.dlp_action "block" || str_eq c.dlp_action "approval")))))

override-allowed :
    (c : Checks) (d : Decision) → override c d ≡ allowed → (d ≡ allowed) × (is_clear c ≡ true)
unfolding override
override-allowed c d h = ground arith

-- The rate limits, the quota and the budgets let an action through.
abbrev pub has_capacity : Backend → ℕ → ℕ → ℕ → Facts → ℕ → Capacity → Bool
has_capacity backend now organization id facts amount c =
    is_admitted (acquire_rate_limits backend now organization facts c.limits c.buckets).0
    && (action_quota_available now organization c.plan c.usage
        && is_granted (reserve_budgets facts now amount c.budgets organization id c.ledger).0)

consume-allowed :
    (backend : Backend) (now organization id : ℕ) (facts : Facts) (amount : ℕ) (d : Decision)
    (c : Capacity)
    → (consume backend now organization id facts amount d c).0 ≡ allowed
    → (d ≡ allowed) × (has_capacity backend now organization id facts amount c ≡ true)
unfolding consume
consume-allowed backend now organization id facts amount d c h = ground arith

status_of-authorized : (d : Decision) → status_of d ≡ authorized → d ≡ allowed
status_of-authorized d h = ground arith

decision_of-allowed : (a : Action) → decision_of a ≡ allowed → a ≡ allow
decision_of-allowed a h = ground arith

-- No row is written for a refusal.
refused_reservations :
    (facts : Facts) (now amount : ℕ) (c : Capacity) (organization id : ℕ)
    → is_granted (reserve_budgets facts now amount c.budgets organization id c.ledger).0 ≡ false
    → (reserve_budgets facts now amount c.budgets organization id c.ledger).1.reservations
      ≡ c.ledger.reservations
unfolding reserve_budgets conclude
refused_reservations facts now amount c organization id h = ground arith

consume_reservations :
    (backend : Backend) (now organization id : ℕ) (facts : Facts) (amount : ℕ) (d : Decision)
    (c : Capacity)
    → goes_on (consume backend now organization id facts amount d c).0 ≡ false
    → (consume backend now organization id facts amount d c).1.ledger.reservations
      ≡ c.ledger.reservations
unfolding consume
consume_reservations backend now organization id facts amount d c h =
    ground (arith, refused_reservations facts now amount c organization id)

abbrev is_status : RequestStatus → Bool
is_status authorized = true
is_status _ = false

abbrev may_proceed : RequestStatus → Bool
may_proceed authorized = true
may_proceed pending_approval = true
may_proceed _ = false

abbrev pub is_authorized : {N : Type 0} → Outcome N → Bool
is_authorized (answered r tool) = is_status r.status
is_authorized _ = false

abbrev pub proceeds : {N : Type 0} → Outcome N → Bool
proceeds (answered r tool) = may_proceed r.status
proceeds _ = false

pub Preparation-cases :
    {N : Type 0} (x : Preparation N)
    → ((p : Prepared N) × (x ≡ prepared p))
      ⊎ ((code : ℕ) × (detail : String) × (x ≡ raised code detail))
Preparation-cases (prepared p) = inl (p, refl)
Preparation-cases (raised code detail) = inr (code, detail, refl)

module _ (numbers : Numbers) (libraries : Libraries numbers) (settings : Settings)
    (call : Call numbers.Number) (s : Store numbers.Number) where
  open numbers use {Number}

  abbrev capacity_for : Prepared Number → Bool
  capacity_for p =
      has_capacity settings.backend call.now p.organization.number call.id
        (limit_facts numbers libraries (facts_of numbers libraries call s p)) p.amount_minor
        s.capacity

  -- What an authorization rests on.
  abbrev pub IsEarned : Type 0
  IsEarned =
      (p : Prepared Number) × (policy : PolicyDecision Number) × (prepare numbers libraries call s
        ≡ prepared p)
      × (policy_of numbers libraries call s p ≡ ok policy)
      × (policy.decision ≡ allow)
      × (is_clear (checks_of numbers libraries call s p) ≡ true)
      × (capacity_for p ≡ true)

  is_status-status_of : (d : Decision) → is_status (status_of d) ≡ true → d ≡ allowed
  is_status-status_of d h = ground arith

  may_proceed-status_of : (d : Decision) → may_proceed (status_of d) ≡ goes_on d
  may_proceed-status_of d = ground arith

  issue-Earned :
      (p : Prepared Number) (policy : PolicyDecision Number)
      → is_authorized (issue numbers libraries settings call s p policy).0 ≡ true
      → (policy.decision ≡ allow)
        × (is_clear (checks_of numbers libraries call s p) ≡ true)
        × (capacity_for p ≡ true)
  unfolding issue write request_row consumed decision_before
  issue-Earned p policy h =
      let facts = limit_facts numbers libraries (facts_of numbers libraries call s p) in
      let (kept, room) =
        consume-allowed settings.backend call.now p.organization.number call.id facts p.amount_minor
          (decision_before numbers libraries call s p policy) s.capacity
          (is_status-status_of (consumed numbers libraries settings call s p policy).0 h) in
      let (agreed, clear) =
        override-allowed (checks_of numbers libraries call s p) (decision_of policy.decision)
          kept in
      (decision_of-allowed policy.decision agreed, clear, room)

  new-Earned : is_authorized (authorize_new numbers libraries settings call s).0 ≡ true → IsEarned
  unfolding authorize_new
  new-Earned h = elim (Preparation-cases (prepare numbers libraries call s)) [
    | inl (p, e) ↦ elim (Result-cases (policy_of numbers libraries call s p)) [
      | inl (policy, e') ↦
          let (agreed, clear, room) = issue-Earned p policy (ground arith) in
          (p, policy, e, e', agreed, clear, room)
      | inr (why, e') ↦ absurd (ground arith)
    ]
    | inr (code, detail, e) ↦ absurd (ground arith)
  ]

  -- An action that is authorized, and not by an earlier answer, is one that the policies allow, that
  -- nothing stands above, and for which the rate limits, the quota and the budgets have room.
  pub authorize-Earned :
      replay numbers libraries call s ≡ none
      → is_authorized (authorize numbers libraries settings call s).0 ≡ true
      → IsEarned
  unfolding authorize
  authorize-Earned fresh h = new-Earned (ground arith)

  issue_reservations :
      (p : Prepared Number) (policy : PolicyDecision Number)
      → proceeds (issue numbers libraries settings call s p policy).0 ≡ false
      → (issue numbers libraries settings call s p policy).1.capacity.ledger.reservations
        ≡ s.capacity.ledger.reservations
  unfolding issue write request_row consumed
  issue_reservations p policy h =
      consume_reservations settings.backend call.now p.organization.number call.id
        (limit_facts numbers libraries (facts_of numbers libraries call s p)) p.amount_minor
        (decision_before numbers libraries call s p policy) s.capacity
        (sym (may_proceed-status_of (consumed numbers libraries settings call s p policy).0) ∙ h)

  new_reservations :
      proceeds (authorize_new numbers libraries settings call s).0 ≡ false
      → (authorize_new numbers libraries settings call s).1.capacity.ledger.reservations
        ≡ s.capacity.ledger.reservations
  unfolding authorize_new
  new_reservations h = elim (Preparation-cases (prepare numbers libraries call s)) [
    | inl (p, e) ↦ elim (Result-cases (policy_of numbers libraries call s p)) [
      | inl (policy, e') ↦ ground (arith, issue_reservations p policy)
      | inr (why, e') ↦ ground arith
    ]
    | inr (code, detail, e) ↦ ground arith
  ]

  -- An answer that is neither authorized nor pending writes no reservation.
  pub authorize_reservations :
      proceeds (authorize numbers libraries settings call s).0 ≡ false
      → (authorize numbers libraries settings call s).1.capacity.ledger.reservations
        ≡ s.capacity.ledger.reservations
  unfolding authorize
  authorize_reservations h = elim (Option-cases (replay numbers libraries call s)) [
    | inl fresh ↦ ground (arith, new_reservations)
    | inr (outcome, e) ↦ ground arith
  ]
