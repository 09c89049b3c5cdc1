-- ===== src/Approvals/Quorum.antt =====
-- What a vote leads to: the branches of `decide_approval` and the resolution that it writes
-- (apps/api/agentguard_api/admin_routes.py).
use aiagentguard.Budgets.{Ledger, settle_budget_reservations}
use aiagentguard.Approvals.{
  ApprovalRequest, ApprovalState, pending, approved, rejected, expired, RequestStatus,
  pending_approval, request_approved, request_rejected, request_expired, Vote, Store, Answer,
  forbidden, conflict, gone, decided, is_pending, awaits_approval, decided_by, approvals_in,
  rejects_in, eligible_count, needed, expire, vote, decide_approval,
}
use aiagentguard.Prelude.{
  ℕ, ◌+◌, ◌≤◌, ◌<◌, String, ◌≡◌, some, false, Bool, true, not, ◌||◌, ◌∷◌, any, leb, str_eq,
  Bool-cases, ◌⊎◌, inl, inr, arith,
}

-- The branches of a call.
pub data Branch (now user : ℕ) (role : String) (choice : Vote) (comment : String) (s : Store)
    : Answer × Store → Type 0 where
  no_role :
      any (str_eq role) s.approval.eligible_roles ≡ false
      → Branch now user role choice comment s (forbidden, s)
  resolved :
      any (str_eq role) s.approval.eligible_roles ≡ true
      → (not (is_pending s.approval.state) || not (awaits_approval s.request.status) ≡ true)
        ⊎ ((leb s.approval.expires_at now ≡ false)
            × (any (decided_by s.approval.id user) s.decisions ≡ true))
      → Branch now user role choice comment s (conflict, s)
  too_late :
      any (str_eq role) s.approval.eligible_roles ≡ true
      → is_pending s.approval.state ≡ true
      → awaits_approval s.request.status ≡ true
      → leb s.approval.expires_at now ≡ true
      → Branch now user role choice comment s (gone, expire now s)
  counted :
      any (str_eq role) s.approval.eligible_roles ≡ true
      → is_pending s.approval.state ≡ true
      → awaits_approval s.request.status ≡ true
      → leb s.approval.expires_at now ≡ false
      → any (decided_by s.approval.id user) s.decisions ≡ false
      → Branch now user role choice comment s (vote now user choice comment s)

-- Both tests of the second guard.
both_pending : (p q : Bool) → not p || not q ≡ false → (p ≡ true) × (q ≡ true)
both_pending p q h = ground arith

pub decide_approval-Branch :
    (now user : ℕ) (role : String) (choice : Vote) (comment : String) (s : Store)
    → Branch now user role choice comment s (decide_approval now user role choice comment s)
unfolding decide_approval
decide_approval-Branch now user role choice comment s =
    elim (Bool-cases (any (str_eq role) s.approval.eligible_roles)) [
      | inr outside ↦ rw outside (no_role outside)
      | inl inside ↦
          elim (Bool-cases
            (not (is_pending s.approval.state) || not (awaits_approval s.request.status))) [
              | inl closed ↦ rw (inside, closed) (resolved inside (inl closed))
              | inr open_still ↦ elim (Bool-cases (leb s.approval.expires_at now)) [
                | inl late ↦
                    let (p, q) =
                      both_pending (is_pending s.approval.state) (awaits_approval s.request.status)
                        open_still in
                    rw (inside, open_still, late) (too_late inside p q late)
                | inr early ↦ elim (Bool-cases (any (decided_by s.approval.id user) s.decisions)) [
                  | inl again ↦
                      rw (inside, open_still, early, again) (resolved inside (inr (early, again)))
                  | inr new ↦
                      let (p, q) =
                        both_pending (is_pending s.approval.state)
                          (awaits_approval s.request.status) open_still in
                      rw (inside, open_still, early, new) (counted inside p q early new)
                ]
              ]
            ]
    ]

-- What the votes amount to; `released` is the ledger with the request's reservations given back.
pub data Outcome (a : ApprovalRequest) (before released after : Ledger)
    (approvals rejects eligible threshold : ℕ) : ApprovalState → RequestStatus → Type 0 where
  enough :
      threshold ≤ approvals
      → after ≡ before
      → Outcome a before released after approvals rejects eligible threshold approved
          request_approved
  hopeless :
      approvals < threshold
      → 0 < rejects
      → (str_eq a.mode "any" || str_eq a.mode "all" ≡ true) ⊎ (eligible < threshold + rejects)
      → after ≡ released
      → Outcome a before released after approvals rejects eligible threshold rejected
          request_rejected
  waiting :
      approvals < threshold
      → (rejects ≡ 0) ⊎ (threshold + rejects ≤ eligible)
      → after ≡ before
      → Outcome a before released after approvals rejects eligible threshold pending
          pending_approval

-- What an answer says of the call, of the store that it found and of the one that is committed.
abbrev pub Told :
    (now user : ℕ) (role : String) (choice : Vote) (comment : String)
    → Store
    → Answer × Store
    → Type 0
Told now user role choice comment s (forbidden, s') =
    (any (str_eq role) s.approval.eligible_roles ≡ false) × (s' ≡ s)
Told now user role choice comment s (conflict, s') =
    (any (str_eq role) s.approval.eligible_roles ≡ true)
    × ((not (is_pending s.approval.state) || not (awaits_approval s.request.status) ≡ true)
        ⊎ ((now < s.approval.expires_at)
            × (any (decided_by s.approval.id user) s.decisions ≡ true)))
    × (s' ≡ s)
Told now user role choice comment s (gone, s') =
    (any (str_eq role) s.approval.eligible_roles ≡ true)
    × (s.approval.expires_at ≤ now)
    × (s.approval.state ≡ pending)
    × (s.request.status ≡ pending_approval)
    × (s'.approval.state ≡ expired)
    × (s'.request.status ≡ request_expired)
    × (s'.decisions ≡ s.decisions)
    × (s'.ledger ≡ settle_budget_reservations s.request.id (some false) s.ledger)
Told now user role choice comment s (decided state status approvals rejects threshold, s') =
    (any (str_eq role) s.approval.eligible_roles ≡ true)
    × (now < s.approval.expires_at)
    × (s.approval.state ≡ pending)
    × (s.request.status ≡ pending_approval)
    × (any (decided_by s.approval.id user) s.decisions ≡ false)
    × (s'.decisions
        ≡ record {
          organization_id = s.approval.organization_id;
          approval_request_id = s.approval.id;
          user_id = user;
          decision = choice;
          comment = comment;
        }
          ∷ s.decisions)
    × (state ≡ s'.approval.state)
    × (status ≡ s'.request.status)
    × (approvals ≡ approvals_in s.approval.id s'.decisions)
    × (rejects ≡ rejects_in s.approval.id s'.decisions)
    × (threshold ≡ needed s.approval s.members)
    × Outcome s.approval s.ledger (settle_budget_reservations s.request.id (some false) s.ledger)
        s'.ledger approvals rejects (eligible_count s.approval s.members) threshold state status
