-- ===== src/Approvals/Closing.antt =====
-- The state of an approval, its request, its votes and its budget reservations stay consistent, and
-- a resolution is final: `decide_approval` of apps/api/agentguard_api/admin_routes.py.
use aiagentguard.Budgets.Settle.{due}
use aiagentguard.Budgets.Invariant.{due-settle}
use aiagentguard.Approvals.{
  ApprovalState, pending, approved, rejected, expired, ApprovalDecision, Vote, Store, Answer,
  is_pending, awaits_approval, decided_by, approvals_in, rejects_in, eligible_count, needed,
  resolution_of, resolve, expire, vote, decide_approval,
}
use aiagentguard.Approvals.Quorum.{
  Branch, no_role, resolved, too_late, counted, decide_approval-Branch,
}
use aiagentguard.Prelude.{
  ℕ, ◌≤◌, String, ◌≡◌, refl, Bool, true, false, List, [], ◌∷◌, any, arith, Bool-cases, inl, inr,
  leb, ltb, ◌&&◌, ◌||◌, ◌+◌, str_eq, leb→le, ◌++◌, ◌∙◌,
}

-- No user has two decisions on one approval.
abbrev pub Once : List ApprovalDecision → Type 0
Once [] = Unit
Once (d ∷ ds) = (any (decided_by d.approval_request_id d.user_id) ds ≡ false) × Once ds

abbrev is_closed : ApprovalState → Bool
is_closed rejected = true
is_closed expired = true
is_closed _ = false

-- One user has one vote, the approval and its request are pending together, an approved one has its
-- threshold of votes, and a rejected or expired one holds no budget.
pub record IsSound (s : Store) : Type 0 where
  pub once : Once s.decisions
  pub together : is_pending s.approval.state ≡ awaits_approval s.request.status
  pub voted :
      s.approval.state ≡ approved
      → needed s.approval s.members ≤ approvals_in s.approval.id s.decisions
  pub released :
      is_closed s.approval.state ≡ true
      → (i start : ℕ) → due s.request.id i start s.ledger.reservations ≡ 0

vote-IsSound :
    (now user : ℕ) (choice : Vote) (comment : String) (s : Store)
    → IsSound s
    → is_pending s.approval.state ≡ true
    → awaits_approval s.request.status ≡ true
    → any (decided_by s.approval.id user) s.decisions ≡ false
    → IsSound (vote now user choice comment s).1
unfolding vote resolve resolution_of
vote-IsSound now user choice comment s h p q new =
    let ds =
      record {
        organization_id = s.approval.organization_id;
        approval_request_id = s.approval.id;
        user_id = user;
        decision = choice;
        comment = comment;
      }
      ∷ s.decisions in
    let threshold = needed s.approval s.members in
    let approvals = approvals_in s.approval.id ds in
    let rejects = rejects_in s.approval.id ds in
    let open_state : s.approval.state ≡ pending = ground arith in
    elim (Bool-cases (leb threshold approvals)) [
      | inl won ↦ rw won (record {
        once = (new, h.once);
        together = refl;
        voted = λ e. leb→le threshold approvals won;
        released = λ e. cc;
      })
      | inr short ↦
          elim (Bool-cases (
            ltb 0 rejects
            && ((str_eq s.approval.mode "any" || str_eq s.approval.mode "all")
                || ltb (eligible_count s.approval s.members) (threshold + rejects)))) [
                  | inl lost ↦
                      rw (short, lost)
                        (record {
                          once = (new, h.once);
                          together = refl;
                          voted = λ e. cc;
                          released = λ e i start. due-settle false s.request.id s.ledger i start;
                        })
                  | inr waits ↦
                      rw (short, waits)
                        (record {
                          once = (new, h.once);
                          together = h.together;
                          voted = λ e. cc;
                          released = λ e. cc;
                        })
                ]
    ]

Branch-IsSound :
    (now user : ℕ) (role : String) (choice : Vote) (comment : String) (s : Store)
    {result : Answer × Store}
    → IsSound s
    → Branch now user role choice comment s result
    → IsSound result.1
unfolding expire
Branch-IsSound now user role choice comment s h (no_role outside) = h
Branch-IsSound now user role choice comment s h (resolved inside why) = h
Branch-IsSound now user role choice comment s h (too_late inside p q late) = record {
  once = h.once;
  together = refl;
  voted = λ e. cc;
  released = λ e i start. due-settle false s.request.id s.ledger i start;
}
Branch-IsSound now user role choice comment s h (counted inside p q early new) =
    vote-IsSound now user choice comment s h p q new

-- Every call keeps a sound store sound.
pub decide_approval-IsSound :
    (now user : ℕ) (role : String) (choice : Vote) (comment : String) (s : Store)
    → IsSound s
    → IsSound (decide_approval now user role choice comment s).1
decide_approval-IsSound now user role choice comment s h =
    Branch-IsSound now user role choice comment s h
      (decide_approval-Branch now user role choice comment s)

closed_stays :
    (now user : ℕ) (role : String) (choice : Vote) (comment : String) (s : Store)
    → is_pending s.approval.state ≡ false
    → (decide_approval now user role choice comment s).1 ≡ s
unfolding decide_approval
closed_stays now user role choice comment s h =
    elim (Bool-cases (any (str_eq role) s.approval.eligible_roles)) [
      | inl inside ↦ rw (inside, h)
      | inr outside ↦ rw outside
    ]

-- A call of the handler, with the time at which it runs.
pub record Call : Type 0 where
  pub now : ℕ
  pub user : ℕ
  pub role : String
  pub choice : Vote
  pub comment : String

abbrev pub run : List Call → Store → Store
run [] s = s
run (c ∷ cs) s = run cs (decide_approval c.now c.user c.role c.choice c.comment s).1

run-append :
    (calls later : List Call) (s : Store) → run (calls ++ later) s ≡ run later (run calls s)
run-append [] later s = refl
run-append (c ∷ cs) later s =
    run-append cs later (decide_approval c.now c.user c.role c.choice c.comment s).1

run-closed : (calls : List Call) (s : Store) → is_pending s.approval.state ≡ false → run calls s ≡ s
run-closed [] s h = refl
run-closed (c ∷ cs) s h =
    rw (closed_stays c.now c.user c.role c.choice c.comment s h) (run-closed cs s h)

run-IsSound : (calls : List Call) (s : Store) → IsSound s → IsSound (run calls s)
run-IsSound [] s h = h
run-IsSound (c ∷ cs) s h =
    run-IsSound cs (decide_approval c.now c.user c.role c.choice c.comment s).1
      (decide_approval-IsSound c.now c.user c.role c.choice c.comment s h)

-- A resolution is final: once some calls have left an approval that is no longer pending, later
-- calls, by whomever and whenever, change nothing; and the store that stays is sound, if the calls
-- began at a sound one.
pub resolution_final :
    (calls later : List Call) (s : Store)
    → IsSound s
    → is_pending (run calls s).approval.state ≡ false
    → (run (calls ++ later) s ≡ run calls s) × IsSound (run (calls ++ later) s)
resolution_final calls later s h closed = (
  run-append calls later s ∙ run-closed later (run calls s) closed,
  run-IsSound (calls ++ later) s h,
)
