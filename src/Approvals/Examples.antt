-- ===== src/Approvals/Examples.antt =====
-- Two of three approvers, and the theorems on approvals at them.
use aiagentguard.Budgets.{reserved}
use aiagentguard.Approvals.{
  pending, pending_approval, Member, Vote, approve, reject, Store, resolution_of, resolve, vote,
  decide_approval,
}
use aiagentguard.Approvals.Closing.{IsSound, Call, run, decide_approval-IsSound, resolution_final}
use aiagentguard.Prelude.{ℕ, ◌≡◌, refl, true, none, some, [], ◌∷◌, ◌++◌}

abbrev member : ℕ → Member
member user = record { organization_id = 1; user_id = user; role = "approver"; active = true }

abbrev quorum : Store
quorum = record {
  approval = record {
    id = 7;
    organization_id = 1;
    mode = "quorum";
    threshold = 2;
    eligible_roles = "owner" ∷ "approver" ∷ [];
    state = pending;
    expires_at = 100;
    resolved_at = none;
  };
  request = record { id = 3; status = pending_approval };
  decisions = [];
  members = member 11 ∷ member 12 ∷ member 13 ∷ [];
  ledger = record {
    usages = λ i s. some (record { used_minor = 0; reserved_minor = 500 });
    reservations =
        record { budget_id = 1; period = 0; request_id = 3; amount_minor = 500; state = reserved }
        ∷ [];
  };
  events = [];
}

quorum-IsSound : IsSound quorum
quorum-IsSound = record { once = tt; together = refl; voted = λ e. cc; released = λ e. cc }

abbrev call : ℕ → Vote → Call
call user choice = record {
  now = 10;
  user = user;
  role = "approver";
  choice = choice;
  comment = "";
}

decide_approval-IsSound_example : IsSound (decide_approval 200 11 "approver" approve "" quorum).1
decide_approval-IsSound_example =
    decide_approval-IsSound 200 11 "approver" approve "" quorum quorum-IsSound

-- Two rejections leave one voter, so the quorum of two is out of reach.
resolution_final_example :
    (run ((call 11 reject ∷ call 12 reject ∷ []) ++ (call 13 approve ∷ [])) quorum
      ≡ run (call 11 reject ∷ call 12 reject ∷ []) quorum)
    × IsSound (run ((call 11 reject ∷ call 12 reject ∷ []) ++ (call 13 approve ∷ [])) quorum)
unfolding decide_approval vote resolve resolution_of
resolution_final_example =
    resolution_final (call 11 reject ∷ call 12 reject ∷ []) (call 13 approve ∷ []) quorum
      quorum-IsSound refl
