-- ===== src/Budgets/Invariant.antt =====
-- The invariants of the budget tables under `reserve_budgets` and `settle_budget_reservations` of
-- apps/api/agentguard_api/limits.py.
use aiagentguard.Budgets.{
  Budget, BudgetReservation, Usages, Ledger, Facts, reserved, Verdict, granted, refused, used_at,
  reserved_at, charge_row, charge, conclude, is_due, settle_reservation, collect, reserve_budgets,
  settle_usage, settle_rows, settle_budget_reservations,
}
use aiagentguard.Budgets.Checks.{times}
use aiagentguard.Budgets.Reserve.{chosen, reserved-charge_row, reserved-collect}
use aiagentguard.Budgets.Settle.{held, due, IsAccounted, held-settle_rows, settle_rows_amounts}
use aiagentguard.Prelude.{
  ℕ, ◌+◌, ◌*◌, ◌≡◌, refl, Bool, true, false, Option, none, some, List, [], ◌∷◌, ◌++◌, arith, leb,
  inl, inr, Bool-cases, if◌then◌else◌, ◌∙◌,
}

held-append :
    (i s : ℕ) (xs ys : List BudgetReservation) → held i s (xs ++ ys) ≡ held i s xs + held i s ys
held-append i s [] ys = omega arith
held-append i s (x ∷ xs) ys = omega (arith, held-append i s xs ys)

held-charge_row :
    (amount request b t : ℕ) (l : Ledger) (i s : ℕ)
    → held i s (charge_row amount request b t l).reservations
      ≡ held i s l.reservations + times i s ((b, t) ∷ []) * amount
unfolding charge_row
held-charge_row amount request b t l i s = ground (
  arith,
  held-append i s l.reservations (
      record {
        budget_id = b;
        period = t;
        request_id = request;
        amount_minor = amount;
        state = reserved;
      }
      ∷ []),
)

charge_row-IsAccounted :
    (amount request b t : ℕ) (l : Ledger)
    → IsAccounted l
    → IsAccounted (charge_row amount request b t l)
charge_row-IsAccounted amount request b t l h i s =
    reserved-charge_row amount request b t l i s
    ∙ omega (arith, h i s, held-charge_row amount request b t l i s)

charge-IsAccounted :
    (amount request : ℕ) (pending : List (ℕ × ℕ)) (l : Ledger)
    → IsAccounted l
    → IsAccounted (charge amount request pending l)
unfolding charge
charge-IsAccounted amount request [] l h = h
charge-IsAccounted amount request ((b, t) ∷ pending) l h =
    charge-IsAccounted amount request pending (charge_row amount request b t l)
      (charge_row-IsAccounted amount request b t l h)

conclude-IsAccounted :
    (amount request : ℕ) (verdict : Verdict) (pending : List (ℕ × ℕ)) (l : Ledger)
    → IsAccounted l
    → IsAccounted (conclude amount request verdict pending l).1
unfolding conclude
conclude-IsAccounted amount request granted pending l h =
    charge-IsAccounted amount request pending l h
conclude-IsAccounted amount request (refused why) pending l h = h

-- Whatever the verdict, a reservation keeps the accounts: each usage row still holds what its open
-- reservations add up to.
pub reserve_budgets-IsAccounted :
    (facts : Facts) (now amount : ℕ) (table : List Budget) (organization request : ℕ) (l : Ledger)
    → IsAccounted l
    → IsAccounted (reserve_budgets facts now amount table organization request l).1
unfolding reserve_budgets
reserve_budgets-IsAccounted facts now amount table organization request l h =
    let bs = chosen organization table in
    let (verdict, pending, rows) = collect facts now amount bs [] l.usages in
    let seen : Ledger = record l { usages = rows } in
    let h' : IsAccounted seen =
      λ i s. ground (arith, h i s, reserved-collect facts now amount bs [] l.usages i s) in
    elim (Bool-cases (leb amount 0)) [
      | inl nothing ↦ rw nothing h
      | inr positive ↦ rw positive (conclude-IsAccounted amount request verdict pending seen h')
    ]

-- Settling a request keeps the accounts, moves exactly the request's open reservations, off the
-- reserved amounts and, if the action succeeded, onto the spent ones.
pub settle_moves :
    (request : ℕ) (succeeded : Bool) (l : Ledger)
    → IsAccounted l
    → let l' = settle_budget_reservations request (some succeeded) l in
      IsAccounted l'
      × ((i s : ℕ)
          → (reserved_at l'.usages i s + due request i s l.reservations ≡ reserved_at l.usages i s)
            × (used_at l'.usages i s
                ≡ used_at l.usages i s + (if succeeded then due request i s l.reservations else 0)))
unfolding settle_budget_reservations
settle_moves request succeeded l h =
    let moved = λ (i s : ℕ).
      settle_rows_amounts succeeded request l.reservations l.usages (λ i s. 0)
        (λ i s. omega (arith, h i s)) i s in
    (
      λ i s. omega (arith, moved i s),
      λ i s. (
        omega (
          arith,
          moved i s,
          h i s,
          held-settle_rows succeeded request l.reservations l.usages i s,
        ),
        (moved i s).1,
      ),
    )

not_due_twice :
    (succeeded : Bool) (request : ℕ) (r : BudgetReservation)
    → is_due request (settle_reservation succeeded request r) ≡ false
unfolding settle_reservation
not_due_twice true request r = ground arith
not_due_twice false request r = ground arith

due-settle_rows :
    (succeeded : Bool) (request : ℕ) (rs : List BudgetReservation) (us : Usages) (i start : ℕ)
    → due request i start (settle_rows succeeded request rs us).0 ≡ 0
unfolding settle_rows
due-settle_rows succeeded request [] us i start = refl
due-settle_rows succeeded request (r ∷ rs) us i start = ground (
  arith,
  not_due_twice succeeded request r,
  due-settle_rows succeeded request rs
      (if is_due request r then settle_usage succeeded r us else us) i start,
)

-- Settling leaves nothing due.
pub due-settle :
    (succeeded : Bool) (request : ℕ) (l : Ledger) (i start : ℕ)
    → due request i start (settle_budget_reservations request (some succeeded) l).reservations ≡ 0
unfolding settle_budget_reservations
due-settle succeeded request l i start =
    due-settle_rows succeeded request l.reservations l.usages i start

settle_not_due :
    (succeeded : Bool) (request : ℕ) (r : BudgetReservation)
    → is_due request r ≡ false
    → settle_reservation succeeded request r ≡ r
unfolding settle_reservation
settle_not_due succeeded request r h = rw h

settle_rows_again :
    (again succeeded : Bool) (request : ℕ) (rs : List BudgetReservation) (us vs : Usages)
    → settle_rows again request (settle_rows succeeded request rs us).0 vs
      ≡ ((settle_rows succeeded request rs us).0, vs)
unfolding settle_rows
settle_rows_again again succeeded request [] us vs = refl
settle_rows_again again succeeded request (r ∷ rs) us vs =
    let settled = not_due_twice succeeded request r in
    let us' = if is_due request r then settle_usage succeeded r us else us in
    rw (settled, settle_not_due again request (settle_reservation succeeded request r) settled)
      (rw (settle_rows_again again succeeded request rs us' vs))

-- A request is settled once: after a call with a known outcome, a later call, whatever outcome it
-- reports, changes nothing.
pub settle_once :
    (request : ℕ) (first : Bool) (later : Option Bool) (l : Ledger)
    → settle_budget_reservations request later (settle_budget_reservations request (some first) l)
      ≡ settle_budget_reservations request (some first) l
unfolding settle_budget_reservations
settle_once request first none l = refl
settle_once request first (some again) l = rw settle_rows_again
