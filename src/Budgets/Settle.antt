-- ===== src/Budgets/Settle.antt =====
-- The accounts: every usage row holds what its open reservations add up to. Both
-- `reserve_budgets` and `settle_budget_reservations` of apps/api/agentguard_api/limits.py keep
-- this, so the `max(0, …)` of the code never cuts anything off.
use aiagentguard.Budgets.{
  BudgetReservation, Usages, Ledger, used_at, reserved_at, settle_usage, settle_rows,
  settle_reservation, is_reserved, is_due,
}
use mathlib.Core.Path.{subst₂}
use aiagentguard.Prelude.{
  ℕ, ◌+◌, ◌-◌, ◌≤◌, ◌≡◌, refl, Bool, true, false, ◌&&◌, List, [], ◌∷◌, arith, ◌==◌, inl, inr,
  Bool-cases, Option-cases, if◌then◌else◌,
}

abbrev on_row : ℕ → ℕ → BudgetReservation → Bool
on_row i s r = r.budget_id == i && r.period == s

-- What the open reservations of a row add up to, and those of one request.
abbrev pub held : ℕ → ℕ → List BudgetReservation → ℕ
held i s [] = 0
held i s (r ∷ rs) =
    (if on_row i s r && is_reserved r.state then r.amount_minor else 0) + held i s rs

abbrev pub due : ℕ → ℕ → ℕ → List BudgetReservation → ℕ
due request i s [] = 0
due request i s (r ∷ rs) =
    (if on_row i s r && is_due request r then r.amount_minor else 0) + due request i s rs

abbrev pub IsAccounted : Ledger → Type 0
IsAccounted l = (i s : ℕ) → reserved_at l.usages i s ≡ held i s l.reservations

reserved-settle_self :
    (succeeded : Bool) (r : BudgetReservation) (us : Usages)
    → reserved_at (settle_usage succeeded r us) r.budget_id r.period
      ≡ reserved_at us r.budget_id r.period - r.amount_minor
unfolding settle_usage
reserved-settle_self succeeded r us = ground arith

used-settle_self :
    (succeeded : Bool) (r : BudgetReservation) (us : Usages)
    → r.amount_minor ≤ reserved_at us r.budget_id r.period
    → used_at (settle_usage succeeded r us) r.budget_id r.period
      ≡ used_at us r.budget_id r.period + (if succeeded then r.amount_minor else 0)
unfolding settle_usage
used-settle_self succeeded r us h = ground arith

row-settle_other :
    (succeeded : Bool) (r : BudgetReservation) (us : Usages) (i s : ℕ)
    → on_row i s r ≡ false
    → settle_usage succeeded r us i s ≡ us i s
unfolding settle_usage
row-settle_other succeeded r us i s other = elim (Option-cases (us r.budget_id r.period)) [
  | inl missing ↦ rw (missing, settle_usage)
  | inr (u, found) ↦ rw (found, settle_usage) (rw other)
]

same_key :
    (i s : ℕ) (r : BudgetReservation) → on_row i s r ≡ true → (r.budget_id ≡ i) × (r.period ≡ s)
same_key i s r h = ground arith

reserved-settle_usage :
    (succeeded : Bool) (r : BudgetReservation) (us : Usages) (i s : ℕ)
    → reserved_at (settle_usage succeeded r us) i s
      ≡ reserved_at us i s - (if on_row i s r then r.amount_minor else 0)
reserved-settle_usage succeeded r us i s = elim (Bool-cases (on_row i s r)) [
  | inl same ↦
      let (b, t) = same_key i s r same in
      rw same (
        subst₂
          (λ i s.
            reserved_at (settle_usage succeeded r us) i s ≡ reserved_at us i s - r.amount_minor)
          b t (reserved-settle_self succeeded r us))
  | inr other ↦ rw other (rw (row-settle_other succeeded r us i s other, reserved_at) (omega arith))
]

used-settle_usage :
    (succeeded : Bool) (r : BudgetReservation) (us : Usages) (i s : ℕ)
    → (if on_row i s r then r.amount_minor else 0) ≤ reserved_at us i s
    → used_at (settle_usage succeeded r us) i s
      ≡ used_at us i s + (if on_row i s r && succeeded then r.amount_minor else 0)
used-settle_usage succeeded r us i s h = elim (Bool-cases (on_row i s r)) [
  | inl same ↦
      let (b, t) = same_key i s r same in
      rw same (
        subst₂
          (λ i s.
            r.amount_minor ≤ reserved_at us i s
            → used_at (settle_usage succeeded r us) i s
              ≡ used_at us i s + (if succeeded then r.amount_minor else 0))
          b t (used-settle_self succeeded r us) (rw same at h))
  | inr other ↦ rw other (rw (row-settle_other succeeded r us i s other, used_at) (omega arith))
]

pub held-settle_rows :
    (succeeded : Bool) (request : ℕ) (rs : List BudgetReservation) (us : Usages) (i s : ℕ)
    → held i s (settle_rows succeeded request rs us).0 + due request i s rs ≡ held i s rs
unfolding settle_rows settle_reservation
held-settle_rows succeeded request [] us i s = refl
held-settle_rows succeeded request (r ∷ rs) us i s = ground (
  arith,
  held-settle_rows succeeded request rs us i s,
  held-settle_rows succeeded request rs (settle_usage succeeded r us) i s,
)

-- By induction over the rows that are left, over what the others hold.
pub settle_rows_amounts :
    (succeeded : Bool) (request : ℕ) (rs : List BudgetReservation) (us : Usages) (base : ℕ → ℕ → ℕ)
    → ((i s : ℕ) → reserved_at us i s ≡ held i s rs + base i s)
    → (i s : ℕ)
    → let (rs', us') = settle_rows succeeded request rs us in
      (reserved_at us' i s ≡ held i s rs' + base i s)
      × (used_at us' i s ≡ used_at us i s + (if succeeded then due request i s rs else 0))
unfolding settle_rows settle_reservation
settle_rows_amounts succeeded request [] us base h i s = (h i s, ground arith)
settle_rows_amounts succeeded request (r ∷ rs) us base h i s =
    elim (Bool-cases (is_due request r)) [
      | inl yes_due ↦
          let us' = settle_usage succeeded r us in
          let h' : (i s : ℕ) → reserved_at us' i s ≡ held i s rs + base i s =
            λ i s. ground (arith, h i s, reserved-settle_usage succeeded r us i s) in
          ground (
            arith,
            h i s,
            settle_rows_amounts succeeded request rs us' base h' i s,
            used-settle_usage succeeded r us i s,
          )
      | inr not_due ↦
          let base' : ℕ → ℕ → ℕ =
            λ i s. (if on_row i s r && is_reserved r.state then r.amount_minor else 0) + base i s in
          let h' : (i s : ℕ) → reserved_at us i s ≡ held i s rs + base' i s =
            λ i s. omega (arith, h i s) in
          ground (arith, settle_rows_amounts succeeded request rs us base' h' i s)
    ]
