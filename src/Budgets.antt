-- ===== src/Budgets.antt =====
-- Budgets: the tables of apps/api/agentguard_api/models.py (Budget, BudgetUsage,
-- BudgetReservation), and `_scope_matches`, `reserve_budgets` and `settle_budget_reservations` of
-- apps/api/agentguard_api/limits.py. The usage table is a partial function on its unique key,
-- a budget and the start of a period; a reservation names its usage row by that key.
pub mod Checks
pub mod Reserve
pub mod Settle
pub mod Invariant
pub mod Caps
mod Examples
use aiagentguard.Periods.{period_start}
use aiagentguard.Prelude.{
  ℕ, ◌+◌, ◌-◌, String, Bool, true, false, not, ◌&&◌, Option, none, some, List, [], ◌∷◌, ◌++◌, ltb,
  leb, ◌==◌, if◌then◌else◌, str_eq, upper, codes_eq, select,
}
use Prim.Native.String.{◌++◌ as str_append}

pub record Budget : Type 0 where
  pub id : ℕ
  pub organization_id : ℕ
  pub name : String
  pub scope : String
  pub scope_id : Option String
  pub period : String
  pub limit_minor : ℕ
  pub currency : String
  pub active : Bool

pub record BudgetUsage : Type 0 where
  pub used_minor : ℕ
  pub reserved_minor : ℕ

pub data ReservationState : Type 0 where
  reserved spent released : ReservationState

pub record BudgetReservation : Type 0 where
  pub budget_id : ℕ
  pub period : ℕ
  pub request_id : ℕ
  pub amount_minor : ℕ
  pub state : ReservationState

abbrev pub Usages : Type 0
Usages = ℕ → ℕ → Option BudgetUsage

pub record Ledger : Type 0 where
  pub usages : Usages
  pub reservations : List BudgetReservation

-- `str(facts.get(key))` for each key that is there.
abbrev pub Facts : Type 0
Facts = String → Option String

abbrev pub fact_or : Facts → String → String → String
fact_or facts key default = elim (facts key) [ none ↦ default | some value ↦ value ]

unfoldable pub scope_matches : String → Option String → Facts → Bool
scope_matches scope none facts = str_eq scope "organization"
scope_matches scope (some scope_id) facts =
    if str_eq scope "organization"
    then true
    else let key = if str_eq scope "provider" then "provider" else str_append scope "_id" in
      not (str_eq scope_id "") && str_eq (fact_or facts key "None") scope_id

abbrev pub used_at : Usages → ℕ → ℕ → ℕ
used_at us b s = elim (us b s) [ none ↦ 0 | some u ↦ u.used_minor ]

abbrev pub reserved_at : Usages → ℕ → ℕ → ℕ
reserved_at us b s = elim (us b s) [ none ↦ 0 | some u ↦ u.reserved_minor ]

abbrev pub put_usage : Usages → ℕ → ℕ → BudgetUsage → Usages
put_usage us b s u b' s' = if b == b' && s == s' then some u else us b' s'

-- The row that the code reads for update, inserted with zeros if it is not there.
unfoldable pub ensure_usage : Usages → ℕ → ℕ → Usages
ensure_usage us b s = elim (us b s) [
  | none ↦ put_usage us b s (record { used_minor = 0; reserved_minor = 0 })
  | some u ↦ us
]

pub data Reason : Type 0 where
  currency_mismatch : String → Reason
  action_exceeded : String → Reason
  period_exceeded : String → String → Reason

pub data Verdict : Type 0 where
  granted : Verdict
  refused : Reason → Verdict

-- What one turn of the loop over the budgets comes to.
pub data Check : Type 0 where
  skip : Check
  refuse : Reason → Check
  hold : ℕ → ℕ → Check

-- One turn of the second loop of `reserve_budgets`: charge a row, and write its reservation.
unfoldable pub charge_row : ℕ → ℕ → ℕ → ℕ → Ledger → Ledger
charge_row amount request b s l = record {
  usages = put_usage l.usages b s (record {
    used_minor = used_at l.usages b s;
    reserved_minor = reserved_at l.usages b s + amount;
  });
  reservations =
      l.reservations
      ++ (record {
        budget_id = b;
        period = s;
        request_id = request;
        amount_minor = amount;
        state = reserved;
      })
        ∷ [];
}

unfoldable pub charge : ℕ → ℕ → List (ℕ × ℕ) → Ledger → Ledger
charge amount request [] l = l
charge amount request ((b, s) ∷ pending) l =
    charge amount request pending (charge_row amount request b s l)

-- After the first loop: a refusal returns at once, and otherwise every row is charged.
unfoldable pub conclude : ℕ → ℕ → Verdict → List (ℕ × ℕ) → Ledger → Verdict × Ledger
conclude amount request granted pending l = (granted, charge amount request pending l)
conclude amount request (refused why) pending l = (refused why, l)

module _ (facts : Facts) (now amount : ℕ) where
  unfoldable pub check_budget : Budget → Usages → Check × Usages
  check_budget b us =
      if not (scope_matches b.scope b.scope_id facts)
      then (skip, us)
      else if not (codes_eq (upper (fact_or facts "currency" "USD")) (upper b.currency))
      then (refuse (currency_mismatch b.name), us)
      else if str_eq b.period "action"
      then (if ltb b.limit_minor amount then refuse (action_exceeded b.name) else skip, us)
      else let start = period_start now b.period in
        let rows = ensure_usage us b.id start in
        (
          if ltb b.limit_minor (used_at rows b.id start + reserved_at rows b.id start + amount)
              then refuse (period_exceeded b.period b.name)
              else hold b.id start,
          rows,
        )

  -- The first loop of `reserve_budgets`: the usage rows to charge, or the first refusal.
  unfoldable pub collect : List Budget → List (ℕ × ℕ) → Usages → Verdict × List (ℕ × ℕ) × Usages
  collect [] pending us = (granted, pending, us)
  collect (b ∷ bs) pending us =
      let (outcome, rows) = check_budget b us in
      elim outcome [
        | skip ↦ collect bs pending rows
        | refuse why ↦ (refused why, pending, rows)
        | hold id start ↦ collect bs (pending ++ (id, start) ∷ []) rows
      ]

  unfoldable pub reserve_budgets : List Budget → ℕ → ℕ → Ledger → Verdict × Ledger
  unfolding conclude
  reserve_budgets table organization request l =
      if leb amount 0
      then (granted, l)
      else let budgets = select (λ b. b.organization_id == organization && b.active) table in
        let (verdict, pending, rows) = collect budgets [] l.usages in
        let seen = record l { usages = rows } in conclude amount request verdict pending seen

-- One settled reservation on its usage row; `-` on ℕ is `max(0, …)`.
unfoldable pub settle_usage : Bool → BudgetReservation → Usages → Usages
settle_usage succeeded r us = elim (us r.budget_id r.period) [
  | none ↦ us
  | some u ↦ put_usage us r.budget_id r.period (record {
    used_minor = if succeeded then u.used_minor + r.amount_minor else u.used_minor;
    reserved_minor = u.reserved_minor - r.amount_minor;
  })
]

abbrev pub is_reserved : ReservationState → Bool
is_reserved reserved = true
is_reserved _ = false

abbrev pub is_due : ℕ → BudgetReservation → Bool
is_due request r = r.request_id == request && is_reserved r.state

unfoldable pub settle_reservation : Bool → ℕ → BudgetReservation → BudgetReservation
settle_reservation succeeded request r =
    if is_due request r then record r { state = if succeeded then spent else released } else r

unfoldable pub settle_rows :
    Bool → ℕ → List BudgetReservation → Usages → List BudgetReservation × Usages
settle_rows succeeded request [] us = ([], us)
settle_rows succeeded request (r ∷ rs) us =
    let (rest, us') =
      settle_rows succeeded request rs
        (if is_due request r then settle_usage succeeded r us else us) in
    (settle_reservation succeeded request r ∷ rest, us')

-- `none` is an outcome that nobody knows: the capacity stays reserved.
unfoldable pub settle_budget_reservations : ℕ → Option Bool → Ledger → Ledger
settle_budget_reservations request none l = l
settle_budget_reservations request (some succeeded) l =
    let (rs, us) = settle_rows succeeded request l.reservations l.usages in
    record { usages = us; reservations = rs }
