-- ===== src/Budgets/Examples.antt =====
-- The budget theorems at a daily budget of 100.00 USD, and runs of the code on it.
use aiagentguard.Budgets.{
  Reason, Budget, Ledger, Facts, granted, refused, currency_mismatch, period_exceeded,
  scope_matches, used_at, reserved_at, ensure_usage, check_budget, collect, charge_row, charge,
  reserve_budgets, settle_budget_reservations,
}
use aiagentguard.Budgets.Checks.{admits, charged, times}
use aiagentguard.Budgets.Reserve.{
  chosen, is_granted, reserve_budgets_decision, reserve_budgets_amounts,
}
use aiagentguard.Budgets.Settle.{IsAccounted, due}
use aiagentguard.Budgets.Invariant.{reserve_budgets-IsAccounted, settle_moves, settle_once}
use aiagentguard.Budgets.Caps.{IsWithin, reserve_budgets-IsWithin, settle-IsWithin}
use aiagentguard.Periods.{period_start}
use aiagentguard.Prelude.{
  ℕ, ◌+◌, ◌*◌, ◌≡◌, refl, true, false, none, some, [], ◌∷◌, arith, str_eq, if◌then◌else◌, upper,
  all,
}

abbrev daily : Budget
daily = record {
  id = 1;
  organization_id = 5;
  name = "daily";
  scope = "agent";
  scope_id = some "a1";
  period = "daily";
  limit_minor = 10000;
  currency = "usd";
  active = true;
}

abbrev monthly_euro : Budget
monthly_euro = record daily {
  id = 2;
  name = "euro";
  scope = "organization";
  scope_id = none;
  period = "monthly";
  currency = "EUR";
}

abbrev facts : Facts
facts key = if str_eq key "agent_id" then some "a1" else none

abbrev empty : Ledger
empty = record { usages = λ b s. none; reservations = [] }

abbrev limit : ℕ → ℕ
limit i = 10000

abbrev noon : ℕ
noon = 1795694400

abbrev half_spent : Ledger
half_spent = (reserve_budgets facts noon 6000 (daily ∷ []) 5 77 empty).1

first_is_granted : (reserve_budgets facts noon 6000 (daily ∷ []) 5 77 empty).0 ≡ granted
unfolding reserve_budgets collect check_budget scope_matches upper period_start ensure_usage
first_is_granted = refl

second_is_refused :
    (reserve_budgets facts noon 6000 (daily ∷ []) 5 78 half_spent).0
    ≡ refused (period_exceeded "daily" "daily")
unfolding reserve_budgets collect check_budget scope_matches upper period_start ensure_usage charge
    charge_row
second_is_refused = refl

euro_is_refused :
    (reserve_budgets facts noon 1 (monthly_euro ∷ []) 5 79 empty).0
    ≡ refused (currency_mismatch "euro")
unfolding reserve_budgets collect check_budget scope_matches upper
euro_is_refused = refl

empty-IsAccounted : IsAccounted empty
empty-IsAccounted i s = refl

half_spent-IsAccounted : IsAccounted half_spent
half_spent-IsAccounted =
    reserve_budgets-IsAccounted facts noon 6000 (daily ∷ []) 5 77 empty empty-IsAccounted

empty-IsWithin : IsWithin limit empty
empty-IsWithin i s = omega arith

reserve_budgets_decision_example :
    is_granted (reserve_budgets facts noon 6000 (daily ∷ []) 5 77 empty).0
    ≡ all (admits facts noon 6000 empty.usages) (chosen 5 (daily ∷ []))
reserve_budgets_decision_example =
    reserve_budgets_decision facts noon 6000 (daily ∷ []) 5 77 empty (omega arith)

reserve_budgets-IsAccounted_example : IsAccounted half_spent
reserve_budgets-IsAccounted_example =
    reserve_budgets-IsAccounted facts noon 6000 (daily ∷ []) 5 77 empty empty-IsAccounted

reserve_budgets-IsWithin_example : IsWithin limit half_spent
reserve_budgets-IsWithin_example =
    reserve_budgets-IsWithin facts noon 6000 (daily ∷ []) 5 77 empty limit (tt, tt) (refl, tt)
      empty-IsWithin

settle-IsWithin_example : IsWithin limit (settle_budget_reservations 77 (some true) half_spent)
settle-IsWithin_example = settle-IsWithin 77 (some true) half_spent limit half_spent-IsAccounted (
    reserve_budgets-IsWithin facts noon 6000 (daily ∷ []) 5 77 empty limit (tt, tt) (refl, tt)
      empty-IsWithin)

settle_moves_example :
    let l' = settle_budget_reservations 77 (some false) half_spent in
    IsAccounted l'
    × ((i s : ℕ)
        → (reserved_at l'.usages i s + due 77 i s half_spent.reservations
            ≡ reserved_at half_spent.usages i s)
          × (used_at l'.usages i s ≡ used_at half_spent.usages i s + 0))
settle_moves_example = settle_moves 77 false half_spent half_spent-IsAccounted

settle_once_example :
    settle_budget_reservations 77
      (some true)
      (settle_budget_reservations 77 (some false) half_spent)
    ≡ settle_budget_reservations 77 (some false) half_spent
settle_once_example = settle_once 77 false (some true) half_spent

reserve_budgets_amounts_example :
    let (verdict, l') = reserve_budgets facts noon 6000 (daily ∷ []) 5 77 empty in
    ((i s : ℕ) → used_at l'.usages i s ≡ 0)
    × (verdict ≡ granted
        → (i s : ℕ)
        → reserved_at l'.usages i s
          ≡ 0 + times i s (charged facts noon (chosen 5 (daily ∷ []))) * 6000)
    × ((why : Reason)
        → verdict ≡ refused why
        → ((i s : ℕ) → reserved_at l'.usages i s ≡ 0) × (l'.reservations ≡ []))
reserve_budgets_amounts_example =
    reserve_budgets_amounts facts noon 6000 (daily ∷ []) 5 77 empty (omega arith)
