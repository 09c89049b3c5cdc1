-- ===== src/Budgets/Checks.antt =====
-- One turn of the loop of `reserve_budgets` (apps/api/agentguard_api/limits.py) against what a
-- budget asks of an action.
use aiagentguard.Periods.{period_start}
use aiagentguard.Budgets.{
  Budget, Usages, Facts, Check, refuse, hold, scope_matches, fact_or, used_at, reserved_at,
  ensure_usage, check_budget,
}
use aiagentguard.Prelude.{
  not, ◌||◌, str_eq, upper, codes_eq, ℕ, ◌+◌, ◌≡◌, Bool, true, false, ◌&&◌, List, [], ◌∷◌, ◌++◌,
  arith, leb, ◌==◌, if◌then◌else◌,
}

-- How often a usage row is in the list of rows to charge.
abbrev pub times : ℕ → ℕ → List (ℕ × ℕ) → ℕ
times b s [] = 0
times b s ((b', s') ∷ pending) = (if b' == b && s' == s then 1 else 0) + times b s pending

pub times-append :
    (b s : ℕ) (xs ys : List (ℕ × ℕ)) → times b s (xs ++ ys) ≡ times b s xs + times b s ys
times-append b s [] ys = omega arith
times-append b s ((b', s') ∷ xs) ys = omega (arith, times-append b s xs ys)

pub used-ensure :
    (us : Usages) (b s b' s' : ℕ) → used_at (ensure_usage us b s) b' s' ≡ used_at us b' s'
unfolding ensure_usage
used-ensure us b s b' s' = ground arith

pub reserved-ensure :
    (us : Usages) (b s b' s' : ℕ) → reserved_at (ensure_usage us b s) b' s' ≡ reserved_at us b' s'
unfolding ensure_usage
reserved-ensure us b s b' s' = ground arith

module _ (facts : Facts) (now : ℕ) where
  -- The usage rows that one budget charges, and those of a list of budgets.
  unfoldable pub charge_of : Budget → List (ℕ × ℕ)
  charge_of b =
      if scope_matches b.scope b.scope_id facts && not (str_eq b.period "action")
      then (b.id, period_start now b.period) ∷ []
      else []

  unfoldable pub charged : List Budget → List (ℕ × ℕ)
  charged [] = []
  charged (b ∷ bs) = charge_of b ++ charged bs

-- The verdict and the row of one turn of the loop.
abbrev pub is_refusal : Check → Bool
is_refusal (refuse why) = true
is_refusal _ = false

abbrev pub rows_of : Check → List (ℕ × ℕ)
rows_of (hold b s) = (b, s) ∷ []
rows_of _ = []

module _ (facts : Facts) (now amount : ℕ) where
  -- What one budget asks of an action, over the amounts in the table as they stand.
  unfoldable pub admits : Usages → Budget → Bool
  admits us b =
      not (scope_matches b.scope b.scope_id facts)
      || codes_eq (upper (fact_or facts "currency" "USD")) (upper b.currency)
        && leb
            (if str_eq b.period "action"
              then amount
              else used_at us b.id (period_start now b.period)
                + reserved_at us b.id (period_start now b.period)
                + amount)
            b.limit_minor

  pub used-check_budget :
      (b : Budget) (us : Usages) (i s : ℕ)
      → used_at (check_budget facts now amount b us).1 i s ≡ used_at us i s
  unfolding check_budget
  used-check_budget b us i s = ground (arith, used-ensure us b.id (period_start now b.period) i s)

  pub reserved-check_budget :
      (b : Budget) (us : Usages) (i s : ℕ)
      → reserved_at (check_budget facts now amount b us).1 i s ≡ reserved_at us i s
  unfolding check_budget
  reserved-check_budget b us i s =
      ground (arith, reserved-ensure us b.id (period_start now b.period) i s)

  pub is_refusal-check_budget :
      (b : Budget) (us : Usages)
      → is_refusal (check_budget facts now amount b us).0 ≡ not (admits us b)
  unfolding check_budget admits
  is_refusal-check_budget b us = ground (
    arith,
    used-ensure us b.id (period_start now b.period) b.id (period_start now b.period),
    reserved-ensure us b.id (period_start now b.period) b.id (period_start now b.period),
  )

  pub rows_of-check_budget :
      (b : Budget) (us : Usages)
      → admits us b ≡ true
      → rows_of (check_budget facts now amount b us).0 ≡ charge_of facts now b
  unfolding check_budget admits charge_of
  rows_of-check_budget b us h = ground (
    arith,
    used-ensure us b.id (period_start now b.period) b.id (period_start now b.period),
    reserved-ensure us b.id (period_start now b.period) b.id (period_start now b.period),
  )
