-- ===== src/Budgets/Reserve.antt =====
-- `reserve_budgets` of apps/api/agentguard_api/limits.py against the budgets' demands: when it
-- grants, what it charges, and what a refusal leaves.
use aiagentguard.Budgets.{
  Reason, Budget, Usages, Ledger, Facts, Verdict, granted, refused, used_at, reserved_at,
  check_budget, collect, charge_row, charge, reserve_budgets,
}
use aiagentguard.Budgets.Checks.{
  admits, charged, times, rows_of, used-check_budget, reserved-check_budget,
  is_refusal-check_budget, rows_of-check_budget,
}
use aiagentguard.Prelude.{
  ℕ, ◌+◌, ◌*◌, ◌<◌, ◌≡◌, refl, sym, ◌∙◌, Bool, true, false, ◌&&◌, List, [], ◌∷◌, ◌++◌, arith, ◌==◌,
  inl, inr, Bool-cases, select, all,
}
use mathlib.Core.List.{append_assoc, append-nil}

abbrev pub is_granted : Verdict → Bool
is_granted granted = true
is_granted (refused why) = false

same_row :
    (us : Usages) (b t i s : ℕ)
    → (b == i && t == s) ≡ true
    → (used_at us b t ≡ used_at us i s) × (reserved_at us b t ≡ reserved_at us i s)
same_row us b t i s h =
    let same : (b ≡ i) × (t ≡ s) = ground arith in (rw (same.0, same.1), rw (same.0, same.1))

used-charge_row :
    (amount request b t : ℕ) (l : Ledger) (i s : ℕ)
    → used_at (charge_row amount request b t l).usages i s ≡ used_at l.usages i s
unfolding charge_row
used-charge_row amount request b t l i s = elim (Bool-cases (b == i && t == s)) [
  | inl same ↦ rw (same, used_at) (same_row l.usages b t i s same).0
  | inr other ↦ rw (other, used_at)
]

used-charge :
    (amount request : ℕ) (pending : List (ℕ × ℕ)) (l : Ledger) (i s : ℕ)
    → used_at (charge amount request pending l).usages i s ≡ used_at l.usages i s
unfolding charge
used-charge amount request [] l i s = refl
used-charge amount request ((b, t) ∷ pending) l i s =
    used-charge amount request pending (charge_row amount request b t l) i s
    ∙ used-charge_row amount request b t l i s

pub reserved-charge_row :
    (amount request b t : ℕ) (l : Ledger) (i s : ℕ)
    → reserved_at (charge_row amount request b t l).usages i s
      ≡ reserved_at l.usages i s + times i s ((b, t) ∷ []) * amount
unfolding charge_row
reserved-charge_row amount request b t l i s = elim (Bool-cases (b == i && t == s)) [
  | inl same ↦ rw (same, reserved_at) (omega (arith, (same_row l.usages b t i s same).1))
  | inr other ↦ rw (other, reserved_at) (omega arith)
]

pub reserved-charge :
    (amount request : ℕ) (pending : List (ℕ × ℕ)) (l : Ledger) (i s : ℕ)
    → reserved_at (charge amount request pending l).usages i s
      ≡ reserved_at l.usages i s + times i s pending * amount
unfolding charge
reserved-charge amount request [] l i s = omega arith
reserved-charge amount request ((b, t) ∷ pending) l i s = omega (
  arith,
  reserved-charge amount request pending (charge_row amount request b t l) i s,
  reserved-charge_row amount request b t l i s,
)

module _ (facts : Facts) (now amount : ℕ) where
  -- A turn changes no amount, so the demands of the later budgets are those of the first table.
  admits-check_budget :
      (b b' : Budget) (us : Usages)
      → admits facts now amount (check_budget facts now amount b us).1 b'
        ≡ admits facts now amount us b'
  unfolding admits
  admits-check_budget b b' us = simp (used-check_budget, reserved-check_budget)

  all_admit-check_budget :
      (b : Budget) (us : Usages) (bs : List Budget)
      → all (admits facts now amount (check_budget facts now amount b us).1) bs
        ≡ all (admits facts now amount us) bs
  all_admit-check_budget b us [] = refl
  all_admit-check_budget b us (x ∷ bs) =
      simp (admits-check_budget b x us, all_admit-check_budget b us bs)

  collect-is_granted :
      (bs : List Budget) (pending : List (ℕ × ℕ)) (us : Usages)
      → is_granted (collect facts now amount bs pending us).0 ≡ all (admits facts now amount us) bs
  unfolding collect
  collect-is_granted [] pending us = refl
  collect-is_granted (b ∷ bs) pending us = ground (
    arith,
    is_refusal-check_budget facts now amount b us,
    collect-is_granted bs pending (check_budget facts now amount b us).1,
    collect-is_granted bs (pending ++ rows_of (check_budget facts now amount b us).0)
        (check_budget facts now amount b us).1,
    all_admit-check_budget b us bs,
  )

  used-collect :
      (bs : List Budget) (pending : List (ℕ × ℕ)) (us : Usages) (i s : ℕ)
      → used_at (collect facts now amount bs pending us).2 i s ≡ used_at us i s
  unfolding collect
  used-collect [] pending us i s = refl
  used-collect (b ∷ bs) pending us i s =
      let rows = (check_budget facts now amount b us).1 in
      ground (
        arith,
        used-check_budget facts now amount b us i s,
        used-collect bs pending rows i s,
        used-collect bs (pending ++ rows_of (check_budget facts now amount b us).0) rows i s,
      )

  pub reserved-collect :
      (bs : List Budget) (pending : List (ℕ × ℕ)) (us : Usages) (i s : ℕ)
      → reserved_at (collect facts now amount bs pending us).2 i s ≡ reserved_at us i s
  unfolding collect
  reserved-collect [] pending us i s = refl
  reserved-collect (b ∷ bs) pending us i s =
      let rows = (check_budget facts now amount b us).1 in
      ground (
        arith,
        reserved-check_budget facts now amount b us i s,
        reserved-collect bs pending rows i s,
        reserved-collect bs (pending ++ rows_of (check_budget facts now amount b us).0) rows i s,
      )

  pending-collect :
      (bs : List Budget) (pending : List (ℕ × ℕ)) (us : Usages)
      → all (admits facts now amount us) bs ≡ true
      → (collect facts now amount bs pending us).1 ≡ pending ++ charged facts now bs
  unfolding collect charged
  pending-collect [] pending us h = sym (append-nil pending)
  pending-collect (b ∷ bs) pending us h =
      let rows = (check_budget facts now amount b us).1 in
      ground (
        arith,
        is_refusal-check_budget facts now amount b us,
        rows_of-check_budget facts now amount b us,
        all_admit-check_budget b us bs,
        pending-collect bs pending rows,
        pending-collect bs (pending ++ rows_of (check_budget facts now amount b us).0) rows,
        append_assoc pending (rows_of (check_budget facts now amount b us).0)
            (charged facts now bs),
      )

-- The budgets that the code reads: the active ones of the organization.
abbrev pub chosen : ℕ → List Budget → List Budget
chosen organization table = select (λ b. b.organization_id == organization && b.active) table

module _ (facts : Facts) (now amount : ℕ) (table : List Budget) (organization request : ℕ)
    (l : Ledger) where
  -- A positive amount is granted exactly when every active budget of the organization admits it on
  -- the table as it stood before the call.
  pub reserve_budgets_decision :
      0 < amount
      → is_granted (reserve_budgets facts now amount table organization request l).0
        ≡ all (admits facts now amount l.usages) (chosen organization table)
  unfolding reserve_budgets
  reserve_budgets_decision h =
      ground (arith, collect-is_granted facts now amount (chosen organization table) [] l.usages)

  -- A grant raises the reserved amount of each charged row by the action's amount, once for each
  -- budget that charges it; a refusal changes no amount and writes no reservation; neither touches
  -- what was spent.
  pub reserve_budgets_amounts :
      0 < amount
      → let (verdict, l') = reserve_budgets facts now amount table organization request l in
        ((i s : ℕ) → used_at l'.usages i s ≡ used_at l.usages i s)
        × (verdict ≡ granted
            → (i s : ℕ)
            → reserved_at l'.usages i s
              ≡ reserved_at l.usages i s
                + times i s (charged facts now (chosen organization table)) * amount)
        × ((why : Reason)
            → verdict ≡ refused why
            → ((i s : ℕ) → reserved_at l'.usages i s ≡ reserved_at l.usages i s)
              × (l'.reservations ≡ l.reservations))
  unfolding reserve_budgets
  reserve_budgets_amounts h =
      let bs = chosen organization table in
      let seen : Ledger = record l { usages = (collect facts now amount bs [] l.usages).2 } in
      let pending = (collect facts now amount bs [] l.usages).1 in
      (
        λ i s. ground (
          arith,
          used-charge amount request pending seen i s,
          used-collect facts now amount bs [] l.usages i s,
        ),
        λ e i s. ground (
          arith,
          reserved-charge amount request pending seen i s,
          reserved-collect facts now amount bs [] l.usages i s,
          collect-is_granted facts now amount bs [] l.usages,
          pending-collect facts now amount bs [] l.usages,
        ),
        λ why e. (
          λ i s. ground (arith, reserved-collect facts now amount bs [] l.usages i s),
          ground arith,
        ),
      )
