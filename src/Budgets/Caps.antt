-- ===== src/Budgets/Caps.antt =====
-- No usage row passes its budget's limit: `reserve_budgets` and `settle_budget_reservations` of
-- apps/api/agentguard_api/limits.py.
use aiagentguard.Periods.{period_start}
use aiagentguard.Budgets.{
  Reason, Budget, Usages, Ledger, Facts, Verdict, granted, refused, used_at, reserved_at,
  scope_matches, reserve_budgets, settle_budget_reservations,
}
use aiagentguard.Budgets.Checks.{admits, charge_of, charged, times, times-append}
use aiagentguard.Budgets.Reserve.{
  chosen, is_granted, reserve_budgets_decision, reserve_budgets_amounts,
}
use aiagentguard.Budgets.Settle.{IsAccounted}
use aiagentguard.Budgets.Invariant.{settle_moves}
use native.Mathlib.Nat.{add_assoc}
use mathlib.Core.Path.{subst₂}
use aiagentguard.Prelude.{
  ℕ, ◌+◌, ◌*◌, ◌≤◌, ◌<◌, ◌≡◌, ◌≢◌, refl, Bool, true, ◌&&◌, Option, none, some, List, [], ◌∷◌, arith,
  ◌==◌, leb, All, all, select, inl, inr, ap, sym, ◌∙◌, str_eq, subst, ◌⊎◌, Bool-cases,
}

-- Primary keys: no two budgets of a list have one id.
abbrev pub HasDistinctIds : List Budget → Type 0
HasDistinctIds [] = Unit
HasDistinctIds (b ∷ bs) = All (λ (y : Budget). y.id ≢ b.id) bs × HasDistinctIds bs

-- `limit` gives the limit of each budget of the list by its id.
abbrev pub Limits : (ℕ → ℕ) → List Budget → Type 0
Limits limit bs = All (λ (b : Budget). limit b.id ≡ b.limit_minor) bs

-- Spent and reserved together stay within the limit, on every row.
abbrev pub IsWithin : (ℕ → ℕ) → Ledger → Type 0
IsWithin limit l = (i s : ℕ) → used_at l.usages i s + reserved_at l.usages i s ≤ limit i

All-select :
    (P : Budget → Type 0) (test : Budget → Bool) (bs : List Budget)
    → All P bs
    → All P (select test bs)
All-select P test [] h = tt
All-select P test (b ∷ bs) h = elim (Bool-cases (test b)) [
  | inl kept ↦ rw (kept, select, All) (h.0, All-select P test bs h.1)
  | inr dropped ↦ rw (dropped, select) (All-select P test bs h.1)
]

HasDistinctIds-select :
    (test : Budget → Bool) (bs : List Budget) → HasDistinctIds bs → HasDistinctIds (select test bs)
HasDistinctIds-select test [] h = tt
HasDistinctIds-select test (b ∷ bs) h = elim (Bool-cases (test b)) [
  | inl kept ↦
      rw (kept, HasDistinctIds)
        (All-select (λ y. y.id ≢ b.id) test bs h.0, HasDistinctIds-select test bs h.1)
  | inr dropped ↦ rw (dropped, HasDistinctIds) (HasDistinctIds-select test bs h.1)
]

module _ (facts : Facts) (now : ℕ) where
  times-charged_fresh :
      (i s : ℕ) (bs : List Budget)
      → All (λ (y : Budget). y.id ≢ i) bs
      → times i s (charged facts now bs) ≡ 0
  unfolding charged charge_of
  times-charged_fresh i s [] h = refl
  times-charged_fresh i s (b ∷ bs) h = ground (
    arith,
    times-append i s (charge_of facts now b) (charged facts now bs),
    times-charged_fresh i s bs h.1,
  )

both : (a b : Bool) → (a && b) ≡ true → (a ≡ true) × (b ≡ true)
both a b h = ground arith

-- One budget charges a row or it does not; if it does, it has admitted the amount on that row.
abbrev Charges : Facts → ℕ → ℕ → (ℕ → ℕ) → Usages → Budget → ℕ → ℕ → Type 0
Charges facts now amount limit us b i s =
    (times i s (charge_of facts now b) ≡ 0)
    ⊎ ((b.id ≡ i)
        × (times i s (charge_of facts now b) ≡ 1)
        × (used_at us i s + reserved_at us i s + amount ≤ limit i))

module _ (facts : Facts) (now amount : ℕ) (limit : ℕ → ℕ) (us : Usages) (b : Budget)
    (lim : limit b.id ≡ b.limit_minor) (h : admits facts now amount us b ≡ true) where
  room_on_own_row : Charges facts now amount limit us b b.id (period_start now b.period)
  unfolding charge_of admits
  room_on_own_row = elim (Bool-cases (scope_matches b.scope b.scope_id facts)) [
    | inl matches ↦ elim (Bool-cases (str_eq b.period "action")) [
      | inl action ↦ inl (ground arith)
      | inr period ↦ inr (refl, ground arith, ground arith)
    ]
    | inr misses ↦ inl (ground arith)
  ]

  room_of_one : (i s : ℕ) → Charges facts now amount limit us b i s
  unfolding charge_of
  room_of_one i s = elim (Bool-cases (b.id == i && period_start now b.period == s)) [
    | inl same ↦
        let keys : (b.id ≡ i) × (period_start now b.period ≡ s) = ground arith in
        subst₂ (Charges facts now amount limit us b) keys.0 keys.1 room_on_own_row
    | inr other ↦ inl (ground arith)
  ]

module _ (facts : Facts) (now amount : ℕ) (limit : ℕ → ℕ) (us : Usages) (i s : ℕ) where
  -- What the code tests budget by budget is room for all that it charges to a row.
  room :
      (bs : List Budget)
      → HasDistinctIds bs
      → Limits limit bs
      → used_at us i s + reserved_at us i s ≤ limit i
      → all (admits facts now amount us) bs ≡ true
      → used_at us i s + reserved_at us i s + times i s (charged facts now bs) * amount ≤ limit i
  unfolding charged
  room [] d lim w h = omega arith
  room (b ∷ bs) d lim w h =
      let (head_admits, tail_admit) = both _ _ h in
      rw times-append (elim (room_of_one facts now amount limit us b lim.0 head_admits i s) [
        | inl misses ↦ rw misses (omega (arith, room bs d.1 lim.1 w tail_admit))
        | inr (own, once, fits) ↦
            rw
              (
                once,
                times-charged_fresh facts now i s bs
                    (subst (λ k. All (λ (y : Budget). y.id ≢ k) bs) own d.0),
              )
              (omega (arith, fits))
      ])

verdict_cases : (v : Verdict) → (v ≡ granted) ⊎ ((why : Reason) × (v ≡ refused why))
verdict_cases granted = inl refl
verdict_cases (refused why) = inr (why, refl)

-- With distinct budget ids, no reservation takes a row past its budget's limit: if spent and
-- reserved together were within every limit, they are so after the call, granted or refused.
pub reserve_budgets-IsWithin :
    (facts : Facts) (now amount : ℕ) (table : List Budget) (organization request : ℕ) (l : Ledger)
    (limit : ℕ → ℕ)
    → HasDistinctIds table
    → Limits limit table
    → IsWithin limit l
    → IsWithin limit (reserve_budgets facts now amount table organization request l).1
reserve_budgets-IsWithin facts now amount table organization request l limit distinct lim w i s =
    elim (Bool-cases (leb amount 0)) [
      | inl nothing ↦ unfold reserve_budgets in rw nothing (w i s)
      | inr positive ↦
          let test : Budget → Bool = λ b. b.organization_id == organization && b.active in
          let some_amount : 0 < amount = ground arith in
          let (used_same, if_granted, if_refused) =
            reserve_budgets_amounts facts now amount table organization request l some_amount in
          elim (verdict_cases (reserve_budgets facts now amount table organization request l).0) [
            | inl grant ↦
                rw (used_same i s, if_granted grant i s)
                  (rw (← add_assoc _ _ _) (
                    room facts now amount limit l.usages i s (chosen organization table)
                      (HasDistinctIds-select test table distinct)
                      (All-select (λ b. limit b.id ≡ b.limit_minor) test table lim) (w i s)
                      (sym (
                          reserve_budgets_decision facts now amount table organization request l
                            some_amount)
                        ∙ ap is_granted grant)))
            | inr (why, refusal) ↦ rw (used_same i s, (if_refused why refusal).0 i s) (w i s)
          ]
    ]

-- Settling a request whose reservations are accounted for keeps every row within its limit.
pub settle-IsWithin :
    (request : ℕ) (outcome : Option Bool) (l : Ledger) (limit : ℕ → ℕ)
    → IsAccounted l
    → IsWithin limit l
    → IsWithin limit (settle_budget_reservations request outcome l)
settle-IsWithin request none l limit a w i s = unfold settle_budget_reservations in w i s
settle-IsWithin request (some succeeded) l limit a w i s =
    ground (arith, w i s, (settle_moves request succeeded l a).1 i s)
