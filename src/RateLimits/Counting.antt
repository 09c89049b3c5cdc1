-- ===== src/RateLimits/Counting.antt =====
-- How many actions a rate limit lets through in a window: `acquire_rate_limits` of
-- apps/api/agentguard_api/limits.py.
use mathlib.Core.List.{Memᴰ}
use aiagentguard.Budgets.{Facts, scope_matches}
use aiagentguard.Periods.{bucket_start}
use aiagentguard.RateLimits.{
  RateLimit, Buckets, Admission, admitted, count_at, put_count, matched, count_all, database,
  acquire_matched, acquire_rate_limits,
}
use aiagentguard.Prelude.{
  ℕ, ◌+◌, ◌≤◌, ◌≡◌, refl, ap, sym, Bool, true, false, ◌&&◌, List, [], ◌∷◌, All, leb, ◌==◌,
  if◌then◌else◌, arith, Bool-cases, inl, inr, ◌∙◌, subst, select,
}

abbrev pub is_admitted : Admission → Bool
is_admitted admitted = true
is_admitted _ = false

put-count_at :
    (bs : Buckets) (limit start n i s : ℕ)
    → count_at (put_count bs limit start n) i s
      ≡ (if (i == limit) && (s == start) then n else count_at bs i s)
unfolding put_count
put-count_at bs limit start n i s = elim (Bool-cases ((i == limit) && (s == start))) [
  | inl own ↦ rw (own, count_at)
  | inr other ↦ rw (other, count_at)
]

own_key : (i s : ℕ) → (i == i) && (s == s) ≡ true
own_key i s = ground arith

-- What a loop does to a count: it never falls.
count_all-grows :
    (now : ℕ) (ls : List RateLimit) (bs : Buckets) (i s : ℕ)
    → count_at bs i s ≤ count_at (count_all now ls bs).1 i s
unfolding count_all
count_all-grows now [] bs i s = omega arith
count_all-grows now (l ∷ ls) bs i s =
    let start = bucket_start now l.window_seconds in
    let count = count_at bs l.id start in
    ground (
      arith,
      put-count_at bs l.id start count i s,
      put-count_at bs l.id start (count + 1) i s,
      count_all-grows now ls (put_count bs l.id start (count + 1)) i s,
    )

-- Every limit of the loop counts an action that is admitted.
count_all-counts :
    (now : ℕ) (ls : List RateLimit) (bs : Buckets) (l : RateLimit)
    → Memᴰ l ls
    → is_admitted (count_all now ls bs).0 ≡ true
    → count_at bs l.id (bucket_start now l.window_seconds) + 1
      ≤ count_at (count_all now ls bs).1 l.id (bucket_start now l.window_seconds)
unfolding count_all
count_all-counts now [] bs l there h = elim there [ ]
count_all-counts now (l ∷ ls) bs x (Memᴰ.head e) h =
    let start = bucket_start now l.window_seconds in
    let count = count_at bs l.id start in
    let counted = put_count bs l.id start (count + 1) in
    rw e (elim (Bool-cases (leb l.max_requests count)) [
      | inl full ↦ absurd (ground arith)
      | inr room ↦ rw room (
          omega (
            arith,
            put-count_at bs l.id start (count + 1) l.id start
                ∙ ap (λ b. if b then count + 1 else count) (own_key l.id start),
            count_all-grows now ls counted l.id start,
          ))
    ])
count_all-counts now (l ∷ ls) bs x (Memᴰ.tail there) h =
    let start = bucket_start now l.window_seconds in
    let count = count_at bs l.id start in
    let counted = put_count bs l.id start (count + 1) in
    let key = bucket_start now x.window_seconds in
    elim (Bool-cases (leb l.max_requests count)) [
      | inl full ↦ absurd (ground arith)
      | inr room ↦
          let later = count_all-counts now ls counted x there (rw room at h) in
          rw room (ground (arith, later, put-count_at bs l.id start (count + 1) x.id key))
    ]

abbrev pub IsCapped : (ℕ → ℕ) → Buckets → Type 0
IsCapped max_of bs = (i s : ℕ) → count_at bs i s ≤ max_of i

count_all-IsCapped :
    (max_of : ℕ → ℕ) (now : ℕ) (ls : List RateLimit) (bs : Buckets)
    → All (λ (l : RateLimit). max_of l.id ≡ l.max_requests) ls
    → IsCapped max_of bs
    → IsCapped max_of (count_all now ls bs).1
unfolding count_all
count_all-IsCapped max_of now [] bs stated h = h
count_all-IsCapped max_of now (l ∷ ls) bs stated h =
    let start = bucket_start now l.window_seconds in
    let count = count_at bs l.id start in
    elim (Bool-cases (leb l.max_requests count)) [
      | inl full ↦
          rw full (λ i s. ground (arith, h i s, h l.id start, put-count_at bs l.id start count i s))
      | inr room ↦ rw room (
          count_all-IsCapped max_of now ls (put_count bs l.id start (count + 1)) stated.1
            (λ i s. ground (arith, h i s, stated.0, put-count_at bs l.id start (count + 1) i s)))
    ]

mem-select :
    {A : Type 0} (test : A → Bool) (x : A) (xs : List A)
    → Memᴰ x xs
    → test x ≡ true
    → Memᴰ x (select test xs)
mem-select test x [] there h = elim there [ ]
mem-select test x (y ∷ ys) (Memᴰ.head e) h =
    rw (select, subst (λ z. test z ≡ true) e h) (Memᴰ.head e)
mem-select test x (y ∷ ys) (Memᴰ.tail there) h = elim (Bool-cases (test y)) [
  | inl kept ↦ rw (select, kept) (Memᴰ.tail (mem-select test x ys there h))
  | inr dropped ↦ rw (select, dropped) (mem-select test x ys there h)
]

All-select :
    {A : Type 0} (P : A → Type 0) (test : A → Bool) (xs : List A)
    → All P xs
    → All P (select test xs)
All-select P test [] h = h
All-select P test (x ∷ xs) h = elim (Bool-cases (test x)) [
  | inl kept ↦ rw (All, kept) (h.0, All-select P test xs h.1)
  | inr dropped ↦ rw (All, dropped) (All-select P test xs h.1)
]

All-mem : {A : Type 0} (P : A → Type 0) (x : A) (xs : List A) → All P xs → Memᴰ x xs → P x
All-mem P x [] h there = elim there [ ]
All-mem P x (y ∷ ys) h (Memᴰ.head e) = subst P (sym e) h.0
All-mem P x (y ∷ ys) h (Memᴰ.tail there) = All-mem P x ys h.1 there

-- An action that asks to be admitted.
pub record Attempt : Type 0 where
  pub now : ℕ
  pub facts : Facts

acquire_matched-count_all :
    (now : ℕ) (ls : List RateLimit) (bs : Buckets)
    → acquire_matched database now ls bs ≡ count_all now ls bs
unfolding acquire_matched count_all
acquire_matched-count_all now [] bs = refl
acquire_matched-count_all now (l ∷ ls) bs = refl

module _ (organization : ℕ) (table : List RateLimit) where
  abbrev pub attempt : Attempt → Buckets → Admission × Buckets
  attempt a bs = acquire_rate_limits database a.now organization a.facts table bs

  attempt-count_all :
      (a : Attempt) (bs : Buckets)
      → attempt a bs ≡ count_all a.now (matched organization a.facts table) bs
  unfolding acquire_rate_limits
  attempt-count_all a bs = acquire_matched-count_all a.now (matched organization a.facts table) bs

  -- How many of the attempts that the limit is about are admitted in the window that starts at `s`.
  abbrev pub let_through : RateLimit → ℕ → List Attempt → Buckets → ℕ
  let_through l s [] bs = 0
  let_through l s (a ∷ rest) bs =
      (if (bucket_start a.now l.window_seconds == s)
          && (scope_matches l.scope l.scope_id a.facts && is_admitted (attempt a bs).0)
        then 1
        else 0)
      + let_through l s rest (attempt a bs).1

  module _ (max_of : ℕ → ℕ) (l : RateLimit) (stored : Memᴰ l table)
      (own : (l.organization_id == organization) && l.active ≡ true)
      (stated : All (λ (x : RateLimit). max_of x.id ≡ x.max_requests) table) where
    attempt-counts :
        (s : ℕ) (a : Attempt) (bs : Buckets)
        → (if (bucket_start a.now l.window_seconds == s)
                && (scope_matches l.scope l.scope_id a.facts && is_admitted (attempt a bs).0)
              then 1
              else 0)
            + count_at bs l.id s
          ≤ count_at (attempt a bs).1 l.id s
    attempt-counts s a bs =
        let ls = matched organization a.facts table in
        let grows = count_all-grows a.now ls bs l.id s in
        rw (attempt-count_all a bs) (elim (Bool-cases (scope_matches l.scope l.scope_id a.facts)) [
          | inr other ↦ rw other (ground (arith, grows))
          | inl hit ↦
              let there =
                mem-select (λ (x : RateLimit). scope_matches x.scope x.scope_id a.facts) l
                  (select (λ x. (x.organization_id == organization) && x.active) table)
                  (mem-select (λ (x : RateLimit). (x.organization_id == organization) && x.active) l
                    table stored own)
                  hit in
              rw hit (ground (arith, grows, count_all-counts a.now ls bs l there))
        ])

    attempt-IsCapped :
        (a : Attempt) (bs : Buckets) → IsCapped max_of bs → IsCapped max_of (attempt a bs).1
    attempt-IsCapped a bs h =
        let P = λ (x : RateLimit). max_of x.id ≡ x.max_requests in
        rw (attempt-count_all a bs) (
          count_all-IsCapped max_of a.now (matched organization a.facts table) bs
            (All-select P (λ x. scope_matches x.scope x.scope_id a.facts)
              (select (λ x. (x.organization_id == organization) && x.active) table)
              (All-select P (λ x. (x.organization_id == organization) && x.active) table stated))
            h)

    -- Where each id has one maximum and no count exceeds it, a stored and active limit of the
    -- organization lets through, in one window and counted in the database, no more of the actions
    -- that it is about than its maximum allows beyond those already counted, however many attempts
    -- there are, at whatever times and in whatever order.
    pub rate_limit_holds :
        (s : ℕ) (attempts : List Attempt) (bs : Buckets)
        → IsCapped max_of bs
        → let_through l s attempts bs + count_at bs l.id s ≤ l.max_requests
    rate_limit_holds s [] bs h = omega (
      arith,
      h l.id s,
      All-mem (λ (x : RateLimit). max_of x.id ≡ x.max_requests) l table stated stored,
    )
    rate_limit_holds s (a ∷ rest) bs h = omega (
      arith,
      attempt-counts s a bs,
      rate_limit_holds s rest (attempt a bs).1 (attempt-IsCapped a bs h),
    )
