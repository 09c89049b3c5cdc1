-- ===== src/Worker/Overdue.antt =====
-- No execution claim outlives a run of `expire_stale` that has room for all requests.
use mathlib.Core.List.{Memᴰ}
use aiagentguard.Worker.Deliveries.{limit}
use aiagentguard.Worker.Expiry.{
  Approval, Request, Store, is_stale, is_overdue, fail_claim, expire_approval, expire_approvals,
  expire_claims, expire_stale,
}
use aiagentguard.Worker.Progress.{no_member}
use aiagentguard.Prelude.{
  ℕ, zero, suc, ◌≤◌, Bool, true, false, not, List, [], ◌∷◌, ◌≡◌, refl, sym, ap, ◌∙◌, inl, inr,
  Bool-cases, all, any, length, map, select, ◌==◌, arith,
}

-- Every claim of a list, one after the other.
abbrev fail_all : List Request → Request → Request
fail_all [] r = r
fail_all (c ∷ cs) r = fail_all cs (fail_claim c.id r)

abbrev is_claimed : List Request → Request → Bool
is_claimed cs r = any (λ (c : Request). r.id == c.id) cs

overdue-fail_claim :
    (now id : ℕ) (r : Request) → is_overdue now r ≡ false → is_overdue now (fail_claim id r) ≡ false
overdue-fail_claim now id r h = ground arith

overdue-fail_all :
    (now : ℕ) (cs : List Request) (r : Request)
    → is_overdue now r ≡ false
    → is_overdue now (fail_all cs r) ≡ false
overdue-fail_all now [] r h = h
overdue-fail_all now (c ∷ cs) r h =
    overdue-fail_all now cs (fail_claim c.id r) (overdue-fail_claim now c.id r h)

overdue-claimed :
    (now : ℕ) (cs : List Request) (r : Request)
    → is_claimed cs r ≡ true
    → is_overdue now (fail_all cs r) ≡ false
overdue-claimed now [] r h = absurd (ground arith)
overdue-claimed now (c ∷ cs) r h = elim (Bool-cases (r.id == c.id)) [
  | inl e ↦ overdue-fail_all now cs (fail_claim c.id r) (ground arith)
  | inr e ↦ overdue-claimed now cs (fail_claim c.id r) (ground arith)
]

map-map : {A : Type 0} (f g : A → A) (xs : List A) → map g (map f xs) ≡ map (λ x. g (f x)) xs
map-map f g [] = refl
map-map f g (x ∷ xs) = rw (map-map f g xs) refl

map-same : (rs : List Request) → map (fail_all []) rs ≡ rs
map-same [] = refl
map-same (r ∷ rs) = ap (λ xs. r ∷ xs) (map-same rs)

requests-expire_claims :
    (cs : List Request) (count : ℕ) (s : Store)
    → (expire_claims cs (count, s)).1.requests ≡ map (fail_all cs) s.requests
unfolding expire_claims
requests-expire_claims [] count s = sym (map-same s.requests)
requests-expire_claims (c ∷ cs) count s =
    requests-expire_claims cs _ _ ∙ map-map (fail_claim c.id) (fail_all cs) s.requests

length-map : {A : Type 0} (f : A → A) (xs : List A) → length (map f xs) ≡ length xs
length-map f [] = refl
length-map f (x ∷ xs) = omega (arith, length-map f xs)

length-expire_approval :
    (now : ℕ) (a : Approval) (found : ℕ × Store)
    → length (expire_approval now a found).1.requests ≡ length found.1.requests
unfolding expire_approval
length-expire_approval now a (count, s) = grind (arith, length-map)

length-expire_approvals :
    (now : ℕ) (table : List Approval) (found : ℕ × Store)
    → length (expire_approvals now table found).1.requests ≡ length found.1.requests
unfolding expire_approvals
length-expire_approvals now [] found = refl
length-expire_approvals now (a ∷ table) found =
    length-expire_approvals now table (expire_approval now a found)
    ∙ length-expire_approval now a found

limit-all : {A : Type 0} (n : ℕ) (xs : List A) → length xs ≤ n → limit n xs ≡ xs
unfolding limit
limit-all zero [] h = refl
limit-all zero (x ∷ xs) h = absurd (omega (arith, h))
limit-all (suc n) [] h = refl
limit-all (suc n) (x ∷ xs) h = ap (λ ys. x ∷ ys) (limit-all n xs (omega (arith, h)))

length-select : {A : Type 0} (test : A → Bool) (xs : List A) → length (select test xs) ≤ length xs
length-select test [] = omega arith
length-select test (x ∷ xs) = ground (arith, length-select test xs)

all-map-mem :
    {A : Type 0} (test : A → Bool) (step : A → A) (xs : List A)
    → ((x : A) → Memᴰ x xs → test (step x) ≡ true)
    → all test (map step xs) ≡ true
all-map-mem test step [] h = refl
all-map-mem test step (x ∷ xs) h =
    rw (h x (Memᴰ.head refl), all-map-mem test step xs (λ y m. h y (Memᴰ.tail m))) refl

is_claimed-head : (x y : Request) (ys : List Request) → x ≡ y → is_claimed (y ∷ ys) x ≡ true
is_claimed-head x y ys e = ground arith

claimed-select :
    (now : ℕ) (x : Request) (xs : List Request)
    → Memᴰ x xs
    → is_overdue now x ≡ true
    → is_claimed (select (is_overdue now) xs) x ≡ true
claimed-select now x [] m h = absurd (no_member m)
claimed-select now x (y ∷ ys) (Memᴰ.head e) h =
    rw (select, sym (ap (is_overdue now) e) ∙ h)
      (is_claimed-head x y (select (is_overdue now) ys) e)
claimed-select now x (y ∷ ys) (Memᴰ.tail m) h = elim (Bool-cases (is_overdue now y)) [
  | inl e ↦ rw (select, e) (ground (arith, claimed-select now x ys m h))
  | inr e ↦ rw (select, e) (claimed-select now x ys m h)
]

-- A run whose batch has room for all requests leaves no claim that has expired.
pub expire_stale-overdue :
    (batch now : ℕ) (s : Store)
    → length s.requests ≤ batch
    → all (λ r. not (is_overdue now r)) (expire_stale batch now s).1.requests ≡ true
unfolding expire_stale
expire_stale-overdue batch now s room =
    let found = expire_approvals now (limit batch (select (is_stale now) s.approvals)) (0, s) in
    let due = select (is_overdue now) found.1.requests in
    let whole : limit batch due ≡ due = limit-all batch due (
      omega (
        arith,
        room,
        length-select (is_overdue now) found.1.requests,
        length-expire_approvals now (limit batch (select (is_stale now) s.approvals)) (0, s),
      )) in
    rw (whole, requests-expire_claims due found.0 found.1)
      (all-map-mem (λ r. not (is_overdue now r)) (fail_all due) found.1.requests
        (λ r m. elim (Bool-cases (is_overdue now r)) [
          | inl e ↦ rw (overdue-claimed now due r (claimed-select now r found.1.requests m e)) refl
          | inr e ↦ rw (overdue-fail_all now due r e) refl
        ]))
