-- ===== src/Worker/Progress.antt =====
-- The runs of `deliver_webhooks` come to an end.
use text.Mathlib.TextEquality.{eq_iff}
use mathlib.Core.List.{Memᴰ}
use aiagentguard.Worker.Deliveries.{
  Delivery, Webhook, Attempt, is_pending, is_due, retry_later, settle_attempt, deliver, insert,
  sort, limit, items_of, is_item, deliver_webhooks,
}
use aiagentguard.Prelude.{
  ℕ, zero, suc, ◌+◌, ◌-◌, ◌≤◌, ◌<◌, Bool, true, false, not, ◌&&◌, ◌||◌, List, [], ◌∷◌, ◌≡◌, refl,
  sym, ap, subst, ◌∙◌, inl, inr, Bool-cases, all, any, length, map, select, leb, ltb, if◌then◌else◌,
  arith,
}

-- How many attempts a delivery has left.
abbrev pub left : Delivery → ℕ
left d = if is_pending d.state then 10 - d.attempts else 0

unfoldable pub attempts_left : List Delivery → ℕ
attempts_left [] = 0
attempts_left (d ∷ ds) = left d + attempts_left ds

-- A pending delivery has had fewer than ten attempts.
abbrev pub is_sound : Delivery → Bool
is_sound d = not (is_pending d.state) || ltb d.attempts 10

left-deliver :
    (now : ℕ) (webhooks : List Webhook) (post : Delivery → Attempt) (d : Delivery)
    → left (deliver now webhooks post d) ≤ left d
unfolding deliver settle_attempt retry_later
left-deliver now webhooks post d = ground arith

left-deliver_due :
    (now : ℕ) (webhooks : List Webhook) (post : Delivery → Attempt) (d : Delivery)
    → is_due now d ≡ true
    → is_sound d ≡ true
    → left (deliver now webhooks post d) < left d
unfolding deliver settle_attempt retry_later
left-deliver_due now webhooks post d due sound = ground arith

is_sound-deliver :
    (now : ℕ) (webhooks : List Webhook) (post : Delivery → Attempt) (d : Delivery)
    → is_sound d ≡ true
    → is_sound (deliver now webhooks post d) ≡ true
unfolding deliver settle_attempt retry_later
is_sound-deliver now webhooks post d sound = ground arith

pub no_member : {A : Type 0} {x : A} → Memᴰ x [] → ⊥
no_member h = elim h [ ]

mem_keep :
    {A : Type 0} {x d : A} {xs ys : List A}
    → (Memᴰ x xs → Memᴰ x ys)
    → Memᴰ x (d ∷ xs)
    → Memᴰ x (d ∷ ys)
mem_keep f (Memᴰ.head e) = Memᴰ.head e
mem_keep f (Memᴰ.tail m) = Memᴰ.tail (f m)

mem_swap : {A : Type 0} {x d y : A} {ys : List A} → Memᴰ x (d ∷ ys) → Memᴰ x (d ∷ y ∷ ys)
mem_swap m = mem_keep Memᴰ.tail m

mem_behind :
    {A : Type 0} {x d y : A} {xs ys : List A}
    → (Memᴰ x xs → Memᴰ x (d ∷ ys))
    → Memᴰ x (y ∷ xs)
    → Memᴰ x (d ∷ y ∷ ys)
mem_behind f (Memᴰ.head e) = Memᴰ.tail (Memᴰ.head e)
mem_behind f (Memᴰ.tail m) = mem_swap (f m)

mem-insert : (x d : Delivery) (ds : List Delivery) → Memᴰ x (insert d ds) → Memᴰ x (d ∷ ds)
unfolding insert
mem-insert x d [] h = h
mem-insert x d (y ∷ ys) h = elim (Bool-cases (leb d.next_attempt_at y.next_attempt_at)) [
  | inl e ↦ subst (λ b. Memᴰ x (if b then d ∷ y ∷ ys else y ∷ insert d ys)) e h
  | inr e ↦
      mem_behind (mem-insert x d ys)
        (subst (λ b. Memᴰ x (if b then d ∷ y ∷ ys else y ∷ insert d ys)) e h)
]

mem-sort : (x : Delivery) (ds : List Delivery) → Memᴰ x (sort ds) → Memᴰ x ds
unfolding sort
mem-sort x [] h = h
mem-sort x (d ∷ ds) h = mem_keep (mem-sort x ds) (mem-insert x d (sort ds) h)

mem-select :
    {A : Type 0} (test : A → Bool) (x : A) (xs : List A) → Memᴰ x (select test xs) → Memᴰ x xs
mem-select test x [] h = h
mem-select test x (y ∷ ys) h = elim (Bool-cases (test y)) [
  | inl e ↦
      mem_keep (mem-select test x ys)
        (subst (λ b. Memᴰ x (elim b [ true ↦ y ∷ select test ys | false ↦ select test ys ])) e h)
  | inr e ↦ Memᴰ.tail (
      mem-select test x ys
        (subst (λ b. Memᴰ x (elim b [ true ↦ y ∷ select test ys | false ↦ select test ys ])) e h))
]

passes-head :
    {A : Type 0} (test : A → Bool) {x y : A} {ys : List A}
    → test y ≡ true
    → (Memᴰ x ys → test x ≡ true)
    → Memᴰ x (y ∷ ys)
    → test x ≡ true
passes-head test t f (Memᴰ.head e) = ap test e ∙ t
passes-head test t f (Memᴰ.tail m) = f m

passes-select :
    {A : Type 0} (test : A → Bool) (x : A) (xs : List A) → Memᴰ x (select test xs) → test x ≡ true
passes-select test x [] h = absurd (no_member h)
passes-select test x (y ∷ ys) h = elim (Bool-cases (test y)) [
  | inl e ↦
      passes-head test e (passes-select test x ys)
        (subst (λ b. Memᴰ x (elim b [ true ↦ y ∷ select test ys | false ↦ select test ys ])) e h)
  | inr e ↦
      passes-select test x ys
        (subst (λ b. Memᴰ x (elim b [ true ↦ y ∷ select test ys | false ↦ select test ys ])) e h)
]

-- Not empty.
abbrev has_head {ℓ} : {A : Type ℓ} → List A → Bool
has_head [] = false
has_head (x ∷ xs) = true

has_head-select :
    {A : Type 0} (test : A → Bool) (xs : List A)
    → any test xs ≡ true
    → has_head (select test xs) ≡ true
has_head-select test [] h = ground arith
has_head-select test (x ∷ xs) h = elim (Bool-cases (test x)) [
  | inl e ↦ rw (select, e) refl
  | inr e ↦ rw (select, e) (has_head-select test xs (ground arith))
]

has_head-insert : (d : Delivery) (ds : List Delivery) → has_head (insert d ds) ≡ true
unfolding insert
has_head-insert d [] = refl
has_head-insert d (x ∷ xs) = ground arith

has_head-sort : (ds : List Delivery) → has_head ds ≡ true → has_head (sort ds) ≡ true
unfolding sort
has_head-sort [] h = h
has_head-sort (d ∷ ds) h = has_head-insert d (sort ds)

mem-limit :
    {A : Type 0} (n : ℕ) (xs : List A)
    → 0 < n
    → has_head xs ≡ true
    → (x : A) × Memᴰ x (limit n xs) × Memᴰ x xs
unfolding limit
mem-limit zero xs h e = absurd (omega (arith, h))
mem-limit (suc n) [] h e = absurd (ground arith)
mem-limit (suc n) (x ∷ xs) h e = (x, Memᴰ.head refl, Memᴰ.head refl)

-- A run with something due handles a delivery that is due.
some_item :
    (batch now : ℕ) (ds : List Delivery)
    → 0 < batch
    → any (is_due now) ds ≡ true
    → (x : Delivery) × Memᴰ x (items_of batch now ds) × Memᴰ x ds × (is_due now x ≡ true)
some_item batch now ds h e =
    let (x, taken, there) =
      mem-limit batch (sort (select (is_due now) ds)) h
        (has_head-sort (select (is_due now) ds) (has_head-select (is_due now) ds e)) in
    let chosen = mem-sort x (select (is_due now) ds) there in
    (x, taken, mem-select (is_due now) x ds chosen, passes-select (is_due now) x ds chosen)

is_item-mem : (x : Delivery) (items : List Delivery) → Memᴰ x items → is_item items x ≡ true
is_item-mem x [] h = absurd (no_member h)
is_item-mem x (y ∷ ys) (Memᴰ.head e) = rw (sym e, (eq_iff x.id x.id).1 refl) refl
is_item-mem x (y ∷ ys) (Memᴰ.tail m) = rw (is_item-mem x ys m) ground arith

attempts_left-map :
    (step : Delivery → Delivery) (ds : List Delivery)
    → ((d : Delivery) → left (step d) ≤ left d)
    → attempts_left (map step ds) ≤ attempts_left ds
unfolding attempts_left
attempts_left-map step [] h = omega arith
attempts_left-map step (d ∷ ds) h = omega (arith, h d, attempts_left-map step ds h)

attempts_left-map_strict :
    (step : Delivery → Delivery) (x : Delivery) (ds : List Delivery)
    → ((d : Delivery) → left (step d) ≤ left d)
    → left (step x) < left x
    → Memᴰ x ds
    → attempts_left (map step ds) < attempts_left ds
unfolding attempts_left
attempts_left-map_strict step x [] h less m = absurd (no_member m)
attempts_left-map_strict step x (d ∷ ds) h less (Memᴰ.head e) =
    omega (arith, attempts_left-map step ds h, subst (λ y. left (step y) < left y) e less)
attempts_left-map_strict step x (d ∷ ds) h less (Memᴰ.tail m) =
    omega (arith, h d, attempts_left-map_strict step x ds h less m)

all-mem :
    {A : Type 0} (test : A → Bool) (x : A) (xs : List A)
    → all test xs ≡ true
    → Memᴰ x xs
    → test x ≡ true
all-mem test x [] h m = absurd (no_member m)
all-mem test x (y ∷ ys) h (Memᴰ.head e) = ap test e ∙ ground arith
all-mem test x (y ∷ ys) h (Memᴰ.tail m) = all-mem test x ys (ground arith) m

all-map :
    {A : Type 0} (test : A → Bool) (step : A → A) (xs : List A)
    → ((x : A) → test x ≡ true → test (step x) ≡ true)
    → all test xs ≡ true
    → all test (map step xs) ≡ true
all-map test step [] h e = refl
all-map test step (x ∷ xs) h e = ground (arith, h x, all-map test step xs h)

-- One run that finds a delivery due uses up attempts, and keeps every delivery sound.
pub deliver_webhooks_progress :
    (batch now : ℕ) (webhooks : List Webhook) (post : Delivery → Attempt) (ds : List Delivery)
    → 0 < batch
    → all is_sound ds ≡ true
    → any (is_due now) ds ≡ true
    → (attempts_left (deliver_webhooks batch now webhooks post ds).1 < attempts_left ds)
      × (all is_sound (deliver_webhooks batch now webhooks post ds).1 ≡ true)
unfolding deliver_webhooks
deliver_webhooks_progress batch now webhooks post ds some_room sound due =
    let (x, item, row, is_due_now) = some_item batch now ds some_room due in
    let step : Delivery → Delivery =
      λ d. if is_item (items_of batch now ds) d then deliver now webhooks post d else d in
    (
      attempts_left-map_strict step x ds (λ d. ground (arith, left-deliver now webhooks post d))
          (rw (is_item-mem x (items_of batch now ds) item)
            (left-deliver_due now webhooks post x is_due_now (all-mem is_sound x ds sound row)))
          row,
      all-map is_sound step ds (λ d e. ground (arith, is_sound-deliver now webhooks post d)) sound,
    )

-- What a run meets: the time, the webhooks and what comes of the attempts.
pub record Round : Type 0 where
  pub now : ℕ
  pub webhooks : List Webhook
  pub post : Delivery → Attempt

abbrev run : ℕ → Round → List Delivery → List Delivery
run batch r ds = (deliver_webhooks batch r.now r.webhooks r.post ds).1

-- Every run finds a delivery that is due.
abbrev pub all_busy : ℕ → List Round → List Delivery → Bool
all_busy batch [] ds = true
all_busy batch (r ∷ rs) ds = any (is_due r.now) ds && all_busy batch rs (run batch r ds)

-- Whatever the times, the webhooks and the answers, at most as many runs in a row find a delivery due
-- as there are attempts left, of which a delivery has ten.
pub deliver_webhooks_ends :
    (batch : ℕ) (rs : List Round) (ds : List Delivery)
    → 0 < batch
    → all is_sound ds ≡ true
    → all_busy batch rs ds ≡ true
    → length rs ≤ attempts_left ds
deliver_webhooks_ends batch [] ds some_room sound busy = omega arith
deliver_webhooks_ends batch (r ∷ rs) ds some_room sound busy =
    let (less, still) =
      deliver_webhooks_progress batch r.now r.webhooks r.post ds some_room sound (ground arith) in
    omega (arith, deliver_webhooks_ends batch rs (run batch r ds) some_room still (ground arith))
