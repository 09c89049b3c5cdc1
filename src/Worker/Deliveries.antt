-- ===== src/Worker/Deliveries.antt =====
-- `deliver_webhooks` of apps/worker/agentguard_worker/main.py on the tables Webhook and
-- WebhookDelivery. `post` is what comes of one attempt, from the check of the address on: an
-- exception before there is a response, or a response for which `raise_for_status` does or does not
-- raise.
use aiagentguard.Prelude.{
  ℕ, zero, suc, ◌+◌, ◌*◌, ◌^◌, String, Bool, true, false, not, ◌&&◌, Option, some, List, [], ◌∷◌,
  any, map, length, select, min, leb, if◌then◌else◌, str_eq,
}

pub data DeliveryState : Type 0 where
  pending delivered failed : DeliveryState

pub record Delivery : Type 0 where
  pub id : String
  pub organization_id : String
  pub webhook_id : String
  pub state : DeliveryState
  pub attempts : ℕ
  pub next_attempt_at : ℕ
  pub response_status : Option ℕ

pub record Webhook : Type 0 where
  pub id : String
  pub organization_id : String
  pub active : Bool

pub data Attempt : Type 0 where
  unsent : Attempt
  refused accepted : (code : ℕ) → Attempt

abbrev pub is_pending : DeliveryState → Bool
is_pending pending = true
is_pending _ = false

abbrev pub is_due : ℕ → Delivery → Bool
is_due now d = is_pending d.state && leb d.next_attempt_at now

-- `min(3600, 2 ** attempts * 10)`.
abbrev pub backoff : ℕ → ℕ
backoff attempts = min 3600 (2 ^ attempts * 10)

-- The `except` clause.
unfoldable pub retry_later : ℕ → Delivery → Delivery
retry_later now d =
    let attempts = d.attempts + 1 in
    if leb 10 attempts
    then record d { attempts = attempts; state = failed }
    else record d { attempts = attempts; next_attempt_at = now + backoff attempts }

unfoldable pub settle_attempt : ℕ → Delivery → Attempt → Delivery
settle_attempt now d unsent = retry_later now d
settle_attempt now d (refused code) = retry_later now (record d { response_status = some code })
settle_attempt now d (accepted code) = record d { response_status = some code; state = delivered }

abbrev pub finds : List Webhook → Delivery → Bool
finds webhooks d =
    any
      (λ (w : Webhook).
        str_eq w.id d.webhook_id && (str_eq w.organization_id d.organization_id && w.active))
      webhooks

-- One turn of the loop.
unfoldable pub deliver : ℕ → List Webhook → (Delivery → Attempt) → Delivery → Delivery
deliver now webhooks post d =
    if not (finds webhooks d) then record d { state = failed } else settle_attempt now d (post d)

-- `order_by(next_attempt_at)`.
unfoldable pub insert : Delivery → List Delivery → List Delivery
insert d [] = d ∷ []
insert d (x ∷ xs) =
    let rest = insert d xs in
    if leb d.next_attempt_at x.next_attempt_at then d ∷ x ∷ xs else x ∷ rest

unfoldable pub sort : List Delivery → List Delivery
sort [] = []
sort (d ∷ ds) = insert d (sort ds)

-- `limit(n)`.
unfoldable pub limit {ℓ} : {A : Type ℓ} → ℕ → List A → List A
limit zero xs = []
limit (suc n) [] = []
limit (suc n) (x ∷ xs) = x ∷ limit n xs

abbrev pub items_of : ℕ → ℕ → List Delivery → List Delivery
items_of batch now ds = limit batch (sort (select (is_due now) ds))

-- A row is one of the items by its id.
abbrev pub is_item : List Delivery → Delivery → Bool
is_item items d = any (λ (item : Delivery). str_eq item.id d.id) items

abbrev pub is_delivered : DeliveryState → Bool
is_delivered delivered = true
is_delivered _ = false

-- The rows after the run, and how many were delivered.
unfoldable pub deliver_webhooks :
    ℕ → ℕ → List Webhook → (Delivery → Attempt) → List Delivery → ℕ × List Delivery
deliver_webhooks batch now webhooks post ds =
    let items = items_of batch now ds in
    (
      length (select (λ d. is_delivered (deliver now webhooks post d).state) items),
      map (λ d. if is_item items d then deliver now webhooks post d else d) ds,
    )
