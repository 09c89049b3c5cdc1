-- ===== src/Audit.antt =====
-- The audit chain: `append_audit` and `verify_audit_chain` of apps/api/agentguard_api/audit.py, on
-- the tables AuditEvent, AuditCheckpoint, Webhook and WebhookDelivery of one organization, in the
-- order in which their rows were inserted. `Material` is the dictionary that is hashed, which holds
-- every column of an event but its own hash. A time is a number, and a latency is the text that is
-- hashed. Parameters are `sha256` with its hexadecimal digest, `dumps` for `canonical_json`, and the
-- data with the scan that redacts them. Of a delivery only its webhook and its event are kept.
pub mod Chain
mod Examples
use aiagentguard.Access.{same_text}
use aiagentguard.Prelude.{
  ℕ, String, Bool, true, false, ◌&&◌, ◌||◌, Option, none, some, List, [], ◌∷◌, ◌++◌, any, leb, map,
  select, if◌then◌else◌, str_eq,
}
use Prim.Native.String.{◌++◌ as str_append}

pub record Material (Data : Type 0) : Type 0 where
  pub id : String
  pub organization_id : String
  pub event_type : String
  pub correlation_id : String
  pub workspace_id : Option String
  pub agent_id : Option String
  pub user_id : Option String
  pub tool_id : Option String
  pub request_id : Option String
  pub decision : Option String
  pub risk_score : Option ℕ
  pub arguments_hash : Option String
  pub sanitized_data : Data
  pub result : Option Data
  pub latency_ms : Option String
  pub occurred_at : ℕ
  pub previous_hash : Option String

pub record AuditEvent (Data : Type 0) : Type 0 where
  pub material : Material Data
  pub event_hash : String

pub record Webhook : Type 0 where
  pub id : String
  pub active : Bool
  pub events : List String

pub record WebhookDelivery : Type 0 where
  pub webhook_id : String
  pub event_id : String

pub record Log (Data : Type 0) : Type 0 where
  pub events : List (AuditEvent Data)
  pub archived_through_hash : Option String
  pub webhooks : List Webhook
  pub deliveries : List WebhookDelivery

abbrev pub subscribes : String → Webhook → Bool
subscribes event_type w =
    w.active && (any (str_eq "*") w.events || any (str_eq event_type) w.events)

abbrev pub or_empty : Option String → String
or_empty none = ""
or_empty (some text) = text

abbrev pub redacted : {Data : Type 0} → (Data → Data) → Option Data → Option Data
redacted redact none = none
redacted redact (some value) = some (redact value)

module _ {Data : Type 0} where
  abbrev pub time_of : AuditEvent Data → ℕ
  time_of e = e.material.occurred_at

  -- `order_by(occurred_at.desc()).limit(1)`.
  unfoldable pub latest : List (AuditEvent Data) → Option (AuditEvent Data)
  latest [] = none
  latest (e ∷ es) = elim (latest es) [
    | none ↦ some e
    | some other ↦ if leb (time_of e) (time_of other) then some other else some e
  ]

  -- `sorted(events, key=…)`, which is stable.
  unfoldable pub insert : AuditEvent Data → List (AuditEvent Data) → List (AuditEvent Data)
  insert e [] = e ∷ []
  insert e (x ∷ xs) =
      let rest = insert e xs in if leb (time_of e) (time_of x) then e ∷ x ∷ xs else x ∷ rest

  unfoldable pub sort : List (AuditEvent Data) → List (AuditEvent Data)
  sort [] = []
  sort (e ∷ es) = insert e (sort es)

  -- The hash that the next event follows.
  unfoldable pub previous_hash_of : Log Data → Option String
  previous_hash_of log = elim (latest log.events) [
    | none ↦ log.archived_through_hash
    | some e ↦ some e.event_hash
  ]

module _ {Data : Type 0} (sha256 : String → String) (dumps : Material Data → String) where
  abbrev pub hashed_text : Option String → Material Data → String
  hashed_text previous m = str_append (or_empty previous) (dumps m)

  -- The arguments are the columns of `given`, with the raw data and result; its id and time are fresh.
  unfoldable pub append_audit :
      (Data → Data) → Material Data → Log Data → AuditEvent Data × Log Data
  append_audit redact given log =
      let previous = previous_hash_of log in
      let material = record given {
        sanitized_data = redact given.sanitized_data;
        result = redacted redact given.result;
        previous_hash = previous;
      } in
      let event : AuditEvent Data = record {
        material = material;
        event_hash = sha256 (hashed_text previous material);
      } in
      (
        event,
        record log {
          events = log.events ++ (event ∷ []);
          deliveries =
              log.deliveries
              ++ map (λ (w : Webhook). record { webhook_id = w.id; event_id = given.id })
                  (select (subscribes given.event_type) log.webhooks);
        },
      )

  unfoldable pub verify_from : Option String → List (AuditEvent Data) → Bool
  verify_from previous [] = true
  verify_from previous (e ∷ es) =
      same_text e.material.previous_hash previous
      && (str_eq (sha256 (hashed_text previous e.material)) e.event_hash
          && verify_from (some e.event_hash) es)

  unfoldable pub verify_audit_chain : List (AuditEvent Data) → Option String → Bool
  verify_audit_chain events initial_hash = verify_from initial_hash (sort events)
