-- ===== src/Audit/Examples.antt =====
-- A log of two events, and the theorems on the audit chain at it. The hash is the text itself, and
-- an event's text is its id.
use aiagentguard.Audit.{
  Material, Log, latest, insert, sort, previous_hash_of, append_audit, verify_from,
  verify_audit_chain,
}
use aiagentguard.Audit.Chain.{Ascending, Collision, texts_of, append_audit_verifies, changes_show}
use aiagentguard.Prelude.{ℕ, String, ◌≡◌, ◌⊎◌, refl, true, none, some, [], arith}

abbrev material : String → ℕ → Material String
material id now = record {
  id = id;
  organization_id = "o1";
  event_type = "tool.execution";
  correlation_id = "c";
  workspace_id = none;
  agent_id = none;
  user_id = none;
  tool_id = none;
  request_id = none;
  decision = some "allow";
  risk_score = some 20;
  arguments_hash = none;
  sanitized_data = "";
  result = none;
  latency_ms = none;
  occurred_at = now;
  previous_hash = none;
}

abbrev plain_hash : String → String
plain_hash text = text

abbrev id_of : Material String → String
id_of m = m.id

abbrev hidden : String → String
hidden text = "[REDACTED]"

abbrev empty_log : Log String
empty_log = record {
  events = [];
  archived_through_hash = some "zero";
  webhooks = [];
  deliveries = [];
}

abbrev log : Log String
log = (append_audit plain_hash id_of hidden (material "one" 5) empty_log).1

append_audit_verifies_example :
    let after = (append_audit plain_hash id_of hidden (material "two" 9) log).1 in
    Ascending after.events
    × (verify_audit_chain plain_hash id_of after.events after.archived_through_hash ≡ true)
unfolding append_audit verify_audit_chain verify_from sort insert previous_hash_of latest
append_audit_verifies_example =
    append_audit_verifies plain_hash id_of hidden (material "two" 9) log (tt, tt) (omega arith, tt)
      refl

changes_show_example :
    (texts_of plain_hash id_of (some "zero") (sort log.events)
      ≡ texts_of plain_hash id_of (some "zero") (sort log.events))
    ⊎ Collision {Data = String} plain_hash id_of
unfolding append_audit verify_audit_chain verify_from sort insert previous_hash_of latest
changes_show_example =
    changes_show plain_hash id_of (some "zero") log.events log.events refl refl refl
