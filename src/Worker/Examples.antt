-- ===== src/Worker/Examples.antt =====
-- Deliveries to a webhook that answers with an error, an overdue claim, and a log of two events, whose
-- hash is the text itself and whose text is its id.
use aiagentguard.Approvals.{executing}
use aiagentguard.Audit.{
  Material, Log, latest, insert as insert_event, sort as sort_events, previous_hash_of,
  append_audit, verify_from, verify_audit_chain,
}
use aiagentguard.Audit.Chain.{Ascending}
use aiagentguard.Worker.Archive.{archive_audit, archive_audit_verifies}
use aiagentguard.Worker.Deliveries.{
  Delivery, pending, Webhook, Attempt, unsent, refused, retry_later, settle_attempt, deliver,
  insert, sort, limit, deliver_webhooks,
}
use aiagentguard.Worker.Progress.{attempts_left, Round, deliver_webhooks_ends}
use aiagentguard.Worker.Expiry.{Store, is_overdue, expire_stale}
use aiagentguard.Worker.Overdue.{expire_stale-overdue}
use aiagentguard.Prelude.{
  ℕ, String, ◌≤◌, ◌≡◌, refl, true, not, none, some, List, [], ◌∷◌, all, length, arith,
}

abbrev webhook : Webhook
webhook = record { id = "w1"; organization_id = "o1"; active = true }

abbrev delivery : Delivery
delivery = record {
  id = "d1";
  organization_id = "o1";
  webhook_id = "w1";
  state = pending;
  attempts = 8;
  next_attempt_at = 100;
  response_status = none;
}

abbrev server_error : Delivery → Attempt
server_error d = refused 500

-- After 2 ^ 9 * 10 seconds there would be more than an hour to wait.
retried :
    (deliver_webhooks 10 100 (webhook ∷ []) server_error (delivery ∷ [])).1
    ≡ (record delivery { attempts = 9; next_attempt_at = 3700; response_status = some 500 }) ∷ []
unfolding deliver_webhooks deliver settle_attempt retry_later insert sort limit
retried = refl

abbrev rounds : List Round
rounds =
    record { now = 100; webhooks = webhook ∷ []; post = server_error }
    ∷ record { now = 4000; webhooks = webhook ∷ []; post = λ d. unsent }
    ∷ []

deliver_webhooks_ends_example : length rounds ≤ attempts_left (delivery ∷ [])
unfolding deliver_webhooks deliver settle_attempt retry_later insert sort limit
deliver_webhooks_ends_example =
    deliver_webhooks_ends 10 rounds (delivery ∷ []) (omega arith) refl refl

abbrev claimed : Store
claimed = record {
  approvals = [];
  requests =
      record {
        id = 7;
        organization_id = 1;
        status = executing;
        execution_claim_hash = some "h";
        claim_expires_at = some 90;
      }
      ∷ [];
  ledger = record { usages = λ budget start. none; reservations = [] };
  events = [];
}

expire_stale-overdue_example :
    all (λ r. not (is_overdue 100 r)) (expire_stale 10 100 claimed).1.requests ≡ true
expire_stale-overdue_example = expire_stale-overdue 10 100 claimed (omega arith)

abbrev material : String → ℕ → Material String
material id now = record {
  id = id;
  organization_id = "o1";
  event_type = "authorization.decision";
  correlation_id = "c";
  workspace_id = none;
  agent_id = none;
  user_id = none;
  tool_id = none;
  request_id = none;
  decision = some "deny";
  risk_score = none;
  arguments_hash = none;
  sanitized_data = "";
  result = none;
  latency_ms = none;
  occurred_at = now;
  previous_hash = none;
}

abbrev plain_hash : String → String
plain_hash text = text

abbrev id_of : Material String → String
id_of m = m.id

abbrev unchanged : String → String
unchanged text = text

abbrev log : Log String
log =
    (append_audit plain_hash id_of unchanged (material "two" 900000)
      (append_audit plain_hash id_of unchanged (material "one" 5) (record {
        events = [];
        archived_through_hash = some "zero";
        webhooks = [];
        deliveries = [];
      })).1).1

archive_audit_verifies_example :
    Ascending (archive_audit 10 1000000 "free" log).events
    × (verify_audit_chain plain_hash id_of
          (archive_audit 10 1000000 "free" log).events
          (archive_audit 10 1000000 "free" log).archived_through_hash
        ≡ true)
unfolding append_audit verify_audit_chain verify_from sort_events insert_event previous_hash_of
    latest
archive_audit_verifies_example =
    archive_audit_verifies plain_hash id_of 10 1000000 "free" log ((omega arith, tt), (tt, tt)) refl
      refl
