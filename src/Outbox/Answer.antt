-- ===== src/Outbox/Answer.antt =====
-- outbox.ts: acceptClientMessage, the consumption of a message and the messages that answer it.
use qwen_harness_bridge.Outbox.Profile.{job_coordination, durable_receipts}
use qwen_harness_bridge.Outbox.Business.{acknowledge_messages, Business, done, rejected}
use qwen_harness_bridge.Outbox.Replay.{tombstone_replay_batch, replay_rows}
use qwen_harness_bridge.Repository.Commands.{is_server}
use qwen_harness_bridge.Outbox.Messages.{
  Supply, enqueue_server_message, protocol_error, remember_original_response,
}
use qwen_harness_bridge.Outbox.Claim.{ClaimResult, offer_cancelled}
use qwen_harness_bridge.Text.{Text, units, text_eq}
use qwen_harness_bridge.Outbox.{
  ClientMessage, Filters, ClientBody, StoreErrorCode, hello, StoreError, units, err, ack, sync,
  text_eq, ok, authorization_failed, true, false, client_sequence_gap, store_error, claim_rejected,
  not, heartbeat, leb, claim_rejected_message, client_replay_mismatch, event_rejected,
  job_authority_unavailable, internal, message_expired,
}
use qwen_harness_bridge.Database.{
  Database, Key, ConnectorMessageRow, JobRow, CommandPayload, ConnectorRow, Time, StatePayload,
  fresh, ack_payload, error_payload, state_payload, welcome_payload,
}
use qwen_harness_bridge.Prelude.{
  ℕ, [], ◌∷◌, none, some, Result, Option, List, Bool, err, if◌then◌else◌, ◌>>=◌, ◌==◌, ◌&&◌, select,
  ok, true, false, ◌+◌, not, leb, ◌||◌, map,
}

-- The capabilities that the connector has from now on.
unfoldable pub next_capabilities : Filters → ClientBody → Bool → ConnectorRow → List Text
next_capabilities f (hello connector_id last_client last_server capabilities) coordination
      connector =
    select (λ c. not (text_eq c job_coordination) || coordination)
      (elim capabilities [
        | none ↦
            select (λ c. not (text_eq c durable_receipts) && not (text_eq c job_coordination))
              connector.capabilities
        | some cs ↦ map (λ c. f.sanitize_connector_text c 64) cs
      ])
next_capabilities f body coordination connector = connector.capabilities

abbrev is_heartbeat : ClientBody → Bool
is_heartbeat (hello c lc ls caps) = true
is_heartbeat heartbeat = true
is_heartbeat _ = false

unfoldable pub consume_row :
    Filters → ClientMessage → Bool → ConnectorRow → Time → ConnectorRow → ConnectorRow
consume_row f message coordination connector now c =
    let consumed : ConnectorRow = record c {
      last_client_sequence = message.sequence;
      capabilities = next_capabilities f message.body coordination connector;
      updated_at = now;
    } in
    if is_heartbeat message.body
    then record consumed { last_heartbeat_at = some now; health = fresh }
    else consumed

pub record Acceptance : Type 0 where
  pub replay : List ConnectorMessageRow
  pub response : Option ConnectorMessageRow

-- A response is enqueued, and remembered with the message.
unfoldable pub respond :
    Key
    → ClientMessage
    → Text
    → (ℕ → CommandPayload)
    → Time
    → Bool
    → Supply
    → ℕ
    → Database
    → Result StoreError (ConnectorMessageRow × Database)
respond connector_id message type payload expires_at is_receipt s k db = do
  (row, db') ←
      enqueue_server_message connector_id type payload expires_at message.correlation_id s k db
  ok (row, remember_original_response connector_id message.message_id row is_receipt db')

unfoldable pub ack_type : Text
ack_type = units "ack"

unfoldable pub server_capabilities : Bool → Bool → List Text
server_capabilities false coordination = []
server_capabilities true coordination =
    durable_receipts ∷ (if coordination then job_coordination ∷ [] else [])

unfoldable pub welcome :
    ClientMessage
    → ℕ
    → Bool
    → Bool
    → ConnectorRow
    → Supply
    → Database
    → Result StoreError (ConnectorMessageRow × Database)
welcome message last_server durable coordination connector s db =
    respond connector.id message (units "connector.welcome")
      (λ n.
        welcome_payload connector.id n (last_server + 1) (server_capabilities durable coordination))
      (s.clock.reading 0 + 60000) false s 2 db

unfoldable pub answer_hello :
    ClientMessage
    → ℕ
    → Bool
    → Bool
    → ConnectorRow
    → Supply
    → Database
    → Result StoreError (Acceptance × Database)
answer_hello message last_server durable coordination connector s db = do
  let now = s.clock.reading 0
  let acknowledged =
      acknowledge_messages
        (λ m.
          (m.connector_id == connector.id) && is_server m.direction && leb m.sequence last_server)
        now db
  tombstoned ← tombstone_replay_batch connector.id last_server now s 3 acknowledged
  (row, db') ← welcome message last_server durable coordination connector s tombstoned
  ok (record { replay = replay_rows connector.id last_server tombstoned; response = some row }, db')

-- The receipt that follows a first answer.
unfoldable pub with_receipt :
    ClientMessage
    → Time
    → List ConnectorMessageRow
    → ConnectorRow
    → Supply
    → Database
    → Result StoreError (Acceptance × Database)
with_receipt message expires_at replay connector s db = do
  (receipt, db') ←
      respond connector.id message ack_type (λ n. ack_payload message.sequence) expires_at true s 3
        db
  ok (record { replay = replay; response = some receipt }, db')

unfoldable pub state_of : ClientMessage → ℕ → Key → JobRow → Time → StatePayload
state_of message attempt nonce job observed = record {
  job_id = job.id;
  repository_id = job.repository_id;
  mode = job.mode;
  requested_attempt = attempt;
  current_attempt = job.attempt;
  status = job.status;
  job_revision = job.revision;
  cancel_revision = job.cancel_revision;
  lease_id = job.lease_id;
  lease_expires_at = job.lease_expires_at;
  expires_at = job.expires_at;
  observed_at = observed;
  state_valid_until = observed + 2000;
  request_message_id = message.message_id;
  request_sequence = message.sequence;
  nonce = nonce;
}

unfoldable pub answer_sync :
    ClientMessage
    → ℕ
    → Key
    → Option JobRow
    → ConnectorRow
    → Supply
    → Database
    → Result StoreError (Acceptance × Database)
answer_sync message attempt nonce none connector s db = err (store_error authorization_failed)
answer_sync message attempt nonce (some job) connector s db = do
  (state, with_state) ←
      respond connector.id message (units "job.state")
        (λ n. state_payload (state_of message attempt nonce job (s.clock.reading 5)))
        (s.clock.reading 6 + 60000) false s 2 db
  with_receipt message (s.clock.reading 7 + 60000) (state ∷ []) connector s with_state

unfoldable pub code_text : StoreErrorCode → Text
code_text authorization_failed = units "AUTHORIZATION_FAILED"
code_text client_sequence_gap = units "CLIENT_SEQUENCE_GAP"
code_text client_replay_mismatch = units "CLIENT_REPLAY_MISMATCH"
code_text claim_rejected = units "CLAIM_REJECTED"
code_text event_rejected = units "EVENT_REJECTED"
code_text job_authority_unavailable = units "JOB_AUTHORITY_UNAVAILABLE"
code_text message_expired = units "MESSAGE_EXPIRED"
code_text internal = units "INTERNAL"

unfoldable pub answer_rejection :
    ClientMessage
    → StoreErrorCode
    → Text
    → Bool
    → ConnectorRow
    → Supply
    → Database
    → Result StoreError (Acceptance × Database)
answer_rejection message code text durable connector s db = do
  (problem, with_error) ←
      respond connector.id message protocol_error (λ n. error_payload (code_text code) text)
        (s.clock.reading 0 + 60000) false s 2 db
  if durable
      then with_receipt message (s.clock.reading 5 + 60000) (problem ∷ []) connector s with_error
      else ok (record { replay = []; response = some problem }, with_error)

unfoldable pub answer_ack :
    ClientMessage → ConnectorRow → Supply → Database → Result StoreError (Acceptance × Database)
answer_ack message connector s db = do
  (receipt, db') ←
      respond connector.id message ack_type (λ n. ack_payload message.sequence)
        (s.clock.reading 0 + 60000) false s 2 db
  ok (record { replay = []; response = some receipt }, db')

unfoldable pub answer_done :
    ClientMessage
    → ClientBody
    → Option ClaimResult
    → Option JobRow
    → Bool
    → Bool
    → ConnectorRow
    → Supply
    → Database
    → Result StoreError (Acceptance × Database)
answer_done message (hello c lc last_server caps) r job durable coordination connector s db =
    answer_hello message last_server durable coordination connector s db
answer_done message (sync job_id attempt nonce) r job durable coordination connector s db =
    answer_sync message attempt nonce job connector s db
answer_done message (ack sequence) r job durable coordination connector s db =
    if durable
    then answer_ack message connector s db
    else ok (record { replay = []; response = none }, db)
answer_done message body (some offer_cancelled) job durable coordination connector s db =
    answer_rejection message claim_rejected claim_rejected_message durable connector s db
answer_done message body r job durable coordination connector s db =
    answer_ack message connector s db

unfoldable pub answer :
    ClientMessage
    → Business
    → Option JobRow
    → Bool
    → Bool
    → ConnectorRow
    → Supply
    → Database
    → Result StoreError (Acceptance × Database)
answer message (done r) job durable coordination connector s db =
    answer_done message message.body r job durable coordination connector s db
answer message (rejected code text) job durable coordination connector s db =
    answer_rejection message code text durable connector s db
