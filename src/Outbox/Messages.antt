-- ===== src/Outbox/Messages.antt =====
-- outbox.ts: enqueueServerMessage, replaceServerMessage, rememberOriginalResponse, appendJobEvent and
-- withdrawCancelledOffer.
use qwen_harness_bridge.Json.{max_safe_integer}
use qwen_harness_bridge.Database.Tables.{find_connector, has_connector_id}
use qwen_harness_bridge.Repository.Claim.{is_key, is_lease}
use qwen_harness_bridge.Repository.Commands.{is_server, append_event, next_event_sequence}
use qwen_harness_bridge.Outbox.{
  StoreError, text_eq, lift_error, guard, is_key, any, find_connector, database_error, store_error,
  internal, ok, leb, max_safe_integer, true, false,
}
use qwen_harness_bridge.Repository.{JobEventInput, unique_violation}
use qwen_harness_bridge.Database.Clock.{Clock, FreshIds, days}
use qwen_harness_bridge.Text.{Text, units, text_eq}
use qwen_harness_bridge.Database.{
  CommandPayload, Key, error_payload, ConnectorMessageRow, Time, Direction, offer_payload, Database,
  cancel_command, server, state_payload, decision_command, StoredResponse, stored, client_payload,
}
use qwen_harness_bridge.Prelude.{
  ℕ, Bool, Option, ◌==◌, ◌+◌, ◌∷◌, some, Result, ◌&&◌, none, not, ◌||◌, ◌>>=◌, ◌>>◌, or_throw,
  guard, any, leb, ok, modify, find, true, false,
}

-- What one statement draws from the database server: identifiers and readings of the clock.
pub record Supply : Type 0 where
  pub clock : Clock
  pub ids : ℕ → FreshIds

unfoldable pub is_server_sequence : Key → ℕ → ConnectorMessageRow → Bool
is_server_sequence connector_id sequence m =
    (m.connector_id == connector_id) && is_server m.direction && (m.sequence == sequence)

-- The two unique keys of `connector_messages`.
unfoldable pub is_taken : Key → Direction → ℕ → Key → ConnectorMessageRow → Bool
is_taken connector_id direction sequence message_id m =
    (m.connector_id == connector_id)
    && (((not (is_server m.direction) || is_server direction)
          && (is_server m.direction || not (is_server direction))
          && (m.sequence == sequence))
        || (m.message_id == message_id))

unfoldable pub server_row :
    Key → ℕ → Text → CommandPayload → Key → Time → Supply → ℕ → ConnectorMessageRow
server_row connector_id sequence type payload correlation_id expires_at s k = record {
  connector_id = connector_id;
  direction = server;
  sequence = sequence;
  message_id = (s.ids k).command_message;
  type = type;
  payload = payload;
  correlation_id = correlation_id;
  expires_at = expires_at;
  acknowledged_at = none;
  created_at = s.clock.now;
}

-- The connector is locked: its row in the database is the one that the caller holds.
unfoldable pub enqueue_server_message :
    Key
    → Text
    → (ℕ → CommandPayload)
    → Time
    → Key
    → Supply
    → ℕ
    → Database
    → Result StoreError (ConnectorMessageRow × Database)
enqueue_server_message connector_id type payload expires_at correlation_id s k db = do
  connector ← or_throw (find_connector connector_id db) (store_error internal)
  let sequence = connector.last_server_sequence + 1
  guard (leb sequence max_safe_integer) (store_error internal)
  let row = server_row connector_id sequence type (payload sequence) correlation_id expires_at s k
  guard (not (any (is_taken connector_id server sequence row.message_id) db.connector_messages))
      (database_error unique_violation)
  ok (
    row,
    record db {
      connectors =
          modify (has_connector_id connector_id)
            (λ c. record c { last_server_sequence = sequence; updated_at = s.clock.now })
            db.connectors;
      connector_messages = row ∷ db.connector_messages;
    },
  )

unfoldable pub append_job_event :
    Key → JobEventInput → Supply → ℕ → Database → Result StoreError Database
append_job_event job_id input s k db =
    lift_error (append_event job_id (next_event_sequence db job_id) input s.clock (s.ids k) db)

unfoldable pub job_offer : Text
job_offer = units "job.offer"

unfoldable pub protocol_error : Text
protocol_error = units "protocol.error"

unfoldable pub expired_tombstone_payload : CommandPayload
expired_tombstone_payload =
    error_payload (units "MESSAGE_EXPIRED") (units "A Connector message expired before delivery.")

unfoldable pub cancelled_tombstone_payload : CommandPayload
cancelled_tombstone_payload =
    error_payload (units "JOB_CANCELLED")
      (units "The offered job was cancelled before it was claimed.")

-- The row as replaceServerMessage leaves it: a fresh identity in the same place.
unfoldable pub tombstone : CommandPayload → Time → Key → ConnectorMessageRow → ConnectorMessageRow
tombstone payload now message_id m = record m {
  message_id = message_id;
  type = protocol_error;
  payload = payload;
  expires_at = now + days 30;
}

-- The payload's fields `job_id` and `lease_id`, as texts.
unfoldable pub payload_job : CommandPayload → Option Key
payload_job (cancel_command job attempt revision reason nonce) = some job
payload_job (decision_command approval job attempt revision fingerprint decision) = some job
payload_job (offer_payload job attempt lease repository) = some job
payload_job (state_payload p) = some p.job_id
payload_job _ = none

unfoldable pub payload_lease : CommandPayload → Option Text
payload_lease (offer_payload job attempt lease repository) = some lease
payload_lease (state_payload p) = p.lease_id
payload_lease _ = none

unfoldable pub is_offer_of : Key → Key → Text → ConnectorMessageRow → Bool
is_offer_of connector_id job_id lease_id m =
    (m.connector_id == connector_id)
    && is_server m.direction
    && text_eq m.type job_offer
    && is_key (payload_job m.payload) job_id
    && is_lease (payload_lease m.payload) lease_id

-- The row is found again by its place and identity, which a rewrite changes.
unfoldable pub is_replaced : ConnectorMessageRow → Bool → Bool → Time → ConnectorMessageRow → Bool
is_replaced row expects_offer expired now m =
    is_server_sequence row.connector_id row.sequence m
    && (m.message_id == row.message_id)
    && (not expects_offer || text_eq m.type job_offer)
    && (not expired || leb m.expires_at now)

unfoldable pub replace_server_message :
    ConnectorMessageRow
    → CommandPayload
    → Bool
    → Bool
    → Time
    → Supply
    → ℕ
    → Database
    → Result StoreError Database
replace_server_message row payload expects_offer expired now s k db = do
  let message_id = (s.ids k).command_message
  guard
      (not (
        any (λ m. (m.connector_id == row.connector_id) && (m.message_id == message_id))
          db.connector_messages))
      (database_error unique_violation)
  ok (record db {
    connector_messages =
        modify (is_replaced row expects_offer expired now) (tombstone payload now message_id)
          db.connector_messages;
  })

unfoldable pub withdraw_cancelled_offer :
    Key → Key → Text → Time → Supply → ℕ → Database → Result StoreError Database
withdraw_cancelled_offer connector_id job_id lease_id now s k db =
    elim (find (is_offer_of connector_id job_id lease_id) db.connector_messages) [
      | none ↦ ok db
      | some m ↦ replace_server_message m cancelled_tombstone_payload true false now s k db
    ]

-- The row of a client message, as rememberOriginalResponse finds it.
unfoldable pub is_client_message : Key → Key → ConnectorMessageRow → Bool
is_client_message connector_id message_id m =
    (m.connector_id == connector_id) && not (is_server m.direction) && (m.message_id == message_id)

unfoldable pub stored_response : ConnectorMessageRow → StoredResponse
stored_response m = stored m.type m.payload m.sequence m.correlation_id

-- The response under STORED_RESPONSE_KEY, or that under RECEIPT_ACK_KEY.
unfoldable pub with_response : Bool → StoredResponse → CommandPayload → CommandPayload
with_response true r (client_payload receipt response receipt_ack) =
    client_payload receipt response r
with_response false r (client_payload receipt response receipt_ack) =
    client_payload receipt r receipt_ack
with_response ack r p = p

unfoldable pub remember_original_response :
    Key → Key → ConnectorMessageRow → Bool → Database → Database
remember_original_response connector_id message_id response ack db = record db {
  connector_messages =
      modify (is_client_message connector_id message_id)
        (λ m. record m { payload = with_response ack (stored_response response) m.payload })
        db.connector_messages;
}
