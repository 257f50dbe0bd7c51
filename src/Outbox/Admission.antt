-- ===== src/Outbox/Admission.antt =====
-- outbox.ts: acceptClientMessage, the admission of a new message and its storage.
use qwen_harness_bridge.Outbox.Profile.{body_type}
use qwen_harness_bridge.Repository.{unique_violation}
use qwen_harness_bridge.Json.{max_safe_integer}
use qwen_harness_bridge.Outbox.Messages.{Supply, is_server_sequence, is_taken}
use qwen_harness_bridge.Outbox.{
  ClientMessage, Filters, ClientBody, hello, StoreError, any, ack, sync, ok, authorization_failed,
  guard, client_sequence_gap, store_error, not, leb, client_replay_mismatch, max_safe_integer,
  database_error, internal,
}
use qwen_harness_bridge.Database.{
  Database, ConnectorMessageRow, ConnectorRow, Time, client, client_payload, absent,
}
use qwen_harness_bridge.Prelude.{
  ◌∷◌, none, some, Result, Option, Bool, any, option_or, ◌>>=◌, ◌==◌, ◌&&◌, ok, ◌>>◌, guard, ◌+◌,
  not, leb, ◌||◌, ltb, or_throw, find,
}

-- What is checked of the message alone and of its place in the connector's order.
unfoldable pub admit_body :
    ClientBody → Bool → ConnectorRow → Database → Result StoreError (Option ConnectorMessageRow)
admit_body (hello connector_id last_client last_server capabilities) coordination connector db = do
  guard
      ((connector_id == connector.id)
        && (option_or last_client connector.last_client_sequence == connector.last_client_sequence)
        && leb last_server connector.last_server_sequence)
      (store_error client_replay_mismatch)
  ok none
admit_body (ack sequence) coordination connector db = do
  row ←
      or_throw (find (is_server_sequence connector.id sequence) db.connector_messages)
        (store_error client_replay_mismatch)
  ok (some row)
admit_body (sync job attempt nonce) coordination connector db = do
  guard coordination (store_error authorization_failed)
  ok none
admit_body body coordination connector db = ok none

unfoldable pub admit :
    ClientMessage
    → Bool
    → Bool
    → ConnectorRow
    → Time
    → Database
    → Result StoreError (Option ConnectorMessageRow)
admit message durable coordination connector now db = do
  guard (ltb now message.expires_at && (not durable || leb message.expires_at (now + 60000)))
      (store_error client_replay_mismatch)
  let expected = connector.last_client_sequence + 1
  guard (leb expected max_safe_integer) (store_error internal)
  guard (leb message.sequence expected) (store_error client_sequence_gap)
  guard (leb expected message.sequence) (store_error client_replay_mismatch)
  admit_body message.body coordination connector db

unfoldable pub client_row :
    Filters → ClientMessage → Bool → Bool → ConnectorRow → Supply → ConnectorMessageRow
client_row f message durable coordination connector s = record {
  connector_id = connector.id;
  direction = client;
  sequence = message.sequence;
  message_id = message.message_id;
  type = body_type message.body;
  payload =
      client_payload
        (record {
          payload = f.stored_payload message.body;
          sent_at = message.sent_at;
          expires_at = message.expires_at;
          durable = durable;
          coordination = coordination;
        })
        absent absent;
  correlation_id = message.correlation_id;
  expires_at = message.expires_at;
  acknowledged_at = none;
  created_at = s.clock.now;
}

unfoldable pub store_client_message : ConnectorMessageRow → Database → Result StoreError Database
store_client_message row db = do
  guard
      (not
        (any (is_taken row.connector_id client row.sequence row.message_id) db.connector_messages))
      (database_error unique_violation)
  ok (record db { connector_messages = row ∷ db.connector_messages })
