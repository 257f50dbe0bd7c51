-- ===== src/Outbox/Duplicates.antt =====
-- outbox.ts: isExactDuplicate, findOriginalResponse and refreshServerMessage. What the schema of the server's
-- messages checks of a stored response is here that its type is the one of its payload.
use qwen_harness_bridge.Json.{max_safe_integer}
use qwen_harness_bridge.Repository.{unique_violation}
use qwen_harness_bridge.Outbox.Profile.{body_type}
use qwen_harness_bridge.Outbox.Payloads.{same_payload}
use qwen_harness_bridge.Repository.Commands.{is_server}
use qwen_harness_bridge.Outbox.Answer.{code_text, ack_type}
use qwen_harness_bridge.Text.{Text, text_eq, units}
use qwen_harness_bridge.Outbox.Messages.{
  is_server_sequence, Supply, protocol_error, job_offer, expired_tombstone_payload,
}
use qwen_harness_bridge.Database.{
  ConnectorMessageRow, Key, CommandPayload, Time, error_payload, client_payload, ack_payload,
  Receipt, StoredResponse, Database, welcome_payload, cancel_command, decision_command,
  state_payload, offer_payload, stored, absent,
}
use qwen_harness_bridge.Outbox.{
  Filters, ClientMessage, ClientBody, claim, Text, ack, hello, sync, true, text_eq, Result,
  job_event, units, false, claim_rejected, message_expired, StoreError, not,
  job_authority_unavailable, approval_requested, authority_unavailable_message, event_rejected, err,
  Option, claim_rejected_message, job_cancelled, guard, ok, store_error, business_expired_message,
  internal, authority_changed_message, any, database_error, business_limit_message, leb,
  max_safe_integer,
}
use qwen_harness_bridge.Prelude.{
  ℕ, none, some, Bool, ◌+◌, ◌==◌, ◌||◌, true, ◌&&◌, if◌then◌else◌, false, Result, not, err, ◌>>◌,
  Option, ok, guard, any, ◌>>=◌, leb, modify, or_throw, find,
}

-- The row is a stored client message with this receipt.
unfoldable pub is_exact_duplicate : Filters → ConnectorMessageRow → ClientMessage → Bool
is_exact_duplicate f row message =
    not (is_server row.direction)
    && (row.sequence == message.sequence)
    && text_eq row.type (body_type message.body)
    && (row.correlation_id == message.correlation_id)
    && same_content row.payload
  where
    same_content : CommandPayload → Bool
    same_content (client_payload receipt response receipt_ack) =
        (receipt.durable || (row.expires_at == message.expires_at))
        && (receipt.payload == f.stored_payload message.body)
        && (receipt.sent_at == message.sent_at)
        && (receipt.durable || (receipt.expires_at == message.expires_at))
    same_content payload = false

pub record OriginalResponse : Type 0 where
  pub row : ConnectorMessageRow
  pub type : Text
  pub payload : CommandPayload

unfoldable pub payload_type : CommandPayload → Text
payload_type (cancel_command job attempt revision reason nonce) = units "job.cancel"
payload_type (decision_command approval job attempt revision fingerprint decision) =
    units "approval.decision"
payload_type (offer_payload job attempt lease repository) = job_offer
payload_type (error_payload code text) = protocol_error
payload_type (ack_payload sequence) = ack_type
payload_type (welcome_payload connector sequence replay_from capabilities) =
    units "connector.welcome"
payload_type (state_payload p) = units "job.state"
payload_type (client_payload receipt response receipt_ack) = units ""

abbrev is_claim : ClientBody → Bool
is_claim (claim job attempt lease) = true
is_claim body = false

abbrev is_hello : ClientBody → Bool
is_hello (hello connector last_client last_server capabilities) = true
is_hello body = false

abbrev pub is_sync : ClientBody → Bool
is_sync (sync job attempt nonce) = true
is_sync body = false

abbrev pub is_ack : ClientBody → Bool
is_ack (ack sequence) = true
is_ack body = false

-- The four kinds of message whose business may be rejected.
abbrev is_business : ClientBody → Bool
is_business (claim job attempt lease) = true
is_business (job_event job attempt type payload source) = true
is_business (approval_requested r) = true
is_business (job_cancelled job attempt reason) = true
is_business body = false

unfoldable pub answers_hello : Key → ClientBody → ℕ → CommandPayload → Bool
answers_hello connector_id (hello c lc last_server caps) sequence
      (welcome_payload connector server_sequence replay_from capabilities) =
    (connector == connector_id) && (server_sequence == sequence) && (replay_from == last_server + 1)
answers_hello connector_id body sequence payload = false

unfoldable pub answers_sync : ClientMessage → ClientBody → Bool → CommandPayload → Bool
answers_sync message body coordination (error_payload code text) =
    coordination
    && text_eq code (code_text job_authority_unavailable)
    && text_eq text authority_unavailable_message
answers_sync message (sync job attempt nonce) coordination (state_payload p) =
    coordination
    && (p.job_id == job)
    && (p.requested_attempt == attempt)
    && (p.request_message_id == message.message_id)
    && (p.request_sequence == message.sequence)
    && (p.nonce == nonce)
answers_sync message body coordination payload = false

unfoldable pub is_rejection : ClientBody → Bool → Text → Text → Bool
is_rejection body coordination code text =
    is_business body
    && text_eq code (code_text (if is_claim body then claim_rejected else event_rejected))
    && (text_eq text business_expired_message
        || (coordination
            && (text_eq text authority_changed_message || text_eq text business_limit_message))
        || (is_claim body && text_eq text claim_rejected_message))

unfoldable pub answers_other : ClientMessage → Bool → Bool → CommandPayload → Bool
answers_other message durable coordination (ack_payload sequence) = sequence == message.sequence
answers_other message durable coordination (error_payload code text) =
    (durable && is_rejection message.body coordination code text)
    || (is_claim message.body
        && text_eq code (code_text claim_rejected)
        && text_eq text claim_rejected_message)
answers_other message durable coordination payload = false

-- validateResponse, where the stored response was found at its sequence. The flag says that the response
-- is the one under STORED_RESPONSE_KEY.
unfoldable pub validate_response :
    Key → ClientMessage → Bool → Bool → Bool → ConnectorMessageRow → Text → CommandPayload → Bool
validate_response connector_id message first durable coordination row type payload =
    (row.correlation_id == message.correlation_id)
    && text_eq type (payload_type payload)
    && (if is_hello message.body
        then answers_hello connector_id message.body row.sequence payload
        else if is_sync message.body && first
        then answers_sync message message.body coordination payload
        else answers_other message durable coordination payload)

abbrev is_message_expired : ConnectorMessageRow → Bool
is_message_expired row = text_eq row.type protocol_error && expired_code row.payload
  where
    expired_code : CommandPayload → Bool
    expired_code (error_payload code text) = text_eq code (code_text message_expired)
    expired_code payload = false

-- The row may have been replaced by the tombstone of an expired message, and by nothing else.
unfoldable pub is_faithful : Bool → ConnectorMessageRow → Text → CommandPayload → Key → Bool
is_faithful coordination row type payload correlation_id =
    (correlation_id == row.correlation_id)
    && (if is_message_expired row
        then not coordination || same_payload row.payload expired_tombstone_payload
        else text_eq row.type type && same_payload row.payload payload)

unfoldable pub original_at :
    Key
    → ClientMessage
    → Bool
    → Bool
    → Bool
    → StoredResponse
    → Database
    → Result StoreError OriginalResponse
original_at connector_id message first durable coordination absent db = err (store_error internal)
original_at connector_id message first durable coordination
      (stored type payload sequence correlation) db =
    do
      guard (not coordination || (correlation == message.correlation_id)) (store_error internal)
      guard (leb 1 sequence && leb sequence max_safe_integer) (store_error internal)
      row ←
          or_throw (find (is_server_sequence connector_id sequence) db.connector_messages)
            (store_error internal)
      guard (is_faithful coordination row type payload correlation) (store_error internal)
      guard (validate_response connector_id message first durable coordination row type payload)
          (store_error internal)
      ok (record { row = row; type = type; payload = payload })

unfoldable pub find_original_response :
    Key
    → ClientMessage
    → Receipt
    → Bool
    → StoredResponse
    → Database
    → Result StoreError (Option OriginalResponse)
find_original_response connector_id message receipt first response db =
    if is_ack message.body && not receipt.durable then ok none else do
      let coordination = receipt.durable && receipt.coordination
      guard
          ((not receipt.coordination || coordination)
            && (not (is_sync message.body) || coordination))
          (store_error internal)
      original ← original_at connector_id message first receipt.durable coordination response db
      ok (some original)

unfoldable pub is_original : OriginalResponse → ConnectorMessageRow → Bool
is_original o m =
    is_server_sequence o.row.connector_id o.row.sequence m && (m.message_id == o.row.message_id)

unfoldable pub refreshed : OriginalResponse → Time → Key → ConnectorMessageRow → ConnectorMessageRow
refreshed o now message_id m = record m {
  message_id = message_id;
  type = o.type;
  payload = o.payload;
  expires_at = now + 60000;
  created_at = now;
}

unfoldable pub refresh_server_message :
    OriginalResponse
    → Time
    → Supply
    → ℕ
    → Database
    → Result StoreError (ConnectorMessageRow × Database)
refresh_server_message o now s k db = do
  let message_id = (s.ids k).command_message
  guard
      (not (
        any (λ m. (m.connector_id == o.row.connector_id) && (m.message_id == message_id))
          db.connector_messages))
      (database_error unique_violation)
  ok (
    refreshed o now message_id o.row,
    record db {
      connector_messages =
          modify (is_original o) (refreshed o now message_id) db.connector_messages;
    },
  )
