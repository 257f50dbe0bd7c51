-- ===== src/Outbox/Repeats.antt =====
-- outbox.ts: acceptClientMessage, the path of a message that repeats a stored one.
use qwen_harness_bridge.Outbox.Payloads.{same_payload}
use qwen_harness_bridge.Outbox.Answer.{Acceptance, ack_type}
use qwen_harness_bridge.Database.Tables.{has_connector_id}
use qwen_harness_bridge.Text.{text_eq}
use qwen_harness_bridge.Outbox.Messages.{Supply, protocol_error}
use qwen_harness_bridge.Outbox.Duplicates.{
  OriginalResponse, find_original_response, is_exact_duplicate, refresh_server_message, is_sync,
}
use qwen_harness_bridge.Outbox.{
  Filters, ClientBody, ClientMessage, Bool, true, false, Result, heartbeat, text_eq, leb,
  StoreError, ok, not, guard, err, store_error, client_replay_mismatch, internal,
}
use qwen_harness_bridge.Database.{
  Key, Receipt, StoredResponse, Time, ConnectorMessageRow, Database, stored, absent, fresh,
  client_payload, CommandPayload,
}
use qwen_harness_bridge.Prelude.{
  ℕ, none, some, [], ◌∷◌, Option, Bool, if◌then◌else◌, false, true, modify, leb, Result, ◌+◌, ltb,
  ◌||◌, ok, not, ◌>>=◌, ◌>>◌, guard, ◌&&◌, err, or_throw, ◌==◌,
}

abbrev pub is_stored : StoredResponse → Bool
is_stored absent = false
is_stored (stored type payload sequence correlation) = true

-- A durable message may be repeated after its expiry, another only before it.
unfoldable pub may_repeat : Receipt → ClientMessage → Time → Bool
may_repeat receipt message now =
    if receipt.durable then leb message.expires_at (now + 60000) else ltb now message.expires_at

abbrev pub is_error : Option OriginalResponse → Bool
is_error none = false
is_error (some o) = text_eq o.type protocol_error

-- The original response, renewed if it has expired or was replaced. The flag is the comparison of the
-- payloads, which the receipt leaves out.
unfoldable pub renew :
    OriginalResponse
    → Bool
    → Time
    → Time
    → Supply
    → ℕ
    → Database
    → Result StoreError (ConnectorMessageRow × Database)
renew o compares now later s k db =
    if leb o.row.expires_at now
      || not (text_eq o.row.type o.type)
      || (compares && not (same_payload o.row.payload o.payload))
    then refresh_server_message o later s k db
    else ok (o.row, db)

unfoldable pub renew_first :
    Option OriginalResponse
    → Time
    → Supply
    → Database
    → Result StoreError (Option ConnectorMessageRow × Database)
renew_first none now s db = ok (none, db)
renew_first (some o) now s db = do
  (row, db') ← renew o true now (s.clock.reading 1) s 0 db
  ok (some row, db')

unfoldable pub renew_receipt :
    Key
    → ClientMessage
    → Receipt
    → Option ConnectorMessageRow
    → StoredResponse
    → Time
    → Supply
    → Database
    → Result StoreError (Acceptance × Database)
renew_receipt connector_id message receipt response absent now s db =
    ok (record { replay = []; response = response }, db)
renew_receipt connector_id message receipt none receipt_ack now s db = do
  original ← find_original_response connector_id message receipt false receipt_ack db
  err (store_error internal)
renew_receipt connector_id message receipt (some first) receipt_ack now s db = do
  original ← find_original_response connector_id message receipt false receipt_ack db
  o ← or_throw original (store_error internal)
  guard (text_eq o.type ack_type && (o.row.sequence == first.sequence + 1)) (store_error internal)
  (row, db') ← renew o false now (s.clock.reading 2) s 1 db
  ok (record { replay = first ∷ []; response = some row }, db')

unfoldable pub refresh_heartbeat : Key → Time → Database → Database
refresh_heartbeat connector_id now db = record db {
  connectors =
      modify (has_connector_id connector_id)
        (λ c. record c { last_heartbeat_at = some now; health = fresh; updated_at = now })
        db.connectors;
}

abbrev pub is_pulse : ClientBody → Bool
is_pulse heartbeat = true
is_pulse body = false

unfoldable pub repeat_stored :
    Key
    → ClientMessage
    → Receipt
    → StoredResponse
    → StoredResponse
    → Supply
    → Database
    → Result StoreError (Acceptance × Database)
repeat_stored connector_id message receipt response receipt_ack s db = do
  let now = s.clock.reading 0
  guard (may_repeat receipt message now) (store_error client_replay_mismatch)
  original ← find_original_response connector_id message receipt true response db
  guard
      (not (is_sync message.body || (receipt.coordination && is_error original))
        || is_stored receipt_ack)
      (store_error internal)
  (first, renewed) ← renew_first original now s db
  (answer, db') ← renew_receipt connector_id message receipt first receipt_ack now s renewed
  ok (
    answer,
    if is_pulse message.body && not receipt.durable
        then refresh_heartbeat connector_id now db'
        else db',
  )

unfoldable pub repeat_payload :
    (Receipt → StoredResponse → StoredResponse → Result StoreError (Acceptance × Database))
    → CommandPayload
    → Result StoreError (Acceptance × Database)
repeat_payload go (client_payload receipt response receipt_ack) = go receipt response receipt_ack
repeat_payload go payload = err (store_error client_replay_mismatch)

unfoldable pub accept_duplicate :
    Filters
    → Key
    → ClientMessage
    → ConnectorMessageRow
    → Supply
    → Database
    → Result StoreError (Acceptance × Database)
accept_duplicate f connector_id message existing s db = do
  guard (is_exact_duplicate f existing message) (store_error client_replay_mismatch)
  repeat_payload
      (λ receipt response receipt_ack.
        repeat_stored connector_id message receipt response receipt_ack s db)
      existing.payload
