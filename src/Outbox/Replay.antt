-- ===== src/Outbox/Replay.antt =====
-- outbox.ts: tombstoneReplayBatch, pendingServerMessages, enqueueServer and refreshHealth.
use qwen_harness_bridge.Outbox.Claim.{is_cancelled}
use qwen_harness_bridge.Json.{max_safe_integer}
use qwen_harness_bridge.Repository.Commands.{is_server}
use qwen_harness_bridge.JobState.{is_terminal}
use qwen_harness_bridge.Database.Tables.{find_job}
use qwen_harness_bridge.Repository.Queries.{order_by}
use qwen_harness_bridge.Text.{Text, text_eq}
use qwen_harness_bridge.Outbox.Messages.{
  Supply, payload_job, job_offer, enqueue_server_message, cancelled_tombstone_payload,
  expired_tombstone_payload, replace_server_message,
}
use qwen_harness_bridge.Outbox.{
  ConnectorIdentity, Bool, List, Text, false, true, Result, leb, StoreOutcome, find_job, StoreError,
  store_transaction, text_eq, ok, guard, lock_connector, max_safe_integer, store_error, internal,
  not,
}
use qwen_harness_bridge.Database.{
  Key, Database, ConnectorMessageRow, Time, ConnectorRow, JobRow, CommandPayload, offline, stale,
}
use qwen_harness_bridge.Prelude.{
  ℕ, [], ◌∷◌, none, some, Option, List, modify, Bool, ◌==◌, Result, leb, ltb, if◌then◌else◌, false,
  true, take, ◌||◌, ◌&&◌, ◌+◌, ok, ◌>>◌, select, ◌>>=◌, guard, is_some, option_or, not, suc,
}

abbrev pub server_replay_batch_size : ℕ
server_replay_batch_size = 100

-- eq(connectorId), eq(direction, server), gt(sequence, afterSequence).
unfoldable pub is_after_sequence : Key → ℕ → ConnectorMessageRow → Bool
is_after_sequence connector_id after m =
    (m.connector_id == connector_id) && is_server m.direction && ltb after m.sequence

abbrev pub earlier_sequence : ConnectorMessageRow → ConnectorMessageRow → Bool
earlier_sequence m n = ltb m.sequence n.sequence

-- The job of a message, by the text of its payload.
unfoldable pub job_of_message : Database → ConnectorMessageRow → Option JobRow
job_of_message db m = elim (payload_job m.payload) [ none ↦ none | some id ↦ find_job id db ]

abbrev pub has_ended : Option JobRow → Bool
has_ended none = false
has_ended (some j) = is_terminal j.status

abbrev pub was_cancelled : Option JobRow → Bool
was_cancelled none = false
was_cancelled (some j) = is_cancelled j.status

unfoldable pub needs_tombstone : Database → Time → ConnectorMessageRow → Bool
needs_tombstone db now m =
    leb m.expires_at now || (text_eq m.type job_offer && has_ended (job_of_message db m))

unfoldable pub tombstone_candidates : Key → ℕ → Time → Database → List ConnectorMessageRow
tombstone_candidates connector_id after now db = take server_replay_batch_size (
    order_by earlier_sequence (
      select (λ m. is_after_sequence connector_id after m && needs_tombstone db now m)
        db.connector_messages))

unfoldable pub replace_candidate :
    Database → ConnectorMessageRow → Time → Supply → ℕ → Database → Result StoreError Database
replace_candidate seen m now s k db =
    let job = job_of_message seen m in
    let inactive = text_eq m.type job_offer && is_some job in
    let payload =
      if inactive && was_cancelled job
      then cancelled_tombstone_payload
      else expired_tombstone_payload in
    replace_server_message m payload inactive (not inactive || leb m.expires_at now) now s k db

-- The candidates with their jobs are read before the first of them is replaced.
unfoldable pub replace_candidates :
    Database → List ConnectorMessageRow → Time → Supply → ℕ → Database → Result StoreError Database
replace_candidates seen [] now s k db = ok db
replace_candidates seen (m ∷ ms) now s k db =
    replace_candidate seen m now s k db >>= λ db'. replace_candidates seen ms now s (suc k) db'

unfoldable pub tombstone_replay_batch :
    Key → ℕ → Time → Supply → ℕ → Database → Result StoreError Database
tombstone_replay_batch connector_id after now s k db =
    replace_candidates db (tombstone_candidates connector_id after now db) now s k db

unfoldable pub replay_rows : Key → ℕ → Database → List ConnectorMessageRow
replay_rows connector_id after db = take server_replay_batch_size (
    order_by earlier_sequence (select (is_after_sequence connector_id after) db.connector_messages))

unfoldable pub replay_pending :
    ConnectorIdentity
    → ℕ
    → Supply
    → Database
    → Result StoreError (List ConnectorMessageRow × Database)
replay_pending identity after s db = do
  guard (leb after max_safe_integer) (store_error internal)
  connector ← lock_connector db identity
  db' ← tombstone_replay_batch connector.id after (s.clock.reading 0) s 0 db
  ok (replay_rows identity.connector_id after db', db')

unfoldable pub pending_server_messages :
    ConnectorIdentity → ℕ → Supply → Database → StoreOutcome (List ConnectorMessageRow)
pending_server_messages identity after s db =
    store_transaction db (replay_pending identity after s db)

-- Without an expiry a message lives for a minute.
unfoldable pub enqueue_for :
    ConnectorIdentity
    → Text
    → CommandPayload
    → Option Time
    → Option Key
    → Supply
    → Database
    → Result StoreError (ConnectorMessageRow × Database)
enqueue_for identity type payload expires_at correlation_id s db = do
  connector ← lock_connector db identity
  enqueue_server_message connector.id type (λ n. payload)
      (option_or expires_at (s.clock.reading 0 + 60000))
      (option_or correlation_id (s.ids 0).command_correlation) s 0 db

unfoldable pub enqueue_server :
    ConnectorIdentity
    → Text
    → CommandPayload
    → Option Time
    → Option Key
    → Supply
    → Database
    → StoreOutcome ConnectorMessageRow
enqueue_server identity type payload expires_at correlation_id s db =
    store_transaction db (enqueue_for identity type payload expires_at correlation_id s db)

abbrev pub connector_stale_after_ms : ℕ
connector_stale_after_ms = 20000

abbrev pub connector_offline_after_ms : ℕ
connector_offline_after_ms = 30000

-- lte(lastHeartbeatAt, now - ms), false on null; written without the subtraction.
abbrev pub silent_for : Option Time → ℕ → Time → Bool
silent_for none ms now = false
silent_for (some t) ms now = leb (t + ms) now

unfoldable pub refresh_row : Time → ConnectorRow → ConnectorRow
refresh_row now c =
    if silent_for c.last_heartbeat_at connector_offline_after_ms now
    then record c { health = offline; updated_at = now }
    else if silent_for c.last_heartbeat_at connector_stale_after_ms now
    then record c { health = stale; updated_at = now }
    else c

-- The two updates change different rows, so that one pass makes both.
unfoldable pub refresh_health : Time → Database → Database
refresh_health now db = record db {
  connectors = modify (λ c. true) (refresh_row now) db.connectors;
}
