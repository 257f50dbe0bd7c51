-- ===== src/Outbox/Materialize.antt =====
-- outbox.ts: materializeServerMessage. It is no transaction: between its two reads of an offer the database
-- may change. The parse of the message by its schema is not modelled; a ciphertext and its plaintext are keys.
use qwen_harness_bridge.Database.Tables.{find_job}
use qwen_harness_bridge.Json.{max_safe_integer}
use qwen_harness_bridge.Outbox.{
  StoreError, is_key, guard, leb, store_error, message_expired, internal, max_safe_integer, ok,
  find_job, err,
}
use qwen_harness_bridge.Repository.Claim.{is_dispatched, is_key, is_lease, is_after}
use qwen_harness_bridge.Outbox.Messages.{is_server_sequence, job_offer, payload_job}
use qwen_harness_bridge.Text.{Text, text_eq}
use qwen_harness_bridge.JobState.{JobStatus, running, waiting_approval, cancelling}
use qwen_harness_bridge.Database.{
  ConnectorMessageRow, CommandPayload, Key, Time, JobRow, Database, offer_payload,
}
use qwen_harness_bridge.Prelude.{
  ℕ, none, some, Option, Bool, true, ◌==◌, Result, false, ◌&&◌, ◌+◌, ◌>>◌, ◌||◌, if◌then◌else◌,
  ◌>>=◌, guard, ltb, or_throw, leb, find, ok, err,
}

abbrev pub is_active_offer : JobStatus → Bool
is_active_offer running = true
is_active_offer waiting_approval = true
is_active_offer cancelling = true
is_active_offer s = false

-- The stored message, as it is found again.
unfoldable pub is_same_offer : ConnectorMessageRow → Time → ConnectorMessageRow → Bool
is_same_offer stored at m =
    is_server_sequence stored.connector_id stored.sequence m
    && (m.message_id == stored.message_id)
    && text_eq m.type job_offer
    && (m.expires_at == stored.expires_at)
    && ltb at m.expires_at

unfoldable pub may_hydrate : Key → ℕ → Text → Time → JobRow → Bool
may_hydrate connector_id attempt lease at j =
    ((is_dispatched j.status && (j.attempt + 1 == attempt))
      || (is_active_offer j.status && (j.attempt == attempt)))
    && is_key j.connector_id connector_id
    && is_lease j.lease_id lease
    && is_after j.lease_expires_at at
    && ltb at j.expires_at

unfoldable pub is_offer_payload : Key → ℕ → Text → CommandPayload → Bool
is_offer_payload job attempt lease (offer_payload job' attempt' lease' repository) =
    (job' == job) && (attempt' == attempt) && text_eq lease' lease
is_offer_payload job attempt lease payload = false

-- The ciphertext of the request of an offer that can still be acted on.
unfoldable pub read_actionable_offer :
    ConnectorMessageRow → CommandPayload → Time → Database → Result StoreError Key
read_actionable_offer stored (offer_payload job attempt lease repository) at db = do
  guard (leb 1 attempt && leb attempt max_safe_integer) (store_error message_expired)
  m ← or_throw (find (is_same_offer stored at) db.connector_messages) (store_error message_expired)
  j ← or_throw (find_job job db) (store_error message_expired)
  guard (may_hydrate stored.connector_id attempt lease at j) (store_error message_expired)
  guard (is_offer_payload job attempt lease m.payload) (store_error message_expired)
  or_throw j.request_ciphertext (store_error message_expired)
read_actionable_offer stored payload at db = err (store_error message_expired)

-- A message as it is sent, with the request of an offer.
abbrev pub Materialized : Type 0
Materialized = CommandPayload × Option Key

unfoldable pub hydrate_offer :
    ConnectorMessageRow
    → Option (Key → Key)
    → Time
    → Time
    → Database
    → Database
    → Result StoreError Materialized
hydrate_offer stored decryptor before after seen later = do
  job ← or_throw (payload_job stored.payload) (store_error internal)
  decrypt ← or_throw decryptor (store_error internal)
  guard (ltb before stored.expires_at) (store_error message_expired)
  ciphertext ← read_actionable_offer stored stored.payload before seen
  again ← read_actionable_offer stored stored.payload after later
  guard (ltb after stored.expires_at) (store_error message_expired)
  ok (stored.payload, some (decrypt ciphertext))

unfoldable pub materialize_server_message :
    ConnectorMessageRow
    → Option (Key → Key)
    → Time
    → Time
    → Database
    → Database
    → Result StoreError Materialized
materialize_server_message stored decryptor before after seen later =
    if text_eq stored.type job_offer
    then hydrate_offer stored decryptor before after seen later
    else guard (ltb before stored.expires_at) (store_error message_expired)
      >> ok (stored.payload, none)
