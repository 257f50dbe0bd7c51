-- ===== src/Outbox/Dispatch.antt =====
-- outbox.ts: dispatchNext. A job that another transaction holds locked is skipped: the argument
-- `is_locked` says which.
use qwen_harness_bridge.Database.Tables.{update_job, find_job}
use qwen_harness_bridge.Repository.Commands.{control_plane}
use qwen_harness_bridge.Outbox.Offers.{job_redispatched, job_dispatched}
use qwen_harness_bridge.Outbox.Ingest.{is_claimed_state}
use qwen_harness_bridge.Repository.Queries.{order_by}
use qwen_harness_bridge.Repository.Claim.{is_dispatched, is_after}
use qwen_harness_bridge.Repository.{JobEventInput, status_text}
use qwen_harness_bridge.Outbox.Messages.{
  Supply, append_job_event, enqueue_server_message, job_offer,
}
use qwen_harness_bridge.Text.{Text}
use qwen_harness_bridge.Outbox.{
  ConnectorIdentity, Bool, Text, true, false, Result, leb, StoreOutcome, not, any, StoreError,
  store_transaction, ok, guard, lock_connector, store_error, internal, checked_job_increment,
  claim_rejected, err, keep_if,
}
use qwen_harness_bridge.JobState.{JobStatus, dispatched, queued}
use qwen_harness_bridge.Database.{
  Key, JobRow, PolicyRow, Time, Database, ConnectorMessageRow, offered, offer_payload,
}
use qwen_harness_bridge.Prelude.{
  ℕ, [], ◌∷◌, none, some, List, Option, Bool, true, false, ltb, ◌==◌, Result, ◌||◌, select, leb,
  length, ◌&&◌, ◌+◌, not, any, if◌then◌else◌, ok, ◌>>◌, guard, ◌>>=◌, is_some, min, err,
}

unfoldable pub is_active_job : Key → Time → JobRow → Bool
is_active_job owner now j =
    (j.owner_id == owner)
    && (is_claimed_state j.status || (is_dispatched j.status && is_after j.lease_expires_at now))
    && ltb now j.expires_at

-- The jobs of a repository that hold a place in it.
unfoldable pub active_count : Key → Key → Time → Database → ℕ
active_count owner repository now db =
    length (select (λ j. (j.repository_id == repository) && is_active_job owner now j) db.jobs)

unfoldable pub is_enabled_policy : Key → PolicyRow → Bool
is_enabled_policy owner p = (p.owner_id == owner) && p.enabled

unfoldable pub eligible_policies : Key → Time → Database → List PolicyRow
eligible_policies owner now db =
    select (λ p. ltb (active_count owner p.id now db) p.max_concurrency)
      (select (is_enabled_policy owner) db.repository_policies)

abbrev pub is_queued : JobStatus → Bool
is_queued queued = true
is_queued _ = false

abbrev pub lapsed : Option Time → Time → Bool
lapsed none now = false
lapsed (some t) now = leb t now

unfoldable pub may_dispatch : Key → List PolicyRow → Time → JobRow → Bool
may_dispatch owner policies now j =
    (j.owner_id == owner)
    && any (λ p. p.id == j.repository_id) policies
    && (is_queued j.status || (is_dispatched j.status && lapsed j.lease_expires_at now))
    && ltb now j.expires_at

-- asc(acceptedAt), asc(id).
unfoldable pub accepted_before : JobRow → JobRow → Bool
accepted_before i j =
    ltb i.accepted_at j.accepted_at || ((i.accepted_at == j.accepted_at) && ltb i.id j.id)

abbrev first_of {ℓ} : {A : Type ℓ} → List A → Option A
first_of [] = none
first_of (x ∷ xs) = some x

-- The row that was picked, by its key, which no other row has.
unfoldable pub locked_row : Option JobRow → Database → Option JobRow
locked_row none db = none
locked_row (some j) db = find_job j.id db

unfoldable pub picked_job : Key → (Key → Bool) → List PolicyRow → Time → Database → Option JobRow
picked_job owner is_locked policies now db = first_of (
    order_by accepted_before
      (select (λ j. may_dispatch owner policies now j && not (is_locked j.id)) db.jobs))

unfoldable pub next_job : Key → (Key → Bool) → List PolicyRow → Time → Database → Option JobRow
next_job owner is_locked policies now db =
    keep_if (may_dispatch owner policies now)
      (locked_row (picked_job owner is_locked policies now db) db)

unfoldable pub dispatch_row : Key → Text → Time → Time → JobRow → JobRow
dispatch_row connector_id lease lease_expires_at now job = record job {
  status = dispatched;
  current_stage = status_text dispatched;
  connector_id = some connector_id;
  lease_id = some lease;
  lease_expires_at = some lease_expires_at;
  revision = job.revision + 1;
  updated_at = now;
}

unfoldable pub dispatch_input : Key → Text → Time → ℕ → JobRow → JobEventInput
dispatch_input connector_id lease lease_expires_at attempt job =
    let redispatch = is_dispatched job.status in
    record {
      type = if redispatch then job_redispatched else job_dispatched;
      payload = offered (record {
        owner_id = job.owner_id;
        repository_id = job.repository_id;
        connector_id = connector_id;
        attempt = attempt;
        lease_id = lease;
        lease_expires_at = lease_expires_at;
        previous_lease_id = if redispatch then job.lease_id else none;
      });
      source = some control_plane;
      message_id = none;
      correlation_id = none;
    }

unfoldable pub write_offer :
    ConnectorIdentity
    → Text
    → Time
    → ℕ
    → JobRow
    → Supply
    → Database
    → Result StoreError (Option ConnectorMessageRow × Database)
write_offer identity lease until attempt job s db = do
  logged ←
      append_job_event job.id (dispatch_input identity.connector_id lease until attempt job) s 0
        (update_job job.id (dispatch_row identity.connector_id lease until (s.clock.reading 1)) db)
  (row, db') ←
      enqueue_server_message identity.connector_id job_offer
        (λ n. offer_payload job.id attempt lease job.repository_id) until
        (s.ids 0).command_correlation s 0 logged
  ok (some row, db')

-- Readings 2 and 3 are those of the update, 4 the one after it.
unfoldable pub offer_job :
    ConnectorIdentity
    → Text
    → JobRow
    → Supply
    → Database
    → Result StoreError (Option ConnectorMessageRow × Database)
offer_job identity lease job s db = do
  let now = s.clock.reading 1
  let redispatch = is_dispatched job.status
  guard (is_some job.request_ciphertext) (store_error internal)
  guard (not redispatch || (is_some job.lease_id && lapsed job.lease_expires_at now))
      (store_error internal)
  next_revision ← checked_job_increment job.revision false claim_rejected
  attempt ← checked_job_increment job.attempt false claim_rejected
  if ltb (s.clock.reading 2) job.expires_at
        && (not redispatch || lapsed job.lease_expires_at (s.clock.reading 3))
      then write_offer identity lease (min (now + 30000) job.expires_at) attempt job s db
      else if leb job.expires_at (s.clock.reading 4)
      then ok (none, db)
      else err (store_error internal)

unfoldable pub dispatch_found :
    ConnectorIdentity
    → Text
    → Option JobRow
    → Supply
    → Database
    → Result StoreError (Option ConnectorMessageRow × Database)
dispatch_found identity lease none s db = ok (none, db)
dispatch_found identity lease (some job) s db = do
  connector ← lock_connector db identity
  if leb job.expires_at (s.clock.reading 1)
      then ok (none, db)
      else offer_job identity lease job s db

unfoldable pub dispatch_locked :
    ConnectorIdentity
    → Text
    → (Key → Bool)
    → Supply
    → Database
    → Result StoreError (Option ConnectorMessageRow × Database)
dispatch_locked identity lease is_locked s db = do
  connector ← lock_connector db identity
  let now = s.clock.reading 0
  let policies = eligible_policies identity.owner_id now db
  dispatch_found identity lease (next_job identity.owner_id is_locked policies now db) s db

unfoldable pub dispatch_next :
    ConnectorIdentity
    → Text
    → (Key → Bool)
    → Supply
    → Database
    → StoreOutcome (Option ConnectorMessageRow)
dispatch_next identity lease is_locked s db =
    store_transaction db (dispatch_locked identity lease is_locked s db)
