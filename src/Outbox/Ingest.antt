-- ===== src/Outbox/Ingest.antt =====
-- outbox.ts: ingestJobEvent. The job is the one that lockClientJob found, and is locked.
use qwen_harness_bridge.Database.Tables.{update_job}
use qwen_harness_bridge.Database.Clock.{hours}
use qwen_harness_bridge.Repository.{JobEventInput, status_text, is_blank}
use qwen_harness_bridge.JobState.{
  JobStatus, cancelled, waiting_approval, running, cancelling, succeeded, failed, is_terminal,
  can_transition,
}
use qwen_harness_bridge.Database.{Time, JobRow, Database, given}
use qwen_harness_bridge.Outbox.{
  Filters, ClientMessage, Bool, false, any, text_eq, Result, true, units, StoreError, leb, not, err,
  ok, guard, store_error, business_deadline_expired, event_rejected, conflict,
  checked_job_increment, assert_deadlines, assert_updated,
}
use qwen_harness_bridge.Json.{Fields, as_string, get, Json, string, field, end, object}
use qwen_harness_bridge.Outbox.Messages.{Supply, append_job_event}
use qwen_harness_bridge.Text.{Text, text_eq, units, to_lower_case}
use qwen_harness_bridge.Prelude.{
  ℕ, [], ◌∷◌, none, some, Option, List, if◌then◌else◌, option_or, Bool, false, ◌+◌, any, Result,
  true, leb, ◌&&◌, not, length, err, is_some, ok, ◌>>◌, ◌==◌, guard, ltb, ◌>>=◌, ◌||◌,
}

abbrev pub candidate_of : Text → Fields → Text
candidate_of event_type payload =
    option_or (as_string (get "status" payload)) (to_lower_case event_type)

unfoldable pub is_one_of : List Text → Text → Bool
is_one_of ts t = any (λ u. text_eq u t) ts

unfoldable pub terminal_status_for_event : Text → Fields → Option JobStatus
terminal_status_for_event event_type payload =
    let candidate = candidate_of event_type payload in
    if is_one_of
      (units "succeeded" ∷ units "success" ∷ units "completed" ∷ units "job.succeeded" ∷ [])
      candidate
    then some succeeded
    else if is_one_of (units "failed" ∷ units "failure" ∷ units "job.failed" ∷ []) candidate
    then some failed
    else if is_one_of (units "cancelled" ∷ units "canceled" ∷ units "job.cancelled" ∷ []) candidate
    then some cancelled
    else none

unfoldable pub other_status_for_event : JobStatus → Text → JobStatus
other_status_for_event current candidate =
    if text_eq candidate (units "waiting_approval")
    then waiting_approval
    else if is_one_of (units "running" ∷ units "resumed" ∷ []) candidate
    then running
    else current

unfoldable pub status_for_event : JobStatus → Text → Fields → JobStatus
status_for_event current event_type payload =
    option_or (terminal_status_for_event event_type payload)
      (other_status_for_event current (candidate_of event_type payload))

abbrev is_filled : Fields → Bool
is_filled end = false
is_filled (field k v r) = true

unfoldable pub has_usable_terminal_summary : Fields → Bool
has_usable_terminal_summary payload = elim (get "summary" payload) [
  | none ↦ false
  | some v ↦ usable v
]
  where
    usable : Json → Bool
    usable (string t) = not (is_blank t)
    usable (object fs) = is_filled fs
    usable _ = false

unfoldable pub event_current_stage : Text → Fields → Text
event_current_stage event_type payload = elim (as_string (get "stage" payload)) [
  | none ↦ event_type
  | some t ↦ if leb (length t) 128 then t else event_type
]

unfoldable pub event_job_row : JobStatus → Bool → Text → Fields → Time → JobRow → JobRow
event_job_row next terminal event_type payload now job =
    let moved : JobRow = record job {
      status = next;
      current_stage = event_current_stage event_type payload;
      revision = job.revision + 1;
      updated_at = now;
    } in
    if terminal
    then record moved {
      terminal_at = some now;
      request_delete_at = some (now + hours 24);
      unread_terminal = true;
      summary = if has_usable_terminal_summary payload then some (object payload) else none;
    }
    else moved

unfoldable pub same_status! : JobStatus → JobStatus → Bool
same_status! s t = text_eq (status_text s) (status_text t)

abbrev pub is_claimed_state : JobStatus → Bool
is_claimed_state running = true
is_claimed_state waiting_approval = true
is_claimed_state cancelling = true
is_claimed_state _ = false

-- Readings 1 and 2 are those of the update, 3 the one after it.
unfoldable pub ingest_live_event :
    ClientMessage
    → Text
    → Fields
    → JobEventInput
    → JobRow
    → Bool
    → Supply
    → Database
    → Result StoreError Database
ingest_live_event message event_type payload input job coordination s db = do
  let now = s.clock.reading 0
  let next = status_for_event job.status event_type payload
  let terminal = is_some (terminal_status_for_event event_type payload)
  guard (is_claimed_state job.status) (conflict coordination event_rejected)
  guard (ltb now job.expires_at) (business_deadline_expired event_rejected)
  guard (same_status! next job.status || can_transition job.status next)
      (conflict coordination event_rejected)
  next_revision ← checked_job_increment job.revision coordination event_rejected
  let live = ltb (s.clock.reading 1) job.expires_at && ltb (s.clock.reading 2) message.expires_at
  assert_updated live message.expires_at (job.expires_at ∷ []) (s.clock.reading 3)
  db' ←
      append_job_event job.id input s 0
        (update_job job.id (event_job_row next terminal event_type payload now) db)
  assert_deadlines message.expires_at (job.expires_at ∷ []) (s.clock.reading 3)
  ok db'

-- An event of a job that has ended is only logged, and only if it is an end itself.
unfoldable pub ingest_ended_event :
    ClientMessage
    → Text
    → Fields
    → JobEventInput
    → JobRow
    → Bool
    → Supply
    → Database
    → Result StoreError Database
ingest_ended_event message event_type payload input job coordination s db = do
  guard (is_some (terminal_status_for_event event_type payload))
      (conflict coordination event_rejected)
  db' ← append_job_event job.id input s 0 db
  assert_deadlines message.expires_at [] (s.clock.reading 3)
  ok db'

unfoldable pub event_input : Filters → ClientMessage → Text → Fields → Text → JobEventInput
event_input f message event_type payload source = record {
  type = f.sanitize_connector_text event_type 64;
  payload = given (f.sanitize_connector_event_payload payload);
  source = some (f.sanitize_connector_text source 32);
  message_id = some message.message_id;
  correlation_id = some message.correlation_id;
}

unfoldable pub ingest_job_event :
    Filters
    → ClientMessage
    → ℕ
    → Text
    → Fields
    → Text
    → Option JobRow
    → Bool
    → Supply
    → Database
    → Result StoreError Database
ingest_job_event f message attempt event_type payload source none coordination s db =
    err (store_error event_rejected)
ingest_job_event f message attempt event_type payload source (some job) coordination s db = do
  guard (job.attempt == attempt) (conflict coordination event_rejected)
  let clean = f.sanitize_connector_event_payload payload
  let type = f.sanitize_connector_text event_type 64
  let input = event_input f message event_type payload source
  if is_terminal job.status
      then ingest_ended_event message type clean input job coordination s db
      else ingest_live_event message type clean input job coordination s db
