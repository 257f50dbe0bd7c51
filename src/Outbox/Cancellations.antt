-- ===== src/Outbox/Cancellations.antt =====
-- outbox.ts: ingestJobCancelled.
use qwen_harness_bridge.Database.Tables.{update_job}
use qwen_harness_bridge.Outbox.Claim.{connector_source}
use qwen_harness_bridge.Database.Clock.{hours}
use qwen_harness_bridge.Repository.{JobEventInput, status_text}
use qwen_harness_bridge.JobState.{JobStatus, cancelled, cancelling, is_terminal}
use qwen_harness_bridge.Database.{Key, JobRow, Database, withdrawn}
use qwen_harness_bridge.Outbox.{
  Filters, ClientMessage, Bool, false, Result, true, units, StoreError, err, ok, guard, store_error,
  business_deadline_expired, event_rejected, conflict, checked_job_increment, assert_deadlines,
  assert_updated,
}
use qwen_harness_bridge.Outbox.Messages.{Supply, append_job_event}
use qwen_harness_bridge.Text.{Text, units}
use qwen_harness_bridge.Prelude.{
  ℕ, [], ◌∷◌, none, some, Option, if◌then◌else◌, option_or, Bool, false, ◌+◌, Result, true, ◌&&◌,
  err, ok, ◌>>◌, ◌==◌, guard, ltb, ◌>>=◌, ◌||◌,
}

abbrev pub is_cancelling : JobStatus → Bool
is_cancelling cancelling = true
is_cancelling _ = false

-- The two times, if they are new, are readings of the clock.
unfoldable pub cancelled_row : Supply → JobRow → JobRow
cancelled_row s job = record job {
  status = cancelled;
  current_stage = status_text cancelled;
  revision = job.revision + 1;
  terminal_at = some (option_or job.terminal_at (s.clock.reading 3));
  request_delete_at = some (option_or job.request_delete_at (s.clock.reading 4 + hours 24));
  unread_terminal = true;
  updated_at = s.clock.reading 0;
}

unfoldable pub cancelled_input : Filters → ClientMessage → Key → ℕ → Text → JobEventInput
cancelled_input f message job_id attempt reason = record {
  type = units "job.cancelled";
  payload = withdrawn job_id attempt (f.sanitize_connector_text reason 400);
  source = some connector_source;
  message_id = some message.message_id;
  correlation_id = some message.correlation_id;
}

-- The update of a job that is being cancelled, with readings 1 and 2; reading 5 is the one after it.
unfoldable pub finish_cancelling :
    ClientMessage → JobRow → Bool → Supply → Database → Result StoreError Database
finish_cancelling message job coordination s db = do
  guard (ltb (s.clock.reading 0) job.expires_at) (business_deadline_expired event_rejected)
  next_revision ← checked_job_increment job.revision coordination event_rejected
  let live = ltb (s.clock.reading 1) job.expires_at && ltb (s.clock.reading 2) message.expires_at
  assert_updated live message.expires_at (job.expires_at ∷ []) (s.clock.reading 5)
  ok (update_job job.id (cancelled_row s) db)

unfoldable pub ingest_job_cancelled :
    Filters
    → ClientMessage
    → Key
    → ℕ
    → Text
    → Option JobRow
    → Bool
    → Supply
    → Database
    → Result StoreError Database
ingest_job_cancelled f message job_id attempt reason none coordination s db =
    err (store_error event_rejected)
ingest_job_cancelled f message job_id attempt reason (some job) coordination s db = do
  guard (job.attempt == attempt) (conflict coordination event_rejected)
  let active = is_cancelling job.status
  guard (active || is_terminal job.status) (conflict coordination event_rejected)
  moved ← if active then finish_cancelling message job coordination s db else ok db
  db' ← append_job_event job.id (cancelled_input f message job_id attempt reason) s 0 moved
  assert_deadlines message.expires_at (if active then job.expires_at ∷ [] else [])
      (s.clock.reading 5)
  ok db'
