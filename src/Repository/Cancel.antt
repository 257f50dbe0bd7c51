-- ===== src/Repository/Cancel.antt =====
-- job-repository.ts: cancelAtomically.
pub mod Effects
pub mod Laws
use qwen_harness_bridge.Prelude.{
  ℕ, ◌+◌, Bool, true, false, Option, none, some, Result, ok, leb, ◌==◌, if◌then◌else◌, length,
  guard, ◌>>◌, ◌>>=◌, or_throw, not, [], ◌∷◌,
}
use qwen_harness_bridge.Text.{Text, units, trim}
use qwen_harness_bridge.Json.{Number, safe_natural}
use qwen_harness_bridge.JobState.{JobStatus, queued, dispatched, cancelling, cancelled, is_terminal}
use qwen_harness_bridge.Database.{Key, Database, JobRow, cancellation, cancel_command}
use qwen_harness_bridge.Database.Tables.{find_job, update_job}
use qwen_harness_bridge.Database.Clock.{Clock, FreshIds}
use qwen_harness_bridge.Repository.{
  Error, Outcome, transaction, not_found, revision_conflict, invalid_event,
  connector_owner_mismatch, max_integer, JobRecord, to_job_record, status_text, JobEventInput,
}
use qwen_harness_bridge.Repository.Commands.{
  append_event, next_event_sequence, enqueue_server_command, job_cancel,
}
use qwen_harness_bridge.Repository.Transition.{assert_transition!, end_job}

pub record CancelJobInput : Type 0 where
  pub owner_id : Key
  pub job_id : Key
  pub expected_revision : Number
  pub reason : Option Text

unfoldable pub user_requested : Text
user_requested = units "user requested"

or_requested : Text → Text
or_requested [] = user_requested
or_requested (c ∷ cs) = c ∷ cs

-- input.reason?.trim() || "user requested".
unfoldable pub cancel_reason : Option Text → Text
unfolding or_requested
cancel_reason none = user_requested
cancel_reason (some t) = or_requested (trim t)

-- select … where id and owner … for update.
unfoldable pub owned_by : Key → Option JobRow → Option JobRow
owned_by owner none = none
owned_by owner (some job) = if job.owner_id == owner then some job else none

-- Cancelled before it has run.
unfoldable pub is_immediate : JobStatus → Bool
is_immediate queued = true
is_immediate dispatched = true
is_immediate _ = false

-- A cancellation that has won, or an end of another kind.
unfoldable pub is_settled : JobStatus → Bool
is_settled cancelling = true
is_settled s = is_terminal s

unfoldable pub cancel_row : Clock → JobRow → JobRow
unfolding is_immediate end_job
cancel_row clock job =
    let immediate = is_immediate job.status in
    let next_status = if immediate then cancelled else cancelling in
    let moved : JobRow = record job {
      status = next_status;
      current_stage = status_text next_status;
      revision = job.revision + 1;
      updated_at = clock.now;
    } in
    if immediate
    then end_job clock moved
    else record moved { cancel_revision = some (job.revision + 1) }

unfoldable pub job_cancelled : Text
job_cancelled = units "job.cancelled"

unfoldable pub job_cancelling : Text
job_cancelling = units "job.cancelling"

-- The command to the connector, unless the job had not started.
unfoldable pub notify_cancel :
    Key → JobRow → Text → Bool → Clock → FreshIds → Database → Result Error Database
notify_cancel owner_id updated reason true clock ids db = ok db
notify_cancel owner_id updated reason false clock ids db = do
  connector_id ← or_throw updated.connector_id connector_owner_mismatch
  enqueue_server_command owner_id connector_id job_cancel
      (cancel_command updated.id updated.attempt updated.revision reason ids.nonce)
      updated.expires_at clock 0 ids db

cancel_event : CancelJobInput → Text → Bool → JobRow → JobEventInput
cancel_event input reason immediate updated = record {
  type = if immediate then job_cancelled else job_cancelling;
  payload = cancellation input.job_id reason updated.revision;
  source = none;
  message_id = none;
  correlation_id = none;
}

unfoldable pub cancel_current :
    CancelJobInput
    → ℕ
    → Text
    → JobRow
    → Clock
    → FreshIds
    → Database
    → Result Error (JobRecord × Database)
unfolding notify_cancel cancel_event
cancel_current input expected reason current clock ids db = do
  guard (current.revision == expected) revision_conflict
  guard (not (current.revision == max_integer)) revision_conflict
  let immediate = is_immediate current.status
  assert_transition! current.status (if immediate then cancelled else cancelling)
  let updated = cancel_row clock current
  let moved = update_job input.job_id (cancel_row clock) db
  logged ←
      append_event input.job_id (next_event_sequence moved input.job_id)
        (cancel_event input reason immediate updated) clock ids moved
  db' ← notify_cancel input.owner_id updated reason immediate clock ids logged
  ok (to_job_record updated, db')

cancel_body :
    CancelJobInput → ℕ → Text → Clock → FreshIds → Database → Result Error (JobRecord × Database)
cancel_body input expected reason clock ids db = do
  current ← or_throw (owned_by input.owner_id (find_job input.job_id db)) not_found
  if is_settled current.status
      then ok (to_job_record current, db)
      else cancel_current input expected reason current clock ids db

unfoldable pub cancel_atomically : CancelJobInput → Clock → FreshIds → Database → Outcome JobRecord
unfolding cancel_body
cancel_atomically input clock ids db = transaction db do
  expected ← or_throw (safe_natural input.expected_revision) revision_conflict
  let reason = cancel_reason input.reason
  guard (leb (length reason) 400) invalid_event
  cancel_body input expected reason clock ids db
