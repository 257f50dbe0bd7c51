-- ===== src/Repository/Transition.antt =====
-- job-repository.ts: transitionAndAppend.
pub mod Effects
use qwen_harness_bridge.Prelude.{
  ℕ, ◌+◌, true, Option, none, some, option_or, Result, ok, err, leb, ◌==◌, if◌then◌else◌, length,
  guard, ◌>>◌, ◌>>=◌, or_throw,
}
use qwen_harness_bridge.Text.{Text}
use qwen_harness_bridge.Json.{Fields, end, get, coalesce, as_string}
use qwen_harness_bridge.JobState.{JobStatus, is_terminal, assert_transition}
use qwen_harness_bridge.Database.{Key, Database, JobRow, EventPayload, given}
use qwen_harness_bridge.Database.Tables.{find_job, update_job}
use qwen_harness_bridge.Database.Clock.{Clock, FreshIds, hours}
use qwen_harness_bridge.Repository.{
  Error, Outcome, transaction, invalid_transition, not_found, revision_conflict,
  integer_out_of_range, fits_integer, JobRecord, to_job_record, status_text, JobEventInput,
  validate_event,
}
use qwen_harness_bridge.Repository.Commands.{append_event, next_event_sequence}

-- `assertTransition` inside a transaction.
abbrev pub assert_transition! : JobStatus → JobStatus → Result Error (Unit {0})
assert_transition! from to = elim (assert_transition from to) [
  | ok u ↦ ok tt
  | err e ↦ err (invalid_transition e)
]

abbrev given_fields : EventPayload → Fields
given_fields (given fs) = fs
given_fields _ = end

short_stage : Option Text → JobStatus → Text
short_stage none status = status_text status
short_stage (some t) status = if leb (length t) 128 then t else status_text status

-- The stage that the event names, if it is a text of at most 128 units, and else the status.
unfoldable pub event_stage : JobEventInput → JobStatus → Text
unfolding short_stage
event_stage event status =
    let payload = given_fields event.payload in
    short_stage (as_string (coalesce (get "stage" payload) (get "current_stage" payload))) status

-- The columns that only a terminal status sets. A time that is there is kept.
unfoldable pub end_job : Clock → JobRow → JobRow
end_job clock job = record job {
  terminal_at = some (option_or job.terminal_at clock.now);
  request_delete_at = some (option_or job.request_delete_at (clock.now + hours 24));
  unread_terminal = true;
}

unfoldable pub transition_row : JobStatus → Text → Clock → JobRow → JobRow
unfolding end_job
transition_row status stage clock job =
    let moved : JobRow = record job {
      status = status;
      current_stage = stage;
      revision = job.revision + 1;
      updated_at = clock.now;
    } in
    if is_terminal status then end_job clock moved else moved

transition_body :
    Key
    → ℕ
    → JobStatus
    → JobEventInput
    → Clock
    → FreshIds
    → Database
    → Result Error (JobRecord × Database)
transition_body job_id expected_revision status event clock ids db = do
  current ← or_throw (find_job job_id db) not_found
  guard (current.revision == expected_revision) revision_conflict
  assert_transition! current.status status
  guard (fits_integer (current.revision + 1)) integer_out_of_range
  let row = transition_row status (event_stage event status) clock
  let moved = update_job job_id row db
  db' ← append_event job_id (next_event_sequence moved job_id) event clock ids moved
  ok (to_job_record (row current), db')

unfoldable pub transition_and_append :
    Key → ℕ → JobStatus → JobEventInput → Clock → FreshIds → Database → Outcome JobRecord
unfolding transition_body
transition_and_append job_id expected_revision status event clock ids db =
    transaction db
      do validate_event event; transition_body job_id expected_revision status event clock ids db
