-- ===== src/Repository/Transition/Effects.antt =====
-- What transitionAndAppend did, from what it answered.
use qwen_harness_bridge.Prelude.{ℕ, ◌+◌, ◌≡◌, true, some, ok, arith}
use qwen_harness_bridge.JobState.{JobStatus, can_transition, assert_transition}
use qwen_harness_bridge.Database.{Key, Database, JobRow}
use qwen_harness_bridge.Database.Tables.{find_job, update_job}
use qwen_harness_bridge.Database.Clock.{Clock, FreshIds}
use qwen_harness_bridge.Repository.{
  JobEventInput, JobRecord, to_job_record, validate_event, fits_integer,
}
use qwen_harness_bridge.Repository.Commands.{append_event, next_event_sequence}
use qwen_harness_bridge.Repository.Transition.{transition_row, event_stage, transition_and_append}

-- A transition that returned has found the job at the expected revision, along an allowed edge, and
-- has written the row and one event.
pub transition_returns :
    (id : Key) (expected : ℕ) (status : JobStatus) (event : JobEventInput) (clock : Clock)
    (ids : FreshIds) (db db' : Database) (r : JobRecord)
    → transition_and_append id expected status event clock ids db ≡ (ok r, db')
    → let row = transition_row status (event_stage event status) clock in
      let moved = update_job id row db in
      (current : JobRow) × (find_job id db ≡ some current)
      × (current.revision ≡ expected)
      × (can_transition current.status status ≡ true)
      × (validate_event event ≡ ok tt)
      × (fits_integer (expected + 1) ≡ true)
      × (append_event id (next_event_sequence moved id) event clock ids moved ≡ ok db')
      × (r ≡ to_job_record (row current))
unfolding transition_and_append assert_transition
transition_returns id expected status event clock ids db db' r h = ground arith
