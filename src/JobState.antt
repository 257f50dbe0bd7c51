-- ===== src/JobState.antt =====
-- apps/control-plane/src/domain/job-state.ts: the states of a job and the allowed transitions.
-- The set that the source keeps for each state is one clause for each of its members.
pub mod Diagram
use qwen_harness_bridge.Prelude.{Bool, true, false, if◌then◌else◌, Result, ok, err}

-- packages/protocol/src/job.ts: JobStatusSchema.
pub data JobStatus : Type 0 where
  queued dispatched running waiting_approval cancelling succeeded failed cancelled expired :
      JobStatus

unfoldable pub can_transition : JobStatus → JobStatus → Bool
can_transition queued dispatched = true
can_transition queued cancelled = true
can_transition queued expired = true
can_transition dispatched running = true
can_transition dispatched cancelled = true
can_transition dispatched expired = true
can_transition running waiting_approval = true
can_transition running cancelling = true
can_transition running succeeded = true
can_transition running failed = true
can_transition running expired = true
can_transition waiting_approval running = true
can_transition waiting_approval cancelling = true
can_transition waiting_approval failed = true
can_transition waiting_approval expired = true
can_transition cancelling cancelled = true
can_transition cancelling succeeded = true
can_transition cancelling failed = true
can_transition cancelling expired = true
can_transition _ _ = false

-- TERMINAL_JOB_STATES.has(status).
unfoldable pub is_terminal : JobStatus → Bool
is_terminal succeeded = true
is_terminal failed = true
is_terminal cancelled = true
is_terminal expired = true
is_terminal _ = false

-- The error that `assertTransition` throws names both states.
pub data InvalidJobTransition : Type 0 where
  invalid_job_transition : JobStatus → JobStatus → InvalidJobTransition

unfoldable pub assert_transition : JobStatus → JobStatus → Result InvalidJobTransition (Unit {0})
assert_transition from to =
    if can_transition from to then ok tt else err (invalid_job_transition from to)
