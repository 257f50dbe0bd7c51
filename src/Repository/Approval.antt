-- ===== src/Repository/Approval.antt =====
-- job-repository.ts: recordApprovalDecision. The form with an owner (`task4` in the source) works on
-- the database's clock and tells the connector; the form without one only records the decision.
pub mod Effects
use qwen_harness_bridge.Prelude.{
  ℕ, ◌+◌, ◌&&◌, ◌||◌, Bool, true, false, Option, none, some, is_some, Result, ok, err, leb, ltb,
  ◌==◌, if◌then◌else◌, guard, ◌>>◌, ◌>>=◌, or_throw, not, modify,
}
use qwen_harness_bridge.Text.{Text, units}
use qwen_harness_bridge.JobState.{JobStatus, waiting_approval}
use qwen_harness_bridge.Database.{
  Key, Time, Database, JobRow, ApprovalRow, ApprovalDecision, approve, reject, decided,
  decision_command,
}
use qwen_harness_bridge.Database.Tables.{find_job, find_approval, has_approval_id}
use qwen_harness_bridge.Database.Clock.{Clock, FreshIds}
use qwen_harness_bridge.Repository.{
  Error, Outcome, transaction, not_found, approval_expired, approval_mismatch,
  approval_already_decided, connector_owner_mismatch, JobEventInput,
}
use qwen_harness_bridge.Repository.Commands.{
  append_event, next_event_sequence, enqueue_server_command, approval_decision,
}

pub record RecordApprovalDecisionInput : Type 0 where
  pub approval_id : Key
  pub decision : ApprovalDecision
  pub expected_job_revision : ℕ
  pub owner_id : Option Key
  pub action_fingerprint : Option Key
  pub expected_attempt : Option ℕ
  -- input.now ?? new Date(), read only by the form without an owner.
  pub caller_now : Time

pub record ApprovalRecord : Type 0 where
  pub approval : ApprovalRow
  pub owner_id : Key
  pub job_short_id : Text

unfoldable pub to_approval_record : ApprovalRow → JobRow → ApprovalRecord
to_approval_record row job = record {
  approval = row;
  owner_id = job.owner_id;
  job_short_id = job.short_id;
}

abbrev pub same_decision : ApprovalDecision → ApprovalDecision → Bool
same_decision approve approve = true
same_decision reject reject = true
same_decision _ _ = false

abbrev pub is_waiting : JobStatus → Bool
is_waiting waiting_approval = true
is_waiting _ = false

-- x === undefined || x === y.
abbrev pub absent_or : Option ℕ → ℕ → Bool
absent_or none y = true
absent_or (some x) y = x == y

-- A decided approval answers a repeated request of the owner for the same decision of the same,
-- still current binding.
unfoldable pub repeats :
    RecordApprovalDecisionInput → JobRow → ApprovalRow → ApprovalDecision → Bool
repeats input job approval decision =
    same_decision decision input.decision
    && absent_or input.action_fingerprint approval.action_fingerprint
    && is_waiting job.status
    && (job.revision == approval.job_revision)
    && (job.attempt == approval.attempt)
    && absent_or input.expected_attempt approval.attempt
    && (approval.job_revision == input.expected_job_revision)

-- The condition under which an undecided approval may be decided.
unfoldable pub matches_job : RecordApprovalDecisionInput → JobRow → ApprovalRow → Bool
matches_job input job approval =
    (approval.job_revision == input.expected_job_revision)
    && (job.revision == input.expected_job_revision)
    && (not (is_some input.owner_id)
        || (is_waiting job.status
            && (job.attempt == approval.attempt)
            && absent_or input.expected_attempt approval.attempt
            && absent_or input.action_fingerprint approval.action_fingerprint))

unfoldable pub decide_row : ApprovalDecision → Time → Time → ApprovalRow → ApprovalRow
decide_row decision decided_at updated_at approval = record approval {
  decision = some decision;
  decided_at = some decided_at;
  updated_at = updated_at;
}

-- The row as the guarded update leaves it, or none where its condition fails. Each update reads the
-- clock four times, from `k` on.
unfoldable pub record_decision :
    RecordApprovalDecisionInput
    → Bool
    → Time
    → JobRow
    → ApprovalRow
    → Clock
    → ℕ
    → Option ApprovalRow
record_decision input task4 current_time job approval clock k =
    let live =
      if task4
      then ltb (clock.reading k) approval.expires_at && ltb (clock.reading (k + 1)) job.expires_at
      else ltb current_time approval.expires_at in
    if not (is_some approval.decision)
      && (approval.job_revision == input.expected_job_revision)
      && live
    then some (decide_row input.decision (clock.reading (k + 2)) (clock.reading (k + 3)) approval)
    else none

unfoldable pub record_expired :
    RecordApprovalDecisionInput → Bool → JobRow → ApprovalRow → Clock → ℕ → Option ApprovalRow
record_expired input task4 job approval clock k =
    if not (is_some approval.decision)
      && (approval.job_revision == input.expected_job_revision)
      && leb approval.expires_at (clock.reading k)
      && (not task4 || ltb (clock.reading (k + 1)) job.expires_at)
    then some (decide_row reject (clock.reading (k + 2)) (clock.reading (k + 3)) approval)
    else none

-- The updated row, and whether it was rejected because it had expired.
unfoldable pub decide :
    RecordApprovalDecisionInput
    → Bool
    → Time
    → JobRow
    → ApprovalRow
    → Clock
    → Result Error (ApprovalRow × Bool)
decide input task4 current_time job approval clock =
    if leb approval.expires_at current_time
    then (do
      guard task4 approval_expired
      row ← or_throw (record_expired input task4 job approval clock 1) approval_expired
      ok (row, true))
    else elim (record_decision input task4 current_time job approval clock 1) [
      | some row ↦ ok (row, false)
      | none ↦ do
        guard task4 approval_expired
        row ← or_throw (record_expired input task4 job approval clock 5) approval_expired
        ok (row, true)
    ]

unfoldable pub store_approval : ApprovalRow → Database → Database
store_approval row db = record db {
  approvals = modify (has_approval_id row.id) (λ a. row) db.approvals;
}

unfoldable pub approval_decided : Text
approval_decided = units "approval.decided"

unfoldable pub decided_event : ApprovalRow → JobEventInput
decided_event row = record {
  type = approval_decided;
  payload = decided row.id row.decision row.attempt row.job_revision;
  source = none;
  message_id = none;
  correlation_id = none;
}

-- The event and the command of the form with an owner.
unfoldable pub announce :
    Option Key → JobRow → ApprovalRow → Clock → FreshIds → Database → Result Error Database
unfolding decided_event
announce none job row clock ids db = ok db
announce (some owner_id) job row clock ids db = do
  connector_id ← or_throw job.connector_id connector_owner_mismatch
  logged ← append_event job.id (next_event_sequence db job.id) (decided_event row) clock ids db
  enqueue_server_command owner_id connector_id approval_decision
      (decision_command row.id job.id row.attempt row.job_revision row.action_fingerprint
        row.decision)
      job.expires_at clock 9 ids logged

-- The body behind the locks: what was decided already, or a new decision.
unfoldable pub decide_locked :
    RecordApprovalDecisionInput
    → Bool
    → Time
    → JobRow
    → ApprovalRow
    → Option ApprovalDecision
    → Clock
    → FreshIds
    → Database
    → Result Error ((ApprovalRecord × Bool) × Database)
unfolding decide announce
decide_locked input task4 current_time job approval (some old) clock ids db =
    if task4
    then (if repeats input job approval old
        then ok ((to_approval_record approval job, false), db)
        else err approval_mismatch)
    else err approval_already_decided
decide_locked input task4 current_time job approval none clock ids db = do
  guard (matches_job input job approval) approval_mismatch
  (row, expired) ← decide input task4 current_time job approval clock
  db' ← announce input.owner_id job row clock ids (store_approval row db)
  ok ((to_approval_record row job, expired), db')

-- The form with an owner reads the database's clock.
unfoldable pub decision_time : RecordApprovalDecisionInput → Clock → Time
decision_time input clock = if is_some input.owner_id then clock.reading 0 else input.caller_now

unfoldable pub decide_body :
    RecordApprovalDecisionInput
    → Clock
    → FreshIds
    → Database
    → Result Error ((ApprovalRecord × Bool) × Database)
unfolding decision_time
decide_body input clock ids db = do
  approval ← or_throw (find_approval input.approval_id db) not_found
  job ← or_throw (find_job approval.job_id db) not_found
  guard (absent_or input.owner_id job.owner_id) not_found
  let task4 = is_some input.owner_id
  let current_time = decision_time input clock
  guard (not task4 || ltb current_time job.expires_at) approval_expired
  decide_locked input task4 current_time job approval approval.decision clock ids db

-- An expiry is committed as a rejection before it is thrown.
unfoldable pub throw_expired : Outcome (ApprovalRecord × Bool) → Outcome ApprovalRecord
throw_expired (ok (approval, true), db) = (err approval_expired, db)
throw_expired (ok (approval, false), db) = (ok approval, db)
throw_expired (err e, db) = (err e, db)

unfoldable pub record_approval_decision :
    RecordApprovalDecisionInput → Clock → FreshIds → Database → Outcome ApprovalRecord
unfolding decide_body throw_expired
record_approval_decision input clock ids db =
    throw_expired (transaction db (decide_body input clock ids db))
