-- ===== src/Outbox/Approvals.antt =====
-- outbox.ts: ingestApprovalRequested and resumeDeliveredApproval.
use qwen_harness_bridge.Repository.Commands.{control_plane}
use qwen_harness_bridge.Database.Tables.{find_job, update_job, has_approval_id}
use qwen_harness_bridge.Outbox.Claim.{connector_source}
use qwen_harness_bridge.Repository.Approval.{is_waiting, same_decision}
use qwen_harness_bridge.Repository.{JobEventInput, status_text, fits_integer, integer_out_of_range}
use qwen_harness_bridge.JobState.{JobStatus, waiting_approval, running}
use qwen_harness_bridge.Database.{
  ConnectorMessageRow, Key, Time, JobRow, ApprovalDecision, Database, ApprovalRow, requested,
  decision_command, approve, resumed, CommandPayload,
}
use qwen_harness_bridge.Outbox.{
  Filters, ClientMessage, Bool, ApprovalRequest, false, any, text_eq, Result, true, units,
  StoreError, not, err, ok, guard, store_error, find_job, business_deadline_expired, event_rejected,
  conflict, fits_integer, checked_job_increment, database_error, any_passed, assert_deadlines,
  assert_updated,
}
use qwen_harness_bridge.Outbox.Messages.{Supply, append_job_event}
use qwen_harness_bridge.Text.{text_eq, units}
use qwen_harness_bridge.Prelude.{
  ℕ, [], ◌∷◌, none, some, Option, if◌then◌else◌, Bool, false, ◌+◌, any, Result, true, ◌&&◌, not,
  err, ok, ◌>>◌, ◌==◌, guard, ltb, ◌>>=◌,
}

abbrev pub may_ask : JobStatus → Bool
may_ask running = true
may_ask waiting_approval = true
may_ask _ = false

unfoldable pub waiting_row : Time → JobRow → JobRow
waiting_row now job = record job {
  status = waiting_approval;
  current_stage = status_text waiting_approval;
  revision = job.revision + 1;
  updated_at = now;
}

unfoldable pub new_approval : Filters → ApprovalRequest → JobRow → Time → ApprovalRow
new_approval f request job now = record {
  id = request.approval_id;
  job_id = job.id;
  attempt = request.attempt;
  job_revision = request.job_revision;
  action_summary = f.sanitize_connector_text request.action_summary 400;
  impact_summary = f.sanitize_connector_text request.impact_summary 800;
  action_fingerprint = request.action_fingerprint;
  risk_class = f.sanitize_connector_text request.risk_class 64;
  expires_at = request.expires_at;
  decision = none;
  decided_at = none;
  created_at = now;
  updated_at = now;
}

unfoldable pub approval_input : ClientMessage → ApprovalRequest → ApprovalRow → JobEventInput
approval_input message request row = record {
  type = units "approval.requested";
  payload =
      requested request.approval_id request.attempt request.job_revision row.action_summary
        row.impact_summary row.risk_class request.action_fingerprint request.expires_at;
  source = some connector_source;
  message_id = some message.message_id;
  correlation_id = some message.correlation_id;
}

-- Readings 1 to 3 are those of the update, 4 the one after it.
unfoldable pub ingest_approval_requested :
    Filters
    → ClientMessage
    → ApprovalRequest
    → Option JobRow
    → Bool
    → Supply
    → Database
    → Result StoreError Database
ingest_approval_requested f message request none coordination s db =
    err (store_error event_rejected)
ingest_approval_requested f message request (some job) coordination s db = do
  let now = s.clock.reading 0
  let deadlines = job.expires_at ∷ request.expires_at ∷ []
  guard (may_ask job.status && (job.attempt == request.attempt))
      (conflict coordination event_rejected)
  next_revision ← checked_job_increment job.revision coordination event_rejected
  guard (request.job_revision == next_revision) (conflict coordination event_rejected)
  guard (not (any_passed deadlines now)) (business_deadline_expired event_rejected)
  let live =
      ltb (s.clock.reading 1) job.expires_at
      && ltb (s.clock.reading 2) request.expires_at
      && ltb (s.clock.reading 3) message.expires_at
  assert_updated live message.expires_at deadlines (s.clock.reading 4)
  guard (not (any (has_approval_id request.approval_id) db.approvals)) (store_error event_rejected)
  let row = new_approval f request job s.clock.now
  let moved = update_job job.id (waiting_row now) db
  db' ←
      append_job_event job.id (approval_input message request row) s 0
        (record moved { approvals = row ∷ moved.approvals })
  assert_deadlines message.expires_at deadlines (s.clock.reading 4)
  ok db'

abbrev pub is_approve : Option ApprovalDecision → Bool
is_approve none = false
is_approve (some d) = same_decision d approve

unfoldable pub resumed_row : Time → JobRow → JobRow
resumed_row now job = record job {
  status = running;
  current_stage = status_text running;
  revision = job.revision + 1;
  updated_at = now;
}

unfoldable pub resumes : ℕ → ℕ → JobRow → Supply → Bool
resumes attempt revision job s =
    is_waiting job.status
    && (job.attempt == attempt)
    && (job.revision == revision)
    && ltb (s.clock.reading 0) job.expires_at
    && ltb (s.clock.reading 1) job.expires_at

unfoldable pub resumed_input : Key → ℕ → ℕ → JobEventInput
resumed_input approval_id attempt revision = record {
  type = units "job.resumed";
  payload = resumed approval_id attempt revision;
  source = some control_plane;
  message_id = none;
  correlation_id = none;
}

unfoldable pub resume_job :
    Key → ℕ → ℕ → Option JobRow → Supply → Database → Result StoreError Database
resume_job approval_id attempt revision none s db = ok db
resume_job approval_id attempt revision (some job) s db = do
  if resumes attempt revision job s
      then guard (fits_integer (job.revision + 1)) (database_error integer_out_of_range)
        >> append_job_event job.id (resumed_input approval_id attempt revision) s 0
            (update_job job.id (resumed_row (s.clock.reading 0)) db)
      else ok db

-- What the delivered payload asks for.
unfoldable pub resume_payload :
    Bool → CommandPayload → Supply → Database → Result StoreError Database
resume_payload true (decision_command approval_id job_id attempt revision fingerprint decision) s
      db =
    if is_approve decision
    then resume_job approval_id attempt revision (find_job job_id db) s db
    else ok db
resume_payload is_decision payload s db = ok db

-- The delivery of a decision to approve.
unfoldable pub resume_delivered_approval :
    ConnectorMessageRow → Supply → Database → Result StoreError Database
resume_delivered_approval m s db =
    resume_payload (text_eq m.type (units "approval.decision")) m.payload s db
