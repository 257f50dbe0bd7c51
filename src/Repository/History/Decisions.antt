-- ===== src/Repository/History/Decisions.antt =====
-- Which calls leave the approvals alone, and what a decision writes.
use qwen_harness_bridge.Repository.ShortId.{RandomBytes}
use qwen_harness_bridge.Repository.Approval.{
  decide, record_decision, record_expired, decide_row, RecordApprovalDecisionInput,
}
use qwen_harness_bridge.Repository.Create.{
  create_idempotent, original_job, CreateIdempotentInput, create_job, register_job, delete_job,
}
use qwen_harness_bridge.Database.Clock.{Clock, FreshIds}
use qwen_harness_bridge.Repository.{JobEventInput, JobRecord}
use qwen_harness_bridge.JobState.{JobStatus}
use qwen_harness_bridge.Database.Tables.{update_job}
use qwen_harness_bridge.Repository.Transition.{transition_and_append}
use qwen_harness_bridge.Repository.Claim.{claim_offer, claim_current, ClaimOfferInput}
use qwen_harness_bridge.Repository.Cancel.{cancel_atomically, cancel_current, CancelJobInput}
use qwen_harness_bridge.Database.{
  Database, Key, CommandPayload, Time, IdempotencyRow, JobRow, ApprovalRow, reject,
}
use qwen_harness_bridge.Repository.Results.{acknowledge_result, acknowledge_current}
use qwen_harness_bridge.Repository.Commands.{
  append_event, enqueue_server_command, ConnectorCommandType,
}
use qwen_harness_bridge.Prelude.{
  ℕ, ◌≡◌, arith, ok, Bool, Option, some, if◌then◌else◌, false, ◌<◌, true,
}

-- A call that leaves the approvals alone.
abbrev pub KeepsApprovals : Database → Database → Type 0
KeepsApprovals db db' = db'.approvals ≡ db.approvals

pub append_event-approvals :
    (id : Key) (n : ℕ) (input : JobEventInput) (clock : Clock) (ids : FreshIds) (db db' : Database)
    → append_event id n input clock ids db ≡ ok db'
    → KeepsApprovals db db'
unfolding append_event
append_event-approvals id n input clock ids db db' h = ground arith

pub enqueue-approvals :
    (owner connector_id : Key) (type : ConnectorCommandType) (payload : CommandPayload)
    (expires_at : Time) (clock : Clock) (k : ℕ) (ids : FreshIds) (db db' : Database)
    → enqueue_server_command owner connector_id type payload expires_at clock k ids db ≡ ok db'
    → KeepsApprovals db db'
unfolding enqueue_server_command
enqueue-approvals owner connector_id type payload expires_at clock k ids db db' h = ground arith

pub transition-approvals :
    (id : Key) (expected : ℕ) (status : JobStatus) (event : JobEventInput) (clock : Clock)
    (ids : FreshIds) (db : Database)
    → KeepsApprovals db (transition_and_append id expected status event clock ids db).1
unfolding transition_and_append append_event update_job
transition-approvals id expected status event clock ids db = ground arith

pub cancel-approvals :
    (input : CancelJobInput) (clock : Clock) (ids : FreshIds) (db : Database)
    → KeepsApprovals db (cancel_atomically input clock ids db).1
unfolding cancel_atomically cancel_current append_event update_job enqueue_server_command
cancel-approvals input clock ids db = ground arith

pub claim-approvals :
    (id : Key) (input : ClaimOfferInput) (clock : Clock) (ids : FreshIds) (db : Database)
    → KeepsApprovals db (claim_offer id input clock ids db).1
unfolding claim_offer claim_current append_event update_job
claim-approvals id input clock ids db = ground arith

pub acknowledge-approvals :
    (owner id : Key) (clock : Clock) (db : Database)
    → KeepsApprovals db (acknowledge_result owner id clock db).1
unfolding acknowledge_result acknowledge_current update_job
acknowledge-approvals owner id clock db = ground arith

original_job-approvals :
    (input : CreateIdempotentInput) (w : IdempotencyRow) (db db' : Database) (r : JobRecord)
    → original_job input w db ≡ ok (r, db')
    → KeepsApprovals db db'
unfolding original_job
original_job-approvals input w db db' r h = ground arith

pub create-approvals :
    (input : CreateIdempotentInput) (bytes : ℕ → RandomBytes) (rival : Option IdempotencyRow)
    (clock : Clock) (ids : FreshIds) (db : Database)
    → KeepsApprovals db (create_idempotent input bytes rival clock ids db).1
unfolding create_idempotent create_job register_job original_job delete_job
create-approvals input bytes rival clock ids db = ground arith

-- The row that a decision writes.
pub decide_row-lem :
    (input : RecordApprovalDecisionInput) (task4 : Bool) (now : Time) (job : JobRow)
    (approval row : ApprovalRow) (clock : Clock) (late : Bool)
    → decide input task4 now job approval clock ≡ ok (row, late)
    → (row.id ≡ approval.id)
      × (row.decision ≡ some (if late then reject else input.decision))
      × (late ≡ false → now < approval.expires_at)
      × (late ≡ false
          → task4 ≡ true
          → (clock.reading 1 < approval.expires_at) × (clock.reading 2 < job.expires_at))
      × (late ≡ true → task4 ≡ true)
unfolding decide record_decision record_expired decide_row
decide_row-lem input task4 now job approval row clock late h = ground arith
