-- ===== src/Repository.antt =====
-- apps/control-plane/src/db/job-repository.ts: the errors, the records it returns, and what its
-- methods share. Each method is one function of a child module, from the database before the call to
-- the answer and the database after it. A transaction that throws is rolled back. Row locks and the
-- advisory lock make each transaction one step.
pub mod Commands
pub mod Transition
pub mod Cancel
pub mod Claim
pub mod Approval
pub mod Invariant
pub mod Progress
pub mod History
pub mod ShortId
pub mod Create
pub mod Results
pub mod Queries
pub mod Examples
use qwen_harness_bridge.Prelude.{
  ℕ, ◌+◌, ◌||◌, not, Bool, true, false, Option, none, some, Result, ok, err, leb, ltb, ◌==◌, min,
  if◌then◌else◌, length, guard, ◌>>◌, ◌>>=◌, or_throw,
}
use qwen_harness_bridge.Text.{Text, units, trim}
use qwen_harness_bridge.Json.{Json, Number, safe_natural}
use qwen_harness_bridge.JobState.{
  JobStatus, queued, dispatched, running, waiting_approval, cancelling, succeeded, failed,
  cancelled, expired, InvalidJobTransition,
}
use qwen_harness_bridge.Database.{
  Key, Time, Mode, JobRow, EventPayload, ApprovalRow, ApprovalDecision, Database,
}

-- JobRepositoryErrorCode, `assertTransition`'s error, and the two errors of the database server that
-- the repository can run into: an integer column that overflows and a unique key taken twice.
pub data Error : Type 0 where
  idempotency_conflict revision_conflict approval_already_decided approval_expired : Error
  approval_mismatch connector_owner_mismatch invalid_attempt invalid_event : Error
  invalid_lease_id invalid_limit not_found short_id_exhausted : Error
  invalid_transition : InvalidJobTransition → Error
  integer_out_of_range unique_violation : Error

abbrev pub Outcome : Type 0 → Type 0
Outcome A = Result Error A × Database

-- db.transaction: what the body wrote is kept if it returns, and dropped if it throws.
abbrev pub transaction : {A : Type 0} → Database → Result Error (A × Database) → Outcome A
transaction db (ok (a, db')) = (ok a, db')
transaction db (err e) = (err e, db)

abbrev pub max_integer : ℕ
max_integer = 2147483647

-- A write to an `integer` column.
abbrev pub fits_integer : ℕ → Bool
fits_integer n = leb n max_integer

pub record JobRecord : Type 0 where
  pub job_id : Key
  pub short_id : Text
  pub owner_id : Key
  pub connector_id : Option Key
  pub repository_id : Key
  pub request_ciphertext : Option Key
  pub request_digest : Key
  pub mode : Mode
  pub status : JobStatus
  pub current_stage : Text
  pub revision : ℕ
  pub attempt : ℕ
  pub lease_id : Option Text
  pub lease_expires_at : Option Time
  pub harness_agent_id : Option Key
  pub harness_session_id : Option Key
  pub title : Option Text
  pub summary : Option Json
  pub unread_terminal : Bool
  pub acknowledged_at : Option Time
  pub accepted_at : Time
  pub expires_at : Time
  pub request_delete_at : Option Time
  pub retention_delete_at : Time
  pub terminal_at : Option Time
  pub created_at : Time
  pub updated_at : Time

unfoldable pub to_job_record : JobRow → JobRecord
to_job_record row = record {
  job_id = row.id;
  short_id = row.short_id;
  owner_id = row.owner_id;
  connector_id = row.connector_id;
  repository_id = row.repository_id;
  request_ciphertext = row.request_ciphertext;
  request_digest = row.request_digest;
  mode = row.mode;
  status = row.status;
  current_stage = row.current_stage;
  revision = row.revision;
  attempt = row.attempt;
  lease_id = row.lease_id;
  lease_expires_at = row.lease_expires_at;
  harness_agent_id = row.harness_agent_id;
  harness_session_id = row.harness_session_id;
  title = row.title;
  summary = row.summary;
  unread_terminal = row.unread_terminal;
  acknowledged_at = row.acknowledged_at;
  accepted_at = row.accepted_at;
  expires_at = row.expires_at;
  request_delete_at = row.request_delete_at;
  retention_delete_at = row.retention_delete_at;
  terminal_at = row.terminal_at;
  created_at = row.created_at;
  updated_at = row.updated_at;
}

-- The status as the text of the `current_stage` column.
unfoldable pub status_text : JobStatus → Text
status_text queued = units "queued"
status_text dispatched = units "dispatched"
status_text running = units "running"
status_text waiting_approval = units "waiting_approval"
status_text cancelling = units "cancelling"
status_text succeeded = units "succeeded"
status_text failed = units "failed"
status_text cancelled = units "cancelled"
status_text expired = units "expired"

pub record JobEventInput : Type 0 where
  pub type : Text
  pub payload : EventPayload
  pub source : Option Text
  pub message_id : Option Key
  pub correlation_id : Option Key

-- text.trim().length === 0.
unfoldable pub is_blank : Text → Bool
is_blank t = length (trim t) == 0

blank_source : Option Text → Bool
blank_source none = false
blank_source (some s) = is_blank s || ltb 32 (length s)

unfoldable pub validate_event : JobEventInput → Result Error (Unit {0})
unfolding blank_source
validate_event input = do
  guard (not (is_blank input.type || ltb 64 (length input.type))) invalid_event
  guard (not (blank_source input.source)) invalid_event

unfoldable pub command_expires_at : Time → Time → Time
command_expires_at job_expires_at now = min job_expires_at (now + 60000)
