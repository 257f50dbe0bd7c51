-- ===== src/Outbox.antt =====
-- apps/control-plane/src/connector/outbox.ts: the store of the connector's messages. Here are its errors,
-- the messages of a connector, and the checks that its operations share.
pub mod Messages
pub mod Offers
pub mod Ingest
pub mod Approvals
pub mod Cancellations
pub mod Claim
pub mod Progress
pub mod Replay
pub mod Dispatch
pub mod Profile
pub mod Admission
pub mod Business
pub mod Answer
pub mod Payloads
pub mod Duplicates
pub mod Repeats
pub mod Accept
pub mod Materialize
pub mod History
pub mod Laws
mod Examples
use qwen_harness_bridge.Repository.Claim.{is_key}
use qwen_harness_bridge.Repository.{Error, fits_integer, max_integer}
use qwen_harness_bridge.Database.Tables.{find_job, find_connector}
use qwen_harness_bridge.Json.{Fields, max_safe_integer}
use qwen_harness_bridge.Text.{Text, units, text_eq}
use qwen_harness_bridge.Database.{Time, Database, JobRow, Key, ConnectorRow}
use qwen_harness_bridge.Prelude.{
  ℕ, ◌≡◌, List, Option, Result, Bool, ◌==◌, any, some, ◌>>◌, ok, true, guard, ◌&&◌, if◌then◌else◌,
  err, leb, none, false, not, ◌+◌,
}

pub record ConnectorIdentity : Type 0 where
  pub owner_id : Key
  pub connector_id : Key
  pub protocol_version : Text

pub data StoreErrorCode : Type 0 where
  authorization_failed client_sequence_gap client_replay_mismatch claim_rejected : StoreErrorCode
  event_rejected job_authority_unavailable message_expired internal : StoreErrorCode

-- ConnectorStoreError and its two subclasses, and an error of the database.
pub data StoreError : Type 0 where
  store_error : StoreErrorCode → StoreError
  business_deadline_expired : StoreErrorCode → StoreError
  business_conflict : StoreErrorCode → Text → StoreError
  database_error : Error → StoreError

abbrev pub StoreOutcome : Type 0 → Type 0
StoreOutcome A = Result StoreError A × Database

-- db.transaction.
abbrev pub store_transaction :
    {A : Type 0} → Database → Result StoreError (A × Database) → StoreOutcome A
store_transaction db (ok (a, db')) = (ok a, db')
store_transaction db (err e) = (err e, db)

abbrev pub lift_error : {A : Type 0} → Result Error A → Result StoreError A
lift_error (ok a) = ok a
lift_error (err e) = err (database_error e)

unfoldable pub business_expired_message : Text
business_expired_message = units "The business deadline has expired."

unfoldable pub authority_changed_message : Text
authority_changed_message = units "The job authority has changed."

unfoldable pub business_limit_message : Text
business_limit_message = units "The job business limit has been reached."

unfoldable pub authority_unavailable_message : Text
authority_unavailable_message = units "The job authority is unavailable."

unfoldable pub claim_rejected_message : Text
claim_rejected_message = units "The offered job was cancelled before it was claimed."

-- The error that rejectConflict throws.
unfoldable pub conflict : Bool → StoreErrorCode → StoreError
conflict true code = business_conflict code authority_changed_message
conflict false code = store_error code

unfoldable pub limit_reached : Bool → StoreErrorCode → StoreError
limit_reached true code = business_conflict code business_limit_message
limit_reached false code = store_error code

-- A value that an `integer` column holds is at most 2147483647.
unfoldable pub checked_job_increment : ℕ → Bool → StoreErrorCode → Result StoreError ℕ
checked_job_increment value coordination code = do
  guard (fits_integer value) (store_error internal)
  guard (not (value == max_integer)) (limit_reached coordination code)
  ok (value + 1)

pub record ApprovalRequest : Type 0 where
  pub approval_id : Key
  pub job_id : Key
  pub attempt : ℕ
  pub job_revision : ℕ
  pub action_summary : Text
  pub impact_summary : Text
  pub risk_class : Text
  pub action_fingerprint : Key
  pub expires_at : Time

-- A client message after its schema has been checked.
pub data ClientBody : Type 0 where
  hello : Key → Option ℕ → ℕ → Option (List Text) → ClientBody
  heartbeat : ClientBody
  ack : ℕ → ClientBody
  claim : Key → ℕ → Text → ClientBody
  sync : Key → ℕ → Key → ClientBody
  job_event : Key → ℕ → Text → Fields → Text → ClientBody
  approval_requested : ApprovalRequest → ClientBody
  job_cancelled : Key → ℕ → Text → ClientBody

pub record ClientMessage : Type 0 where
  pub message_id : Key
  pub sequence : ℕ
  pub sent_at : Time
  pub expires_at : Time
  pub correlation_id : Key
  pub body : ClientBody

-- What the text filters make of what a connector sends, and the digest of a payload.
pub record Filters : Type 0 where
  pub sanitize_connector_text : Text → ℕ → Text
  pub sanitize_connector_event_payload : Fields → Fields
  pub stored_payload : ClientBody → Key

unfoldable pub validate_connector :
    Option ConnectorRow → ConnectorIdentity → Result StoreError ConnectorRow
validate_connector none identity = err (store_error authorization_failed)
validate_connector (some row) identity = do
  guard
      ((row.owner_id == identity.owner_id)
        && text_eq row.protocol_version identity.protocol_version
        && text_eq identity.protocol_version (units "1.0"))
      (store_error authorization_failed)
  guard
      (leb row.last_client_sequence max_safe_integer
        && leb row.last_server_sequence max_safe_integer)
      (store_error internal)
  ok row

unfoldable pub lock_connector : Database → ConnectorIdentity → Result StoreError ConnectorRow
lock_connector db identity = validate_connector (find_connector identity.connector_id db) identity

-- eq(jobs.ownerId, …) and eq(jobs.connectorId, …) of a job that was found by its id.
unfoldable pub is_authorized : ConnectorIdentity → JobRow → Bool
is_authorized identity job =
    (job.owner_id == identity.owner_id) && is_key job.connector_id identity.connector_id

abbrev pub keep_if {ℓ} : {A : Type ℓ} → (A → Bool) → Option A → Option A
keep_if p none = none
keep_if p (some a) = if p a then some a else none

unfoldable pub lock_client_job : Database → ConnectorIdentity → Key → Option JobRow
lock_client_job db identity job_id = keep_if (is_authorized identity) (find_job job_id db)

-- deadlines.some(deadline => deadline <= now).
unfoldable pub any_passed : List Time → Time → Bool
any_passed deadlines now = any (λ d. leb d now) deadlines

-- The transport's deadline comes first in the source; the others belong to the business operation.
unfoldable pub assert_deadlines : Time → List Time → Time → Result StoreError (Unit {0})
assert_deadlines transport business now = do
  guard (not (any_passed business now)) (business_deadline_expired event_rejected)
  guard (not (leb transport now)) (store_error event_rejected)

-- What follows an update by whether it found its row.
unfoldable pub assert_updated : Bool → Time → List Time → Time → Result StoreError (Unit {0})
assert_updated true transport business now = ok tt
assert_updated false transport business now =
    assert_deadlines transport business now >> err (store_error event_rejected)
