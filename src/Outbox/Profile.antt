-- ===== src/Outbox/Profile.antt =====
-- outbox.ts: acceptClientMessage, the profile of a message and the job that it locks.
use qwen_harness_bridge.Text.{Text, units, text_eq}
use qwen_harness_bridge.Outbox.{
  ClientBody, ConnectorIdentity, hello, claim, any, units, ack, sync, text_eq, lock_client_job,
  job_event, heartbeat, approval_requested, job_cancelled,
}
use qwen_harness_bridge.Database.{Database, Key, JobRow, ConnectorRow}
use qwen_harness_bridge.Prelude.{[], none, some, Option, List, Bool, any, option_or, ◌&&◌}

unfoldable pub durable_receipts : Text
durable_receipts = units "durable-receipts-v1"

unfoldable pub job_coordination : Text
job_coordination = units "job-coordination-v1"

unfoldable pub includes : List Text → Text → Bool
includes ts t = any (λ u. text_eq u t) ts

-- The capabilities that decide the profile: those of a hello, or else those of the connector.
unfoldable pub offered_capabilities : ClientBody → ConnectorRow → List Text
offered_capabilities (hello connector_id last_client last_server capabilities) connector =
    option_or capabilities []
offered_capabilities body connector = connector.capabilities

unfoldable pub is_durable : ClientBody → ConnectorRow → Bool
is_durable body connector = includes (offered_capabilities body connector) durable_receipts

unfoldable pub is_coordinated : ClientBody → ConnectorRow → Bool
is_coordinated body connector =
    is_durable body connector && includes (offered_capabilities body connector) job_coordination

unfoldable pub job_of : ClientBody → Option Key
job_of (claim job attempt lease) = some job
job_of (sync job attempt nonce) = some job
job_of (job_event job attempt event_type payload source) = some job
job_of (approval_requested r) = some r.job_id
job_of (job_cancelled job attempt reason) = some job
job_of _ = none

unfoldable pub locked_job : Database → ConnectorIdentity → ClientBody → Option JobRow
locked_job db identity body = elim (job_of body) [
  | none ↦ none
  | some id ↦ lock_client_job db identity id
]

unfoldable pub body_type : ClientBody → Text
body_type (hello connector_id last_client last_server capabilities) = units "connector.hello"
body_type heartbeat = units "connector.heartbeat"
body_type (ack sequence) = units "ack"
body_type (claim job attempt lease) = units "job.claim"
body_type (sync job attempt nonce) = units "job.sync"
body_type (job_event job attempt event_type payload source) = units "job.event"
body_type (approval_requested r) = units "approval.requested"
body_type (job_cancelled job attempt reason) = units "job.cancelled"
