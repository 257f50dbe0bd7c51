-- ===== src/Database.antt =====
-- apps/control-plane/src/db/schema.ts: the rows of the tables that the job repository reads and
-- writes, with the newest row of a log first. An identifier, an owner, a digest or a ciphertext is
-- only ever compared for equality: each stands as a number. Times are milliseconds.
pub mod Tables
pub mod Clock
use qwen_harness_bridge.Prelude.{ℕ, Bool, List, Option}
use qwen_harness_bridge.Text.{Text}
use qwen_harness_bridge.JobState.{JobStatus}
use qwen_harness_bridge.Json.{Json, Fields}

abbrev pub Key : Type 0
Key = ℕ

abbrev pub Time : Type 0
Time = ℕ

pub data Mode : Type 0 where
  normal read_only : Mode

pub data ApprovalDecision : Type 0 where
  approve reject : ApprovalDecision

pub data ConnectorHealth : Type 0 where
  fresh stale offline : ConnectorHealth

pub record JobRow : Type 0 where
  pub id : Key
  pub short_id : Text
  pub owner_id : Key
  pub connector_id : Option Key
  pub repository_id : Key
  pub request_ciphertext : Option Key
  pub request_digest : Key
  pub mode : Mode
  pub status : JobStatus
  pub current_stage : Text
  pub revision : ℕ
  pub cancel_revision : Option ℕ
  pub attempt : ℕ
  pub lease_id : Option Text
  pub lease_expires_at : Option Time
  pub harness_agent_id : Option Key
  pub harness_session_id : Option Key
  pub title : Option Text
  pub summary : Option Json
  pub unread_terminal : Bool
  pub acknowledged_at : Option Time
  pub accepted_at : Time
  pub expires_at : Time
  pub request_delete_at : Option Time
  pub retention_delete_at : Time
  pub terminal_at : Option Time
  pub created_at : Time
  pub updated_at : Time

-- What a dispatch writes down of its offer, with the lease that it replaces, if it does.
pub record DispatchProof : Type 0 where
  pub owner_id : Key
  pub repository_id : Key
  pub connector_id : Key
  pub attempt : ℕ
  pub lease_id : Text
  pub lease_expires_at : Time
  pub previous_lease_id : Option Text

-- The payloads of the events that the repository and the connector store write themselves, and one
-- that a caller gives.
pub data EventPayload : Type 0 where
  given : Fields → EventPayload
  offered : DispatchProof → EventPayload
  requested : Key → ℕ → ℕ → Text → Text → Text → Key → Time → EventPayload
  withdrawn : Key → ℕ → Text → EventPayload
  resumed : Key → ℕ → ℕ → EventPayload
  cancellation : Key → Text → ℕ → EventPayload
  claimed : Key → ℕ → EventPayload
  decided : Key → Option ApprovalDecision → ℕ → ℕ → EventPayload

pub record JobEventRow : Type 0 where
  pub id : Key
  pub job_id : Key
  pub sequence : ℕ
  pub message_id : Key
  pub event_type : Text
  pub payload : EventPayload
  pub source : Text
  pub correlation_id : Key
  pub created_at : Time

pub record ApprovalRow : Type 0 where
  pub id : Key
  pub job_id : Key
  pub attempt : ℕ
  pub job_revision : ℕ
  pub action_summary : Text
  pub impact_summary : Text
  pub action_fingerprint : Key
  pub risk_class : Text
  pub expires_at : Time
  pub decision : Option ApprovalDecision
  pub decided_at : Option Time
  pub created_at : Time
  pub updated_at : Time

pub record IdempotencyRow : Type 0 where
  pub owner_id : Key
  pub client_request_id : Key
  pub request_digest : Key
  pub job_id : Key
  pub expires_at : Time
  pub created_at : Time

pub record ConnectorRow : Type 0 where
  pub id : Key
  pub owner_id : Key
  pub capabilities : List Text
  pub protocol_version : Text
  pub health : ConnectorHealth
  pub last_server_sequence : ℕ
  pub last_client_sequence : ℕ
  pub last_heartbeat_at : Option Time
  pub updated_at : Time

pub data Direction : Type 0 where
  server client : Direction

-- Where a `job.state` message was read.
pub record StatePayload : Type 0 where
  pub job_id : Key
  pub repository_id : Key
  pub mode : Mode
  pub requested_attempt : ℕ
  pub current_attempt : ℕ
  pub status : JobStatus
  pub job_revision : ℕ
  pub cancel_revision : Option ℕ
  pub lease_id : Option Text
  pub lease_expires_at : Option Time
  pub expires_at : Time
  pub observed_at : Time
  pub state_valid_until : Time
  pub request_message_id : Key
  pub request_sequence : ℕ
  pub nonce : Key

-- What a stored client message keeps of itself: its payload, sanitised and digested, as one key; its
-- instants; and the two profiles under which it was received.
pub record Receipt : Type 0 where
  pub payload : Key
  pub sent_at : Time
  pub expires_at : Time
  pub durable : Bool
  pub coordination : Bool

-- The payloads of the messages. A stored client message has room for the response that it was given and
-- for the acknowledgement of its receipt.
mutual
  pub data CommandPayload : Type 0 where
    cancel_command : Key → ℕ → ℕ → Text → Key → CommandPayload
    decision_command : Key → Key → ℕ → ℕ → Key → Option ApprovalDecision → CommandPayload
    offer_payload : Key → ℕ → Text → Key → CommandPayload
    error_payload : Text → Text → CommandPayload
    ack_payload : ℕ → CommandPayload
    welcome_payload : Key → ℕ → ℕ → List Text → CommandPayload
    state_payload : StatePayload → CommandPayload
    client_payload : Receipt → StoredResponse → StoredResponse → CommandPayload

  pub data StoredResponse : Type 0 where
    absent : StoredResponse
    stored : Text → CommandPayload → ℕ → Key → StoredResponse

pub record ConnectorMessageRow : Type 0 where
  pub connector_id : Key
  pub direction : Direction
  pub sequence : ℕ
  pub message_id : Key
  pub type : Text
  pub payload : CommandPayload
  pub correlation_id : Key
  pub expires_at : Time
  pub acknowledged_at : Option Time
  pub created_at : Time

pub record PolicyRow : Type 0 where
  pub id : Key
  pub owner_id : Key
  pub max_concurrency : ℕ
  pub enabled : Bool

pub record Database : Type 0 where
  pub jobs : List JobRow
  pub job_events : List JobEventRow
  pub approvals : List ApprovalRow
  pub idempotency_records : List IdempotencyRow
  pub connectors : List ConnectorRow
  pub connector_messages : List ConnectorMessageRow
  pub repository_policies : List PolicyRow
