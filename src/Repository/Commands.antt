-- ===== src/Repository/Commands.antt =====
-- job-repository.ts: enqueueServerCommand, nextEventSequence and appendEvent.
pub mod Effects
use qwen_harness_bridge.Prelude.{
  ℕ, suc, ◌+◌, ◌&&◌, ◌||◌, not, Bool, true, false, none, option_or, ◌∷◌, Result, ok, leb, ltb, ◌==◌,
  guard, ◌>>◌, ◌>>=◌, or_throw, any, modify,
}
use qwen_harness_bridge.Text.{Text, units}
use qwen_harness_bridge.Json.{max_safe_integer}
use qwen_harness_bridge.Database.{
  Key, Time, Database, JobEventRow, ConnectorMessageRow, Direction, server, client, CommandPayload,
}
use qwen_harness_bridge.Database.Tables.{find_connector, has_connector_id, max_sequence}
use qwen_harness_bridge.Database.Clock.{Clock, FreshIds}
use qwen_harness_bridge.Repository.{
  Error, connector_owner_mismatch, approval_expired, revision_conflict, invalid_event,
  unique_violation, JobEventInput, command_expires_at,
}

pub data ConnectorCommandType : Type 0 where
  job_cancel approval_decision : ConnectorCommandType

unfoldable pub command_type_text : ConnectorCommandType → Text
command_type_text job_cancel = units "job.cancel"
command_type_text approval_decision = units "approval.decision"

unfoldable pub expiry_error : ConnectorCommandType → Error
expiry_error approval_decision = approval_expired
expiry_error job_cancel = revision_conflict

effective_expires_at : ConnectorCommandType → Time → Time → Time
effective_expires_at approval_decision expires_at now = command_expires_at expires_at now
effective_expires_at job_cancel expires_at now = expires_at

abbrev pub is_server : Direction → Bool
is_server server = true
is_server client = false

-- The two unique keys of `connector_messages`.
taken_by : Key → ℕ → Key → ConnectorMessageRow → Bool
taken_by connector_id sequence message_id m =
    (m.connector_id == connector_id)
    && ((is_server m.direction && (m.sequence == sequence)) || (m.message_id == message_id))

command_row :
    Key → ℕ → ConnectorCommandType → CommandPayload → Time → Clock → FreshIds → ConnectorMessageRow
command_row connector_id sequence type payload expires_at clock ids = record {
  connector_id = connector_id;
  direction = server;
  sequence = sequence;
  message_id = ids.command_message;
  type = command_type_text type;
  payload = payload;
  correlation_id = ids.command_correlation;
  expires_at = expires_at;
  acknowledged_at = none;
  created_at = clock.now;
}

-- The clock is read twice, at `k` and at `k + 1`.
unfoldable pub enqueue_server_command :
    Key
    → Key
    → ConnectorCommandType
    → CommandPayload
    → Time
    → Clock
    → ℕ
    → FreshIds
    → Database
    → Result Error Database
unfolding taken_by effective_expires_at command_row
enqueue_server_command owner_id connector_id type payload expires_at clock k ids db = do
  connector ← or_throw (find_connector connector_id db) connector_owner_mismatch
  guard (connector.owner_id == owner_id) connector_owner_mismatch
  guard (ltb (clock.reading k) expires_at) (expiry_error type)
  let effective = effective_expires_at type expires_at (clock.reading k)
  let sequence = connector.last_server_sequence + 1
  guard (leb sequence max_safe_integer) invalid_event
  guard (not (any (taken_by connector_id sequence ids.command_message) db.connector_messages))
      unique_violation
  guard (ltb (clock.reading (suc k)) effective) (expiry_error type)
  ok (record db {
    connectors =
        modify (has_connector_id connector_id)
          (λ c. record c { last_server_sequence = sequence; updated_at = clock.now }) db.connectors;
    connector_messages =
        command_row connector_id sequence type payload effective clock ids ∷ db.connector_messages;
  })

-- The check that the maximum is a safe integer is left out: the events of a job are numbered from 1, and
-- it takes more than 2 ^ 53 of them to fail it.
unfoldable pub next_event_sequence : Database → Key → ℕ
next_event_sequence db job_id = max_sequence job_id db.job_events + 1

unfoldable pub control_plane : Text
control_plane = units "control-plane"

event_row : Key → ℕ → JobEventInput → Clock → FreshIds → JobEventRow
event_row job_id sequence input clock ids = record {
  id = ids.event;
  job_id = job_id;
  sequence = sequence;
  message_id = option_or input.message_id ids.event_message;
  event_type = input.type;
  payload = input.payload;
  source = option_or input.source control_plane;
  correlation_id = option_or input.correlation_id ids.event_correlation;
  created_at = clock.now;
}

-- The unique key (job_id, message_id); the key (job_id, sequence) is kept by `next_event_sequence`.
same_message : JobEventRow → JobEventRow → Bool
same_message e f = (f.job_id == e.job_id) && (f.message_id == e.message_id)

unfoldable pub append_event :
    Key → ℕ → JobEventInput → Clock → FreshIds → Database → Result Error Database
unfolding event_row same_message
append_event job_id sequence input clock ids db = do
  let row = event_row job_id sequence input clock ids
  guard (not (any (same_message row) db.job_events)) unique_violation
  ok (record db { job_events = row ∷ db.job_events })
