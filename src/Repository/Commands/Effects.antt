-- ===== src/Repository/Commands/Effects.antt =====
-- What the shared writes of the repository add to the database.
use qwen_harness_bridge.Prelude.{
  ℕ, suc, ◌+◌, ◌≤◌, ◌<◌, ◌≡◌, some, ok, arith, ◌∷◌, modify, Option-cases, inl, inr,
}
use qwen_harness_bridge.Database.{
  Key, Time, Database, JobEventRow, ConnectorRow, ConnectorMessageRow, CommandPayload, server,
}
use qwen_harness_bridge.Database.Tables.{find_connector, has_connector_id}
use qwen_harness_bridge.Database.Clock.{Clock, FreshIds}
use qwen_harness_bridge.Repository.{JobEventInput, command_expires_at}
use qwen_harness_bridge.Repository.Commands.{
  append_event, event_row, enqueue_server_command, ConnectorCommandType, command_row,
  effective_expires_at,
}

-- An appended event is one new row with the sequence that was given.
pub append_event_adds :
    (id : Key) (n : ℕ) (input : JobEventInput) (clock : Clock) (ids : FreshIds) (db db' : Database)
    → append_event id n input clock ids db ≡ ok db'
    → (e : JobEventRow) × (e.job_id ≡ id)
      × (e.sequence ≡ n)
      × (db' ≡ record db { job_events = e ∷ db.job_events })
unfolding append_event
append_event_adds id n input clock ids db db' h =
    (event_row id n input clock ids, ground arith, ground arith, ground arith)

abbrev pub bump : Clock → ℕ → ConnectorRow → ConnectorRow
bump clock n c = record c { last_server_sequence = n; updated_at = clock.now }

-- An enqueued command is one new server message, under the next sequence of a connector of the owner.
pub enqueue_adds :
    (owner connector_id : Key) (type : ConnectorCommandType) (payload : CommandPayload)
    (expires_at : Time) (clock : Clock) (k : ℕ) (ids : FreshIds) (db db' : Database)
    → enqueue_server_command owner connector_id type payload expires_at clock k ids db ≡ ok db'
    → (c : ConnectorRow) × (m : ConnectorMessageRow) × (find_connector connector_id db ≡ some c)
      × (c.owner_id ≡ owner)
      × (m.connector_id ≡ connector_id)
      × (m.direction ≡ server)
      × (m.sequence ≡ c.last_server_sequence + 1)
      × (m.payload ≡ payload)
      × (clock.reading (suc k) < m.expires_at)
      × (m.expires_at ≤ expires_at)
      × (db' ≡ record db {
        connectors =
            modify
              (has_connector_id connector_id)
              (bump clock (c.last_server_sequence + 1))
              db.connectors;
        connector_messages = m ∷ db.connector_messages;
      })
unfolding enqueue_server_command command_expires_at
enqueue_adds owner connector_id type payload expires_at clock k ids db db' h =
    elim (Option-cases (find_connector connector_id db)) [
      | inl missing ↦ absurd (ground arith)
      | inr (c, found) ↦ (
        c,
        command_row connector_id (c.last_server_sequence + 1) type payload
            (effective_expires_at type expires_at (clock.reading k)) clock ids,
        found,
        ground arith,
        ground arith,
        ground arith,
        ground arith,
        ground arith,
        ground arith,
        ground arith,
        ground arith,
      )
    ]
