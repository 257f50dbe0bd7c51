-- ===== src/Repository/Cancel/Laws.antt =====
-- cancelAtomically as its callers see it.
use qwen_harness_bridge.Repository.Commands.{append_event, job_cancel}
use qwen_harness_bridge.Repository.Progress.Rows.{cancel_row-id}
use qwen_harness_bridge.Repository.Invariant.Writes.{find_job-update_job}
use qwen_harness_bridge.Repository.Progress.{append_event-keeps}
use qwen_harness_bridge.Repository.Progress.Calls.{notify_cancel-keeps}
use qwen_harness_bridge.Json.{safe_natural}
use qwen_harness_bridge.Repository.Cancel.Effects.{CancelMoves, cancel_returns}
use qwen_harness_bridge.Database.Tables.{find_job, find_connector}
use qwen_harness_bridge.Repository.{JobRecord, safe_natural, to_job_record}
use qwen_harness_bridge.JobState.{is_terminal}
use qwen_harness_bridge.Database.{
  JobRow, Database, ConnectorRow, ConnectorMessageRow, cancel_command,
}
use qwen_harness_bridge.Database.Clock.{Clock, FreshIds}
use qwen_harness_bridge.Repository.Cancel.{
  cancel_row, cancel_atomically, CancelJobInput, owned_by, Clock, is_settled, JobRow, is_terminal,
  JobRecord, find_job, cancel_reason, append_event, job_cancel,
}
use qwen_harness_bridge.Prelude.{
  ℕ, ◌≡◌, true, arith, some, ok, length, ◌∙◌, ◌≤◌, inl, sym, inr, ◌+◌, ◌∷◌,
}

settled_after : (clock : Clock) (j : JobRow) → is_settled (cancel_row clock j).status ≡ true
unfolding cancel_row is_settled is_terminal
settled_after clock j = ground arith

cancel_row-owner : (clock : Clock) (j : JobRow) → (cancel_row clock j).owner_id ≡ j.owner_id
unfolding cancel_row
cancel_row-owner clock j = ground arith

found_after :
    (input : CancelJobInput) (clock : Clock) (ids : FreshIds) (db db' : Database) (j : JobRow)
    (r : JobRecord)
    → find_job input.job_id db ≡ some j
    → CancelMoves input clock ids db j r db'
    → find_job input.job_id db' ≡ some (cancel_row clock j)
found_after input clock ids db db' j r found m =
    (notify_cancel-keeps input.owner_id _ _ _ clock ids m.logged db' m.notifies).1 input.job_id
    ∙ append_event-keeps input.job_id _ m.event_input clock ids _ m.logged m.appends input.job_id
    ∙ ground (
      arith,
      find_job-update_job input.job_id input.job_id (cancel_row clock) db (cancel_row-id clock),
    )

settled_answer :
    (input : CancelJobInput) (clock : Clock) (ids : FreshIds) (db : Database) (j : JobRow) (n : ℕ)
    → find_job input.job_id db ≡ some j
    → j.owner_id ≡ input.owner_id
    → is_settled j.status ≡ true
    → safe_natural input.expected_revision ≡ some n
    → length (cancel_reason input.reason) ≤ 400
    → cancel_atomically input clock ids db ≡ (ok (to_job_record j), db)
unfolding cancel_atomically owned_by
settled_answer input clock ids db j n found owner settled safe short = ground arith

-- Cancellation is idempotent. Once a cancellation has returned, any further well-formed cancellation of
-- the job by its owner (any safe revision, a reason of at most 400 units) returns the same record and
-- changes nothing in the database, so no second event and no second command is written.
pub cancel_again :
    (input again : CancelJobInput) (clock clock' : Clock) (ids ids' : FreshIds) (db db' : Database)
    (r : JobRecord) (n : ℕ)
    → cancel_atomically input clock ids db ≡ (ok r, db')
    → again.job_id ≡ input.job_id
    → again.owner_id ≡ input.owner_id
    → safe_natural again.expected_revision ≡ some n
    → length (cancel_reason again.reason) ≤ 400
    → cancel_atomically again clock' ids' db' ≡ (ok r, db')
cancel_again input again clock clock' ids ids' db db' r n h job owner safe short =
    let (j, found, mine, outcome) = cancel_returns input clock ids db db' r h in
    elim outcome [
      | inl (settled, answer, same) ↦
          rw (answer, same)
            (settled_answer again clock' ids' db j n (rw job found) (mine ∙ sym owner) settled safe
              short)
      | inr m ↦ rw m.answers (
          settled_answer again clock' ids' db' (cancel_row clock j) n
            (rw job (found_after input clock ids db db' j r found m))
            (cancel_row-owner clock j ∙ mine ∙ sym owner) (settled_after clock j) safe short)
    ]

-- Exactly one message is added: a server message to the job's own connector, which its owner owns,
-- under the connector's next sequence, with the job's attempt and new revision, and with an expiry no
-- later than the job's.
pub record SendsCancel (input : CancelJobInput) (ids : FreshIds) (db db' : Database) (j : JobRow)
    : Type 0 where
  pub connector : ConnectorRow
  pub message : ConnectorMessageRow
  pub addressed : j.connector_id ≡ some message.connector_id
  pub found : find_connector message.connector_id db ≡ some connector
  pub owned : connector.owner_id ≡ input.owner_id
  pub next : message.sequence ≡ connector.last_server_sequence + 1
  pub payload :
      message.payload
      ≡ cancel_command j.id j.attempt (j.revision + 1) (cancel_reason input.reason) ids.nonce
  pub in_time : message.expires_at ≤ j.expires_at
  pub added : db'.connector_messages ≡ message ∷ db.connector_messages
