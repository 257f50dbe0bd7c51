-- ===== src/Repository/Cancel/Effects.antt =====
-- What cancelAtomically did, from what it answered.
use qwen_harness_bridge.Repository.Commands.{append_event, next_event_sequence}
use qwen_harness_bridge.Json.{safe_natural}
use qwen_harness_bridge.Database.Tables.{find_job, update_job}
use qwen_harness_bridge.Repository.{
  JobRecord, safe_natural, to_job_record, max_integer, JobEventInput,
}
use qwen_harness_bridge.Database.Clock.{Clock, FreshIds}
use qwen_harness_bridge.Database.{JobRow, Database}
use qwen_harness_bridge.Repository.Cancel.{
  cancel_atomically, CancelJobInput, cancel_current, JobRow, Clock, JobRecord, is_settled, find_job,
  cancel_reason, owned_by, cancel_row, append_event, next_event_sequence, notify_cancel,
  is_immediate, cancel_event,
}
use qwen_harness_bridge.Prelude.{
  ℕ, ◌≡◌, ok, false, some, true, arith, ◌⊎◌, ◌==◌, Option-cases, inl, inr, Bool-cases, Result-cases,
}

-- A cancellation that changed the job: its checks, and the rows that it wrote.
pub record CancelMoves (input : CancelJobInput) (clock : Clock) (ids : FreshIds) (db : Database)
    (current : JobRow) (r : JobRecord) (db' : Database) : Type 0 where
  pub live : is_settled current.status ≡ false
  pub fresh : safe_natural input.expected_revision ≡ some current.revision
  pub room : (current.revision == max_integer) ≡ false
  pub logged : Database
  pub event_input : JobEventInput
  pub appends :
      append_event input.job_id
        (next_event_sequence (update_job input.job_id (cancel_row clock) db) input.job_id)
        event_input
        clock
        ids
        (update_job input.job_id (cancel_row clock) db)
      ≡ ok logged
  pub notifies :
      notify_cancel input.owner_id
        (cancel_row clock current)
        (cancel_reason input.reason)
        (is_immediate current.status)
        clock
        ids
        logged
      ≡ ok db'
  pub answers : r ≡ to_job_record (cancel_row clock current)

pub cancel_current_returns :
    (input : CancelJobInput) (expected : ℕ) (current : JobRow) (clock : Clock) (ids : FreshIds)
    (db db' : Database) (r : JobRecord)
    → is_settled current.status ≡ false
    → safe_natural input.expected_revision ≡ some expected
    → cancel_current input expected (cancel_reason input.reason) current clock ids db ≡ ok (r, db')
    → CancelMoves input clock ids db current r db'
unfolding cancel_current
cancel_current_returns input expected current clock ids db db' r live fresh h =
    let moved = update_job input.job_id (cancel_row clock) db in
    let event =
      cancel_event input (cancel_reason input.reason) (is_immediate current.status)
        (cancel_row clock current) in
    elim (Result-cases
      (append_event input.job_id (next_event_sequence moved input.job_id) event clock ids moved)) [
        | inl (logged, e) ↦ record {
          live = live;
          fresh = ground arith;
          room = ground arith;
          logged = logged;
          event_input = event;
          appends = e;
          notifies = ground arith;
          answers = ground arith;
        }
        | inr (x, e) ↦ absurd (ground arith)
      ]

-- A cancellation that returned has found the owner's job, and either left everything as it was, the job
-- being settled already, or moved the job.
pub cancel_returns :
    (input : CancelJobInput) (clock : Clock) (ids : FreshIds) (db db' : Database) (r : JobRecord)
    → cancel_atomically input clock ids db ≡ (ok r, db')
    → (current : JobRow) × (find_job input.job_id db ≡ some current)
      × (current.owner_id ≡ input.owner_id)
      × (((is_settled current.status ≡ true) × (r ≡ to_job_record current) × (db' ≡ db))
          ⊎ CancelMoves input clock ids db current r db')
unfolding cancel_atomically owned_by
cancel_returns input clock ids db db' r h = elim (Option-cases (find_job input.job_id db)) [
  | inl missing ↦ absurd (ground arith)
  | inr (current, found) ↦ (
    current,
    found,
    ground arith,
    elim (Bool-cases (is_settled current.status)) [
      | inl settled ↦ inl (ground arith)
      | inr live ↦ elim (Option-cases (safe_natural input.expected_revision)) [
        | inl e ↦ absurd (ground arith)
        | inr (n, e) ↦
            inr (cancel_current_returns input n current clock ids db db' r live e (ground arith))
      ]
    ],
  )
]
