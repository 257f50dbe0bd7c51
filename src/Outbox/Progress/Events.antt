-- ===== src/Outbox/Progress/Events.antt =====
-- What a connector reports of a job: events, requests for approval, cancellations, delivered decisions.
use qwen_harness_bridge.Outbox.Progress.Rows.{
  event_row-id, event_row-Evolving, resumed_row-Evolving, increment-lt, resumes-waiting,
  waiting_row-Evolving, cancelled_row-Evolving,
}
use qwen_harness_bridge.Outbox.Progress.Writes.{
  append_job_event-IsQuiet, update-IsSound, approvals-IsQuiet, found_by_its_id,
}
use qwen_harness_bridge.Outbox.Progress.Claims.{logged_update-IsSound}
use qwen_harness_bridge.Outbox.Progress.{
  IsSound, IsQuiet-IsSound, inl, inr, IsQuiet-refl, IsSound-then,
}
use qwen_harness_bridge.Repository.{JobEventInput, max_integer}
use qwen_harness_bridge.Outbox.Messages.{Supply, append_job_event}
use qwen_harness_bridge.Json.{Fields}
use qwen_harness_bridge.Database.{
  Key, JobRow, Database, ApprovalRow, ConnectorMessageRow, CommandPayload, decision_command,
}
use qwen_harness_bridge.JobState.{JobStatus, is_terminal, can_transition}
use qwen_harness_bridge.Database.Tables.{update_job, find_job}
use qwen_harness_bridge.Text.{Text}
use qwen_harness_bridge.Outbox.{
  Filters, ClientMessage, JobRow, Text, ApprovalRequest, Key, Fields, Bool, true, some, ok, false,
  max_integer, checked_job_increment, event_rejected,
}
use qwen_harness_bridge.Outbox.Ingest.{
  other_status_for_event, status_for_event, ingest_job_event, ingest_ended_event,
  terminal_status_for_event, ingest_live_event, is_claimed_state, same_status!, event_job_row,
  candidate_of, event_input,
}
use qwen_harness_bridge.Outbox.Approvals.{
  resume_job, ingest_approval_requested, waiting_row, may_ask, resumes, new_approval, resumed_row,
  approval_input, resume_delivered_approval, resumed_input, resume_payload, is_approve,
}
use qwen_harness_bridge.Outbox.Cancellations.{
  ingest_job_cancelled, finish_cancelling, is_cancelling, cancelled_input, cancelled_row,
}
use qwen_harness_bridge.Prelude.{
  ℕ, ◌≡◌, Bool, some, true, arith, is_some, ok, false, ◌<◌, Option-cases, if◌then◌else◌, Bool-cases,
  inl, Result-cases, inr, ◌||◌, ◌∷◌, subst, refl, sym, ◌⊎◌,
}

terminal_status-IsTerminal :
    (type : Text) (payload : Fields) (t : JobStatus)
    → terminal_status_for_event type payload ≡ some t
    → is_terminal t ≡ true
unfolding terminal_status_for_event is_terminal
terminal_status-IsTerminal type payload t h = ground arith

other_status-IsLive :
    (current : JobStatus) (candidate : Text)
    → is_claimed_state current ≡ true
    → is_terminal (other_status_for_event current candidate) ≡ false
unfolding other_status_for_event is_terminal
other_status-IsLive current candidate active = ground arith

-- An event ends a job exactly if the status that it leads to is terminal.
status_for_event-IsTerminal :
    (current : JobStatus) (type : Text) (payload : Fields)
    → is_claimed_state current ≡ true
    → is_some (terminal_status_for_event type payload)
      ≡ is_terminal (status_for_event current type payload)
unfolding status_for_event
status_for_event-IsTerminal current type payload active =
    elim (Option-cases (terminal_status_for_event type payload)) [
      | inl e ↦ rw e (sym (other_status-IsLive current (candidate_of type payload) active))
      | inr (t, e) ↦ rw e (sym (terminal_status-IsTerminal type payload t e))
    ]

live_event_adds :
    (message : ClientMessage) (type : Text) (payload : Fields) (input : JobEventInput) (j : JobRow)
    (coordination : Bool) (s : Supply) (db db' : Database)
    → ingest_live_event message type payload input j coordination s db ≡ ok db'
    → (j.revision < max_integer)
      × (is_claimed_state j.status ≡ true)
      × ((same_status! (status_for_event j.status type payload) j.status
            || can_transition j.status (status_for_event j.status type payload))
          ≡ true)
      × (append_job_event j.id input s 0 (
            update_job j.id
              (event_job_row
                (status_for_event j.status type payload)
                (is_some (terminal_status_for_event type payload))
                type
                payload
                (s.clock.reading 0))
              db)
          ≡ ok db')
unfolding ingest_live_event
live_event_adds message type payload input j coordination s db db' h =
    elim (Result-cases (checked_job_increment j.revision coordination event_rejected)) [
      | inr (e, failed) ↦ absurd (ground arith)
      | inl (m, fits) ↦ (
        (increment-lt j.revision m coordination event_rejected fits).0,
        ground arith,
        ground arith,
        ground arith,
      )
    ]

live_event-IsSound :
    (message : ClientMessage) (type : Text) (payload : Fields) (input : JobEventInput) (j : JobRow)
    (coordination : Bool) (s : Supply) (db db' : Database)
    → find_job j.id db ≡ some j
    → ingest_live_event message type payload input j coordination s db ≡ ok db'
    → IsSound db db'
live_event-IsSound message type payload input j coordination s db db' found h =
    let (room, active, allowed, appends) =
      live_event_adds message type payload input j coordination s db db' h in
    let next : JobStatus = status_for_event j.status type payload in
    let over : Bool = is_some (terminal_status_for_event type payload) in
    logged_update-IsSound j.id (event_job_row next over type payload (s.clock.reading 0)) j input s
      0 db db' (event_row-id next over type payload (s.clock.reading 0)) found
      (event_row-Evolving next type payload (s.clock.reading 0) j active allowed
        (status_for_event-IsTerminal j.status type payload active) room)
      appends

ended_event-IsSound :
    (message : ClientMessage) (type : Text) (payload : Fields) (input : JobEventInput) (j : JobRow)
    (coordination : Bool) (s : Supply) (db db' : Database)
    → ingest_ended_event message type payload input j coordination s db ≡ ok db'
    → IsSound db db'
unfolding ingest_ended_event
ended_event-IsSound message type payload input j coordination s db db' h =
    IsQuiet-IsSound db db' (append_job_event-IsQuiet j.id input s 0 db db' (ground arith))

pub job_event-IsSound :
    (f : Filters) (message : ClientMessage) (n : ℕ) (type : Text) (payload : Fields) (source : Text)
    (j : JobRow) (coordination : Bool) (s : Supply) (db db' : Database)
    → find_job j.id db ≡ some j
    → ingest_job_event f message n type payload source (some j) coordination s db ≡ ok db'
    → IsSound db db'
unfolding ingest_job_event
job_event-IsSound f message n type payload source j coordination s db db' found h =
    elim (Bool-cases (is_terminal j.status)) [
      | inl over ↦
          ended_event-IsSound message (f.sanitize_connector_text type 64)
            (f.sanitize_connector_event_payload payload) (event_input f message type payload source)
            j coordination s db db' (ground arith)
      | inr live ↦
          live_event-IsSound message (f.sanitize_connector_text type 64)
            (f.sanitize_connector_event_payload payload) (event_input f message type payload source)
            j coordination s db db' found (ground arith)
    ]

approval_requested_adds :
    (f : Filters) (message : ClientMessage) (r : ApprovalRequest) (j : JobRow) (coordination : Bool)
    (s : Supply) (db db' : Database)
    → ingest_approval_requested f message r (some j) coordination s db ≡ ok db'
    → (j.revision < max_integer)
      × (may_ask j.status ≡ true)
      × (append_job_event j.id
            (approval_input message r (new_approval f r j s.clock.now))
            s
            0
            (record (update_job j.id (waiting_row (s.clock.reading 0)) db) {
              approvals = new_approval f r j s.clock.now ∷ db.approvals;
            })
          ≡ ok db')
unfolding ingest_approval_requested update_job
approval_requested_adds f message r j coordination s db db' h =
    elim (Result-cases (checked_job_increment j.revision coordination event_rejected)) [
      | inr (e, failed) ↦ absurd (ground arith)
      | inl (m, fits) ↦ (
        (increment-lt j.revision m coordination event_rejected fits).0,
        ground arith,
        ground arith,
      )
    ]

pub approval_requested-IsSound :
    (f : Filters) (message : ClientMessage) (r : ApprovalRequest) (j : JobRow) (coordination : Bool)
    (s : Supply) (db db' : Database)
    → find_job j.id db ≡ some j
    → ingest_approval_requested f message r (some j) coordination s db ≡ ok db'
    → IsSound db db'
approval_requested-IsSound f message r j coordination s db db' found h =
    let (room, asks, appends) = approval_requested_adds f message r j coordination s db db' h in
    let moved : Database = update_job j.id (waiting_row (s.clock.reading 0)) db in
    let row : ApprovalRow = new_approval f r j s.clock.now in
    let stored : Database = record moved { approvals = row ∷ db.approvals } in
    IsSound-then db stored db'
      (IsSound-then db moved stored
        (update-IsSound j.id (waiting_row (s.clock.reading 0)) db j
          (λ i. unfold waiting_row in refl) found
          (waiting_row-Evolving (s.clock.reading 0) j asks room))
        (approvals-IsQuiet (row ∷ db.approvals) moved))
      (append_job_event-IsQuiet j.id _ s 0 stored db' appends)

finish_cancelling-IsSound :
    (message : ClientMessage) (j : JobRow) (coordination : Bool) (s : Supply) (db db' : Database)
    → is_cancelling j.status ≡ true
    → find_job j.id db ≡ some j
    → finish_cancelling message j coordination s db ≡ ok db'
    → IsSound db db'
unfolding finish_cancelling
finish_cancelling-IsSound message j coordination s db db' active found h =
    elim (Result-cases (checked_job_increment j.revision coordination event_rejected)) [
      | inr (e, failed) ↦ absurd (ground arith)
      | inl (m, fits) ↦
          let shape : update_job j.id (cancelled_row s) db ≡ db' = ground arith in
          subst (λ (x : Database). IsSound db x) shape
            (update-IsSound j.id (cancelled_row s) db j (λ i. unfold cancelled_row in refl) found
              (cancelled_row-Evolving s j active
                (increment-lt j.revision m coordination event_rejected fits).0))
    ]

cancelled_adds :
    (f : Filters) (message : ClientMessage) (id : Key) (n : ℕ) (reason : Text) (j : JobRow)
    (coordination : Bool) (s : Supply) (db db' : Database)
    → ingest_job_cancelled f message id n reason (some j) coordination s db ≡ ok db'
    → (moved : Database) × ((if is_cancelling j.status
          then finish_cancelling message j coordination s db
          else ok db)
        ≡ ok moved)
      × (append_job_event j.id (cancelled_input f message id n reason) s 0 moved ≡ ok db')
unfolding ingest_job_cancelled
cancelled_adds f message id n reason j coordination s db db' h =
    elim (Result-cases
      (if is_cancelling j.status then finish_cancelling message j coordination s db else ok db)) [
        | inr (e, failed) ↦ absurd (ground arith)
        | inl (moved, settled) ↦ (moved, settled, ground arith)
      ]

pub job_cancelled-IsSound :
    (f : Filters) (message : ClientMessage) (id : Key) (n : ℕ) (reason : Text) (j : JobRow)
    (coordination : Bool) (s : Supply) (db db' : Database)
    → find_job j.id db ≡ some j
    → ingest_job_cancelled f message id n reason (some j) coordination s db ≡ ok db'
    → IsSound db db'
job_cancelled-IsSound f message id n reason j coordination s db db' found h =
    let (moved, settled, appends) =
      cancelled_adds f message id n reason j coordination s db db' h in
    let sound : IsSound db moved = elim (Bool-cases (is_cancelling j.status)) [
      | inl active ↦
          finish_cancelling-IsSound message j coordination s db moved active found (ground arith)
      | inr over ↦
          let same : moved ≡ db = ground arith in rw same (IsQuiet-IsSound db db (IsQuiet-refl db))
    ] in
    IsSound-then db moved db' sound
      (append_job_event-IsQuiet j.id (cancelled_input f message id n reason) s 0 moved db' appends)

resume_job-IsSound :
    (approval : Key) (n revision : ℕ) (j : JobRow) (s : Supply) (db db' : Database)
    → find_job j.id db ≡ some j
    → resume_job approval n revision (some j) s db ≡ ok db'
    → IsSound db db'
unfolding resume_job
resume_job-IsSound approval n revision j s db db' found h =
    elim (Bool-cases (resumes n revision j s)) [
      | inl goes ↦
          logged_update-IsSound j.id (resumed_row (s.clock.reading 0)) j
            (resumed_input approval n revision) s 0 db db' (λ i. unfold resumed_row in refl) found
            (resumed_row-Evolving (s.clock.reading 0) j (resumes-waiting n revision j s goes)
              (ground arith))
            (ground arith)
      | inr stays ↦
          let same : db' ≡ db = ground arith in rw same (IsQuiet-IsSound db db (IsQuiet-refl db))
    ]

resume_payload_moves :
    (decides : Bool) (p : CommandPayload) (s : Supply) (db db' : Database)
    → resume_payload decides p s db ≡ ok db'
    → (db' ≡ db)
      ⊎ ((approval : Key) × (id : Key) × (n : ℕ) × (revision : ℕ) × (resume_job approval n revision
              (find_job id db)
              s
              db
            ≡ ok db'))
unfolding resume_payload
resume_payload_moves true (decision_command approval id n revision fingerprint d) s db db' h =
    elim (Bool-cases (is_approve d)) [
      | inl approved ↦ inr (approval, id, n, revision, ground arith)
      | inr other ↦ inl (ground arith)
    ]
resume_payload_moves decides p s db db' h = inl (ground arith)

pub delivered_approval-IsSound :
    (m : ConnectorMessageRow) (s : Supply) (db db' : Database)
    → resume_delivered_approval m s db ≡ ok db'
    → IsSound db db'
unfolding resume_delivered_approval
delivered_approval-IsSound m s db db' h = elim (resume_payload_moves _ m.payload s db db' h) [
  | inl same ↦ rw same (IsQuiet-IsSound db db (IsQuiet-refl db))
  | inr (approval, id, n, revision, moves) ↦ elim (Option-cases (find_job id db)) [
    | inl missing ↦
        let same : db' ≡ db = unfold resume_job in ground arith in
        rw same (IsQuiet-IsSound db db (IsQuiet-refl db))
    | inr (j, found) ↦
        resume_job-IsSound approval n revision j s db db' (found_by_its_id id db j found)
          (ground arith)
  ]
]
