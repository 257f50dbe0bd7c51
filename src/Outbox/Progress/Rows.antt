-- ===== src/Outbox/Progress/Rows.antt =====
-- The updates of a job row by the connector store.
use qwen_harness_bridge.Repository.Approval.{is_waiting}
use qwen_harness_bridge.Repository.Claim.{is_dispatched}
use qwen_harness_bridge.Json.{Fields}
use qwen_harness_bridge.Outbox.Messages.{Supply}
use qwen_harness_bridge.Outbox.Progress.{Evolve, arith, is_some, suc, inl, inr}
use qwen_harness_bridge.Text.{Text, text_eq}
use qwen_harness_bridge.Repository.{status_text, fits_integer, max_integer}
use qwen_harness_bridge.Repository.Invariant.{JobIsValid}
use qwen_harness_bridge.JobState.{is_terminal, can_transition, JobStatus}
use qwen_harness_bridge.Outbox.Dispatch.{dispatch_row, is_queued}
use qwen_harness_bridge.Database.{JobRow, Time, Key}
use qwen_harness_bridge.Outbox.Ingest.{
  event_job_row, same_status!, is_claimed_state, terminal_status_for_event,
}
use qwen_harness_bridge.Outbox.Approvals.{resumed_row, waiting_row, may_ask, resumes}
use qwen_harness_bridge.Outbox.Cancellations.{cancelled_row, is_cancelling}
use qwen_harness_bridge.Outbox.{
  checked_job_increment, Bool, StoreErrorCode, Text, text_eq, true, ok, Fields, fits_integer, false,
  max_integer,
}
use qwen_harness_bridge.Outbox.Claim.{offer_row}
use qwen_harness_bridge.Prelude.{
  ℕ, ◌≡◌, Bool, ok, true, false, ◌<◌, ◌||◌, ◌+◌, arith, is_some, suc, ◌⊎◌, Bool-cases, inl, inr,
}

-- What is asked of an update of a row.
abbrev pub Evolving : JobRow → JobRow → Type 0
Evolving j k = JobIsValid j → JobIsValid k × Evolve j k

pub increment-lt :
    (n m : ℕ) (coordination : Bool) (code : StoreErrorCode)
    → checked_job_increment n coordination code ≡ ok m
    → (n < max_integer) × (m ≡ suc n)
unfolding checked_job_increment
increment-lt n m coordination code h = ground arith

same_status-eq : (s t : JobStatus) → same_status! s t ≡ true → s ≡ t
unfolding same_status! status_text text_eq
same_status-eq s t h = ground arith

pub offer_row-Evolving :
    (n : ℕ) (now : Time) (j : JobRow)
    → is_dispatched j.status ≡ true
    → n ≡ j.attempt + 1
    → j.revision < max_integer
    → Evolving j (offer_row n now j)
unfolding offer_row can_transition is_terminal
offer_row-Evolving n now j sent next room v = (ground arith, ground arith)

claimed-not_terminal : (s : JobStatus) → is_claimed_state s ≡ true → is_terminal s ≡ false
unfolding is_terminal
claimed-not_terminal s h = ground arith

pub event_row-Evolving :
    (next : JobStatus) (type : Text) (payload : Fields) (now : Time) (j : JobRow)
    → is_claimed_state j.status ≡ true
    → (same_status! next j.status || can_transition j.status next) ≡ true
    → is_some (terminal_status_for_event type payload) ≡ is_terminal next
    → j.revision < max_integer
    → Evolving j
        (event_job_row next (is_some (terminal_status_for_event type payload)) type payload now j)
unfolding event_job_row
event_row-Evolving next type payload now j active allowed terminal room v =
    let live : is_terminal j.status ≡ false = claimed-not_terminal j.status active in
    let moved : (next ≡ j.status) ⊎ (can_transition j.status next ≡ true) =
      elim (Bool-cases (same_status! next j.status)) [
        | inl same ↦ inl (same_status-eq next j.status same)
        | inr apart ↦ inr (ground (arith))
      ] in
    elim (Bool-cases (is_some (terminal_status_for_event type payload))) [
      | inl over ↦ rw over (ground arith, ground arith)
      | inr open_still ↦ rw open_still (ground arith, ground arith)
    ]

pub event_row-id :
    (next : JobStatus) (terminal : Bool) (type : Text) (payload : Fields) (now : Time) (j : JobRow)
    → (event_job_row next terminal type payload now j).id ≡ j.id
unfolding event_job_row
event_row-id next terminal type payload now j = ground arith

pub resumes-waiting :
    (n revision : ℕ) (j : JobRow) (s : Supply)
    → resumes n revision j s ≡ true
    → is_waiting j.status ≡ true
unfolding resumes
resumes-waiting n revision j s h = ground arith

pub waiting_row-Evolving :
    (now : Time) (j : JobRow)
    → may_ask j.status ≡ true
    → j.revision < max_integer
    → Evolving j (waiting_row now j)
unfolding waiting_row can_transition is_terminal
waiting_row-Evolving now j asks room v = (ground arith, ground arith)

pub cancelled_row-Evolving :
    (s : Supply) (j : JobRow)
    → is_cancelling j.status ≡ true
    → j.revision < max_integer
    → Evolving j (cancelled_row s j)
unfolding cancelled_row can_transition is_terminal
cancelled_row-Evolving s j active room v = (ground arith, ground arith)

pub resumed_row-Evolving :
    (now : Time) (j : JobRow)
    → is_waiting j.status ≡ true
    → fits_integer (j.revision + 1) ≡ true
    → Evolving j (resumed_row now j)
unfolding resumed_row can_transition is_terminal
resumed_row-Evolving now j waits room v = (ground arith, ground arith)

pub dispatch_row-Evolving :
    (c : Key) (lease : Text) (until now : Time) (j : JobRow)
    → (is_queued j.status || is_dispatched j.status) ≡ true
    → j.revision < max_integer
    → Evolving j (dispatch_row c lease until now j)
unfolding dispatch_row can_transition is_terminal
dispatch_row-Evolving c lease until now j free room v = (ground arith, ground arith)
