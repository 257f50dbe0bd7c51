-- ===== src/Repository/History/Stale.antt =====
-- Optimistic concurrency: transitionAndAppend under an expected revision.
use qwen_harness_bridge.Repository.Invariant.Logs.{max_sequence-length}
use qwen_harness_bridge.Repository.Commands.Effects.{append_event_adds}
use qwen_harness_bridge.Repository.Commands.{next_event_sequence, append_event}
use qwen_harness_bridge.Repository.History.Reached.{run-Later}
use qwen_harness_bridge.Repository.Progress.Calls.{transition-IsSafe}
use qwen_harness_bridge.Repository.Progress.Rows.{transition_row-id}
use qwen_harness_bridge.Repository.Invariant.Writes.{find_job-update_job}
use qwen_harness_bridge.Repository.Progress.{append_event-keeps}
use qwen_harness_bridge.JobState.Diagram.{◌⟶◌, can_transition-edge}
use qwen_harness_bridge.Repository.Transition.Effects.{transition_returns}
use qwen_harness_bridge.Repository.History.{Turn, run, transition-IsSafe}
use qwen_harness_bridge.Repository.Invariant.{IsValid, sequences, IsDense}
use qwen_harness_bridge.Database.Tables.{find_job, update_job}
use qwen_harness_bridge.Database.Clock.{Clock, FreshIds}
use qwen_harness_bridge.Text.{Text}
use qwen_harness_bridge.Repository.{
  JobEventInput, JobRecord, to_job_record, validate_event, revision_conflict, Outcome,
}
use qwen_harness_bridge.JobState.{JobStatus}
use qwen_harness_bridge.Database.{Key, JobRow, Database}
use qwen_harness_bridge.Repository.Transition.{transition_row, transition_and_append, event_stage}
use qwen_harness_bridge.Prelude.{
  ℕ, ◌≡◌, ◌+◌, arith, some, ok, List, ◌<◌, err, ◌∙◌, suc, length, subst, ◌∷◌, refl, ==_refl,
}

transition_row-revision :
    (s : JobStatus) (t : Text) (clock : Clock) (j : JobRow)
    → (transition_row s t clock j).revision ≡ j.revision + 1
unfolding transition_row
transition_row-revision s t clock j = ground arith

stale_transition :
    (id : Key) (n : ℕ) (s : JobStatus) (e : JobEventInput) (clock : Clock) (ids : FreshIds)
    (db : Database) (k : JobRow)
    → find_job id db ≡ some k
    → validate_event e ≡ ok tt
    → n < k.revision
    → transition_and_append id n s e clock ids db ≡ (err revision_conflict, db)
unfolding transition_and_append
stale_transition id n s e clock ids db k found valid old = ground arith

found_after_transition :
    (id : Key) (n : ℕ) (s : JobStatus) (e : JobEventInput) (clock : Clock) (ids : FreshIds)
    (db db' : Database) (r : JobRecord)
    → transition_and_append id n s e clock ids db ≡ (ok r, db')
    → (k : JobRow) × (find_job id db' ≡ some k) × (k.revision ≡ n + 1) × (k.status ≡ s)
found_after_transition id n s e clock ids db db' r h =
    let (j, found, same, edge, valid, fits, appends, answer) =
      transition_returns id n s e clock ids db db' r h in
    let row = transition_row s (event_stage e s) clock in
    (
      row j,
      append_event-keeps id _ e clock ids _ db' appends id
          ∙ ground (
            arith,
            find_job-update_job id id row db (transition_row-id s (event_stage e s) clock),
          ),
      ground (arith, transition_row-revision s (event_stage e s) clock j),
      unfold transition_row in ground arith,
    )

-- Once transitionAndAppend on a valid database has returned under an expected revision, every later
-- well-formed transitionAndAppend of that job that expects the same revision throws REVISION_CONFLICT and
-- changes nothing, whatever calls of the repository come between.
pub revision_used_once :
    (id : Key) (n : ℕ) (s t : JobStatus) (e f : JobEventInput) (clock clock' : Clock)
    (ids ids' : FreshIds) (db db' : Database) (r : JobRecord) (ts : List Turn)
    → IsValid db
    → transition_and_append id n s e clock ids db ≡ (ok r, db')
    → validate_event f ≡ ok tt
    → transition_and_append id n t f clock' ids' (run ts db') ≡ (err revision_conflict, run ts db')
revision_used_once id n s t e f clock clock' ids ids' db db' r ts v h valid =
    let (k, found, revision, _) = found_after_transition id n s e clock ids db db' r h in
    let v' : IsValid db' =
      subst (λ (o : Outcome JobRecord). IsValid o.1) h
        ((transition-IsSafe id n s e clock ids db).valid v) in
    let (l, there, later) = run-Later ts db' id k v' found in
    stale_transition id n t f clock' ids' (run ts db') l there valid (omega (arith, later.counted))

next_event :
    (id : Key) (e : JobEventInput) (clock : Clock) (ids : FreshIds) (db db' : Database)
    → IsDense (sequences id db.job_events)
    → append_event id (next_event_sequence db id) e clock ids db ≡ ok db'
    → sequences id db'.job_events
      ≡ suc (length (sequences id db.job_events)) ∷ sequences id db.job_events
unfolding next_event_sequence
next_event id e clock ids db db' d h =
    let (x, same, next, shape) = append_event_adds id _ e clock ids db db' h in
    rw shape
      (unfold sequences in ground (arith, max_sequence-length id db.job_events d, ==_refl id))

-- On a valid database, a transition that returns has moved the job along an edge of the diagram, from the expected revision
-- to the next, and added one event to the job's log, whose sequence follows those that were there.
pub transition_moves :
    (id : Key) (n : ℕ) (s : JobStatus) (e : JobEventInput) (clock : Clock) (ids : FreshIds)
    (db db' : Database) (r : JobRecord)
    → IsValid db
    → transition_and_append id n s e clock ids db ≡ (ok r, db')
    → (j : JobRow) × (k : JobRow) × (find_job id db ≡ some j)
      × (find_job id db' ≡ some k)
      × (r ≡ to_job_record k)
      × (j.status ⟶ s)
      × (k.status ≡ s)
      × (j.revision ≡ n)
      × (k.revision ≡ n + 1)
      × (sequences id db'.job_events
          ≡ suc (length (sequences id db.job_events)) ∷ sequences id db.job_events)
transition_moves id n s e clock ids db db' r v h =
    let (j, found, same, edge, valid, fits, appends, answer) =
      transition_returns id n s e clock ids db db' r h in
    let row = transition_row s (event_stage e s) clock in
    let (k, there, revision, status) = found_after_transition id n s e clock ids db db' r h in
    (
      j,
      row j,
      found,
      append_event-keeps id _ e clock ids _ db' appends id
          ∙ ground (
            arith,
            find_job-update_job id id row db (transition_row-id s (event_stage e s) clock),
          ),
      answer,
      can_transition-edge j.status s edge,
      unfold transition_row in ground arith,
      same,
      ground (arith, transition_row-revision s (event_stage e s) clock j),
      next_event id e clock ids (update_job id row db) db' (unfold update_job in v.events id)
            appends
          ∙ unfold update_job in refl,
    )
