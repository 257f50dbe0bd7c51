-- ===== src/Repository/Examples/Calls.antt =====
-- The theorems on single calls and on states at that job.
use mathlib.Core.List.{Perm}
use qwen_harness_bridge.Repository.Examples.{
  random, cancellation_of, clock, all_jobs, note, job, fresh_ids, turn, cancelling_db, start, offer,
  start-IsValid, claimed_db, waiting_db,
}
use qwen_harness_bridge.Repository.Queries.Laws.{list_jobs-IsSorted, IsLimit, Asked, ListedFirst}
use qwen_harness_bridge.Repository.Queries.{list_jobs, validate_limit, listed, order_by, insert_row}
use qwen_harness_bridge.Repository.History.Stale.{transition_moves}
use qwen_harness_bridge.JobState.Diagram.{◌⟶◌, assert_transition-edge, ◌⟶*◌, terminal_absorbs}
use qwen_harness_bridge.Repository.ShortId.Laws.{read_bits, new_short_id-valid}
use qwen_harness_bridge.Repository.Cancel.Laws.{cancel_again}
use qwen_harness_bridge.JobState.{
  waiting_approval, is_terminal, dispatched, assert_transition, failed, queued, JobStatus,
  can_transition,
}
use qwen_harness_bridge.Repository.History.Reached.{run-IsValid}
use qwen_harness_bridge.Repository.Commands.{
  append_event, command_type_text, expiry_error, enqueue_server_command, next_event_sequence,
  control_plane,
}
use qwen_harness_bridge.Json.{safe_natural, get, coalesce, as_record, as_string}
use qwen_harness_bridge.Repository.Transition.{
  transition_and_append, event_stage, end_job, transition_row,
}
use qwen_harness_bridge.Database.Tables.{
  find_job, update_job, find_approval, find_connector, find_idempotency, max_sequence,
}
use qwen_harness_bridge.Repository.{
  waiting_approval, JobRecord, to_job_record, trim, status_text, is_blank, validate_event,
  command_expires_at,
}
use qwen_harness_bridge.Repository.Create.{
  create_idempotent, inserted_job, free_short_id, create_job, original_job, delete_job,
  commit_rival, register_job, create_new, create_body,
}
use qwen_harness_bridge.Repository.Approval.{
  approval_decided, record_approval_decision, repeats, matches_job, decide_row, record_decision,
  record_expired, decide, store_approval, approval_decided, decided_event, announce, decide_locked,
  decision_time, decide_body, throw_expired,
}
use qwen_harness_bridge.Repository.Cancel.{
  cancel_atomically, is_immediate, user_requested, cancel_reason, owned_by, is_settled, cancel_row,
  job_cancelled, job_cancelling, notify_cancel, cancel_current,
}
use qwen_harness_bridge.Text.{text_eq, is_space, trim_start, trim}
use qwen_harness_bridge.Repository.History.{run, claims, serve}
use qwen_harness_bridge.Repository.Invariant.{sequences}
use qwen_harness_bridge.Repository.Claim.{
  claim_offer, claim_current, validate_claim, is_uuid, may_claim, offers, claim_row, job_claimed,
}
use qwen_harness_bridge.Database.{JobRow}
use qwen_harness_bridge.Repository.ShortId.{
  is_short_job_id, new_short_id, random_bits, crockford_base32_alphabet, suffix_digit,
}
use qwen_harness_bridge.Prelude.{
  ℕ, ◌≡◌, List, ◌∷◌, find, [], some, refl, ok, arith, true, ◌↔◌, ◌⊎◌, suc, length, any, modify, ◌≤◌,
  map, ◌++◌, select, Chosen, IsSorted,
}

transition_moves_example :
    (r : JobRecord) × ((j : JobRow) × (k : JobRow) × (find_job 1 claimed_db ≡ some j)
      × (find_job 1 waiting_db ≡ some k)
      × (r ≡ to_job_record k)
      × (j.status ⟶ waiting_approval)
      × (k.status ≡ waiting_approval)
      × (j.revision ≡ 2)
      × (k.revision ≡ 3)
      × (sequences 1 waiting_db.job_events
          ≡ suc (length (sequences 1 claimed_db.job_events)) ∷ sequences 1 claimed_db.job_events))
unfolding text_eq is_space trim_start trim safe_natural get coalesce as_record as_string
    can_transition is_terminal assert_transition find_job update_job find_connector find_approval
    find_idempotency max_sequence status_text is_blank validate_event command_expires_at
    command_type_text expiry_error enqueue_server_command next_event_sequence control_plane
    append_event event_stage end_job transition_row transition_and_append user_requested
    cancel_reason owned_by is_immediate is_settled cancel_row job_cancelled job_cancelling
    notify_cancel cancel_current cancel_atomically is_uuid validate_claim offers claim_row
    job_claimed claim_current may_claim claim_offer repeats matches_job decide_row record_decision
    record_expired decide store_approval approval_decided decided_event announce decide_locked
    decision_time decide_body throw_expired record_approval_decision inserted_job free_short_id
    create_job original_job delete_job commit_rival register_job create_new create_body
    create_idempotent crockford_base32_alphabet random_bits suffix_digit new_short_id find modify
    any serve run
transition_moves_example = (
  _,
  transition_moves 1 2 waiting_approval note clock (fresh_ids 200) claimed_db waiting_db _
      (run-IsValid (turn 100 (claims 1 offer) ∷ []) start start-IsValid) refl,
)

cancel_again_example :
    (r : JobRecord) × (cancel_atomically (cancellation_of 8) clock (fresh_ids 800) cancelling_db
      ≡ (ok r, cancelling_db))
unfolding text_eq is_space trim_start trim safe_natural get coalesce as_record as_string
    can_transition is_terminal assert_transition find_job update_job find_connector find_approval
    find_idempotency max_sequence status_text is_blank validate_event command_expires_at
    command_type_text expiry_error enqueue_server_command next_event_sequence control_plane
    append_event event_stage end_job transition_row transition_and_append user_requested
    cancel_reason owned_by is_immediate is_settled cancel_row job_cancelled job_cancelling
    notify_cancel cancel_current cancel_atomically is_uuid validate_claim offers claim_row
    job_claimed claim_current may_claim claim_offer repeats matches_job decide_row record_decision
    record_expired decide store_approval approval_decided decided_event announce decide_locked
    decision_time decide_body throw_expired record_approval_decision inserted_job free_short_id
    create_job original_job delete_job commit_rival register_job create_new create_body
    create_idempotent crockford_base32_alphabet random_bits suffix_digit new_short_id find modify
    any serve run
cancel_again_example = (
  _,
  cancel_again (cancellation_of 2) (cancellation_of 8) clock clock (fresh_ids 400) (fresh_ids 800)
      claimed_db cancelling_db _ 8 refl refl refl refl (omega arith),
)

new_short_id-valid_example :
    (is_short_job_id (new_short_id (random 3)) ≡ true)
    × (read_bits (new_short_id (random 3)) ≡ random_bits (random 3))
new_short_id-valid_example = new_short_id-valid (random 3) (omega arith) (omega arith)

assert_transition-edge_example :
    (assert_transition queued dispatched ≡ ok tt) ↔ (queued ⟶ dispatched)
assert_transition-edge_example = assert_transition-edge queued dispatched

terminal_absorbs_example :
    (is_terminal failed ≡ true → (t : JobStatus) → failed ⟶* t → t ≡ failed)
    × ((t : JobStatus) × (is_terminal t ≡ true) × (failed ⟶* t))
terminal_absorbs_example = terminal_absorbs failed

list_jobs-IsSorted_example :
    (n : ℕ) × (rows : List JobRow) × (rest : List JobRow) × (chosen : List JobRow) × (IsLimit
        all_jobs.limit n
      × (1 ≤ n)
      × (n ≤ 5)
      × (length rows ≤ n))
    × (to_job_record job ∷ [] ≡ map to_job_record rows)
    × Chosen (Asked all_jobs) start.jobs chosen
    × Perm (rows ++ rest) chosen
    × IsSorted ListedFirst (rows ++ rest)
    × ((length rows ≡ n) ⊎ (rest ≡ []))
unfolding list_jobs validate_limit safe_natural order_by select listed insert_row
list_jobs-IsSorted_example = list_jobs-IsSorted all_jobs start (to_job_record job ∷ []) refl
