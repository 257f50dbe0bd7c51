-- ===== src/Repository/Examples/Histories.antt =====
-- The theorems on histories of calls at that job.
use qwen_harness_bridge.Repository.Examples.{
  request, offer, note, story, decided_approval, random, start, turn, clock, fresh_ids, job,
  start-IsValid, approved, created, claimed_db, waiting_db,
}
use qwen_harness_bridge.Repository.History.Creation.{create_again}
use qwen_harness_bridge.Repository.History.Stale.{revision_used_once}
use qwen_harness_bridge.Repository.History.Final.{decision_stays}
use qwen_harness_bridge.Repository.History.Claims.{claim_once}
use qwen_harness_bridge.JobState.{
  waiting_approval, is_terminal, assert_transition, succeeded, can_transition,
}
use qwen_harness_bridge.Repository.History.Reached.{run-IsValid, Later, run-Later}
use qwen_harness_bridge.Repository.Commands.{
  append_event, command_type_text, expiry_error, enqueue_server_command, next_event_sequence,
  control_plane,
}
use qwen_harness_bridge.Json.{safe_natural, get, coalesce, as_record, as_string}
use qwen_harness_bridge.Repository.Transition.{
  transition_and_append, event_stage, end_job, transition_row,
}
use qwen_harness_bridge.Database.Tables.{
  find_job, update_job, find_approval, find_connector, find_idempotency, max_sequence,
}
use qwen_harness_bridge.Repository.{
  waiting_approval, idempotency_conflict, revision_conflict, trim, status_text, is_blank,
  validate_event, command_expires_at,
}
use qwen_harness_bridge.Repository.Create.{
  create_idempotent, inserted_job, free_short_id, create_job, original_job, delete_job,
  commit_rival, register_job, create_new, create_body,
}
use qwen_harness_bridge.Repository.Approval.{
  approval_decided, record_approval_decision, repeats, matches_job, decide_row, record_decision,
  record_expired, decide, store_approval, approval_decided, decided_event, announce, decide_locked,
  decision_time, decide_body, throw_expired,
}
use qwen_harness_bridge.Repository.Cancel.{
  cancel_atomically, is_immediate, user_requested, cancel_reason, owned_by, is_settled, cancel_row,
  job_cancelled, job_cancelling, notify_cancel, cancel_current,
}
use qwen_harness_bridge.Text.{text_eq, is_space, trim_start, trim}
use qwen_harness_bridge.Repository.History.{run, claims, serve}
use qwen_harness_bridge.Repository.Claim.{
  claim_offer, claim_current, validate_claim, is_uuid, may_claim, offers, claim_row, job_claimed,
}
use qwen_harness_bridge.Database.{JobRow}
use qwen_harness_bridge.Repository.ShortId.{
  new_short_id, random_bits, crockford_base32_alphabet, suffix_digit,
}
use qwen_harness_bridge.Prelude.{◌≡◌, ◌∷◌, find, none, [], some, refl, ok, arith, err, any, modify}

claim_once_example :
    claim_offer 1 offer clock (fresh_ids 500) (run story claimed_db)
    ≡ (ok none, run story claimed_db)
unfolding claim_offer claim_current append_event update_job validate_claim safe_natural is_uuid
    find_job find may_claim offers text_eq find_connector any
claim_once_example =
    claim_once 1 offer offer clock clock (fresh_ids 100) (fresh_ids 500) start claimed_db _ story 1
      start-IsValid refl refl refl

run-Later_example : (k : JobRow) × (find_job 1 (run story start) ≡ some k) × Later job k
unfolding find_job find
run-Later_example = run-Later story start 1 job start-IsValid refl

decision_stays_example : find_approval 5 (run story decided_approval) ≡ some approved
unfolding text_eq is_space trim_start trim safe_natural get coalesce as_record as_string
    can_transition is_terminal assert_transition find_job update_job find_connector find_approval
    find_idempotency max_sequence status_text is_blank validate_event command_expires_at
    command_type_text expiry_error enqueue_server_command next_event_sequence control_plane
    append_event event_stage end_job transition_row transition_and_append user_requested
    cancel_reason owned_by is_immediate is_settled cancel_row job_cancelled job_cancelling
    notify_cancel cancel_current cancel_atomically is_uuid validate_claim offers claim_row
    job_claimed claim_current may_claim claim_offer repeats matches_job decide_row record_decision
    record_expired decide store_approval approval_decided decided_event announce decide_locked
    decision_time decide_body throw_expired record_approval_decision inserted_job free_short_id
    create_job original_job delete_job commit_rival register_job create_new create_body
    create_idempotent crockford_base32_alphabet random_bits suffix_digit new_short_id find modify
    any serve run
decision_stays_example = decision_stays story decided_approval 5 approved refl refl

revision_used_once_example :
    transition_and_append 1 2 succeeded note clock (fresh_ids 700) (run story waiting_db)
    ≡ (err revision_conflict, run story waiting_db)
unfolding text_eq is_space trim_start trim safe_natural get coalesce as_record as_string
    can_transition is_terminal assert_transition find_job update_job find_connector find_approval
    find_idempotency max_sequence status_text is_blank validate_event command_expires_at
    command_type_text expiry_error enqueue_server_command next_event_sequence control_plane
    append_event event_stage end_job transition_row transition_and_append user_requested
    cancel_reason owned_by is_immediate is_settled cancel_row job_cancelled job_cancelling
    notify_cancel cancel_current cancel_atomically is_uuid validate_claim offers claim_row
    job_claimed claim_current may_claim claim_offer repeats matches_job decide_row record_decision
    record_expired decide store_approval approval_decided decided_event announce decide_locked
    decision_time decide_body throw_expired record_approval_decision inserted_job free_short_id
    create_job original_job delete_job commit_rival register_job create_new create_body
    create_idempotent crockford_base32_alphabet random_bits suffix_digit new_short_id find modify
    any serve run
revision_used_once_example =
    revision_used_once 1 2 waiting_approval succeeded note note clock clock (fresh_ids 200)
      (fresh_ids 700) claimed_db waiting_db _ story
      (run-IsValid (turn 100 (claims 1 offer) ∷ []) start start-IsValid) refl refl

create_again_example :
    create_idempotent (request 99) random none clock (fresh_ids 950) (run story created)
    ≡ (err idempotency_conflict, run story created)
unfolding text_eq is_space trim_start trim safe_natural get coalesce as_record as_string
    can_transition is_terminal assert_transition find_job update_job find_connector find_approval
    find_idempotency max_sequence status_text is_blank validate_event command_expires_at
    command_type_text expiry_error enqueue_server_command next_event_sequence control_plane
    append_event event_stage end_job transition_row transition_and_append user_requested
    cancel_reason owned_by is_immediate is_settled cancel_row job_cancelled job_cancelling
    notify_cancel cancel_current cancel_atomically is_uuid validate_claim offers claim_row
    job_claimed claim_current may_claim claim_offer repeats matches_job decide_row record_decision
    record_expired decide store_approval approval_decided decided_event announce decide_locked
    decision_time decide_body throw_expired record_approval_decision inserted_job free_short_id
    create_job original_job delete_job commit_rival register_job create_new create_body
    create_idempotent crockford_base32_alphabet random_bits suffix_digit new_short_id find modify
    any serve run
create_again_example =
    (create_again (request 22) (request 99) random random none none clock clock (fresh_ids 900)
        (fresh_ids 950) start created _ story start-IsValid refl refl refl).1
      (omega arith)
