-- ===== src/Outbox/Examples/Runs.antt =====
-- Runs of the example: the claim, the report, the repeated report.
use mathlib.Core.Option
use qwen_harness_bridge.Outbox.Profile.{
  body_type, durable_receipts, includes, is_coordinated, is_durable, job_coordination, job_of,
  locked_job, offered_capabilities,
}
use qwen_harness_bridge.Outbox.Admission.{admit, admit_body, client_row, store_client_message}
use qwen_harness_bridge.Outbox.Business.{
  ack_business, acknowledge_messages, apply_business, is_historical_claim, settle, sync_business,
}
use qwen_harness_bridge.Outbox.Answer.{
  ack_type, answer, answer_ack, answer_done, answer_hello, answer_rejection, answer_sync, code_text,
  consume_row, next_capabilities, respond, server_capabilities, state_of, welcome, with_receipt,
}
use qwen_harness_bridge.Outbox.Claim.{
  claim_input, claim_matched, claim_offered_job, connector_source, matches_offer, offer_row,
  withdrawn_claim,
}
use qwen_harness_bridge.Outbox.Ingest.{
  event_current_stage, event_input, event_job_row, has_usable_terminal_summary, ingest_ended_event,
  ingest_job_event, ingest_live_event, is_one_of, other_status_for_event, same_status!,
  status_for_event, terminal_status_for_event,
}
use qwen_harness_bridge.Outbox.History.{commit}
use qwen_harness_bridge.Outbox.Duplicates.{
  answers_hello, answers_other, answers_sync, find_original_response, is_exact_duplicate,
  is_faithful, is_original, is_rejection, original_at, payload_type, refresh_server_message,
  refreshed, validate_response,
}
use qwen_harness_bridge.Outbox.Repeats.{
  accept_duplicate, may_repeat, refresh_heartbeat, renew, renew_first, renew_receipt,
  repeat_payload, repeat_stored,
}
use qwen_harness_bridge.Outbox.Payloads.{same_receipt, same_state, same_texts}
use qwen_harness_bridge.Outbox.Answer.{Acceptance}
use qwen_harness_bridge.Prelude.{take, Option, ok}
use qwen_harness_bridge.Outbox.{
  any_passed, assert_deadlines, assert_updated, authority_changed_message,
  authority_unavailable_message, business_expired_message, business_limit_message,
  checked_job_increment, claim_rejected_message, conflict, is_authorized, limit_reached,
  lock_client_job, lock_connector, validate_connector, StoreOutcome, Option, ok,
}
use qwen_harness_bridge.Outbox.Messages.{
  append_job_event, cancelled_tombstone_payload, enqueue_server_message, expired_tombstone_payload,
  is_client_message, is_offer_of, is_replaced, is_server_sequence, is_taken, job_offer, payload_job,
  payload_lease, protocol_error, remember_original_response, replace_server_message, server_row,
  stored_response, tombstone, with_response, withdraw_cancelled_offer,
}
use qwen_harness_bridge.Database.Tables.{
  find_approval, find_connector, find_idempotency, max_sequence, update_job,
}
use qwen_harness_bridge.Prelude.{any, modify, select}
use qwen_harness_bridge.Text.{is_space, text_eq, to_lower_case, trim, trim_start}
use qwen_harness_bridge.JobState.{assert_transition, can_transition, running, succeeded, JobStatus}
use qwen_harness_bridge.Outbox.Offers.{
  has_expired_original_offer, has_original_offer, is_dispatch_event, job_dispatched,
  job_redispatched, only_proof,
}
use qwen_harness_bridge.Repository.Commands.{
  append_event, command_type_text, control_plane, enqueue_server_command, expiry_error,
  next_event_sequence,
}
use qwen_harness_bridge.Repository.{
  command_expires_at, is_blank, status_text, to_job_record, validate_event,
}
use qwen_harness_bridge.Json.{as_record, as_string, coalesce, get, items, safe_natural}
use qwen_harness_bridge.Outbox.Accept.{accept, accept_locked, accept_new, consumed, is_message}
use qwen_harness_bridge.JobState.{is_terminal}
use qwen_harness_bridge.Repository.Examples.{start}
use qwen_harness_bridge.Text.{units}
use qwen_harness_bridge.Outbox.Accept.{accept_client_message}
use qwen_harness_bridge.Outbox.History.{commit_all, Transaction}
use qwen_harness_bridge.Database.Tables.{find_job}
use qwen_harness_bridge.Outbox.{units, true, err, false, job_event, Bool}
use qwen_harness_bridge.Database.{JobRow}
use qwen_harness_bridge.Prelude.{◌≡◌, some, List, true, find, err, false, refl, Bool}
use qwen_harness_bridge.Outbox.Payloads.{same_payload}
use qwen_harness_bridge.Outbox.Examples.{identity, filters, supply, message, report, work}

abbrev status_after : List Transaction → Option JobStatus
status_after ts = Option.map (λ (j : JobRow). j.status) (find_job 1 (commit_all ts start))

abbrev is_answered : StoreOutcome Acceptance → Bool
is_answered (ok a, db) = true
is_answered (err e, db) = false

claim_is_taken : status_after (take 1 work) ≡ some running
unfolding consumed accept_new is_message accept_locked accept accept_client_message
    business_expired_message authority_changed_message business_limit_message
    authority_unavailable_message claim_rejected_message conflict limit_reached
    checked_job_increment validate_connector lock_connector is_authorized lock_client_job any_passed
    assert_deadlines assert_updated durable_receipts job_coordination includes offered_capabilities
    is_durable is_coordinated job_of locked_job body_type admit_body admit client_row
    store_client_message acknowledge_messages is_historical_claim sync_business ack_business
    apply_business settle next_capabilities consume_row respond ack_type server_capabilities welcome
    answer_hello with_receipt state_of answer_sync code_text answer_rejection answer_ack answer_done
    answer is_server_sequence is_taken server_row enqueue_server_message append_job_event job_offer
    protocol_error expired_tombstone_payload cancelled_tombstone_payload tombstone payload_job
    payload_lease is_offer_of is_replaced replace_server_message withdraw_cancelled_offer
    is_client_message stored_response with_response remember_original_response job_dispatched
    job_redispatched is_dispatch_event only_proof has_original_offer has_expired_original_offer
    withdrawn_claim matches_offer offer_row connector_source claim_input claim_matched
    claim_offered_job is_one_of terminal_status_for_event other_status_for_event status_for_event
    has_usable_terminal_summary event_current_stage event_job_row same_status! ingest_live_event
    ingest_ended_event event_input ingest_job_event commit commit_all is_exact_duplicate
    payload_type answers_hello answers_sync is_rejection answers_other validate_response is_faithful
    original_at find_original_response is_original refreshed refresh_server_message may_repeat renew
    renew_first renew_receipt refresh_heartbeat repeat_stored repeat_payload accept_duplicate
    same_texts same_state same_receipt to_job_record status_text is_blank validate_event
    command_expires_at command_type_text expiry_error enqueue_server_command next_event_sequence
    control_plane append_event find_job update_job find_connector find_approval find_idempotency
    max_sequence find modify any select text_eq is_space trim_start trim to_lower_case
    can_transition is_terminal assert_transition safe_natural get coalesce as_record as_string items
claim_is_taken = refl

report_ends : status_after (take 2 work) ≡ some succeeded
unfolding consumed accept_new is_message accept_locked accept accept_client_message
    business_expired_message authority_changed_message business_limit_message
    authority_unavailable_message claim_rejected_message conflict limit_reached
    checked_job_increment validate_connector lock_connector is_authorized lock_client_job any_passed
    assert_deadlines assert_updated durable_receipts job_coordination includes offered_capabilities
    is_durable is_coordinated job_of locked_job body_type admit_body admit client_row
    store_client_message acknowledge_messages is_historical_claim sync_business ack_business
    apply_business settle next_capabilities consume_row respond ack_type server_capabilities welcome
    answer_hello with_receipt state_of answer_sync code_text answer_rejection answer_ack answer_done
    answer is_server_sequence is_taken server_row enqueue_server_message append_job_event job_offer
    protocol_error expired_tombstone_payload cancelled_tombstone_payload tombstone payload_job
    payload_lease is_offer_of is_replaced replace_server_message withdraw_cancelled_offer
    is_client_message stored_response with_response remember_original_response job_dispatched
    job_redispatched is_dispatch_event only_proof has_original_offer has_expired_original_offer
    withdrawn_claim matches_offer offer_row connector_source claim_input claim_matched
    claim_offered_job is_one_of terminal_status_for_event other_status_for_event status_for_event
    has_usable_terminal_summary event_current_stage event_job_row same_status! ingest_live_event
    ingest_ended_event event_input ingest_job_event commit commit_all is_exact_duplicate
    payload_type answers_hello answers_sync is_rejection answers_other validate_response is_faithful
    original_at find_original_response is_original refreshed refresh_server_message may_repeat renew
    renew_first renew_receipt refresh_heartbeat repeat_stored repeat_payload accept_duplicate
    same_texts same_state same_receipt to_job_record status_text is_blank validate_event
    command_expires_at command_type_text expiry_error enqueue_server_command next_event_sequence
    control_plane append_event find_job update_job find_connector find_approval find_idempotency
    max_sequence find modify any select text_eq is_space trim_start trim to_lower_case
    can_transition is_terminal assert_transition safe_natural get coalesce as_record as_string items
report_ends = refl

repeat_is_answered :
    is_answered (
      accept_client_message filters identity
        (message 2 502 (job_event 1 1 (units "done") report (units "harness")))
        (supply 300)
        (commit_all (take 2 work) start))
    ≡ true
unfolding consumed accept_new is_message accept_locked accept accept_client_message
    business_expired_message authority_changed_message business_limit_message
    authority_unavailable_message claim_rejected_message conflict limit_reached
    checked_job_increment validate_connector lock_connector is_authorized lock_client_job any_passed
    assert_deadlines assert_updated durable_receipts job_coordination includes offered_capabilities
    is_durable is_coordinated job_of locked_job body_type admit_body admit client_row
    store_client_message acknowledge_messages is_historical_claim sync_business ack_business
    apply_business settle next_capabilities consume_row respond ack_type server_capabilities welcome
    answer_hello with_receipt state_of answer_sync code_text answer_rejection answer_ack answer_done
    answer is_server_sequence is_taken server_row enqueue_server_message append_job_event job_offer
    protocol_error expired_tombstone_payload cancelled_tombstone_payload tombstone payload_job
    payload_lease is_offer_of is_replaced replace_server_message withdraw_cancelled_offer
    is_client_message stored_response with_response remember_original_response job_dispatched
    job_redispatched is_dispatch_event only_proof has_original_offer has_expired_original_offer
    withdrawn_claim matches_offer offer_row connector_source claim_input claim_matched
    claim_offered_job is_one_of terminal_status_for_event other_status_for_event status_for_event
    has_usable_terminal_summary event_current_stage event_job_row same_status! ingest_live_event
    ingest_ended_event event_input ingest_job_event commit commit_all is_exact_duplicate
    payload_type answers_hello answers_sync is_rejection answers_other validate_response is_faithful
    original_at find_original_response is_original refreshed refresh_server_message may_repeat renew
    renew_first renew_receipt refresh_heartbeat repeat_stored repeat_payload accept_duplicate
    same_texts same_state same_receipt to_job_record status_text is_blank validate_event
    command_expires_at command_type_text expiry_error enqueue_server_command next_event_sequence
    control_plane append_event find_job update_job find_connector find_approval find_idempotency
    max_sequence find modify any select text_eq is_space trim_start trim to_lower_case
    can_transition is_terminal assert_transition safe_natural get coalesce as_record as_string items
    same_payload
repeat_is_answered = refl
