-- ===== src/Outbox/Examples.antt =====
-- A connector takes an offer, reports on its job and repeats itself.
mod Runs
mod Later
use qwen_harness_bridge.Outbox.Laws.InOrder.{accepted_in_order}
use qwen_harness_bridge.Outbox.Laws.Places.{IsWaiting, Occupies}
use mathlib.Core.List.{Perm}
use qwen_harness_bridge.Outbox.Materialize.{materialize_server_message}
use qwen_harness_bridge.Outbox.History.Once.{accepted_once}
use mathlib.Core.Option
use qwen_harness_bridge.Outbox.Profile.{
  body_type, durable_receipts, includes, is_coordinated, is_durable, job_coordination, job_of,
  locked_job, offered_capabilities,
}
use qwen_harness_bridge.Outbox.Admission.{admit, admit_body, client_row, store_client_message}
use qwen_harness_bridge.Outbox.Business.{
  ack_business, acknowledge_messages, apply_business, is_historical_claim, settle, sync_business,
}
use qwen_harness_bridge.Outbox.Answer.{
  ack_type, answer, answer_ack, answer_done, answer_hello, answer_rejection, answer_sync, code_text,
  consume_row, next_capabilities, respond, server_capabilities, state_of, welcome, with_receipt,
}
use qwen_harness_bridge.Outbox.Claim.{
  claim_input, claim_matched, claim_offered_job, connector_source, matches_offer, offer_row,
  withdrawn_claim,
}
use qwen_harness_bridge.Outbox.Ingest.{
  event_current_stage, event_input, event_job_row, has_usable_terminal_summary, ingest_ended_event,
  ingest_job_event, ingest_live_event, is_one_of, other_status_for_event, same_status!,
  status_for_event, terminal_status_for_event,
}
use qwen_harness_bridge.Outbox.History.{commit}
use qwen_harness_bridge.Outbox.Duplicates.{
  answers_hello, answers_other, answers_sync, find_original_response, is_exact_duplicate,
  is_faithful, is_original, is_rejection, original_at, payload_type, refresh_server_message,
  refreshed, validate_response,
}
use qwen_harness_bridge.Outbox.Repeats.{
  accept_duplicate, may_repeat, refresh_heartbeat, renew, renew_first, renew_receipt,
  repeat_payload, repeat_stored,
}
use qwen_harness_bridge.Outbox.Payloads.{same_receipt, same_state, same_texts}
use qwen_harness_bridge.Outbox.Answer.{Acceptance}
use qwen_harness_bridge.Prelude.{take, Option, ok, Chosen, IsSorted, map}
use qwen_harness_bridge.Outbox.Laws.Dispatched.{dispatch_within_limits}
use mathlib.Core.List.{Mem}
use qwen_harness_bridge.Outbox.Replay.{
  enqueue_for, enqueue_server, job_of_message, needs_tombstone, pending_server_messages,
  refresh_health, refresh_row, replace_candidate, replace_candidates, replay_pending, replay_rows,
  tombstone_candidates, tombstone_replay_batch,
}
use qwen_harness_bridge.Outbox.{
  any_passed, assert_deadlines, assert_updated, authority_changed_message,
  authority_unavailable_message, business_expired_message, business_limit_message,
  checked_job_increment, claim_rejected_message, conflict, is_authorized, limit_reached,
  lock_client_job, lock_connector, validate_connector, StoreOutcome, Option, ok, StoreError,
}
use qwen_harness_bridge.Outbox.Messages.{
  append_job_event, cancelled_tombstone_payload, enqueue_server_message, expired_tombstone_payload,
  is_client_message, is_offer_of, is_replaced, is_server_sequence, is_taken, job_offer, payload_job,
  payload_lease, protocol_error, remember_original_response, replace_server_message, server_row,
  stored_response, tombstone, with_response, withdraw_cancelled_offer,
}
use qwen_harness_bridge.Database.Tables.{
  find_approval, find_connector, find_idempotency, max_sequence, update_job,
}
use qwen_harness_bridge.Prelude.{any, modify, select, ◌<◌, suc, min}
use qwen_harness_bridge.Repository.Queries.{
  created_after, ends_before, events_of, get_connector_health, get_job, get_pending_approval,
  insert_row, is_pending, later_event, list_jobs, list_pending_approvals, listed, listed_before,
  order_by, pending_rows, read_events, same_status, validate_limit,
}
use qwen_harness_bridge.Text.{is_space, text_eq, to_lower_case, trim, trim_start}
use qwen_harness_bridge.JobState.{
  assert_transition, can_transition, dispatched, running, succeeded, JobStatus,
}
use qwen_harness_bridge.Outbox.Dispatch.{
  accepted_before, active_count, dispatch_found, dispatch_input, dispatch_locked, dispatch_next,
  dispatch_row, is_active_job, is_enabled_policy, locked_row, next_job, offer_job, picked_job,
  write_offer,
}
use qwen_harness_bridge.Outbox.Offers.{
  has_expired_original_offer, has_original_offer, is_dispatch_event, job_dispatched,
  job_redispatched, only_proof,
}
use qwen_harness_bridge.Repository.Commands.{
  append_event, command_type_text, control_plane, enqueue_server_command, expiry_error,
  next_event_sequence,
}
use qwen_harness_bridge.Repository.{
  command_expires_at, is_blank, status_text, to_job_record, validate_event,
}
use qwen_harness_bridge.Repository.Cancel.{
  cancel_current, cancel_reason, cancel_row, is_immediate, is_settled, job_cancelled,
  job_cancelling, notify_cancel, owned_by, user_requested,
}
use qwen_harness_bridge.Json.{as_record, as_string, coalesce, get, items, safe_natural}
use qwen_harness_bridge.Outbox.Accept.{accept, accept_locked, accept_new, consumed, is_message}
use qwen_harness_bridge.Outbox.Laws.Replayed.{pending_in_order, IsReplayable, place}
use qwen_harness_bridge.Repository.History.{cancels}
use qwen_harness_bridge.Repository.Progress.Calls.{cancel-IsSafe}
use qwen_harness_bridge.Outbox.Replay.{earlier_sequence, is_after_sequence}
use qwen_harness_bridge.Outbox.Laws.{repeat_keeps_jobs}
use qwen_harness_bridge.JobState.{queued, is_terminal, cancelled}
use qwen_harness_bridge.Outbox.History.Reached.{
  commit_all-IsValid, Follows, commit_all-Follows, end_is_final,
}
use qwen_harness_bridge.Repository.Cancel.{cancel_atomically}
use qwen_harness_bridge.Repository.Examples.{
  start, clock, job, cancellation_of, fresh_ids, start-IsValid, lease, connector,
}
use qwen_harness_bridge.Text.{units}
use qwen_harness_bridge.Outbox.Dispatch.{may_dispatch, eligible_policies}
use qwen_harness_bridge.Outbox.Accept.{accept_client_message}
use qwen_harness_bridge.Outbox.History.{
  Act, commit_all, Transaction, accepts, replays, calls, refreshes, dispatches,
}
use qwen_harness_bridge.Database.Tables.{find_job}
use qwen_harness_bridge.Outbox.{
  ConnectorIdentity, Filters, units, ClientBody, true, heartbeat, ClientMessage, err, claim, false,
  store_error, client_sequence_gap, job_event, Bool,
}
use qwen_harness_bridge.Json.{Fields, field, string, end}
use qwen_harness_bridge.Repository.Invariant.{IsValid, sequences, server_sequences}
use qwen_harness_bridge.Database.{
  Key, Database, JobRow, PolicyRow, ConnectorMessageRow, server, client, cancel_command,
  offer_payload, ConnectorRow,
}
use qwen_harness_bridge.Outbox.Messages.{Supply}
use qwen_harness_bridge.Prelude.{
  ℕ, ◌≡◌, none, some, [], ◌∷◌, List, length, true, find, ◌≤◌, err, false, refl, ◌+◌, ◌*◌, arith,
  ◌++◌, Bool, ◌&&◌, ◌⊎◌,
}

abbrev pub identity : ConnectorIdentity
identity = record { owner_id = 3; connector_id = 7; protocol_version = units "1.0" }

abbrev pub filters : Filters
filters = record {
  sanitize_connector_text = λ t n. t;
  sanitize_connector_event_payload = λ fields. fields;
  stored_payload = λ body. 77;
}

abbrev pub supply : ℕ → Supply
supply n = record { clock = clock; ids = λ k. fresh_ids (n + 10 * k) }

abbrev pub message : ℕ → Key → ClientBody → ClientMessage
message n id body = record {
  message_id = id;
  sequence = n;
  sent_at = 900;
  expires_at = 30000;
  correlation_id = 40;
  body = body;
}

abbrev pub policy : PolicyRow
policy = record { id = 20; owner_id = 3; max_concurrency = 1; enabled = true }

abbrev pub queued_job : JobRow
queued_job = record job {
  status = queued;
  connector_id = none;
  lease_id = none;
  lease_expires_at = none;
}

abbrev pub queue : Database
queue = record start { jobs = queued_job ∷ []; repository_policies = policy ∷ [] }

abbrev pub waiting_message : ConnectorMessageRow
waiting_message = record {
  connector_id = 7;
  direction = server;
  sequence = 1;
  message_id = 60;
  type = units "job.cancel";
  payload = cancel_command 1 1 1 (units "late") 61;
  correlation_id = 62;
  expires_at = 5000;
  acknowledged_at = none;
  created_at = 0;
}

abbrev pub received_message : ConnectorMessageRow
received_message = record waiting_message {
  direction = client;
  message_id = 501;
  type = units "connector.heartbeat";
}

abbrev pub sent : Database
sent = record start { connector_messages = waiting_message ∷ [] }

abbrev pub received : Database
received = record start { connector_messages = received_message ∷ [] }

abbrev pub step_at : ℕ → Act → Transaction
step_at n a = record { act = a; supply = supply n }

abbrev pub report : Fields
report = field "status" (string (units "succeeded")) end

abbrev pub work : List Transaction
work =
    step_at 100 (accepts filters identity (message 1 501 (claim 1 1 lease)))
    ∷ step_at 200 (
        accepts filters identity
          (message 2 502 (job_event 1 1 (units "done") report (units "harness"))))
    ∷ step_at 300 (
        accepts filters identity
          (message 2 502 (job_event 1 1 (units "done") report (units "harness"))))
    ∷ step_at 400 (replays identity 0)
    ∷ step_at 500 (calls (cancels (cancellation_of 3)))
    ∷ step_at 600 (refreshes 50000)
    ∷ step_at 700 (dispatches identity lease (λ k. false))
    ∷ []

commit_all-IsValid_example : IsValid (commit_all work start)
commit_all-IsValid_example = commit_all-IsValid work start start-IsValid

commit_all-Follows_example :
    (k : JobRow) × (find_job 1 (commit_all work start) ≡ some k) × Follows job k
unfolding find_job find
commit_all-Follows_example = commit_all-Follows work start 1 job start-IsValid refl

abbrev pub ended : Database
ended = (cancel_atomically (cancellation_of 1) clock (fresh_ids 600) queue).1

pub queue-IsValid : IsValid queue
unfolding find_job find is_terminal sequences server_sequences
queue-IsValid = record { jobs = λ id j h. ground arith; events = λ id. tt; messages = λ id c h. tt }

end_is_final_example :
    (k : JobRow) × (find_job 1 (commit_all work ended) ≡ some k)
    × (k.status ≡ cancelled)
    × (k.revision ≡ 2)
    × (k.terminal_at ≡ some 1000)
    × (false ≡ true → k.acknowledged_at ≡ none)
unfolding user_requested cancel_reason owned_by is_immediate is_settled cancel_row job_cancelled
    job_cancelling notify_cancel cancel_current cancel_atomically command_type_text expiry_error
    enqueue_server_command next_event_sequence control_plane append_event to_job_record status_text
    is_blank validate_event command_expires_at find_job update_job find_connector find_approval
    find_idempotency max_sequence find modify any select text_eq is_space trim_start trim
    to_lower_case can_transition is_terminal assert_transition safe_natural get coalesce as_record
    as_string items
end_is_final_example =
    end_is_final work ended 1 _
      ((cancel-IsSafe (cancellation_of 1) clock (fresh_ids 600) queue).valid queue-IsValid) refl
      refl

dispatch_within_limits_example :
    (j : JobRow) × (p : PolicyRow) × (busy : List JobRow) × (k : JobRow) × (find_job j.id queue
      ≡ some j)
    × ((j.owner_id ≡ 3) × (1000 < j.expires_at) × (1002 < j.expires_at) × IsWaiting 1000 j)
    × ((p.id ≡ j.repository_id)
        × (p.owner_id ≡ 3)
        × (p.enabled ≡ true)
        × Mem p queue.repository_policies)
    × (Chosen (Occupies 3 p.id 1000) queue.jobs busy × (length busy < p.max_concurrency))
    × (find_job j.id (dispatch_next identity lease (λ i. false) (supply 800) queue).1 ≡ some k)
    × ((k.status ≡ dispatched)
        × (k.connector_id ≡ some 7)
        × (k.lease_id ≡ some lease)
        × (k.lease_expires_at ≡ some 31001)
        × (k.revision ≡ suc j.revision)
        × (k.attempt ≡ j.attempt))
    × (offer_payload 1 1 lease 20 ≡ offer_payload j.id (suc j.attempt) lease j.repository_id)
    × (31001 ≡ min 31001 j.expires_at)
unfolding is_active_job active_count is_enabled_policy eligible_policies may_dispatch
    accepted_before locked_row picked_job next_job dispatch_row dispatch_input write_offer offer_job
    dispatch_found dispatch_locked dispatch_next business_expired_message authority_changed_message
    business_limit_message authority_unavailable_message claim_rejected_message conflict
    limit_reached checked_job_increment validate_connector lock_connector is_authorized
    lock_client_job any_passed assert_deadlines assert_updated is_server_sequence is_taken
    server_row enqueue_server_message append_job_event job_offer protocol_error
    expired_tombstone_payload cancelled_tombstone_payload tombstone payload_job payload_lease
    is_offer_of is_replaced replace_server_message withdraw_cancelled_offer is_client_message
    stored_response with_response remember_original_response job_dispatched job_redispatched
    is_dispatch_event only_proof has_original_offer has_expired_original_offer find_job update_job
    find_connector find_approval find_idempotency max_sequence find modify any select insert_row
    order_by validate_limit get_job same_status listed listed_before list_jobs later_event events_of
    read_events is_pending pending_rows ends_before list_pending_approvals created_after
    get_pending_approval get_connector_health command_type_text expiry_error enqueue_server_command
    next_event_sequence control_plane append_event to_job_record status_text is_blank validate_event
    command_expires_at text_eq is_space trim_start trim to_lower_case can_transition is_terminal
    assert_transition
dispatch_within_limits_example =
    dispatch_within_limits identity lease (λ i. false) (supply 800) queue _ _ refl

pending_in_order_example :
    (rest : List ConnectorMessageRow) × (chosen : List ConnectorMessageRow) × (length
        (waiting_message ∷ [])
      ≤ 100)
    × Chosen (IsReplayable 7 0) (waiting_message ∷ []) chosen
    × Perm ((waiting_message ∷ []) ++ rest) chosen
    × IsSorted (λ m n. m.sequence ≤ n.sequence) ((waiting_message ∷ []) ++ rest)
    × ((length (waiting_message ∷ []) ≡ 100) ⊎ (rest ≡ []))
    × (map place (waiting_message ∷ []) ≡ map place (waiting_message ∷ []))
unfolding is_after_sequence job_of_message needs_tombstone tombstone_candidates replace_candidate
    replace_candidates tombstone_replay_batch replay_rows replay_pending pending_server_messages
    enqueue_for enqueue_server refresh_row refresh_health business_expired_message
    authority_changed_message business_limit_message authority_unavailable_message
    claim_rejected_message conflict limit_reached checked_job_increment validate_connector
    lock_connector is_authorized lock_client_job any_passed assert_deadlines assert_updated
    is_server_sequence is_taken server_row enqueue_server_message append_job_event job_offer
    protocol_error expired_tombstone_payload cancelled_tombstone_payload tombstone payload_job
    payload_lease is_offer_of is_replaced replace_server_message withdraw_cancelled_offer
    is_client_message stored_response with_response remember_original_response find_job update_job
    find_connector find_approval find_idempotency max_sequence find modify any select insert_row
    order_by validate_limit get_job same_status listed listed_before list_jobs later_event events_of
    read_events is_pending pending_rows ends_before list_pending_approvals created_after
    get_pending_approval get_connector_health text_eq is_space trim_start trim to_lower_case
    can_transition is_terminal assert_transition
pending_in_order_example = pending_in_order identity 0 (supply 900) sent sent _ refl

accepted_in_order_example :
    ((e : StoreError) × (accept_client_message filters identity
          (message 1 501 heartbeat)
          (supply 100)
          start
        ≡ (err e, start)))
    ⊎ ((a : Acceptance) × (db' : Database) × (c : ConnectorRow) × (d : ConnectorRow)
        × (accept_client_message filters identity (message 1 501 heartbeat) (supply 100) start
            ≡ (ok a, db'))
        × ((find_connector 7 start ≡ some c) × (c.owner_id ≡ 3) × (1 ≡ suc c.last_client_sequence))
        × ((1000 < (message 1 501 heartbeat).expires_at)
            × (is_durable heartbeat c ≡ true → (message 1 501 heartbeat).expires_at ≤ 61000))
        × (find_connector 7 db' ≡ some d)
        × (d.last_client_sequence ≡ 1))
unfolding consumed accept_new is_message accept_locked accept accept_client_message
    business_expired_message authority_changed_message business_limit_message
    authority_unavailable_message claim_rejected_message conflict limit_reached
    checked_job_increment validate_connector lock_connector is_authorized lock_client_job any_passed
    assert_deadlines assert_updated find_job update_job find_connector find_approval
    find_idempotency max_sequence find modify any select text_eq is_space trim_start trim
    to_lower_case
accepted_in_order_example =
    accepted_in_order filters identity (message 1 501 heartbeat) (supply 100) start refl

repeat_keeps_jobs_example :
    find_job 1
      (accept_client_message filters identity (message 1 501 heartbeat) (supply 100) received).1
    ≡ find_job 1 received
unfolding consumed accept_new is_message accept_locked accept accept_client_message find modify any
    select
repeat_keeps_jobs_example =
    repeat_keeps_jobs filters identity (message 1 501 heartbeat) (supply 100) received
      received_message refl 1
