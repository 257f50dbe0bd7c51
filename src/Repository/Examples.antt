-- ===== src/Repository/Examples.antt =====
-- A job on its way through the repository: dispatched, claimed, waiting for approval, decided.
mod Histories
mod Calls
use qwen_harness_bridge.Repository.Queries.{
  list_jobs, ListJobsInput, validate_limit, listed_before, listed, order_by, insert_row,
}
use qwen_harness_bridge.Repository.History.Creation.{create_again}
use qwen_harness_bridge.Repository.History.Stale.{revision_used_once, transition_moves}
use qwen_harness_bridge.JobState.Diagram.{◌⟶◌, assert_transition-edge, ◌⟶*◌, terminal_absorbs}
use qwen_harness_bridge.Repository.ShortId.Laws.{read_bits, new_short_id-valid}
use qwen_harness_bridge.Repository.History.Final.{decision_stays, Granted}
use qwen_harness_bridge.Repository.Cancel.Laws.{cancel_again, SendsCancel}
use qwen_harness_bridge.Repository.Approval.Effects.{Repeats}
use qwen_harness_bridge.Repository.History.Claims.{claim_once, Offered}
use qwen_harness_bridge.JobState.{
  waiting_approval, is_terminal, dispatched, assert_transition, succeeded, cancelled, failed,
  running, queued, JobStatus, cancelling, can_transition,
}
use qwen_harness_bridge.Repository.History.Reached.{run-IsValid, Later, run-Later}
use qwen_harness_bridge.Repository.Commands.{
  append_event, command_type_text, expiry_error, enqueue_server_command, next_event_sequence,
  control_plane,
}
use qwen_harness_bridge.Json.{natural, end, safe_natural, get, coalesce, as_record, as_string}
use qwen_harness_bridge.Repository.Transition.{
  transition_and_append, event_stage, end_job, transition_row,
}
use qwen_harness_bridge.Database.Tables.{
  find_job, update_job, find_approval, find_connector, find_idempotency, max_sequence,
}
use qwen_harness_bridge.Repository.{
  JobEventInput, units, waiting_approval, JobRecord, to_job_record, idempotency_conflict,
  revision_conflict, trim, status_text, is_blank, validate_event, command_expires_at,
}
use qwen_harness_bridge.Repository.Create.{
  CreateIdempotentInput, create_idempotent, inserted_job, free_short_id, create_job, original_job,
  delete_job, commit_rival, register_job, create_new, create_body,
}
use qwen_harness_bridge.Repository.Approval.{
  approval_decided, RecordApprovalDecisionInput, ApprovalRecord, record_approval_decision, repeats,
  matches_job, decide_row, record_decision, record_expired, decide, store_approval,
  approval_decided, decided_event, announce, decide_locked, decision_time, decide_body,
  throw_expired,
}
use qwen_harness_bridge.Repository.Cancel.{
  CancelJobInput, cancel_atomically, is_immediate, user_requested, cancel_reason, owned_by,
  is_settled, cancel_row, job_cancelled, job_cancelling, notify_cancel, cancel_current,
}
use qwen_harness_bridge.Text.{Text, units, text_eq, is_space, trim_start, trim}
use qwen_harness_bridge.Repository.History.{
  Call, run, Turn, claims, transitions, decides, cancels, serve,
}
use qwen_harness_bridge.Database.Clock.{Clock, FreshIds}
use qwen_harness_bridge.Repository.Invariant.{IsValid, sequences, server_sequences}
use qwen_harness_bridge.Repository.Claim.{
  claim_offer, ClaimOfferInput, claim_current, validate_claim, is_uuid, may_claim, offers,
  claim_row, job_claimed,
}
use qwen_harness_bridge.Database.{
  Database, ConnectorRow, ApprovalRow, JobRow, approve, fresh, given, normal,
}
use qwen_harness_bridge.Repository.ShortId.{
  RandomBytes, is_short_job_id, new_short_id, random_bits, crockford_base32_alphabet, suffix_digit,
}
use qwen_harness_bridge.Prelude.{
  ℕ, ◌≡◌, List, ◌+◌, ◌∷◌, find, none, [], some, refl, false, ok, arith, true, err, min, ◌↔◌, ◌⊎◌,
  suc, length, any, modify, ◌≤◌, map, ◌++◌, Bool, ◌&&◌, select,
}

abbrev pub clock : Clock
clock = record { now = 1000; reading = λ n. 1000 + n }

abbrev pub fresh_ids : ℕ → FreshIds
fresh_ids n = record {
  job = n;
  event = n + 1;
  event_message = n + 2;
  event_correlation = n + 3;
  command_message = n + 4;
  command_correlation = n + 5;
  nonce = n + 6;
}

abbrev pub lease : Text
lease = units "0189aabb-ccdd-4eef-8123-456789abcdef"

abbrev pub job : JobRow
job = record {
  id = 1;
  short_id = units "QH-0001";
  owner_id = 3;
  connector_id = some 7;
  repository_id = 20;
  request_ciphertext = some 21;
  request_digest = 22;
  mode = normal;
  status = dispatched;
  current_stage = units "dispatched";
  revision = 1;
  cancel_revision = none;
  attempt = 0;
  lease_id = some lease;
  lease_expires_at = some 100000;
  harness_agent_id = none;
  harness_session_id = none;
  title = none;
  summary = none;
  unread_terminal = false;
  acknowledged_at = none;
  accepted_at = 0;
  expires_at = 200000;
  request_delete_at = none;
  retention_delete_at = 300000;
  terminal_at = none;
  created_at = 0;
  updated_at = 0;
}

abbrev pub approval : ApprovalRow
approval = record {
  id = 5;
  job_id = 1;
  attempt = 1;
  job_revision = 3;
  action_summary = units "push";
  impact_summary = units "remote";
  action_fingerprint = 23;
  risk_class = units "APPROVAL";
  expires_at = 90000;
  decision = none;
  decided_at = none;
  created_at = 0;
  updated_at = 0;
}

abbrev pub connector : ConnectorRow
connector = record {
  id = 7;
  owner_id = 3;
  capabilities = [];
  protocol_version = units "1.0";
  health = fresh;
  last_server_sequence = 0;
  last_client_sequence = 0;
  last_heartbeat_at = none;
  updated_at = 0;
}

abbrev pub start : Database
start = record {
  jobs = job ∷ [];
  job_events = [];
  approvals = approval ∷ [];
  idempotency_records = [];
  connectors = connector ∷ [];
  connector_messages = [];
  repository_policies = [];
}

pub start-IsValid : IsValid start
unfolding find_job find is_terminal sequences server_sequences
start-IsValid = record { jobs = λ id j h. ground arith; events = λ id. tt; messages = λ id c h. tt }

abbrev pub offer : ClaimOfferInput
offer = record { connector_id = 7; attempt = natural 1; lease_id = lease }

abbrev pub note : JobEventInput
note = record {
  type = units "job.note";
  payload = given end;
  source = none;
  message_id = none;
  correlation_id = none;
}

abbrev pub decision : RecordApprovalDecisionInput
decision = record {
  approval_id = 5;
  decision = approve;
  expected_job_revision = 3;
  owner_id = some 3;
  action_fingerprint = some 23;
  expected_attempt = some 1;
  caller_now = 0;
}

abbrev pub cancellation_of : ℕ → CancelJobInput
cancellation_of revision = record {
  owner_id = 3;
  job_id = 1;
  expected_revision = natural revision;
  reason = none;
}

abbrev pub request : ℕ → CreateIdempotentInput
request digest = record {
  owner_id = 3;
  client_request_id = 9;
  repository_id = 20;
  request_ciphertext = 21;
  request_digest = digest;
  mode = none;
}

abbrev pub random : ℕ → RandomBytes
random n = record { first = 1; second = 2; third = n }

abbrev pub turn : ℕ → Call → Turn
turn n c = record { call = c; clock = clock; ids = fresh_ids n }

abbrev pub story : List Turn
story =
    turn 100 (claims 1 offer)
    ∷ turn 200 (transitions 1 2 waiting_approval note)
    ∷ turn 300 (decides decision)
    ∷ turn 400 (cancels (cancellation_of 3))
    ∷ []

abbrev pub claimed_db : Database
claimed_db = (claim_offer 1 offer clock (fresh_ids 100) start).1

abbrev pub waiting_db : Database
waiting_db = (transition_and_append 1 2 waiting_approval note clock (fresh_ids 200) claimed_db).1

abbrev pub decided_approval : Database
decided_approval = (record_approval_decision decision clock (fresh_ids 300) waiting_db).1

abbrev pub approved : ApprovalRow
approved = record approval { decision = some approve; decided_at = some 1003; updated_at = 1004 }

abbrev pub cancelling_db : Database
cancelling_db = (cancel_atomically (cancellation_of 2) clock (fresh_ids 400) claimed_db).1

abbrev pub running_job : JobRow
running_job = claim_row offer 1 clock job

abbrev pub cancelling_job : JobRow
cancelling_job = cancel_row clock running_job

abbrev pub created : Database
created = (create_idempotent (request 22) random none clock (fresh_ids 900) start).1

abbrev pub all_jobs : ListJobsInput
all_jobs = record { owner_id = 3; status = none; unread_only = false; limit = none }
