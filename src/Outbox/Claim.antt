-- ===== src/Outbox/Claim.antt =====
-- outbox.ts: claimOfferedJob. The job is the one that lockClientJob found, and is locked.
use qwen_harness_bridge.Database.Tables.{update_job}
use qwen_harness_bridge.Outbox.Offers.{has_original_offer}
use qwen_harness_bridge.Repository.{JobEventInput, status_text, max_integer}
use qwen_harness_bridge.Outbox.Messages.{Supply, withdraw_cancelled_offer, append_job_event}
use qwen_harness_bridge.Repository.Claim.{is_dispatched, job_claimed, is_lease}
use qwen_harness_bridge.Text.{Text, units}
use qwen_harness_bridge.JobState.{JobStatus, running, cancelled}
use qwen_harness_bridge.Outbox.{
  ConnectorIdentity, units, Bool, ClientMessage, true, some, false, leb, Result, StoreError, err,
  store_error, guard, not, claim_rejected, business_deadline_expired, max_integer,
  checked_job_increment, ok, conflict,
}
use qwen_harness_bridge.Database.{Time, JobRow, Key, Database, claimed}
use qwen_harness_bridge.Prelude.{
  Bool, Option, Result, err, false, guard, if◌then◌else◌, is_some, leb, ltb, none, not, ok, some,
  true, ℕ, ◌&&◌, ◌+◌, ◌==◌, ◌>>=◌, ◌>>◌, ◌||◌,
}

pub data ClaimResult : Type 0 where
  offer_claimed offer_cancelled : ClaimResult

abbrev pub is_cancelled : JobStatus → Bool
is_cancelled cancelled = true
is_cancelled _ = false

-- In the source 2147483647 + 1 is written out as 2147483648.
unfoldable pub withdrawn_claim : JobRow → ℕ → Text → Time → Bool
withdrawn_claim job attempt lease now =
    is_cancelled job.status
    && ltb now job.expires_at
    && is_lease job.lease_id lease
    && (attempt == job.attempt + 1)

unfoldable pub matches_offer : JobRow → ℕ → Text → Bool
matches_offer job attempt lease =
    is_dispatched job.status
    && is_lease job.lease_id lease
    && is_some job.lease_expires_at
    && (attempt == job.attempt + 1)

unfoldable pub offer_row : ℕ → Time → JobRow → JobRow
offer_row attempt now job = record job {
  status = running;
  current_stage = status_text running;
  attempt = attempt;
  revision = job.revision + 1;
  updated_at = now;
}

abbrev pub lease_passed : Option Time → Time → Bool
lease_passed none now = true
lease_passed (some t) now = leb t now

unfoldable pub connector_source : Text
connector_source = units "connector"

unfoldable pub claim_input : ConnectorIdentity → ClientMessage → ℕ → JobEventInput
claim_input identity message attempt = record {
  type = job_claimed;
  payload = claimed identity.connector_id attempt;
  source = some connector_source;
  message_id = some message.message_id;
  correlation_id = some message.correlation_id;
}

-- The readings 1 to 3 are those of the update, 4 is the one after it.
unfoldable pub claim_matched :
    ConnectorIdentity
    → ClientMessage
    → ℕ
    → JobRow
    → Bool
    → Bool
    → Supply
    → Database
    → Result StoreError (ClaimResult × Database)
claim_matched identity message attempt job durable proven_limit s db = do
  let now = s.clock.reading 0
  guard (not (lease_passed job.lease_expires_at now || leb job.expires_at now))
      (business_deadline_expired claim_rejected)
  next_attempt ← checked_job_increment job.attempt proven_limit claim_rejected
  next_revision ← checked_job_increment job.revision proven_limit claim_rejected
  let passed =
      lease_passed job.lease_expires_at (s.clock.reading 4)
      || leb job.expires_at (s.clock.reading 4)
  guard
      (not (lease_passed job.lease_expires_at (s.clock.reading 1))
        && ltb (s.clock.reading 2) job.expires_at
        && ltb (s.clock.reading 3) message.expires_at)
      (if passed then business_deadline_expired claim_rejected else store_error claim_rejected)
  db' ←
      append_job_event job.id (claim_input identity message attempt) s 0
        (update_job job.id (offer_row attempt now) db)
  guard (not (durable && passed)) (business_deadline_expired claim_rejected)
  ok (offer_claimed, db')

unfoldable pub claim_offered_job :
    ConnectorIdentity
    → ClientMessage
    → Key
    → ℕ
    → Text
    → Option JobRow
    → Bool
    → Bool
    → Supply
    → Database
    → Result StoreError (ClaimResult × Database)
claim_offered_job identity message job_id attempt lease none durable coordination s db =
    err (store_error claim_rejected)
claim_offered_job identity message job_id attempt lease (some job) durable coordination s db =
    let proven = has_original_offer db identity job_id attempt (some lease) in
    let exhausted = (job.revision == max_integer) || (job.attempt == max_integer) in
    let withdraw : Result StoreError (ClaimResult × Database) = do
      db' ← withdraw_cancelled_offer identity.connector_id job.id lease (s.clock.reading 0) s 1 db
      ok (offer_cancelled, db')
    in if withdrawn_claim job attempt lease (s.clock.reading 0)
      then withdraw
      else if matches_offer job attempt lease
      then claim_matched identity message attempt job durable (coordination && exhausted && proven)
          s db
      else err (conflict (coordination && proven) claim_rejected)
