-- ===== src/Outbox/Business.antt =====
-- outbox.ts: acceptClientMessage, what a message does to its job, and the savepoint around it.
use qwen_harness_bridge.Repository.Claim.{is_lease}
use qwen_harness_bridge.Outbox.Offers.{has_original_offer, has_expired_original_offer}
use qwen_harness_bridge.Outbox.Ingest.{ingest_job_event}
use qwen_harness_bridge.Outbox.Approvals.{resume_delivered_approval, ingest_approval_requested}
use qwen_harness_bridge.Outbox.Cancellations.{ingest_job_cancelled}
use qwen_harness_bridge.Outbox.Messages.{Supply, is_server_sequence}
use qwen_harness_bridge.Outbox.Claim.{ClaimResult, claim_offered_job}
use qwen_harness_bridge.Text.{Text}
use qwen_harness_bridge.Outbox.{
  ClientMessage, Filters, ClientBody, StoreErrorCode, ConnectorIdentity, hello, claim, StoreError,
  err, ack, sync, ok, authorization_failed, business_conflict, guard, false, job_event, store_error,
  claim_rejected, business_deadline_expired, not, heartbeat, business_expired_message,
  approval_requested, job_cancelled, database_error, job_authority_unavailable,
  authority_unavailable_message,
}
use qwen_harness_bridge.Database.{Database, Key, ConnectorMessageRow, JobRow, Time}
use qwen_harness_bridge.Prelude.{
  ℕ, none, some, Result, Option, Bool, modify, err, if◌then◌else◌, ◌&&◌, ok, ◌>>◌, guard, false,
  not,
}

-- update … set acknowledgedAt of the server messages that meet the test.
unfoldable pub acknowledge_messages : (ConnectorMessageRow → Bool) → Time → Database → Database
acknowledge_messages p now db = record db {
  connector_messages =
      modify p (λ m. record m { acknowledged_at = some now }) db.connector_messages;
}

-- The claim of a durable connector whose lease was lost, and whose old offer has run out.
unfoldable pub is_historical_claim :
    ConnectorIdentity → ClientBody → Bool → Option JobRow → Time → Database → Bool
is_historical_claim identity (claim job_id attempt lease) durable job now db =
    durable
    && not (elim job [ none ↦ false | some j ↦ is_lease j.lease_id lease ])
    && has_expired_original_offer db identity job_id attempt lease now
is_historical_claim identity body durable job now db = false

abbrev pub no_claim : Result StoreError Database → Result StoreError (Option ClaimResult × Database)
no_claim (ok db) = ok (none, db)
no_claim (err e) = err e

abbrev pub a_claim :
    Result StoreError (ClaimResult × Database) → Result StoreError (Option ClaimResult × Database)
a_claim (ok (r, db)) = ok (some r, db)
a_claim (err e) = err e

-- A sync of a job that the connector has lost is answered only to one that had its offer.
unfoldable pub sync_business :
    ConnectorIdentity → Key → ℕ → Option JobRow → Database → Result StoreError Database
sync_business identity job_id attempt (some job) db = ok db
sync_business identity job_id attempt none db = do
  guard (has_original_offer db identity job_id attempt none) (store_error authorization_failed)
  err (business_conflict job_authority_unavailable authority_unavailable_message)

unfoldable pub ack_business :
    Key → ℕ → Option ConnectorMessageRow → Supply → Database → Result StoreError Database
ack_business connector_id sequence none s db = ok db
ack_business connector_id sequence (some m) s db =
    resume_delivered_approval m s
      (acknowledge_messages (is_server_sequence connector_id sequence) (s.clock.reading 0) db)

unfoldable pub apply_business :
    Filters
    → ConnectorIdentity
    → ClientMessage
    → ClientBody
    → Option JobRow
    → Option ConnectorMessageRow
    → Bool
    → Bool
    → Supply
    → Database
    → Result StoreError (Option ClaimResult × Database)
apply_business f identity message (claim job_id attempt lease) job acknowledged durable coordination
      s db =
    if is_historical_claim identity (claim job_id attempt lease) durable job (s.clock.reading 0) db
    then err (business_deadline_expired claim_rejected)
    else a_claim
        (claim_offered_job identity message job_id attempt lease job durable coordination s db)
apply_business f identity message (sync job_id attempt nonce) job acknowledged durable coordination
      s db =
    no_claim (sync_business identity job_id attempt job db)
apply_business f identity message (job_event job_id attempt event_type payload source) job
      acknowledged durable coordination s db =
    no_claim (ingest_job_event f message attempt event_type payload source job coordination s db)
apply_business f identity message (approval_requested r) job acknowledged durable coordination s
      db =
    no_claim (ingest_approval_requested f message r job coordination s db)
apply_business f identity message (job_cancelled job_id attempt reason) job acknowledged durable
      coordination s db =
    no_claim (ingest_job_cancelled f message job_id attempt reason job coordination s db)
apply_business f identity message (ack sequence) job acknowledged durable coordination s db =
    no_claim (ack_business identity.connector_id sequence acknowledged s db)
apply_business f identity message heartbeat job acknowledged durable coordination s db =
    ok (none, db)
apply_business f identity message (hello c lc ls caps) job acknowledged durable coordination s db =
    ok (none, db)

-- What the business came to: done, or rejected with its writes undone and the message still consumed.
pub data Business : Type 0 where
  done : Option ClaimResult → Business
  rejected : StoreErrorCode → Text → Business

-- The savepoint of a durable message.
unfoldable pub settle :
    Bool
    → Bool
    → Bool
    → Database
    → Result StoreError (Option ClaimResult × Database)
    → Result StoreError (Business × Database)
settle durable coordination excused db (ok (r, db')) = ok (done r, db')
settle durable coordination excused db (err (business_conflict code text)) =
    if durable && coordination
    then ok (rejected code text, db)
    else err (business_conflict code text)
settle durable coordination excused db (err (business_deadline_expired code)) =
    if durable && excused
    then ok (rejected code business_expired_message, db)
    else err (business_deadline_expired code)
settle durable coordination excused db (err (store_error code)) = err (store_error code)
settle durable coordination excused db (err (database_error e)) = err (database_error e)
