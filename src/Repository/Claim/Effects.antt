-- ===== src/Repository/Claim/Effects.antt =====
-- What claimOffer did, from what it answered.
use qwen_harness_bridge.Repository.Commands.{append_event, next_event_sequence}
use qwen_harness_bridge.Database.Tables.{find_job, update_job}
use qwen_harness_bridge.Repository.{JobRecord, fits_integer, JobEventInput, to_job_record}
use qwen_harness_bridge.Database.Clock.{Clock, FreshIds}
use qwen_harness_bridge.Database.{Key, Database, JobRow}
use qwen_harness_bridge.Repository.Claim.{
  claim_offer, ClaimOfferInput, claim_current, Clock, JobRecord, validate_claim, find_job,
  may_claim, claim_event, append_event, next_event_sequence, claim_row,
}
use qwen_harness_bridge.Prelude.{
  ℕ, ◌≡◌, ok, some, none, arith, Option-cases, inl, inr, true, Result-cases, ◌+◌,
}

pub record Claims (job_id : Key) (input : ClaimOfferInput) (clock : Clock) (ids : FreshIds)
    (db : Database) (r : JobRecord) (db' : Database) : Type 0 where
  pub attempt : ℕ
  pub current : JobRow
  pub validated : validate_claim input ≡ ok attempt
  pub found : find_job job_id db ≡ some current
  pub allowed : may_claim input attempt current clock db ≡ true
  pub room : fits_integer (current.revision + 1) ≡ true
  pub event_input : JobEventInput
  pub appends :
      append_event job_id
        (next_event_sequence (update_job job_id (claim_row input attempt clock) db) job_id)
        event_input
        clock
        ids
        (update_job job_id (claim_row input attempt clock) db)
      ≡ ok db'
  pub answers : r ≡ to_job_record (claim_row input attempt clock current)

pub claim_returns :
    (job_id : Key) (input : ClaimOfferInput) (clock : Clock) (ids : FreshIds) (db db' : Database)
    (r : JobRecord)
    → claim_offer job_id input clock ids db ≡ (ok (some r), db')
    → Claims job_id input clock ids db r db'
unfolding claim_offer claim_current
claim_returns job_id input clock ids db db' r h = elim (Option-cases (find_job job_id db)) [
  | inl missing ↦ absurd (ground arith)
  | inr (current, found) ↦ elim (Result-cases (validate_claim input)) [
    | inr (x, e) ↦ absurd (ground arith)
    | inl (attempt, e) ↦ record {
      attempt = attempt;
      current = current;
      validated = e;
      found = found;
      allowed = ground arith;
      room = ground arith;
      event_input = claim_event input attempt;
      appends = ground arith;
      answers = ground arith;
    }
  ]
]

pub claim_none_keeps :
    (job_id : Key) (input : ClaimOfferInput) (clock : Clock) (ids : FreshIds) (db db' : Database)
    → claim_offer job_id input clock ids db ≡ (ok none, db')
    → db' ≡ db
unfolding claim_offer claim_current
claim_none_keeps job_id input clock ids db db' h = ground arith
