-- ===== src/Repository/History/Claims.antt =====
-- An attempt of a job is claimed once, and a claim happens in time.
use qwen_harness_bridge.Text.{Text}
use qwen_harness_bridge.Repository.History.Reached.{run-Later}
use qwen_harness_bridge.Repository.Progress.Calls.{claim-IsSafe}
use qwen_harness_bridge.JobState.{dispatched}
use qwen_harness_bridge.Repository.Invariant.Writes.{find_job-update_job}
use qwen_harness_bridge.Repository.Invariant.{IsValid}
use qwen_harness_bridge.Repository.History.{Turn, run, claim-IsSafe}
use qwen_harness_bridge.Repository.Progress.{append_event-keeps}
use qwen_harness_bridge.Repository.Claim.Effects.{Claims, claim_returns}
use qwen_harness_bridge.Database.Tables.{find_job, find_connector}
use qwen_harness_bridge.Repository.{JobRecord, dispatched, Outcome, Text}
use qwen_harness_bridge.Database.Clock.{Clock, FreshIds}
use qwen_harness_bridge.Database.{Key, JobRow, Database, ConnectorRow, Time}
use qwen_harness_bridge.Repository.Claim.{
  claim_offer, claim_row, may_claim, ClaimOfferInput, offers, validate_claim,
}
use qwen_harness_bridge.Prelude.{
  ℕ, ◌≡◌, refl, some, min, List, ◌+◌, ok, ◌∙◌, ◌≤◌, none, arith, subst, ◌<◌, Option,
}

claim_row-fields :
    (input : ClaimOfferInput) (n : ℕ) (clock : Clock) (j : JobRow)
    → let k = claim_row input n clock j in
      (k.attempt ≡ n) × (k.lease_expires_at ≡ some (min (clock.reading 3 + 30000) j.expires_at))
unfolding claim_row
claim_row-fields input n clock j = (refl, refl)

claim_row-id :
    (input : ClaimOfferInput) (n : ℕ) (clock : Clock) (j : JobRow)
    → (claim_row input n clock j).id ≡ j.id
unfolding claim_row
claim_row-id input n clock j = refl

found_after_claim :
    (id : Key) (input : ClaimOfferInput) (clock : Clock) (ids : FreshIds) (db db' : Database)
    (r : JobRecord) (c : Claims id input clock ids db r db')
    → find_job id db' ≡ some (claim_row input c.attempt clock c.current)
found_after_claim id input clock ids db db' r c =
    append_event-keeps id _ c.event_input clock ids _ db' c.appends id
    ∙ ground (
      arith,
      c.found,
      find_job-update_job id id (claim_row input c.attempt clock) db
          (claim_row-id input c.attempt clock),
    )

-- A claim for an attempt that the job has reached already is refused, and changes nothing.
old_attempt :
    (id : Key) (input : ClaimOfferInput) (n : ℕ) (clock : Clock) (ids : FreshIds) (db : Database)
    (k : JobRow)
    → find_job id db ≡ some k
    → validate_claim input ≡ ok n
    → n ≤ k.attempt
    → claim_offer id input clock ids db ≡ (ok none, db)
unfolding claim_offer may_claim offers
old_attempt id input n clock ids db k found valid old = ground arith

-- Once a claim on a valid database has succeeded, no well-formed claim for the same attempt of that job
-- succeeds after any history of calls, from whatever connector and under whatever lease: it answers null
-- and changes nothing.
pub claim_once :
    (id : Key) (input rival : ClaimOfferInput) (clock clock' : Clock) (ids ids' : FreshIds)
    (db db' : Database) (r : JobRecord) (ts : List Turn) (n : ℕ)
    → IsValid db
    → claim_offer id input clock ids db ≡ (ok (some r), db')
    → validate_claim input ≡ ok n
    → validate_claim rival ≡ ok n
    → claim_offer id rival clock' ids' (run ts db') ≡ (ok none, run ts db')
claim_once id input rival clock clock' ids ids' db db' r ts n v h first second =
    let c = claim_returns id input clock ids db db' r h in
    let after = found_after_claim id input clock ids db db' r c in
    let v' : IsValid db' =
      subst (λ (o : Outcome (Option JobRecord)). IsValid o.1) h
        ((claim-IsSafe id input clock ids db).valid v) in
    let (k, found, later) =
      run-Later ts db' id (claim_row input c.attempt clock c.current) v' after in
    old_attempt id rival n clock' ids' (run ts db') k found second (
      ground
        (arith, c.validated, (claim_row-fields input c.attempt clock c.current).0, later.attempts))

-- What the checks before the update establish.
pub record Offered (input : ClaimOfferInput) (n : ℕ) (clock : Clock) (db : Database) (j : JobRow)
    : Type 0 where
  pub connector : ConnectorRow
  pub lease_end : Time
  pub found : find_connector input.connector_id db ≡ some connector
  pub ends : j.lease_expires_at ≡ some lease_end
  pub dispatched_status : j.status ≡ dispatched
  pub addressed : j.connector_id ≡ some input.connector_id
  pub leased : j.lease_id ≡ some input.lease_id
  pub owned : connector.owner_id ≡ j.owner_id
  pub next : n ≡ j.attempt + 1
  pub lease_live : clock.reading 0 < lease_end
  pub job_live : clock.reading 0 < j.expires_at
