-- ===== src/Repository/Claim.antt =====
-- job-repository.ts: validateClaim and claimOffer.
pub mod Effects
use qwen_harness_bridge.Prelude.{
  ℕ, zero, suc, ◌+◌, ◌&&◌, ◌||◌, Bool, true, false, Option, none, some, Result, ok, leb, ltb, ◌==◌,
  min, if◌then◌else◌, guard, ◌>>◌, ◌>>=◌, or_throw, List, [], ◌∷◌,
}
use qwen_harness_bridge.Text.{Text, units, text_eq}
use qwen_harness_bridge.Json.{Number, safe_natural}
use qwen_harness_bridge.JobState.{JobStatus, dispatched, running}
use qwen_harness_bridge.Database.{Key, Time, Database, JobRow, ConnectorRow, claimed}
use qwen_harness_bridge.Database.Tables.{find_job, update_job, find_connector}
use qwen_harness_bridge.Database.Clock.{Clock, FreshIds}
use qwen_harness_bridge.Repository.{
  Error, Outcome, transaction, invalid_attempt, invalid_lease_id, integer_out_of_range,
  fits_integer, JobRecord, to_job_record, status_text, JobEventInput,
}
use qwen_harness_bridge.Repository.Commands.{append_event, next_event_sequence}

pub record ClaimOfferInput : Type 0 where
  pub connector_id : Key
  pub attempt : Number
  pub lease_id : Text

abbrev between : ℕ → ℕ → ℕ → Bool
between lo c hi = leb lo c && leb c hi

-- [0-9a-f] under the flag i.
is_hex : ℕ → Bool
is_hex c = between b'0' c b'9' || between b'a' c b'f' || between b'A' c b'F'

-- [89ab] under the flag i.
is_variant : ℕ → Bool
is_variant c =
    (c == b'8') || (c == b'9') || (c == b'a') || (c == b'b') || (c == b'A') || (c == b'B')

hex_run : ℕ → List (ℕ → Bool) → List (ℕ → Bool)
hex_run zero rest = rest
hex_run (suc n) rest = is_hex ∷ hex_run n rest

-- One test for each place of a text that UUID_PATTERN accepts.
uuid_places : List (ℕ → Bool)
unfolding hex_run
uuid_places = hex_run 8 (
    is_dash
    ∷ hex_run 4 (
        is_dash
        ∷ (λ c. between b'1' c b'8')
        ∷ hex_run 3 (is_dash ∷ is_variant ∷ hex_run 3 (is_dash ∷ hex_run 12 []))))
  where
    is_dash : ℕ → Bool
    is_dash c = c == b'-'

matches_places : List (ℕ → Bool) → Text → Bool
matches_places [] [] = true
matches_places (p ∷ ps) (c ∷ cs) = p c && matches_places ps cs
matches_places _ _ = false

unfoldable pub is_uuid : Text → Bool
unfolding uuid_places matches_places is_hex is_variant
is_uuid = matches_places uuid_places

abbrev at_least_one : Option ℕ → Option ℕ
at_least_one none = none
at_least_one (some n) = if leb 1 n then some n else none

-- The attempt, as a positive safe integer.
unfoldable pub validate_claim : ClaimOfferInput → Result Error ℕ
validate_claim input = do
  attempt ← or_throw (at_least_one (safe_natural input.attempt)) invalid_attempt
  guard (is_uuid input.lease_id) invalid_lease_id
  ok attempt

abbrev pub is_dispatched : JobStatus → Bool
is_dispatched dispatched = true
is_dispatched _ = false

abbrev pub is_key : Option Key → Key → Bool
is_key none k = false
is_key (some j) k = j == k

abbrev pub is_lease : Option Text → Text → Bool
is_lease none t = false
is_lease (some s) t = text_eq s t

-- `time > clock_timestamp()`, false on null.
abbrev pub is_after : Option Time → Time → Bool
is_after none now = false
is_after (some t) now = ltb now t

-- The offer that the connector was sent is the one that it claims.
unfoldable pub offers : ClaimOfferInput → ℕ → JobRow → Bool
offers input attempt job =
    is_dispatched job.status
    && is_key job.connector_id input.connector_id
    && is_lease job.lease_id input.lease_id
    && (attempt == job.attempt + 1)

unfoldable pub claim_row : ClaimOfferInput → ℕ → Clock → JobRow → JobRow
claim_row input attempt clock job = record job {
  status = running;
  current_stage = status_text running;
  connector_id = some input.connector_id;
  attempt = attempt;
  lease_id = some input.lease_id;
  lease_expires_at = some (min (clock.reading 3 + 30000) job.expires_at);
  revision = job.revision + 1;
  updated_at = clock.now;
}

unfoldable pub job_claimed : Text
job_claimed = units "job.claimed"

claim_event : ClaimOfferInput → ℕ → JobEventInput
claim_event input attempt = record {
  type = job_claimed;
  payload = claimed input.connector_id attempt;
  source = none;
  message_id = none;
  correlation_id = none;
}

-- The row is locked: its columns still have the values that were read, only the clock has moved.
unfoldable pub claim_current :
    Key
    → ClaimOfferInput
    → ℕ
    → JobRow
    → Clock
    → FreshIds
    → Database
    → Result Error (Option JobRecord × Database)
unfolding claim_event
claim_current job_id input attempt current clock ids db =
    let claimed_result : Result Error (Option JobRecord × Database) = do
      guard (fits_integer (current.revision + 1) && fits_integer attempt) integer_out_of_range
      let row = claim_row input attempt clock
      let moved = update_job job_id row db
      db' ←
          append_event job_id (next_event_sequence moved job_id) (claim_event input attempt) clock
            ids moved
      ok (some (to_job_record (row current)), db')
    in if offers input attempt current
        && is_after current.lease_expires_at (clock.reading 1)
        && ltb (clock.reading 2) current.expires_at
      then claimed_result
      else ok (none, db)

owner_matches : Option ConnectorRow → Key → Bool
owner_matches none owner = false
owner_matches (some c) owner = c.owner_id == owner

-- What is checked before the update: the offer, the connector's owner, and both deadlines.
unfoldable pub may_claim : ClaimOfferInput → ℕ → JobRow → Clock → Database → Bool
unfolding owner_matches
may_claim input attempt job clock db =
    offers input attempt job
    && owner_matches (find_connector input.connector_id db) job.owner_id
    && is_after job.lease_expires_at (clock.reading 0)
    && ltb (clock.reading 0) job.expires_at

claim_found :
    Key
    → ClaimOfferInput
    → ℕ
    → Option JobRow
    → Clock
    → FreshIds
    → Database
    → Result Error (Option JobRecord × Database)
claim_found job_id input attempt none clock ids db = ok (none, db)
claim_found job_id input attempt (some current) clock ids db =
    if may_claim input attempt current clock db
    then claim_current job_id input attempt current clock ids db
    else ok (none, db)

unfoldable pub claim_offer :
    Key → ClaimOfferInput → Clock → FreshIds → Database → Outcome (Option JobRecord)
unfolding claim_found
claim_offer job_id input clock ids db = transaction db do
  attempt ← validate_claim input
  claim_found job_id input attempt (find_job job_id db) clock ids db
