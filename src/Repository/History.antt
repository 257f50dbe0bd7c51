-- ===== src/Repository/History.antt =====
-- Any sequence of calls of the repository, each with what the database server and the caller supply.
pub mod Reached
pub mod Claims
pub mod Decisions
pub mod Stale
pub mod Creation
pub mod Records
pub mod Final
use qwen_harness_bridge.Repository.Progress.Creation.{create-IsSafe}
use qwen_harness_bridge.Repository.ShortId.{RandomBytes}
use qwen_harness_bridge.Repository.Progress.Decisions.{decision-IsSafe, acknowledge-IsSafe}
use qwen_harness_bridge.Repository.Create.{CreateIdempotentInput, create_idempotent}
use qwen_harness_bridge.Repository.Results.{acknowledge_result}
use qwen_harness_bridge.Repository.Approval.{record_approval_decision, RecordApprovalDecisionInput}
use qwen_harness_bridge.Repository.Claim.{ClaimOfferInput, claim_offer}
use qwen_harness_bridge.Repository.Cancel.{cancel_atomically, CancelJobInput}
use qwen_harness_bridge.Repository.{JobEventInput}
use qwen_harness_bridge.Repository.Transition.{transition_and_append}
use qwen_harness_bridge.Repository.Progress.Calls.{
  IsSafe, transition-IsSafe, cancel-IsSafe, claim-IsSafe,
}
use qwen_harness_bridge.JobState.{JobStatus}
use qwen_harness_bridge.Database.{Key, Database, IdempotencyRow}
use qwen_harness_bridge.Database.Clock.{Clock, FreshIds}
use qwen_harness_bridge.Prelude.{ℕ, ◌≡◌, List, is_some, ◌∷◌, Option, []}

pub data Call : Type 0 where
  transitions : Key → ℕ → JobStatus → JobEventInput → Call
  cancels : CancelJobInput → Call
  claims : Key → ClaimOfferInput → Call
  decides : RecordApprovalDecisionInput → Call
  acknowledges : Key → Key → Call
  creates : CreateIdempotentInput → (ℕ → RandomBytes) → Option IdempotencyRow → Call

pub record Turn : Type 0 where
  pub call : Call
  pub clock : Clock
  pub ids : FreshIds

-- The database after a call, whether it returned or threw.
unfoldable pub serve : Call → Clock → FreshIds → Database → Database
serve (transitions id expected status event) clock ids db =
    (transition_and_append id expected status event clock ids db).1
serve (cancels input) clock ids db = (cancel_atomically input clock ids db).1
serve (claims id input) clock ids db = (claim_offer id input clock ids db).1
serve (decides input) clock ids db = (record_approval_decision input clock ids db).1
serve (acknowledges owner id) clock ids db = (acknowledge_result owner id clock db).1
serve (creates input bytes rival) clock ids db =
    (create_idempotent input bytes rival clock ids db).1

unfoldable pub run : List Turn → Database → Database
run [] db = db
run (t ∷ ts) db = run ts (serve t.call t.clock t.ids db)

pub serve-IsSafe :
    (c : Call) (clock : Clock) (ids : FreshIds) (db : Database) → IsSafe db (serve c clock ids db)
unfolding serve
serve-IsSafe (transitions id expected status event) clock ids db =
    transition-IsSafe id expected status event clock ids db
serve-IsSafe (cancels input) clock ids db = cancel-IsSafe input clock ids db
serve-IsSafe (claims id input) clock ids db = claim-IsSafe id input clock ids db
serve-IsSafe (decides input) clock ids db = decision-IsSafe input clock ids db
serve-IsSafe (acknowledges owner id) clock ids db = acknowledge-IsSafe owner id clock db
serve-IsSafe (creates input bytes rival) clock ids db = create-IsSafe input bytes rival clock ids db
