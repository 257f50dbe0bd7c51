-- ===== src/Repository/Progress/Rows.antt =====
-- The four updates of a job row: each keeps the row valid and advances it.
use qwen_harness_bridge.JobState.Diagram.{edge_not_terminal}
use qwen_harness_bridge.Repository.{fits_integer, max_integer}
use qwen_harness_bridge.Repository.Invariant.{JobIsValid}
use qwen_harness_bridge.Repository.Progress.{Advance}
use qwen_harness_bridge.Text.{Text}
use qwen_harness_bridge.Database.{JobRow}
use qwen_harness_bridge.Database.Clock.{Clock}
use qwen_harness_bridge.JobState.{JobStatus, can_transition, is_terminal}
use qwen_harness_bridge.Repository.Cancel.{cancel_row, is_settled}
use qwen_harness_bridge.Repository.Transition.{transition_row}
use qwen_harness_bridge.Repository.Results.{acknowledge_row}
use qwen_harness_bridge.Repository.Claim.{claim_row, ClaimOfferInput, is_dispatched}
use qwen_harness_bridge.Prelude.{ℕ, ◌≡◌, arith, true, false, ◌==◌, ◌+◌}

pub transition_row-id :
    (s : JobStatus) (t : Text) (clock : Clock) (j : JobRow) → (transition_row s t clock j).id ≡ j.id
unfolding transition_row
transition_row-id s t clock j = ground arith

pub transition_row-JobIsValid :
    (s : JobStatus) (t : Text) (clock : Clock) (j : JobRow)
    → can_transition j.status s ≡ true
    → fits_integer (j.revision + 1) ≡ true
    → JobIsValid j
    → JobIsValid (transition_row s t clock j)
unfolding transition_row
transition_row-JobIsValid s t clock j edge fits v =
    ground (arith, edge_not_terminal j.status s edge)

pub transition_row-Advance :
    (s : JobStatus) (t : Text) (clock : Clock) (j : JobRow)
    → can_transition j.status s ≡ true
    → Advance j (transition_row s t clock j)
unfolding transition_row
transition_row-Advance s t clock j edge = ground arith

pub cancel_row-id : (clock : Clock) (j : JobRow) → (cancel_row clock j).id ≡ j.id
unfolding cancel_row
cancel_row-id clock j = ground arith

pub cancel_row-JobIsValid :
    (clock : Clock) (j : JobRow)
    → is_settled j.status ≡ false
    → (j.revision == max_integer) ≡ false
    → JobIsValid j
    → JobIsValid (cancel_row clock j)
unfolding cancel_row is_settled is_terminal
cancel_row-JobIsValid clock j live room v = ground arith

pub cancel_row-Advance :
    (clock : Clock) (j : JobRow) → is_settled j.status ≡ false → Advance j (cancel_row clock j)
unfolding cancel_row is_settled is_terminal can_transition
cancel_row-Advance clock j live = ground arith

pub claim_row-JobIsValid :
    (input : ClaimOfferInput) (n : ℕ) (clock : Clock) (j : JobRow)
    → is_dispatched j.status ≡ true
    → fits_integer (j.revision + 1) ≡ true
    → JobIsValid j
    → JobIsValid (claim_row input n clock j)
unfolding claim_row is_terminal
claim_row-JobIsValid input n clock j sent fits v = ground arith

pub claim_row-Advance :
    (input : ClaimOfferInput) (n : ℕ) (clock : Clock) (j : JobRow)
    → is_dispatched j.status ≡ true
    → n ≡ j.attempt + 1
    → Advance j (claim_row input n clock j)
unfolding claim_row can_transition
claim_row-Advance input n clock j sent next = ground arith

pub acknowledge_row-JobIsValid :
    (clock : Clock) (j : JobRow)
    → is_terminal j.status ≡ true
    → JobIsValid j
    → JobIsValid (acknowledge_row clock j)
unfolding acknowledge_row
acknowledge_row-JobIsValid clock j t v = ground arith

pub acknowledge_row-Advance : (clock : Clock) (j : JobRow) → Advance j (acknowledge_row clock j)
unfolding acknowledge_row
acknowledge_row-Advance clock j = ground arith

pub acknowledge_row-id : (clock : Clock) (j : JobRow) → (acknowledge_row clock j).id ≡ j.id
unfolding acknowledge_row
acknowledge_row-id clock j = ground arith
