-- ===== src/JobState/Diagram.antt =====
-- The transition diagram of a job as a relation, and what can be reached along it.
use qwen_harness_bridge.Prelude.{◌≡◌, refl, ◌↔◌, true, false, ok, arith}
use qwen_harness_bridge.JobState.{
  JobStatus, queued, dispatched, running, waiting_approval, cancelling, succeeded, failed,
  cancelled, expired, can_transition, is_terminal, assert_transition,
}

-- A job that the connector has accepted and not finished.
pub data IsActive : JobStatus → Type 0 where
  running_active : IsActive running
  waiting_active : IsActive waiting_approval
  cancelling_active : IsActive cancelling

infix 40 ◌⟶◌ ◌⟶*◌
pub data ◌⟶◌ : JobStatus → JobStatus → Type 0 where
  dispatch : queued ⟶ dispatched
  claim : dispatched ⟶ running
  ask : running ⟶ waiting_approval
  resume : waiting_approval ⟶ running
  withdraw_queued : queued ⟶ cancelled
  withdraw_dispatched : dispatched ⟶ cancelled
  cancel_running : running ⟶ cancelling
  cancel_waiting : waiting_approval ⟶ cancelling
  cancel_done : cancelling ⟶ cancelled
  succeed_running : running ⟶ succeeded
  succeed_cancelling : cancelling ⟶ succeeded
  fail : {s : JobStatus} → IsActive s → s ⟶ failed
  expire_queued : queued ⟶ expired
  expire_dispatched : dispatched ⟶ expired
  expire : {s : JobStatus} → IsActive s → s ⟶ expired

pub data ◌⟶*◌ : JobStatus → JobStatus → Type 0 where
  here : {s : JobStatus} → s ⟶* s
  then : {s t u : JobStatus} → s ⟶ t → t ⟶* u → s ⟶* u

ruleset edges = (
  dispatch, claim, ask, resume, withdraw_queued, withdraw_dispatched, cancel_running,
  cancel_waiting, cancel_done, succeed_running, succeed_cancelling, fail, expire_queued,
  expire_dispatched, expire, running_active, waiting_active, cancelling_active,
)

pub can_transition-edge : (s t : JobStatus) → can_transition s t ≡ true → s ⟶ t
unfolding can_transition
can_transition-edge s t h = grind (arith, edges)

IsActive-can :
    {s : JobStatus}
    → IsActive s
    → (can_transition s failed ≡ true) × (can_transition s expired ≡ true)
unfolding can_transition
IsActive-can running_active = (refl, refl)
IsActive-can waiting_active = (refl, refl)
IsActive-can cancelling_active = (refl, refl)

pub edge-can_transition : {s t : JobStatus} → s ⟶ t → can_transition s t ≡ true
unfolding can_transition
edge-can_transition dispatch = refl
edge-can_transition claim = refl
edge-can_transition ask = refl
edge-can_transition resume = refl
edge-can_transition withdraw_queued = refl
edge-can_transition withdraw_dispatched = refl
edge-can_transition cancel_running = refl
edge-can_transition cancel_waiting = refl
edge-can_transition cancel_done = refl
edge-can_transition succeed_running = refl
edge-can_transition succeed_cancelling = refl
edge-can_transition (fail a) = (IsActive-can a).0
edge-can_transition expire_queued = refl
edge-can_transition expire_dispatched = refl
edge-can_transition (expire a) = (IsActive-can a).1

-- `assertTransition` returns for exactly the pairs of states that an edge of the diagram joins.
pub assert_transition-edge : (s t : JobStatus) → (assert_transition s t ≡ ok tt) ↔ (s ⟶ t)
unfolding assert_transition
assert_transition-edge s t =
    (λ h. can_transition-edge s t (ground arith), λ e. ground (arith, edge-can_transition e))

pub edge_not_terminal : (s t : JobStatus) → can_transition s t ≡ true → is_terminal s ≡ false
unfolding can_transition is_terminal
edge_not_terminal s t h = ground arith

terminal_stays : {s t : JobStatus} → s ⟶* t → is_terminal s ≡ true → t ≡ s
terminal_stays here h = refl
terminal_stays (then {s} {t} {u} e r) h =
    absurd (ground (arith, edge_not_terminal s t (edge-can_transition e)))

can_end : (s : JobStatus) → (t : JobStatus) × (is_terminal t ≡ true) × (s ⟶* t)
unfolding is_terminal
can_end queued = (expired, refl, search (here, then, edges))
can_end dispatched = (expired, refl, search (here, then, edges))
can_end running = (expired, refl, search (here, then, edges))
can_end waiting_approval = (expired, refl, search (here, then, edges))
can_end cancelling = (expired, refl, search (here, then, edges))
can_end s = (s, refl, here)

-- A terminal state has no way out: along any path of allowed transitions the job stays in it.
-- From every state some terminal state can be reached along allowed transitions.
pub terminal_absorbs :
    (s : JobStatus)
    → (is_terminal s ≡ true → (t : JobStatus) → s ⟶* t → t ≡ s)
      × ((t : JobStatus) × (is_terminal t ≡ true) × (s ⟶* t))
terminal_absorbs s = (λ h t r. terminal_stays r h, can_end s)
