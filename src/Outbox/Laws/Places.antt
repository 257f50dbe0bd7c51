-- ===== src/Outbox/Laws/Places.antt =====
-- outbox.ts: dispatchNext, what its conditions on jobs say: which jobs hold a place in a repository,
-- and which may be offered.
use qwen_harness_bridge.Outbox.Ingest.{is_claimed_state}
use qwen_harness_bridge.Repository.Claim.{is_after, is_dispatched}
use qwen_harness_bridge.Outbox.Dispatch.{
  may_dispatch, active_count, is_active_job, is_queued, lapsed,
}
use qwen_harness_bridge.Database.{Key, Time, Database, JobRow, PolicyRow}
use qwen_harness_bridge.JobState.{
  JobStatus, dispatched, queued, running, waiting_approval, cancelling, succeeded, failed,
  cancelled, expired,
}
use qwen_harness_bridge.Prelude.{
  ◌≡◌, none, some, true, Option, List, ◌==◌, ◌<◌, Chosen, ◌≤◌, ◌↔◌, ◌⊎◌, arith, ◌&&◌, length,
  select-Chosen, refl, Bool-cases, inl, inr,
}

-- A job of an owner holds a place in a repository at a time.
pub record Occupies (owner repository : Key) (now : Time) (j : JobRow) : Type 0 where
  pub owned : j.owner_id ≡ owner
  pub placed : j.repository_id ≡ repository
  pub alive : now < j.expires_at
  pub held :
      ((j.status ≡ running) ⊎ (j.status ≡ waiting_approval) ⊎ (j.status ≡ cancelling))
      ⊎ ((j.status ≡ dispatched)
          × ((until : Time) × (j.lease_expires_at ≡ some until) × (now < until)))

-- A job waits in the queue, or its offer has lapsed.
abbrev pub IsWaiting : Time → JobRow → Type 0
IsWaiting now j =
    (j.status ≡ queued)
    ⊎ ((j.status ≡ dispatched)
        × ((until : Time) × (j.lease_expires_at ≡ some until) × (until ≤ now)))

is_claimed_state_iff :
    (s : JobStatus)
    → (is_claimed_state s ≡ true) ↔ ((s ≡ running) ⊎ (s ≡ waiting_approval) ⊎ (s ≡ cancelling))
is_claimed_state_iff running = (λ h. inl refl, λ h. refl)
is_claimed_state_iff waiting_approval = (λ h. inr (inl refl), λ h. refl)
is_claimed_state_iff cancelling = (λ h. inr (inr refl), λ h. refl)
is_claimed_state_iff queued = (λ h. absurd (ground arith), λ h. absurd (ground arith))
is_claimed_state_iff dispatched = (λ h. absurd (ground arith), λ h. absurd (ground arith))
is_claimed_state_iff succeeded = (λ h. absurd (ground arith), λ h. absurd (ground arith))
is_claimed_state_iff failed = (λ h. absurd (ground arith), λ h. absurd (ground arith))
is_claimed_state_iff cancelled = (λ h. absurd (ground arith), λ h. absurd (ground arith))
is_claimed_state_iff expired = (λ h. absurd (ground arith), λ h. absurd (ground arith))

is_dispatched_iff : (s : JobStatus) → (is_dispatched s ≡ true) ↔ (s ≡ dispatched)
is_dispatched_iff dispatched = (λ h. refl, λ h. refl)
is_dispatched_iff queued = (λ h. absurd (ground arith), λ h. absurd (ground arith))
is_dispatched_iff running = (λ h. absurd (ground arith), λ h. absurd (ground arith))
is_dispatched_iff waiting_approval = (λ h. absurd (ground arith), λ h. absurd (ground arith))
is_dispatched_iff cancelling = (λ h. absurd (ground arith), λ h. absurd (ground arith))
is_dispatched_iff succeeded = (λ h. absurd (ground arith), λ h. absurd (ground arith))
is_dispatched_iff failed = (λ h. absurd (ground arith), λ h. absurd (ground arith))
is_dispatched_iff cancelled = (λ h. absurd (ground arith), λ h. absurd (ground arith))
is_dispatched_iff expired = (λ h. absurd (ground arith), λ h. absurd (ground arith))

is_queued-eq : (s : JobStatus) → is_queued s ≡ true → s ≡ queued
is_queued-eq queued h = refl
is_queued-eq dispatched h = absurd (ground arith)
is_queued-eq running h = absurd (ground arith)
is_queued-eq waiting_approval h = absurd (ground arith)
is_queued-eq cancelling h = absurd (ground arith)
is_queued-eq succeeded h = absurd (ground arith)
is_queued-eq failed h = absurd (ground arith)
is_queued-eq cancelled h = absurd (ground arith)
is_queued-eq expired h = absurd (ground arith)

is_after_iff :
    (lease : Option Time) (now : Time)
    → (is_after lease now ≡ true) ↔ ((until : Time) × (lease ≡ some until) × (now < until))
is_after_iff none now = (λ h. absurd (ground arith), λ (t, e, g). absurd (ground arith))
is_after_iff (some t) now = (λ h. (t, refl, ground arith), λ (u, e, g). ground arith)

lapsed-until :
    (lease : Option Time) (now : Time)
    → lapsed lease now ≡ true
    → (until : Time) × (lease ≡ some until) × (until ≤ now)
lapsed-until none now h = absurd (ground arith)
lapsed-until (some t) now h = (t, refl, ground arith)

pub is_active_job-Occupies :
    (owner repository : Key) (now : Time) (j : JobRow)
    → (((j.repository_id == repository) && is_active_job owner now j) ≡ true)
      ↔ Occupies owner repository now j
unfolding is_active_job
is_active_job-Occupies owner repository now j =
    let claimed = is_claimed_state_iff j.status in
    let offered = is_dispatched_iff j.status in
    let leased = is_after_iff j.lease_expires_at now in
    (
      λ h. record {
        owned = ground arith;
        placed = ground arith;
        alive = ground arith;
        held = elim (Bool-cases (is_claimed_state j.status)) [
          | inl e ↦ inl (claimed.0 e)
          | inr e ↦ inr (offered.0 (ground arith), leased.0 (ground arith))
        ];
      },
      λ o. elim o.held [
        | inl e ↦ ground (arith, o.owned, o.placed, o.alive, claimed.1 e)
        | inr (e, l) ↦ ground (arith, o.owned, o.placed, o.alive, offered.1 e, leased.1 l)
      ],
    )

-- The places that are taken in a repository are counted.
pub active_count-Chosen :
    (owner repository : Key) (now : Time) (db : Database)
    → (busy : List JobRow) × Chosen (Occupies owner repository now) db.jobs busy
      × (active_count owner repository now db ≡ length busy)
unfolding active_count
active_count-Chosen owner repository now db = (
  _,
  select-Chosen (Occupies owner repository now)
      (λ j. (j.repository_id == repository) && is_active_job owner now j)
      (is_active_job-Occupies owner repository now) db.jobs,
  refl,
)

pub may_dispatch-IsWaiting :
    (owner : Key) (policies : List PolicyRow) (now : Time) (j : JobRow)
    → may_dispatch owner policies now j ≡ true
    → (j.owner_id ≡ owner) × (now < j.expires_at) × IsWaiting now j
unfolding may_dispatch
may_dispatch-IsWaiting owner policies now j h = (
  ground arith,
  ground arith,
  elim (Bool-cases (is_queued j.status)) [
    | inl e ↦ inl (is_queued-eq j.status e)
    | inr e ↦ inr (
      (is_dispatched_iff j.status).0 (ground arith),
      lapsed-until j.lease_expires_at now (ground arith),
    )
  ],
)
