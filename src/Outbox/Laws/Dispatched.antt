-- ===== src/Outbox/Laws/Dispatched.antt =====
-- outbox.ts: dispatchNext, the job that it picks, its policy and its offer.
use qwen_harness_bridge.Outbox.Laws.Places.{
  IsWaiting, Occupies, active_count-Chosen, may_dispatch-IsWaiting,
}
use qwen_harness_bridge.Outbox.Progress.Writes.{
  enqueue_message_adds, enqueue_message-IsQuiet, append_job_event-IsQuiet,
}
use qwen_harness_bridge.Repository.Invariant.Writes.{find_job-update_job}
use qwen_harness_bridge.Outbox.Progress.Replays.{store_transaction-returned}
use qwen_harness_bridge.Outbox.Progress.Dispatches.{dispatch_adds, OfferWrites, next_job-found}
use mathlib.Core.List.{Mem, mem-cons_self, mem-cons_of_mem}
use qwen_harness_bridge.JobState.{dispatched}
use qwen_harness_bridge.Database.Tables.{find_job, update_job}
use qwen_harness_bridge.Outbox.Messages.{Supply, job_offer, server_row}
use qwen_harness_bridge.Database.{
  Key, PolicyRow, Database, Time, ConnectorMessageRow, JobRow, offer_payload,
}
use qwen_harness_bridge.Text.{Text}
use qwen_harness_bridge.Outbox.Dispatch.{
  may_dispatch, dispatch_next, eligible_policies, active_count, is_enabled_policy, dispatch_row,
  dispatch_locked, dispatch_input,
}
use qwen_harness_bridge.Outbox.{ConnectorIdentity, Text, Key, Bool, List, true, ok, any, find_job}
use qwen_harness_bridge.Prelude.{
  ℕ, ◌≡◌, some, [], ◌∷◌, List, Bool, true, ok, any, ◌==◌, arith, ◌<◌, suc, min, ◌+◌, select,
  Bool-cases, ◌&&◌, inl, ltb, refl, sym, inr, ◌∙◌, ==_refl, ap, Chosen, length,
}

any-Mem {ℓ} :
    {A : Type ℓ} (q : A → Bool) (xs : List A) → any q xs ≡ true → (x : A) × Mem x xs × (q x ≡ true)
unfolding any
any-Mem q [] h = absurd (ground arith)
any-Mem q (x ∷ xs) h = elim (Bool-cases (q x)) [
  | inl holds ↦ (x, mem-cons_self, holds)
  | inr fails ↦
      let (y, there, holds) = any-Mem q xs (ground arith) in (y, mem-cons_of_mem x there, holds)
]

any-select {ℓ} :
    {A : Type ℓ} (q p : A → Bool) (xs : List A) → any q (select p xs) ≡ any (λ x. p x && q x) xs
unfolding any select
any-select q p [] = refl
any-select q p (x ∷ xs) = ground (arith, any-select q p xs)

-- A policy that the selection left holds its place in the table, is the owner's and has room.
eligible_policy :
    (owner : Key) (now : Time) (db : Database) (repository : Key)
    → any (λ p. p.id == repository) (eligible_policies owner now db) ≡ true
    → (p : PolicyRow) × Mem p db.repository_policies
      × ((is_enabled_policy owner p
            && (ltb (active_count owner p.id now db) p.max_concurrency && (p.id == repository)))
          ≡ true)
unfolding eligible_policies
eligible_policy owner now db repository h =
    any-Mem
      (λ p.
        is_enabled_policy owner p
        && (ltb (active_count owner p.id now db) p.max_concurrency && (p.id == repository)))
      db.repository_policies
      (sym (
          any-select
            (λ p. ltb (active_count owner p.id now db) p.max_concurrency && (p.id == repository))
            (is_enabled_policy owner) db.repository_policies)
        ∙ sym (
            any-select (λ p. p.id == repository)
              (λ p. ltb (active_count owner p.id now db) p.max_concurrency)
              (select (is_enabled_policy owner) db.repository_policies))
        ∙ h)

-- The job after the writes of an offer.
offered_job :
    (identity : ConnectorIdentity) (lease : Text) (j : JobRow) (s : Supply) (db db' : Database)
    (row : ConnectorMessageRow) (w : OfferWrites identity lease j s db db' row)
    → find_job j.id db ≡ some j
    → find_job j.id db'
      ≡ some (dispatch_row identity.connector_id lease w.until (s.clock.reading 1) j)
offered_job identity lease j s db db' row w found =
    let f : JobRow → JobRow =
      dispatch_row identity.connector_id lease w.until (s.clock.reading 1) in
    let moved : find_job j.id (update_job j.id f db) ≡ some (f j) =
      find_job-update_job j.id j.id f db (λ i. unfold dispatch_row in refl)
      ∙ rw found (rw (==_refl j.id) refl) in
    (enqueue_message-IsQuiet identity.connector_id job_offer
        (λ n. offer_payload j.id w.attempt lease j.repository_id) w.until
        (s.ids 0).command_correlation s 0 w.logged db' row w.sends).jobs
      j.id
    ∙ (append_job_event-IsQuiet j.id
          (dispatch_input identity.connector_id lease w.until w.attempt j) s 0
          (update_job j.id f db) w.logged w.appends).jobs
        j.id
    ∙ moved

policy_of :
    (owner : Key) (policies : List PolicyRow) (now : Time) (j : JobRow)
    → may_dispatch owner policies now j ≡ true
    → any (λ p. p.id == j.repository_id) policies ≡ true
unfolding may_dispatch
policy_of owner policies now j h = ground arith

-- A dispatch that answers a message has found a job of the connector's owner that was queued, or that
-- was dispatched under a lease that had run out. The job had not expired, neither when the dispatch began
-- nor when it was written. The repository of the job has an enabled policy of the owner, under which
-- fewer jobs held a place than it allows: the unexpired jobs of the owner in the repository that were
-- running, waiting for approval or being cancelled, or dispatched under a lease that had not run out.
-- Afterwards the job is dispatched to the connector under the given lease and the next revision, in the
-- same attempt, and the message offers the next attempt and expires with the lease: half a minute later,
-- or with the job, if that is sooner.
pub dispatch_within_limits :
    (identity : ConnectorIdentity) (lease : Text) (is_locked : Key → Bool) (s : Supply)
    (db db' : Database) (row : ConnectorMessageRow)
    → dispatch_next identity lease is_locked s db ≡ (ok (some row), db')
    → (j : JobRow) × (p : PolicyRow) × (busy : List JobRow) × (k : JobRow) × (find_job j.id db
        ≡ some j)
      × ((j.owner_id ≡ identity.owner_id)
          × (s.clock.reading 0 < j.expires_at)
          × (s.clock.reading 2 < j.expires_at)
          × IsWaiting (s.clock.reading 0) j)
      × ((p.id ≡ j.repository_id)
          × (p.owner_id ≡ identity.owner_id)
          × (p.enabled ≡ true)
          × Mem p db.repository_policies)
      × (Chosen (Occupies identity.owner_id p.id (s.clock.reading 0)) db.jobs busy
          × (length busy < p.max_concurrency))
      × (find_job j.id db' ≡ some k)
      × ((k.status ≡ dispatched)
          × (k.connector_id ≡ some identity.connector_id)
          × (k.lease_id ≡ some lease)
          × (k.lease_expires_at ≡ some row.expires_at)
          × (k.revision ≡ suc j.revision)
          × (k.attempt ≡ j.attempt))
      × (row.payload ≡ offer_payload j.id (suc j.attempt) lease j.repository_id)
      × (row.expires_at ≡ min (s.clock.reading 1 + 30000) j.expires_at)
unfolding dispatch_next server_row
dispatch_within_limits identity lease is_locked s db db' row h =
    let now : Time = s.clock.reading 0 in
    let policies : List PolicyRow = eligible_policies identity.owner_id now db in
    let (j, picked, w) = dispatch_adds identity lease is_locked s db db' row (
      store_transaction-returned db db' (dispatch_locked identity lease is_locked s db) (some row)
        h) in
    let (found, may) = next_job-found identity.owner_id is_locked policies now db j picked in
    let (p, there, holds) =
      eligible_policy identity.owner_id now db j.repository_id
        (policy_of identity.owner_id policies now j may) in
    let (busy, places, counted) = active_count-Chosen identity.owner_id p.id now db in
    let (own, alive, waits) = may_dispatch-IsWaiting identity.owner_id policies now j may in
    let (c, connected, shape, stored) =
      enqueue_message_adds identity.connector_id job_offer
        (λ n. offer_payload j.id w.attempt lease j.repository_id) w.until
        (s.ids 0).command_correlation s 0 w.logged db' row w.sends in
    let expiry : row.expires_at ≡ w.until = ap (λ (m : ConnectorMessageRow). m.expires_at) shape in
    let payload : row.payload ≡ offer_payload j.id w.attempt lease j.repository_id =
      ap (λ (m : ConnectorMessageRow). m.payload) shape in
    (
      j,
      p,
      busy,
      dispatch_row identity.connector_id lease w.until (s.clock.reading 1) j,
      found,
      (own, alive, w.alive, waits),
      (
        unfold is_enabled_policy in ground arith,
        unfold is_enabled_policy in ground arith,
        unfold is_enabled_policy in ground arith,
        there,
      ),
      (places, ground (arith, counted)),
      offered_job identity lease j s db db' row w found,
      unfold dispatch_row in (refl, refl, refl, ap some (sym expiry), omega arith, refl),
      payload ∙ ap (λ (n : ℕ). offer_payload j.id n lease j.repository_id) w.next,
      expiry ∙ w.bounded,
    )
