-- ===== src/Repository/Progress.antt =====
-- How a job may differ before and after a call: the abstract view of every write of the repository.
pub mod Rows
pub mod Clients
pub mod Calls
pub mod Creation
pub mod Decisions
use qwen_harness_bridge.Repository.Invariant.Writes.{find_job-update_job}
use qwen_harness_bridge.Repository.Commands.Effects.{enqueue_adds}
use qwen_harness_bridge.JobState.{can_transition}
use qwen_harness_bridge.Database.Clock.{Clock, FreshIds}
use qwen_harness_bridge.Repository.{JobEventInput}
use qwen_harness_bridge.Database.Tables.{find_job, update_job}
use qwen_harness_bridge.Repository.Commands.{
  append_event, ConnectorCommandType, enqueue_server_command,
}
use qwen_harness_bridge.Database.{JobRow, Database, Key, CommandPayload, Time}
use qwen_harness_bridge.Prelude.{
  ℕ, ◌≡◌, ◌∙◌, inl, ◌⊎◌, some, Bool-cases, true, ◌==◌, ok, suc, is_some, arith, ap, refl, ==_iff,
  subst, inr, ◌≤◌,
}

-- Either the job keeps its status and revision, or it moves along one edge of the diagram under the
-- next revision. What identifies it, and times once set, stay.
pub record Advance (j k : JobRow) : Type 0 where
  pub same_id : k.id ≡ j.id
  pub same_owner : k.owner_id ≡ j.owner_id
  pub same_digest : k.request_digest ≡ j.request_digest
  pub moved :
      ((k.status ≡ j.status) × (k.revision ≡ j.revision))
      ⊎ ((can_transition j.status k.status ≡ true) × (k.revision ≡ suc j.revision))
  pub attempts : j.attempt ≤ k.attempt
  pub acknowledged : is_some j.acknowledged_at ≡ true → k.acknowledged_at ≡ j.acknowledged_at
  pub ended : is_some j.terminal_at ≡ true → k.terminal_at ≡ j.terminal_at

-- Every job that was there is there still, and the relation holds between it and what it has become.
abbrev pub Related : (JobRow → JobRow → Type 0) → Database → Database → Type 0
Related R db db' =
    (id : Key) (j : JobRow)
    → find_job id db ≡ some j
    → (k : JobRow) × (find_job id db' ≡ some k) × R j k

module _ (R : JobRow → JobRow → Type 0) (R-refl : (j : JobRow) → R j j) where
  -- A write that leaves the jobs alone.
  pub Related-refl :
      (db db' : Database) → ((id : Key) → find_job id db' ≡ find_job id db) → Related R db db'
  Related-refl db db' same id j h = (j, same id ∙ h, R-refl j)

  pub Related-then :
      (db db' db'' : Database)
      → Related R db db'
      → ((id : Key) → find_job id db'' ≡ find_job id db')
      → Related R db db''
  Related-then db db' db'' a same id j h = let (k, found, p) = a id j h in (k, same id ∙ found, p)

  pub update-Related :
      (id : Key) (f : JobRow → JobRow) (db : Database) (j : JobRow)
      → ((i : JobRow) → (f i).id ≡ i.id)
      → find_job id db ≡ some j
      → R j (f j)
      → Related R db (update_job id f db)
  update-Related id f db j keep found a k i h = elim (Bool-cases (id == k)) [
    | inl same ↦
        let e : j ≡ i = ground (arith, ap (λ (n : Key). find_job n db) ((==_iff id k).0 same)) in
        (
          f j,
          ground (arith, find_job-update_job k id f db keep),
          subst (λ (x : JobRow). R x (f j)) e a,
        )
    | inr apart ↦ (i, ground (arith, find_job-update_job k id f db keep), R-refl i)
  ]

pub Advance-refl : (j : JobRow) → Advance j j
Advance-refl j = record {
  same_id = refl;
  same_owner = refl;
  same_digest = refl;
  moved = inl (refl, refl);
  attempts = omega arith;
  acknowledged = λ _. refl;
  ended = λ _. refl;
}

abbrev pub Advances : Database → Database → Type 0
Advances = Related Advance

pub append_event-keeps :
    (id : Key) (n : ℕ) (input : JobEventInput) (clock : Clock) (ids : FreshIds) (db db' : Database)
    → append_event id n input clock ids db ≡ ok db'
    → (k : Key) → find_job k db' ≡ find_job k db
unfolding append_event find_job
append_event-keeps id n input clock ids db db' h k = ground arith

pub enqueue-keeps :
    (owner connector_id : Key) (type : ConnectorCommandType) (payload : CommandPayload)
    (expires_at : Time) (clock : Clock) (k : ℕ) (ids : FreshIds) (db db' : Database)
    → enqueue_server_command owner connector_id type payload expires_at clock k ids db ≡ ok db'
    → (i : Key) → find_job i db' ≡ find_job i db
unfolding find_job
enqueue-keeps owner connector_id type payload expires_at clock k ids db db' h i =
    let (_, _, _, _, _, _, _, _, _, _, shape) =
      enqueue_adds owner connector_id type payload expires_at clock k ids db db' h in
    rw shape
