-- ===== src/Outbox/History/Reached.antt =====
-- What holds of jobs, logs and sequences after any interleaving of the store and the repository.
use qwen_harness_bridge.Outbox.History.{commit-IsLawful, commit_all, commit}
use qwen_harness_bridge.Database.Tables.{find_job}
use qwen_harness_bridge.Repository.Invariant.{IsValid}
use qwen_harness_bridge.JobState.Diagram.{edge_not_terminal, can_transition-edge}
use qwen_harness_bridge.Outbox.History.{Transaction}
use qwen_harness_bridge.Outbox.Progress.{Evolve}
use qwen_harness_bridge.JobState.{is_terminal}
use qwen_harness_bridge.Repository.History.Reached.{Walk, stop, step}
use qwen_harness_bridge.Database.{JobRow, Database, Key}
use qwen_harness_bridge.Prelude.{
  ℕ, ◌≡◌, List, inl, ◌+◌, arith, true, ◌≤◌, inr, ◌∙◌, refl, suc, ◌∷◌, some, is_some, [],
}

-- Whatever transactions of the connector store and of the job repository are committed or rolled back,
-- in whatever order, a valid database stays valid: the end times of each job agree with its status,
-- the events of each job are numbered 1, 2, 3, … without a gap, and the messages to each connector
-- carry distinct sequences that rise and that the connector's counter has reached.
pub commit_all-IsValid :
    (ts : List Transaction) (db : Database) → IsValid db → IsValid (commit_all ts db)
unfolding commit_all
commit_all-IsValid [] db v = v
commit_all-IsValid (t ∷ ts) db v =
    commit_all-IsValid ts _ ((commit-IsLawful t.act t.supply db).valid v)

-- A job later in an interleaving: what it walked, and what it kept. A revision may be taken without an
-- edge.
pub record Follows (j k : JobRow) : Type 0 where
  pub edges : ℕ
  pub walk : Walk j.status k.status edges
  pub counted : j.revision + edges ≤ k.revision
  pub same_id : k.id ≡ j.id
  pub same_owner : k.owner_id ≡ j.owner_id
  pub same_digest : k.request_digest ≡ j.request_digest
  pub attempts : j.attempt ≤ k.attempt

Follows-refl : (j : JobRow) → Follows j j
Follows-refl j = record {
  edges = 0;
  walk = stop;
  counted = omega arith;
  same_id = refl;
  same_owner = refl;
  same_digest = refl;
  attempts = omega arith;
}

Evolve-Follows : (j k l : JobRow) → Evolve j k → Follows k l → Follows j l
Evolve-Follows j k l a m = elim a.moved [
  | inl (same, kept) ↦ record {
    edges = m.edges;
    walk = rw (← same) m.walk;
    counted = omega (arith, m.counted);
    same_id = m.same_id ∙ a.same_id;
    same_owner = m.same_owner ∙ a.same_owner;
    same_digest = m.same_digest ∙ a.same_digest;
    attempts = omega (arith, a.attempts, m.attempts);
  }
  | inr (edge, next) ↦ record {
    edges = suc m.edges;
    walk = step (can_transition-edge _ _ edge) m.walk;
    counted = omega (arith, m.counted);
    same_id = m.same_id ∙ a.same_id;
    same_owner = m.same_owner ∙ a.same_owner;
    same_digest = m.same_digest ∙ a.same_digest;
    attempts = omega (arith, a.attempts, m.attempts);
  }
]

-- A job of a valid database is there after any interleaving, with the same owner and digest and no
-- lower attempt. Its status has walked along edges of the diagram of the job states, and its revision
-- has grown by at least the number of those edges.
pub commit_all-Follows :
    (ts : List Transaction) (db : Database) (id : Key) (j : JobRow)
    → IsValid db
    → find_job id db ≡ some j
    → (k : JobRow) × (find_job id (commit_all ts db) ≡ some k) × Follows j k
unfolding commit_all
commit_all-Follows [] db id j v found = (j, found, Follows-refl j)
commit_all-Follows (t ∷ ts) db id j v found =
    let s = commit-IsLawful t.act t.supply db in
    let (i, there, a) = s.evolves v id j found in
    let (k, last, m) = commit_all-Follows ts (commit t.act t.supply db) id i (s.valid v) there in
    (k, last, Evolve-Follows j i k a m)

ended-Evolve :
    (j k : JobRow)
    → is_terminal j.status ≡ true
    → Evolve j k
    → (k.status ≡ j.status) × (k.revision ≡ j.revision) × (k.terminal_at ≡ j.terminal_at)
ended-Evolve j k over a = elim a.moved [
  | inl (same, kept) ↦ (same, (a.ended over).1, (a.ended over).0)
  | inr (edge, next) ↦ absurd (ground (arith, edge_not_terminal j.status k.status edge))
]

-- A job that has ended stays as it ended, whatever its connector still sends and whatever is called:
-- status, revision and end time are those of the first end, and an acknowledgement that was given
-- keeps its time.
pub end_is_final :
    (ts : List Transaction) (db : Database) (id : Key) (j : JobRow)
    → IsValid db
    → find_job id db ≡ some j
    → is_terminal j.status ≡ true
    → (k : JobRow) × (find_job id (commit_all ts db) ≡ some k)
      × (k.status ≡ j.status)
      × (k.revision ≡ j.revision)
      × (k.terminal_at ≡ j.terminal_at)
      × (is_some j.acknowledged_at ≡ true → k.acknowledged_at ≡ j.acknowledged_at)
unfolding commit_all
end_is_final [] db id j v found over = (j, found, refl, refl, refl, λ _. refl)
end_is_final (t ∷ ts) db id j v found over =
    let s = commit-IsLawful t.act t.supply db in
    let (i, there, a) = s.evolves v id j found in
    let (status, revision, ended) = ended-Evolve j i over a in
    let (k, last, p, q, r, u) =
      end_is_final ts (commit t.act t.supply db) id i (s.valid v) there (rw status over) in
    (
      k,
      last,
      p ∙ status,
      q ∙ revision,
      r ∙ ended,
      λ h. u (rw (a.acknowledged h) h) ∙ a.acknowledged h,
    )
