-- ===== src/Repository/History/Reached.antt =====
-- What holds of every job and log after any history of calls.
use qwen_harness_bridge.Database.Tables.{find_job}
use qwen_harness_bridge.Repository.Invariant.{IsValid}
use qwen_harness_bridge.Repository.Progress.{Advance}
use qwen_harness_bridge.JobState.Diagram.{◌⟶◌, can_transition-edge}
use qwen_harness_bridge.Repository.History.{run, Turn, serve-IsSafe, serve}
use qwen_harness_bridge.JobState.{JobStatus}
use qwen_harness_bridge.Database.{JobRow, Database, Key}
use qwen_harness_bridge.Prelude.{
  ℕ, ◌≡◌, arith, ◌+◌, List, suc, ◌≤◌, inl, refl, ◌∙◌, inr, ◌∷◌, some, [],
}

-- Whatever calls are made, in whatever order and with whatever answers, a valid database stays valid:
-- every job has its end times exactly in its terminal states, only a terminal job is unread or
-- acknowledged, the events of each job are numbered 1, 2, 3, … without a gap, and the messages to each
-- connector carry distinct, rising sequences that the connector's counter has reached.
pub run-IsValid : (ts : List Turn) (db : Database) → IsValid db → IsValid (run ts db)
unfolding run
run-IsValid [] db v = v
run-IsValid (t ∷ ts) db v = run-IsValid ts _ ((serve-IsSafe t.call t.clock t.ids db).valid v)

-- A walk along the diagram, with its number of edges.
pub data Walk : JobStatus → JobStatus → ℕ → Type 0 where
  stop : {s : JobStatus} → Walk s s 0
  step : {s t u : JobStatus} {n : ℕ} → s ⟶ t → Walk t u n → Walk s u (suc n)

-- A job later in a history: what it walked, and what it kept.
pub record Later (j k : JobRow) : Type 0 where
  pub edges : ℕ
  pub walk : Walk j.status k.status edges
  pub counted : k.revision ≡ j.revision + edges
  pub same_id : k.id ≡ j.id
  pub same_owner : k.owner_id ≡ j.owner_id
  pub same_digest : k.request_digest ≡ j.request_digest
  pub attempts : j.attempt ≤ k.attempt

Later-refl : (j : JobRow) → Later j j
Later-refl j = record {
  edges = 0;
  walk = stop;
  counted = omega arith;
  same_id = refl;
  same_owner = refl;
  same_digest = refl;
  attempts = omega arith;
}

Advance-Later : (j k l : JobRow) → Advance j k → Later k l → Later j l
Advance-Later j k l a m = elim a.moved [
  | inl (same, kept) ↦ record {
    edges = m.edges;
    walk = rw (← same) m.walk;
    counted = omega (arith, m.counted);
    same_id = m.same_id ∙ a.same_id;
    same_owner = m.same_owner ∙ a.same_owner;
    same_digest = m.same_digest ∙ a.same_digest;
    attempts = omega arith;
  }
  | inr (edge, next) ↦ record {
    edges = suc m.edges;
    walk = step (can_transition-edge _ _ edge) m.walk;
    counted = omega (arith, m.counted);
    same_id = m.same_id ∙ a.same_id;
    same_owner = m.same_owner ∙ a.same_owner;
    same_digest = m.same_digest ∙ a.same_digest;
    attempts = omega arith;
  }
]

-- A job that is in a valid database is in it after any history of calls, with the same owner and
-- digest and no lower attempt. Its status has walked along edges of the diagram, and its revision has
-- grown by exactly the number of those edges.
pub run-Later :
    (ts : List Turn) (db : Database) (id : Key) (j : JobRow)
    → IsValid db
    → find_job id db ≡ some j
    → (k : JobRow) × (find_job id (run ts db) ≡ some k) × Later j k
unfolding run
run-Later [] db id j v found = (j, found, Later-refl j)
run-Later (t ∷ ts) db id j v found =
    let s = serve-IsSafe t.call t.clock t.ids db in
    let (i, there, a) = s.advances v id j found in
    let (k, last, m) = run-Later ts (serve t.call t.clock t.ids db) id i (s.valid v) there in
    (k, last, Advance-Later j i k a m)
