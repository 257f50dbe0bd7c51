-- ===== src/Outbox/Progress.antt =====
-- How a job may differ before and after an operation of the connector store, and the writes that leave
-- the jobs alone.
pub mod Claims
pub mod Events
pub mod Replays
pub mod Rows
pub mod Consumption
pub mod Repeats
pub mod Acceptances
pub mod Businesses
pub mod Accepts
pub mod Dispatches
pub mod Writes
use qwen_harness_bridge.Repository.Progress.Clients.{Clients-trans, Clients, Clients-refl}
use qwen_harness_bridge.JobState.Diagram.{edge_not_terminal}
use qwen_harness_bridge.Database.Tables.{find_job, find_connector}
use qwen_harness_bridge.JobState.{can_transition, is_terminal}
use qwen_harness_bridge.Repository.Progress.{Related, Related-refl, Related-then, Advance}
use qwen_harness_bridge.Repository.Progress.Calls.{IsSafe}
use qwen_harness_bridge.Repository.Invariant.{IsValid, JobIsValid}
use qwen_harness_bridge.Database.{JobRow, Database, Key, client, ConnectorRow}
use qwen_harness_bridge.Prelude.{
  ℕ, ◌≡◌, ◌≤◌, ◌∙◌, is_some, inl, arith, ◌⊎◌, inr, true, refl, suc, some,
}

-- Unlike a call of the repository, the store may take a new revision without moving the job: an event of
-- progress, a second request for approval, a new offer. A job that has ended is not touched.
pub record Evolve (j k : JobRow) : Type 0 where
  pub same_id : k.id ≡ j.id
  pub same_owner : k.owner_id ≡ j.owner_id
  pub same_digest : k.request_digest ≡ j.request_digest
  pub moved :
      ((k.status ≡ j.status) × (j.revision ≤ k.revision))
      ⊎ ((can_transition j.status k.status ≡ true) × (k.revision ≡ suc j.revision))
  pub attempts : j.attempt ≤ k.attempt
  pub acknowledged : is_some j.acknowledged_at ≡ true → k.acknowledged_at ≡ j.acknowledged_at
  pub ended :
      is_terminal j.status ≡ true → (k.terminal_at ≡ j.terminal_at) × (k.revision ≡ j.revision)

pub Evolve-refl : (j : JobRow) → Evolve j j
Evolve-refl j = record {
  same_id = refl;
  same_owner = refl;
  same_digest = refl;
  moved = inl (refl, omega arith);
  attempts = omega arith;
  acknowledged = λ _. refl;
  ended = λ _. (refl, refl);
}

pub Advance-Evolve : (j k : JobRow) → JobIsValid j → Advance j k → Evolve j k
Advance-Evolve j k v a = record {
  same_id = a.same_id;
  same_owner = a.same_owner;
  same_digest = a.same_digest;
  moved = elim a.moved [ inl (same, kept) ↦ inl (same, omega arith) | inr move ↦ inr move ];
  attempts = a.attempts;
  acknowledged = a.acknowledged;
  ended = λ over. (
    a.ended (v.ended ∙ over),
    elim a.moved [
      | inl (same, kept) ↦ kept
      | inr (edge, next) ↦ absurd (ground (arith, edge_not_terminal j.status k.status edge))
    ],
  );
}

abbrev pub Evolves : Database → Database → Type 0
Evolves = Related Evolve

pub record IsSound (db db' : Database) : Type 0 where
  pub valid : IsValid db → IsValid db'
  pub evolves : IsValid db → Evolves db db'
  pub clients : Clients db db'

-- A connector that is found afterwards was there before, and has not lost a sequence.
abbrev pub Rises : Database → Database → Type 0
Rises db db' =
    (k : Key) (d : ConnectorRow)
    → find_connector k db' ≡ some d
    → (c : ConnectorRow) × (find_connector k db ≡ some c)
      × (c.last_client_sequence ≤ d.last_client_sequence)

pub Clients-Rises : (db db' : Database) → Clients db db' → Rises db db'
Clients-Rises db db' p k d h = let (c, found, same) = p.0 k d h in (c, found, omega (arith, same))

pub Rises-trans : (db db' db'' : Database) → Rises db db' → Rises db' db'' → Rises db db''
Rises-trans db db' db'' p q k e h =
    let (d, there, more) = q k e h in
    let (c, found, most) = p k d there in (c, found, omega (arith, more, most))

-- What holds of every transaction of the two.
pub record IsLawful (db db' : Database) : Type 0 where
  pub valid : IsValid db → IsValid db'
  pub evolves : IsValid db → Evolves db db'
  pub rises : Rises db db'

pub IsSound-IsLawful : (db db' : Database) → IsSound db db' → IsLawful db db'
IsSound-IsLawful db db' s = record {
  valid = s.valid;
  evolves = s.evolves;
  rises = Clients-Rises db db' s.clients;
}

-- The invariant is kept, and no job is written.
pub record IsQuiet (db db' : Database) : Type 0 where
  pub valid : IsValid db → IsValid db'
  pub jobs : (k : Key) → find_job k db' ≡ find_job k db
  pub clients : Clients db db'

pub IsQuiet-refl : (db : Database) → IsQuiet db db
IsQuiet-refl db = record { valid = λ v. v; jobs = λ k. refl; clients = Clients-refl db }

pub IsQuiet-trans : (db db' db'' : Database) → IsQuiet db db' → IsQuiet db' db'' → IsQuiet db db''
IsQuiet-trans db db' db'' p q = record {
  valid = λ v. q.valid (p.valid v);
  jobs = λ k. q.jobs k ∙ p.jobs k;
  clients = Clients-trans db db' db'' p.clients q.clients;
}

pub IsQuiet-IsSound : (db db' : Database) → IsQuiet db db' → IsSound db db'
IsQuiet-IsSound db db' p = record {
  valid = p.valid;
  evolves = λ v. Related-refl Evolve Evolve-refl db db' p.jobs;
  clients = p.clients;
}

pub IsSound-then : (db db' db'' : Database) → IsSound db db' → IsQuiet db' db'' → IsSound db db''
IsSound-then db db' db'' s q = record {
  valid = λ v. q.valid (s.valid v);
  evolves = λ v. Related-then Evolve Evolve-refl db db' db'' (s.evolves v) q.jobs;
  clients = Clients-trans db db' db'' s.clients q.clients;
}

pub IsSound-after : (db db' db'' : Database) → IsQuiet db db' → IsSound db' db'' → IsSound db db''
IsSound-after db db' db'' q s = record {
  valid = λ v. s.valid (q.valid v);
  evolves = λ v id j h. s.evolves (q.valid v) id j (q.jobs id ∙ h);
  clients = Clients-trans db db' db'' q.clients s.clients;
}

pub IsSafe-IsSound : (db db' : Database) → IsSafe db db' → IsSound db db'
IsSafe-IsSound db db' s = record {
  valid = s.valid;
  evolves = λ v id j h.
      let (k, found, a) = s.advances v id j h in (k, found, Advance-Evolve j k (v.jobs id j h) a);
  clients = s.clients;
}
