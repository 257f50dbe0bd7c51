-- ===== src/Repository/Progress/Creation.antt =====
-- createIdempotent keeps the invariant and leaves the jobs that were there as they were.
use qwen_harness_bridge.Repository.Progress.Clients.{same-Clients, Clients-trans}
use qwen_harness_bridge.Repository.{JobRecord}
use qwen_harness_bridge.Repository.Progress.{Advance-refl, Related-refl, Advance}
use qwen_harness_bridge.Repository.Progress.Calls.{
  IsSafe, IsSafe-then, transaction-IsSafe, IsSafe-refl, transaction_from-IsSafe,
}
use qwen_harness_bridge.Repository.Invariant.{JobIsValid}
use qwen_harness_bridge.Database.{JobRow, Database, Key, IdempotencyRow}
use qwen_harness_bridge.Database.Clock.{Clock, FreshIds}
use qwen_harness_bridge.Repository.ShortId.{RandomBytes}
use qwen_harness_bridge.Text.{Text}
use qwen_harness_bridge.JobState.{is_terminal}
use qwen_harness_bridge.Database.Tables.{find_job, find_connector, has_id, find_idempotency}
use qwen_harness_bridge.Repository.Create.{
  create_job, inserted_job, CreateIdempotentInput, free_short_id, short_id_retries, delete_job,
  commit_rival, register_job, original_job, create_new, create_idempotent, create_body,
}
use qwen_harness_bridge.Prelude.{
  ℕ, ◌≡◌, find, none, ok, arith, ◌∷◌, some, Bool-cases, Option-cases, ◌==◌, inl, inr, subst, ap,
  any-find, ==_iff, false, sym, ◌∙◌, find-select-none, not, Option, find-select, refl, Result-cases,
}

pub inserted_job-JobIsValid :
    (input : CreateIdempotentInput) (short_id : Text) (clock : Clock) (ids : FreshIds)
    → JobIsValid (inserted_job input short_id clock ids)
unfolding inserted_job is_terminal
inserted_job-JobIsValid input short_id clock ids = ground arith

-- The inserted row is new, and stands before the others.
pub create_job_returns :
    (input : CreateIdempotentInput) (bytes : ℕ → RandomBytes) (clock : Clock) (ids : FreshIds)
    (db db' : Database) (row : JobRow)
    → create_job input bytes clock ids db ≡ ok (row, db')
    → (short_id : Text) × (free_short_id short_id_retries bytes 0 db ≡ some short_id)
      × (row ≡ inserted_job input short_id clock ids)
      × (find_job ids.job db ≡ none)
      × (db' ≡ record db { jobs = row ∷ db.jobs })
unfolding create_job find_job
create_job_returns input bytes clock ids db db' row h =
    elim (Option-cases (free_short_id short_id_retries bytes 0 db)) [
      | inl e ↦ absurd (ground arith)
      | inr (t, e) ↦
          (t, e, ground arith, ground (arith, any-find (has_id ids.job) db.jobs), ground arith)
    ]

apart_of_none :
    (a k : Key) (db : Database) (j : JobRow)
    → find_job a db ≡ none
    → find_job k db ≡ some j
    → (a == k) ≡ false
apart_of_none a k db j missing found = elim (Bool-cases (a == k)) [
  | inr apart ↦ apart
  | inl same ↦ absurd (ground (arith, ap (λ (n : Key). find_job n db) ((==_iff a k).0 same)))
]

insert-IsSafe :
    (row : JobRow) (db : Database)
    → find_job row.id db ≡ none
    → JobIsValid row
    → IsSafe db (record db { jobs = row ∷ db.jobs })
unfolding find_job find_connector find
insert-IsSafe row db new valid = record {
  valid = λ v. record {
    jobs = λ k j h. elim (Bool-cases (row.id == k)) [
      | inl same ↦ subst JobIsValid (ground arith) valid
      | inr apart ↦ v.jobs k j (ground arith)
    ];
    events = v.events;
    messages = v.messages;
  };
  advances = λ v k j h. (j, ground (arith, apart_of_none row.id k db j new h), Advance-refl j);
  clients = (λ k d h. (d, h, refl), λ k d h. (d, h, refl));
}

-- What shows of the database to the invariant and to the readers of jobs.
pub record SameView (db db' : Database) : Type 0 where
  pub jobs : (k : Key) → find_job k db' ≡ find_job k db
  pub events : db'.job_events ≡ db.job_events
  pub connectors : db'.connectors ≡ db.connectors
  pub messages : db'.connector_messages ≡ db.connector_messages

pub SameView-IsSafe : (db db' : Database) → SameView db db' → IsSafe db db'
unfolding find_connector
SameView-IsSafe db db' s = record {
  valid = λ v. record {
    jobs = λ k j h. v.jobs k j (sym (s.jobs k) ∙ h);
    events = λ k. rw s.events (v.events k);
    messages = λ k c h. rw s.messages (v.messages k c (rw (← s.connectors) h));
  };
  advances = λ v. Related-refl Advance Advance-refl db db' s.jobs;
  clients = same-Clients db db' s.connectors;
}

-- Taking the inserted job out again restores every read.
pub delete_inserted :
    (row : JobRow) (db : Database)
    → find_job row.id db ≡ none
    → (k : Key)
    → find_job k (delete_job row.id (record db { jobs = row ∷ db.jobs })) ≡ find_job k db
unfolding find_job delete_job
delete_inserted row db new k = elim (Bool-cases (row.id == k)) [
  | inl same ↦
      find-select-none (has_id k) (λ j. not (has_id row.id j))
        (λ j h. ground (arith, (==_iff row.id k).0 same)) (row ∷ db.jobs)
      ∙ sym (rw (← (==_iff row.id k).0 same) new)
  | inr apart ↦
      find-select (has_id k) (λ j. not (has_id row.id j)) (λ j h. ground arith) (row ∷ db.jobs)
      ∙ unfold find in ground arith
]

commit_rival-SameView :
    (rival : Option IdempotencyRow) (db : Database) → SameView db (commit_rival rival db)
unfolding commit_rival find_job
commit_rival-SameView none db = record {
  jobs = λ k. refl;
  events = refl;
  connectors = refl;
  messages = refl;
}
commit_rival-SameView (some r) db = record {
  jobs = λ k. ground arith;
  events = ground arith;
  connectors = ground arith;
  messages = ground arith;
}

original_job-keeps :
    (input : CreateIdempotentInput) (existing : IdempotencyRow) (db db' : Database) (r : JobRecord)
    → original_job input existing db ≡ ok (r, db')
    → db' ≡ db
unfolding original_job
original_job-keeps input existing db db' r h = ground arith

-- After the insert of the job: the record is registered, or the job is taken out again.
registered-IsSafe :
    (input : CreateIdempotentInput) (row : JobRow) (seen : Database) (clock : Clock)
    (db db' : Database) (r : JobRecord) (winner : Option IdempotencyRow)
    → find_job row.id db ≡ none
    → JobIsValid row
    → SameView (record db { jobs = row ∷ db.jobs }) seen
    → ((k : Key) → find_job k (delete_job row.id seen) ≡ find_job k db)
    → register_job input row winner clock seen ≡ ok (r, db')
    → IsSafe db db'
unfolding register_job find_job
registered-IsSafe input row seen clock db db' r none new valid s gone h =
    let shape : db'.jobs ≡ seen.jobs = ground arith in
    let view : SameView seen db' = record {
      jobs = λ k. rw shape;
      events = ground arith;
      connectors = ground arith;
      messages = ground arith;
    } in
    let first = SameView-IsSafe _ seen s in
    let second = SameView-IsSafe seen db' view in
    IsSafe-then db (record db { jobs = row ∷ db.jobs }) db' (insert-IsSafe row db new valid)
      (
        (λ v. second.valid (first.valid v)),
        (λ k. view.jobs k ∙ s.jobs k),
        Clients-trans _ seen db' first.clients second.clients,
      )
registered-IsSafe input row seen clock db db' r (some w) new valid s gone h =
    let shape = original_job-keeps input w (delete_job row.id seen) db' r h in
    rw shape (
      SameView-IsSafe db (delete_job row.id seen) (record {
        jobs = gone;
        events = unfold delete_job in s.events;
        connectors = unfold delete_job in s.connectors;
        messages = unfold delete_job in s.messages;
      }))

pub commit_rival-jobs :
    (rival : Option IdempotencyRow) (db : Database) → (commit_rival rival db).jobs ≡ db.jobs
unfolding commit_rival
commit_rival-jobs none db = refl
commit_rival-jobs (some r) db = ground arith

deleted_after_rival :
    (row : JobRow) (rival : Option IdempotencyRow) (db : Database)
    → find_job row.id db ≡ none
    → (k : Key)
    → find_job k (delete_job row.id (commit_rival rival (record db { jobs = row ∷ db.jobs })))
      ≡ find_job k db
deleted_after_rival row rival db new k =
    unfold delete_job find_job in
    rw (commit_rival-jobs rival (record db { jobs = row ∷ db.jobs })) (delete_inserted row db new k)

inserted_job-id :
    (input : CreateIdempotentInput) (t : Text) (clock : Clock) (ids : FreshIds)
    → (inserted_job input t clock ids).id ≡ ids.job
unfolding inserted_job
inserted_job-id input t clock ids = refl

created-IsSafe :
    (input : CreateIdempotentInput) (bytes : ℕ → RandomBytes) (rival : Option IdempotencyRow)
    (clock : Clock) (ids : FreshIds) (db db' : Database) (r : JobRecord)
    → create_new input bytes rival clock ids db ≡ ok (r, db')
    → IsSafe db db'
unfolding create_new
created-IsSafe input bytes rival clock ids db db' r h =
    elim (Result-cases (create_job input bytes clock ids db)) [
      | inr (x, e) ↦ absurd (ground arith)
      | inl ((row, with_job), e) ↦
          let (t, _, same, new, shape) =
            create_job_returns input bytes clock ids db with_job row e in
          let missing : find_job row.id db ≡ none =
            rw (same, inserted_job-id input t clock ids) new in
          let seen = commit_rival rival (record db { jobs = row ∷ db.jobs }) in
          registered-IsSafe input row seen clock db db' r
            (find_idempotency input.owner_id input.client_request_id seen) missing
            (rw same (inserted_job-JobIsValid input t clock ids)) (commit_rival-SameView rival _)
            (deleted_after_rival row rival db missing) (ground arith)
    ]

pub create-IsSafe :
    (input : CreateIdempotentInput) (bytes : ℕ → RandomBytes) (rival : Option IdempotencyRow)
    (clock : Clock) (ids : FreshIds) (db : Database)
    → IsSafe db (create_idempotent input bytes rival clock ids db).1
unfolding create_idempotent
create-IsSafe input bytes rival clock ids db =
    by_record (find_idempotency input.owner_id input.client_request_id db)
  where
    by_record :
        (o : Option IdempotencyRow) → IsSafe db (create_body input o bytes rival clock ids db).1
    by_record none =
        transaction_from-IsSafe db (commit_rival rival db) _
          (SameView-IsSafe db _ (commit_rival-SameView rival db))
          (λ r db' h. created-IsSafe input bytes rival clock ids db db' r h)
    by_record (some existing) =
        transaction-IsSafe db _
          λ r db' h. rw (original_job-keeps input existing db db' r h) (IsSafe-refl db)
