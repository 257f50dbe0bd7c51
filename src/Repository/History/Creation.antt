-- ===== src/Repository/History/Creation.antt =====
-- createIdempotent over any history: one job for one key. The row of the key carries an expiry of 24
-- hours, which the code writes and never reads.
use qwen_harness_bridge.Repository.History.Records.{original_job_returns, run-Remembers}
use qwen_harness_bridge.Repository.History.Reached.{run-Later}
use qwen_harness_bridge.Repository.Invariant.{IsValid}
use qwen_harness_bridge.Repository.History.{run, Turn, create-IsSafe}
use qwen_harness_bridge.Repository.Progress.Creation.{
  create_job_returns, commit_rival-jobs, create-IsSafe,
}
use qwen_harness_bridge.Repository.ShortId.{RandomBytes}
use qwen_harness_bridge.Repository.{
  Error, transaction, to_job_record, JobRecord, idempotency_conflict,
}
use qwen_harness_bridge.Database.Clock.{Clock, FreshIds, hours}
use qwen_harness_bridge.Database.Tables.{find_idempotency, find_job, has_id}
use qwen_harness_bridge.Repository.Create.{
  commit_rival, original_job, CreateIdempotentInput, register_job, create_idempotent, create_new,
  create_job, delete_job, create_body,
}
use qwen_harness_bridge.Database.{Database, IdempotencyRow, JobRow}
use qwen_harness_bridge.Prelude.{
  ℕ, ◌≡◌, find, Option, arith, Result, some, ok, none, err, inl, inr, ap, refl, find-holds, ◌+◌,
  Result-cases, ==_refl, sym, List, subst, ◌≢◌, ==_iff,
}

-- A job and the record that leads to it.
record IsRegistered (input : CreateIdempotentInput) (r : JobRecord) (db : Database) : Type 0 where
  entry : IdempotencyRow
  job : JobRow
  recorded : find_idempotency input.owner_id input.client_request_id db ≡ some entry
  leads : entry.job_id ≡ r.job_id
  same_digest : entry.request_digest ≡ input.request_digest
  found : find_job r.job_id db ≡ some job

original-IsRegistered :
    (input : CreateIdempotentInput) (x : IdempotencyRow) (db db' : Database) (r : JobRecord)
    → find_idempotency input.owner_id input.client_request_id db ≡ some x
    → original_job input x db ≡ ok (r, db')
    → IsRegistered input r db'
unfolding to_job_record
original-IsRegistered input x db db' r known h =
    let (same, digest, (j, e, shape)) = original_job_returns input x db db' r h in
    let id : j.id ≡ x.job_id =
      unfold find_job in ground (arith, find-holds (has_id x.job_id) db.jobs j e) in
    record {
      entry = x;
      job = j;
      recorded = rw same known;
      leads = ground arith;
      same_digest = digest;
      found = ground arith;
    }

transaction_ok :
    {A : Type 0} (db : Database) (m : Result Error (A × Database)) (a : A) (db' : Database)
    → transaction db m ≡ (ok a, db')
    → m ≡ ok (a, db')
transaction_ok db (ok (b, d)) a db' h = ground arith
transaction_ok db (err e) a db' h = ground arith

IsRegistered-row :
    (input : CreateIdempotentInput) (row : JobRow) (winner : Option IdempotencyRow) (clock : Clock)
    (seen db' : Database) (r : JobRecord)
    → find_idempotency input.owner_id input.client_request_id seen ≡ winner
    → find_job row.id seen ≡ some row
    → register_job input row winner clock seen ≡ ok (r, db')
    → IsRegistered input r db'
unfolding register_job
IsRegistered-row input row none clock seen db' r missing there h =
    let shape : r ≡ to_job_record row = ground arith in
    let id : r.job_id ≡ row.id = rw shape (unfold to_job_record in refl) in
    record {
      entry = record {
        owner_id = input.owner_id;
        client_request_id = input.client_request_id;
        request_digest = input.request_digest;
        job_id = row.id;
        expires_at = clock.now + hours 24;
        created_at = clock.now;
      };
      job = row;
      recorded =
          unfold find_idempotency find in
          ground (arith, ==_refl input.owner_id, ==_refl input.client_request_id);
      leads = sym id;
      same_digest = refl;
      found = rw id (unfold find_job in ground arith);
    }
IsRegistered-row input row (some w) clock seen db' r known there h =
    original-IsRegistered input w (delete_job row.id seen) db' r
      (unfold find_idempotency delete_job in known) h

-- What createIdempotent leaves when it returns.
create-IsRegistered :
    (input : CreateIdempotentInput) (bytes : ℕ → RandomBytes) (rival : Option IdempotencyRow)
    (clock : Clock) (ids : FreshIds) (db db' : Database) (r : JobRecord)
    → create_idempotent input bytes rival clock ids db ≡ (ok r, db')
    → IsRegistered input r db'
unfolding create_idempotent
create-IsRegistered input bytes rival clock ids db db' r h =
    by_record (find_idempotency input.owner_id input.client_request_id db) refl h
  where
    fresh : create_new input bytes rival clock ids db ≡ ok (r, db') → IsRegistered input r db'
    fresh e = elim (Result-cases (create_job input bytes clock ids db)) [
      | inr (x, f) ↦ absurd (unfold create_new in ground arith)
      | inl ((row, with_job), f) ↦
          let (t, _, same, new, shape) =
            create_job_returns input bytes clock ids db with_job row f in
          IsRegistered-row input row _ clock (commit_rival rival with_job) db' r refl
            (unfold find_job find in
              rw (commit_rival-jobs rival with_job, shape, ==_refl row.id) refl)
            (unfold create_new in ground arith)
    ]

    by_record :
        (o : Option IdempotencyRow)
        → find_idempotency input.owner_id input.client_request_id db ≡ o
        → create_body input o bytes rival clock ids db ≡ (ok r, db')
        → IsRegistered input r db'
    by_record none known e = fresh (transaction_ok _ _ r db' (unfold create_body in e))
    by_record (some x) known e =
        let done = transaction_ok db (original_job input x db) r db' (unfold create_body in e) in
        original-IsRegistered input x db db' r known done

-- Once createIdempotent has returned a job on a valid database, the same call, by the same owner under
-- the same client request id, made after any history of calls, changes nothing. With the same request
-- digest it returns the same job, and with another one it throws IDEMPOTENCY_CONFLICT. It holds however
-- late the later call comes, also after the expiry that the idempotency record carries.
pub create_again :
    (input again : CreateIdempotentInput) (bytes bytes' : ℕ → RandomBytes)
    (rival rival' : Option IdempotencyRow) (clock clock' : Clock) (ids ids' : FreshIds)
    (db db' : Database) (r : JobRecord) (ts : List Turn)
    → IsValid db
    → create_idempotent input bytes rival clock ids db ≡ (ok r, db')
    → again.owner_id ≡ input.owner_id
    → again.client_request_id ≡ input.client_request_id
    → (again.request_digest ≡ input.request_digest
        → (r' : JobRecord) × (create_idempotent again bytes' rival' clock' ids' (run ts db')
            ≡ (ok r', run ts db'))
          × (r'.job_id ≡ r.job_id))
      × (again.request_digest ≢ input.request_digest
          → create_idempotent again bytes' rival' clock' ids' (run ts db')
            ≡ (err idempotency_conflict, run ts db'))
create_again input again bytes bytes' rival rival' clock clock' ids ids' db db' r ts v h own req =
    let g = create-IsRegistered input bytes rival clock ids db db' r h in
    let v' : IsValid db' =
      subst IsValid (ap (λ (o : Result Error JobRecord × Database). o.1) h)
        ((create-IsSafe input bytes rival clock ids db).valid v) in
    let known = run-Remembers ts db' input.owner_id input.client_request_id g.entry g.recorded in
    let (k, there, later) = run-Later ts db' r.job_id g.job v' g.found in
    let there' : find_job g.entry.job_id (run ts db') ≡ some k = rw g.leads there in
    let id : k.id ≡ r.job_id =
      unfold find_job in ground (arith, find-holds (has_id r.job_id) (run ts db').jobs k there) in
    let here : find_idempotency again.owner_id again.client_request_id (run ts db') ≡ some g.entry =
      rw (own, req) known in
    unfold create_idempotent create_body in
    rw here (
      (λ same. (
        to_job_record k,
        unfold original_job in
            rw there'
              (ground (arith, ==_iff g.entry.request_digest again.request_digest, g.same_digest)),
        unfold to_job_record in id,
      )),
      λ apart.
          unfold original_job in
          ground (arith, ==_iff g.entry.request_digest again.request_digest, g.same_digest),
    )
