-- ===== src/Repository/Create.antt =====
-- job-repository.ts: createIdempotent. The advisory lock keeps other calls for the same key out; a
-- record that some other writer commits between the two statements is the argument `rival`.
use qwen_harness_bridge.JobState.{queued}
use qwen_harness_bridge.Database.Tables.{has_id, find_idempotency, find_job}
use qwen_harness_bridge.Repository.{
  Error, Outcome, JobRecord, queued, transaction, to_job_record, status_text, short_id_exhausted,
  unique_violation, idempotency_conflict, not_found,
}
use qwen_harness_bridge.Database.Clock.{Clock, FreshIds, hours, days}
use qwen_harness_bridge.Text.{Text, text_eq}
use qwen_harness_bridge.Repository.ShortId.{RandomBytes, new_short_id}
use qwen_harness_bridge.Database.{Key, JobRow, IdempotencyRow, Database, Mode, normal}
use qwen_harness_bridge.Prelude.{
  ℕ, Option, Bool, select, none, Result, some, ◌∷◌, not, option_or, suc, ok, false, ◌+◌, ◌>>◌,
  if◌then◌else◌, ◌>>=◌, any, or_throw, guard, ◌==◌, zero, is_some,
}

pub record CreateIdempotentInput : Type 0 where
  pub owner_id : Key
  pub client_request_id : Key
  pub repository_id : Key
  pub request_ciphertext : Key
  pub request_digest : Key
  pub mode : Option Mode

abbrev has_short_id : Text → JobRow → Bool
has_short_id t j = text_eq j.short_id t

-- The row that the insert makes, with the defaults of the columns that it leaves out.
unfoldable pub inserted_job : CreateIdempotentInput → Text → Clock → FreshIds → JobRow
inserted_job input short_id clock ids = record {
  id = ids.job;
  short_id = short_id;
  owner_id = input.owner_id;
  connector_id = none;
  repository_id = input.repository_id;
  request_ciphertext = some input.request_ciphertext;
  request_digest = input.request_digest;
  mode = option_or input.mode normal;
  status = queued;
  current_stage = status_text queued;
  revision = 0;
  cancel_revision = none;
  attempt = 0;
  lease_id = none;
  lease_expires_at = none;
  harness_agent_id = none;
  harness_session_id = none;
  title = none;
  summary = none;
  unread_terminal = false;
  acknowledged_at = none;
  accepted_at = clock.now;
  expires_at = clock.now + hours 24;
  request_delete_at = none;
  retention_delete_at = clock.now + days 30;
  terminal_at = none;
  created_at = clock.now;
  updated_at = clock.now;
}

-- The loop over SHORT_ID_RETRIES: the first drawn short id that no job has.
unfoldable pub free_short_id : ℕ → (ℕ → RandomBytes) → ℕ → Database → Option Text
free_short_id zero bytes attempt db = none
free_short_id (suc tries) bytes attempt db =
    let again = free_short_id tries bytes (suc attempt) db in
    let drawn = new_short_id (bytes attempt) in
    if any (has_short_id drawn) db.jobs then again else some drawn

abbrev pub short_id_retries : ℕ
short_id_retries = 32

unfoldable pub create_job :
    CreateIdempotentInput
    → (ℕ → RandomBytes)
    → Clock
    → FreshIds
    → Database
    → Result Error (JobRow × Database)
create_job input bytes clock ids db = do
  short_id ← or_throw (free_short_id short_id_retries bytes 0 db) short_id_exhausted
  let row = inserted_job input short_id clock ids
  guard (not (any (has_id ids.job) db.jobs)) unique_violation
  ok (row, record db { jobs = row ∷ db.jobs })

-- The job behind a record that was there already.
unfoldable pub original_job :
    CreateIdempotentInput → IdempotencyRow → Database → Result Error (JobRecord × Database)
original_job input existing db = do
  guard (existing.request_digest == input.request_digest) idempotency_conflict
  original ← or_throw (find_job existing.job_id db) not_found
  ok (to_job_record original, db)

-- delete from jobs where id.
unfoldable pub delete_job : Key → Database → Database
delete_job id db = record db { jobs = select (λ j. not (has_id id j)) db.jobs }

-- A record under a key that is taken cannot have been committed.
unfoldable pub commit_rival : Option IdempotencyRow → Database → Database
commit_rival none db = db
commit_rival (some r) db =
    if is_some (find_idempotency r.owner_id r.client_request_id db)
    then db
    else record db { idempotency_records = r ∷ db.idempotency_records }

-- insert into idempotency_records … on conflict do nothing, and what follows from a conflict.
unfoldable pub register_job :
    CreateIdempotentInput
    → JobRow
    → Option IdempotencyRow
    → Clock
    → Database
    → Result Error (JobRecord × Database)
register_job input created none clock db = ok (
  to_job_record created,
  record db {
    idempotency_records =
        record {
          owner_id = input.owner_id;
          client_request_id = input.client_request_id;
          request_digest = input.request_digest;
          job_id = created.id;
          expires_at = clock.now + hours 24;
          created_at = clock.now;
        }
        ∷ db.idempotency_records;
  },
)
register_job input created (some winner) clock db =
    original_job input winner (delete_job created.id db)

unfoldable pub create_new :
    CreateIdempotentInput
    → (ℕ → RandomBytes)
    → Option IdempotencyRow
    → Clock
    → FreshIds
    → Database
    → Result Error (JobRecord × Database)
create_new input bytes rival clock ids db = do
  (created, with_job) ← create_job input bytes clock ids db
  let seen = commit_rival rival with_job
  register_job input created (find_idempotency input.owner_id input.client_request_id seen) clock
      seen

-- A rival that has committed stays when this transaction is rolled back.
unfoldable pub create_body :
    CreateIdempotentInput
    → Option IdempotencyRow
    → (ℕ → RandomBytes)
    → Option IdempotencyRow
    → Clock
    → FreshIds
    → Database
    → Outcome JobRecord
create_body input (some existing) bytes rival clock ids db =
    transaction db (original_job input existing db)
create_body input none bytes rival clock ids db =
    transaction (commit_rival rival db) (create_new input bytes rival clock ids db)

unfoldable pub create_idempotent :
    CreateIdempotentInput
    → (ℕ → RandomBytes)
    → Option IdempotencyRow
    → Clock
    → FreshIds
    → Database
    → Outcome JobRecord
unfolding create_new create_body commit_rival
create_idempotent input bytes rival clock ids db =
    create_body input (find_idempotency input.owner_id input.client_request_id db) bytes rival clock
      ids db
