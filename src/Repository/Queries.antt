-- ===== src/Repository/Queries.antt =====
-- job-repository.ts: get, list, events, listPendingApprovals, getPendingApproval and
-- getConnectorHealth, the reads of the repository. Where the database may return rows of equal sort
-- keys in any order, the model takes the order of the table.
pub mod Sorting
pub mod Laws
use qwen_harness_bridge.Database.Tables.{has_id, find_job}
use qwen_harness_bridge.Text.{text_eq}
use qwen_harness_bridge.Database.Clock.{Clock}
use qwen_harness_bridge.Json.{Number, safe_natural, natural}
use qwen_harness_bridge.Repository.{JobRecord, Error, status_text, to_job_record, invalid_limit}
use qwen_harness_bridge.Repository.Approval.{ApprovalRecord, to_approval_record, is_waiting}
use qwen_harness_bridge.Database.{
  JobRow, JobEventRow, ApprovalRow, Key, Database, ConnectorHealth, stale, fresh, offline,
}
use qwen_harness_bridge.JobState.{JobStatus}
use mathlib.Core.Option
use qwen_harness_bridge.Prelude.{
  ℕ, ◌≡◌, Bool, Option, Result, select, List, ltb, some, true, ◌==◌, is_some, false, none, find,
  if◌then◌else◌, ◌&&◌, ◌||◌, ◌∷◌, [], ◌>>=◌, any, or_throw, ok, not, leb, map, take, option_or,
  reverse,
}

-- A row stands before another in the order of the query.
unfoldable pub insert_row {ℓ} : {A : Type ℓ} → (A → A → Bool) → A → List A → List A
insert_row before x [] = x ∷ []
insert_row before x (y ∷ ys) =
    let rest = insert_row before x ys in if before y x then y ∷ rest else x ∷ y ∷ ys

-- order by.
unfoldable pub order_by {ℓ} : {A : Type ℓ} → (A → A → Bool) → List A → List A
order_by before [] = []
order_by before (x ∷ xs) = insert_row before x (order_by before xs)

abbrev pub max_list_limit : ℕ
max_list_limit = 5

in_limit : Option ℕ → Option ℕ
in_limit none = none
in_limit (some n) = if leb 1 n && leb n max_list_limit then some n else none

-- !Number.isSafeInteger(limit) || limit < 1 || limit > MAX_LIST_LIMIT, for `limit ?? MAX_LIST_LIMIT`.
unfoldable pub validate_limit : Option Number → Result Error ℕ
unfolding in_limit
validate_limit limit =
    or_throw (in_limit (safe_natural (option_or limit (natural max_list_limit)))) invalid_limit

-- The job alone, or the job of an owner.
unfoldable pub get_job : Option Key → Key → Database → Option JobRecord
get_job none id db = Option.map to_job_record (find_job id db)
get_job (some owner) id db =
    Option.map to_job_record (find (λ j. has_id id j && (j.owner_id == owner)) db.jobs)

pub record ListJobsInput : Type 0 where
  pub owner_id : Key
  pub status : Option JobStatus
  pub unread_only : Bool
  pub limit : Option Number

-- eq(jobs.status, status).
unfoldable pub same_status : JobStatus → JobStatus → Bool
same_status s t = text_eq (status_text s) (status_text t)

abbrev pub status_matches : Option JobStatus → JobStatus → Bool
status_matches none s = true
status_matches (some t) s = same_status s t

unfoldable pub listed : ListJobsInput → JobRow → Bool
listed input j =
    (j.owner_id == input.owner_id)
    && status_matches input.status j.status
    && (not input.unread_only || j.unread_terminal)

-- desc(updatedAt), asc(id).
unfoldable pub listed_before : JobRow → JobRow → Bool
listed_before i j =
    ltb j.updated_at i.updated_at || ((j.updated_at == i.updated_at) && ltb i.id j.id)

unfoldable pub list_jobs : ListJobsInput → Database → Result Error (List JobRecord)
list_jobs input db = do
  limit ← validate_limit input.limit
  ok (map to_job_record (take limit (order_by listed_before (select (listed input) db.jobs))))

abbrev belongs : Option Key → Key → Database → Bool
belongs owner id db = is_some (get_job owner id db)

unfoldable pub later_event : JobEventRow → JobEventRow → Bool
later_event d e = ltb e.sequence d.sequence

-- The events of a job that is there, the newest first.
unfoldable pub events_of : Option Key → Key → Database → List JobEventRow
events_of owner id db =
    if belongs owner id db
    then order_by later_event (select (λ e. e.job_id == id) db.job_events)
    else []

-- Without an owner the read has no limit; the answer runs from the oldest to the newest.
unfoldable pub read_events :
    Option Key → Key → Option Number → Database → Result Error (List JobEventRow)
read_events none id limit db = ok (reverse (events_of none id db))
read_events (some owner) id limit db = do
  n ← validate_limit limit
  ok (reverse (take n (events_of (some owner) id db)))

-- The conditions on a pending approval and its job, at two readings of the clock.
unfoldable pub is_pending : Key → ApprovalRow → JobRow → Clock → Bool
is_pending owner a j clock =
    (j.owner_id == owner)
    && is_waiting j.status
    && (a.attempt == j.attempt)
    && (a.job_revision == j.revision)
    && not (is_some a.decision)
    && ltb (clock.reading 0) a.expires_at
    && ltb (clock.reading 1) j.expires_at

pub record Pending : Type 0 where
  pub row : ApprovalRow
  pub job : JobRow

pending_with : Key → Clock → ApprovalRow → Option JobRow → List Pending → List Pending
pending_with owner clock a none rest = rest
pending_with owner clock a (some j) rest =
    if is_pending owner a j clock then record { row = a; job = j } ∷ rest else rest

-- The inner join of the approvals with their jobs, as far as the conditions hold.
unfoldable pub pending_rows : Key → Clock → Database → List ApprovalRow → List Pending
unfolding pending_with
pending_rows owner clock db [] = []
pending_rows owner clock db (a ∷ rest) =
    pending_with owner clock a (find_job a.job_id db) (pending_rows owner clock db rest)

-- asc(expiresAt), asc(createdAt).
unfoldable pub ends_before : Pending → Pending → Bool
ends_before p q =
    ltb p.row.expires_at q.row.expires_at
    || ((p.row.expires_at == q.row.expires_at) && ltb p.row.created_at q.row.created_at)

abbrev pub pending_record : Pending → ApprovalRecord
pending_record p = to_approval_record p.row p.job

unfoldable pub list_pending_approvals :
    Key → Option Number → Clock → Database → Result Error (List ApprovalRecord)
list_pending_approvals owner limit clock db = do
  n ← validate_limit limit
  ok (map pending_record (take n (order_by ends_before (pending_rows owner clock db db.approvals))))

-- desc(createdAt).
unfoldable pub created_after : Pending → Pending → Bool
created_after p q = ltb q.row.created_at p.row.created_at

unfoldable pub get_pending_approval : Key → Key → Clock → Database → Option ApprovalRecord
get_pending_approval owner id clock db = Option.map pending_record (
    find (λ p. true)
      (order_by created_after
        (select (λ p. has_id id p.job) (pending_rows owner clock db db.approvals))))

abbrev is_fresh : ConnectorHealth → Bool
is_fresh fresh = true
is_fresh _ = false

abbrev is_stale : ConnectorHealth → Bool
is_stale stale = true
is_stale _ = false

-- The best health of the owner's connectors.
unfoldable pub get_connector_health : Key → Database → ConnectorHealth
get_connector_health owner db =
    let rows = select (λ c. c.owner_id == owner) db.connectors in
    if any (λ c. is_fresh c.health) rows
    then fresh
    else if any (λ c. is_stale c.health) rows
    then stale
    else offline
