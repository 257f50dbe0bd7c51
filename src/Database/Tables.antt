-- ===== src/Database/Tables.antt =====
-- Reads and writes of single tables, by their keys.
use qwen_harness_bridge.Prelude.{
  ℕ, Bool, ◌&&◌, List, [], ◌∷◌, Option, max, find, modify, ◌==◌, if◌then◌else◌,
}
use qwen_harness_bridge.Database.{
  Key, Database, JobRow, JobEventRow, ApprovalRow, ConnectorRow, IdempotencyRow,
}

-- eq(jobs.id, jobId).
abbrev pub has_id : Key → JobRow → Bool
has_id id j = j.id == id

unfoldable pub find_job : Key → Database → Option JobRow
find_job id db = find (has_id id) db.jobs

unfoldable pub update_job : Key → (JobRow → JobRow) → Database → Database
update_job id f db = record db { jobs = modify (has_id id) f db.jobs }

abbrev pub has_connector_id : Key → ConnectorRow → Bool
has_connector_id id c = c.id == id

unfoldable pub find_connector : Key → Database → Option ConnectorRow
find_connector id db = find (has_connector_id id) db.connectors

abbrev pub has_approval_id : Key → ApprovalRow → Bool
has_approval_id id a = a.id == id

unfoldable pub find_approval : Key → Database → Option ApprovalRow
find_approval id db = find (has_approval_id id) db.approvals

abbrev pub has_key : Key → Key → IdempotencyRow → Bool
has_key owner request r = (r.owner_id == owner) && (r.client_request_id == request)

unfoldable pub find_idempotency : Key → Key → Database → Option IdempotencyRow
find_idempotency owner request db = find (has_key owner request) db.idempotency_records

-- coalesce(max(sequence), 0) over the events of a job.
unfoldable pub max_sequence : Key → List JobEventRow → ℕ
max_sequence id [] = 0
max_sequence id (e ∷ es) =
    let rest = max_sequence id es in if e.job_id == id then max e.sequence rest else rest
