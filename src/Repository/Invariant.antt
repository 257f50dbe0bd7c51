-- ===== src/Repository/Invariant.antt =====
-- What holds of the database between two calls of the repository.
pub mod Logs
pub mod Writes
use qwen_harness_bridge.Repository.Commands.{is_server}
use qwen_harness_bridge.Repository.{max_integer}
use qwen_harness_bridge.JobState.{is_terminal}
use qwen_harness_bridge.Database.Tables.{find_job, find_connector}
use qwen_harness_bridge.Database.{
  Key, Database, JobRow, JobEventRow, ConnectorMessageRow, ConnectorRow, server,
}
use qwen_harness_bridge.Prelude.{
  ℕ, ◌≡◌, Option, List, some, is_some, ◌∷◌, ◌<◌, if◌then◌else◌, ◌≤◌, suc, [], none, ◌==◌, true,
  length, false, ◌&&◌,
}

abbrev pub CancelBound : Option ℕ → ℕ → Type 0
CancelBound none n = Unit
CancelBound (some r) n = r ≤ n

-- A job has its end times exactly when its status is terminal; only a terminal job is unread or
-- acknowledged, and never both.
pub record JobIsValid (j : JobRow) : Type 0 where
  pub ended : is_some j.terminal_at ≡ is_terminal j.status
  pub deletion : is_some j.request_delete_at ≡ is_terminal j.status
  pub unread : j.unread_terminal ≡ true → is_terminal j.status ≡ true
  pub acknowledged : is_some j.acknowledged_at ≡ true → is_terminal j.status ≡ true
  pub read : is_some j.acknowledged_at ≡ true → j.unread_terminal ≡ false
  pub cancel_bound : CancelBound j.cancel_revision j.revision
  pub fits : j.revision ≤ max_integer

-- The sequences of the events of a job, the newest first.
unfoldable pub sequences : Key → List JobEventRow → List ℕ
sequences id [] = []
sequences id (e ∷ es) =
    let rest = sequences id es in if e.job_id == id then e.sequence ∷ rest else rest

-- n, n - 1, …, 1.
abbrev pub IsDense : List ℕ → Type 0
IsDense [] = Unit
IsDense (x ∷ xs) = (x ≡ suc (length xs)) × IsDense xs

-- The sequences of the messages to a connector, the newest first.
unfoldable pub server_sequences : Key → List ConnectorMessageRow → List ℕ
server_sequences id [] = []
server_sequences id (m ∷ ms) =
    let rest = server_sequences id ms in
    if (m.connector_id == id) && is_server m.direction then m.sequence ∷ rest else rest

-- Strictly falling, and below the bound.
abbrev pub Below : ℕ → List ℕ → Type 0
Below n [] = Unit
Below n (x ∷ xs) = (x < n) × Below x xs

pub record IsValid (db : Database) : Type 0 where
  pub jobs : (id : Key) (j : JobRow) → find_job id db ≡ some j → JobIsValid j
  pub events : (id : Key) → IsDense (sequences id db.job_events)
  pub messages :
      (id : Key) (c : ConnectorRow)
      → find_connector id db ≡ some c
      → Below (suc c.last_server_sequence) (server_sequences id db.connector_messages)
