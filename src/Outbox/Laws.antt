-- ===== src/Outbox/Laws.antt =====
-- What the operations of the store promise a connector, one by one.
pub mod Places
pub mod InOrder
pub mod Dispatched
pub mod Replayed
pub mod Materialized
use qwen_harness_bridge.Outbox.Progress.Repeats.{accept_duplicate-IsQuiet}
use qwen_harness_bridge.Json.{max_safe_integer}
use qwen_harness_bridge.Database.Tables.{find_job}
use qwen_harness_bridge.Database.{Database, ConnectorRow, ConnectorMessageRow, Key}
use qwen_harness_bridge.Outbox.Admission.{admit}
use qwen_harness_bridge.Outbox.Messages.{Supply}
use qwen_harness_bridge.Outbox.{
  Filters, ConnectorIdentity, ClientMessage, Database, lock_connector, ok, find_job,
  max_safe_integer, err, store_error, leb, client_replay_mismatch, client_sequence_gap, Result,
  StoreError, store_transaction,
}
use qwen_harness_bridge.Outbox.Accept.{
  accept_client_message, accept, accept_locked, accept_new, is_message,
}
use qwen_harness_bridge.Prelude.{
  ℕ, ◌≡◌, none, some, [], ◌∷◌, find, ok, ◌<◌, ◌≤◌, ◌+◌, suc, err, if◌then◌else◌, leb, bind-eq-ok,
  arith, Result, refl,
}

store_transaction-keeps :
    {A : Type 0} (k : Key) (db : Database) (m : Result StoreError (A × Database))
    → ((a : A) (db' : Database) → m ≡ ok (a, db') → find_job k db' ≡ find_job k db)
    → find_job k (store_transaction db m).1 ≡ find_job k db
store_transaction-keeps k db (ok (a, db')) h = h a db' refl
store_transaction-keeps k db (err e) h = refl

-- Whatever comes of a message whose identifier is stored for the connector already, no job changes.
pub repeat_keeps_jobs :
    (f : Filters) (identity : ConnectorIdentity) (message : ClientMessage) (s : Supply)
    (db : Database) (m : ConnectorMessageRow)
    → find (is_message identity.connector_id message.message_id) db.connector_messages ≡ some m
    → (k : Key) → find_job k (accept_client_message f identity message s db).1 ≡ find_job k db
unfolding accept_client_message accept
repeat_keeps_jobs f identity message s db m known k =
    store_transaction-keeps k db (accept f identity message s db) λ a db' h.
      let (c, locked, goes) = bind-eq-ok (lock_connector db identity) _ h in
      (accept_duplicate-IsQuiet f identity.connector_id message m s db db' a
          (unfold accept_locked in ground arith)).jobs
        k
