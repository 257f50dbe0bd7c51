-- ===== src/Outbox/History.antt =====
-- The store of the connectors and the job repository at work on one database, in any interleaving of
-- their transactions.
pub mod Reached
pub mod Once
use qwen_harness_bridge.Outbox.Progress.Replays.{
  pending-IsSound, enqueue_server-IsSound, refresh_health-IsSound,
}
use qwen_harness_bridge.Outbox.Progress.Dispatches.{dispatch-IsSound}
use qwen_harness_bridge.Outbox.Replay.{pending_server_messages, enqueue_server, refresh_health}
use qwen_harness_bridge.Outbox.Progress.Acceptances.{accept-IsLawful}
use qwen_harness_bridge.Outbox.Dispatch.{dispatch_next}
use qwen_harness_bridge.Text.{Text}
use qwen_harness_bridge.Outbox.Accept.{accept_client_message}
use qwen_harness_bridge.Outbox.Progress.{IsSound, IsSafe-IsSound, IsLawful, IsSound-IsLawful}
use qwen_harness_bridge.Database.{Database, Key, CommandPayload, Time}
use qwen_harness_bridge.Outbox.{Filters, ConnectorIdentity, ClientMessage, Text, Bool, Option}
use qwen_harness_bridge.Repository.History.{Call, serve, serve-IsSafe}
use qwen_harness_bridge.Outbox.Messages.{Supply}
use qwen_harness_bridge.Prelude.{ℕ, ◌≡◌, All, List, ◌∷◌, Bool, Option, []}

-- One transaction, with what the database server and the caller supply to it.
pub data Act : Type 0 where
  calls : Call → Act
  accepts : Filters → ConnectorIdentity → ClientMessage → Act
  dispatches : ConnectorIdentity → Text → (Key → Bool) → Act
  replays : ConnectorIdentity → ℕ → Act
  enqueues : ConnectorIdentity → Text → CommandPayload → Option Time → Option Key → Act
  refreshes : Time → Act

pub record Transaction : Type 0 where
  pub act : Act
  pub supply : Supply

-- The database after a transaction, whether it was committed or rolled back.
unfoldable pub commit : Act → Supply → Database → Database
commit (calls c) s db = serve c s.clock (s.ids 0) db
commit (accepts f identity message) s db = (accept_client_message f identity message s db).1
commit (dispatches identity lease is_locked) s db = (dispatch_next identity lease is_locked s db).1
commit (replays identity after) s db = (pending_server_messages identity after s db).1
commit (enqueues identity type payload expires_at correlation) s db =
    (enqueue_server identity type payload expires_at correlation s db).1
commit (refreshes now) s db = refresh_health now db

unfoldable pub commit_all : List Transaction → Database → Database
commit_all [] db = db
commit_all (t ∷ ts) db = commit_all ts (commit t.act t.supply db)

pub commit-IsLawful : (a : Act) (s : Supply) (db : Database) → IsLawful db (commit a s db)
unfolding commit
commit-IsLawful (calls c) s db =
    IsSound-IsLawful db _ (IsSafe-IsSound db _ (serve-IsSafe c s.clock (s.ids 0) db))
commit-IsLawful (accepts f identity message) s db = accept-IsLawful f identity message s db
commit-IsLawful (dispatches identity lease is_locked) s db =
    IsSound-IsLawful db _ (dispatch-IsSound identity lease is_locked s db)
commit-IsLawful (replays identity after) s db =
    IsSound-IsLawful db _ (pending-IsSound identity after s db)
commit-IsLawful (enqueues identity type payload expires_at correlation) s db =
    IsSound-IsLawful db _ (enqueue_server-IsSound identity type payload expires_at correlation s db)
commit-IsLawful (refreshes now) s db = IsSound-IsLawful db _ (refresh_health-IsSound now db)
