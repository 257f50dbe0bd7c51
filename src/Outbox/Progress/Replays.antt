-- ===== src/Outbox/Progress/Replays.antt =====
-- The replay of a connector's messages, the messages that others enqueue, and the health of connectors.
use qwen_harness_bridge.Outbox.Progress.Claims.{replace_message-IsQuiet}
use qwen_harness_bridge.Outbox.Progress.Writes.{modify_connectors-IsQuiet, enqueue_message-IsQuiet}
use qwen_harness_bridge.Text.{Text}
use qwen_harness_bridge.Outbox.Messages.{Supply}
use qwen_harness_bridge.Outbox.Progress.{
  IsSound, IsQuiet-IsSound, IsQuiet, inr, arith, IsQuiet-refl, inl, IsQuiet-trans, suc,
}
use qwen_harness_bridge.Outbox.{
  ConnectorIdentity, StoreError, Text, ok, lock_connector, store_transaction, Option, true, err,
}
use qwen_harness_bridge.Outbox.Replay.{
  replace_candidate, refresh_health, pending_server_messages, replace_candidates, enqueue_server,
  tombstone_replay_batch, tombstone_candidates, refresh_row, enqueue_for, replay_pending,
}
use qwen_harness_bridge.Database.{Database, ConnectorMessageRow, Time, Key, CommandPayload}
use qwen_harness_bridge.Prelude.{
  ℕ, ◌≡◌, Result, List, Result-cases, ok, Option, true, arith, inr, err, inl, ◌∷◌, refl, option_or,
  ◌+◌, suc, [],
}

replace_candidate-IsQuiet :
    (seen : Database) (m : ConnectorMessageRow) (now : Time) (s : Supply) (k : ℕ)
    (db db' : Database)
    → replace_candidate seen m now s k db ≡ ok db'
    → IsQuiet db db'
unfolding replace_candidate
replace_candidate-IsQuiet seen m now s k db db' h = replace_message-IsQuiet m _ _ _ now s k db db' h

replace_candidates-IsQuiet :
    (seen : Database) (ms : List ConnectorMessageRow) (now : Time) (s : Supply) (k : ℕ)
    (db db' : Database)
    → replace_candidates seen ms now s k db ≡ ok db'
    → IsQuiet db db'
unfolding replace_candidates
replace_candidates-IsQuiet seen [] now s k db db' h =
    let same : db' ≡ db = ground arith in rw same (IsQuiet-refl db)
replace_candidates-IsQuiet seen (m ∷ ms) now s k db db' h =
    elim (Result-cases (replace_candidate seen m now s k db)) [
      | inr (e, failed) ↦ absurd (ground arith)
      | inl (mid, replaced) ↦
          IsQuiet-trans db mid db' (replace_candidate-IsQuiet seen m now s k db mid replaced)
            (replace_candidates-IsQuiet seen ms now s (suc k) mid db' (ground arith))
    ]

pub tombstone_batch-IsQuiet :
    (id : Key) (after : ℕ) (now : Time) (s : Supply) (k : ℕ) (db db' : Database)
    → tombstone_replay_batch id after now s k db ≡ ok db'
    → IsQuiet db db'
unfolding tombstone_replay_batch
tombstone_batch-IsQuiet id after now s k db db' h =
    replace_candidates-IsQuiet db (tombstone_candidates id after now db) now s k db db' h

-- A transaction of the store is sound if its body is where it returns.
pub store_transaction-IsSound :
    {A : Type 0} (db : Database) (m : Result StoreError (A × Database))
    → ((a : A) (db' : Database) → m ≡ ok (a, db') → IsSound db db')
    → IsSound db (store_transaction db m).1
store_transaction-IsSound db (ok (a, db')) h = h a db' refl
store_transaction-IsSound db (err e) h = IsQuiet-IsSound db db (IsQuiet-refl db)

pub pending-IsSound :
    (identity : ConnectorIdentity) (after : ℕ) (s : Supply) (db : Database)
    → IsSound db (pending_server_messages identity after s db).1
unfolding pending_server_messages replay_pending
pending-IsSound identity after s db =
    store_transaction-IsSound db (replay_pending identity after s db) λ rows db' h.
      elim (Result-cases (lock_connector db identity)) [
        | inr (e, failed) ↦ absurd (ground arith)
        | inl (c, locked) ↦
            IsQuiet-IsSound db db'
              (tombstone_batch-IsQuiet c.id after (s.clock.reading 0) s 0 db db' (ground arith))
      ]

pub enqueue_server-IsSound :
    (identity : ConnectorIdentity) (type : Text) (payload : CommandPayload)
    (expires_at : Option Time) (correlation : Option Key) (s : Supply) (db : Database)
    → IsSound db (enqueue_server identity type payload expires_at correlation s db).1
unfolding enqueue_server enqueue_for
enqueue_server-IsSound identity type payload expires_at correlation s db =
    store_transaction-IsSound db (enqueue_for identity type payload expires_at correlation s db)
      λ row db' h. elim (Result-cases (lock_connector db identity)) [
        | inr (e, failed) ↦ absurd (ground arith)
        | inl (c, locked) ↦ IsQuiet-IsSound db db' (
            enqueue_message-IsQuiet c.id type (λ n. payload)
              (option_or expires_at (s.clock.reading 0 + 60000))
              (option_or correlation (s.ids 0).command_correlation) s 0 db db' row (ground arith))
      ]

pub refresh_health-IsSound : (now : Time) (db : Database) → IsSound db (refresh_health now db)
unfolding refresh_health
refresh_health-IsSound now db = IsQuiet-IsSound db _ (
    modify_connectors-IsQuiet (λ c. true) (refresh_row now) db
      (λ c. unfold refresh_row in ground arith) (λ c. unfold refresh_row in ground arith))

pub store_transaction-returned :
    {A : Type 0} (db db' : Database) (m : Result StoreError (A × Database)) (a : A)
    → store_transaction db m ≡ (ok a, db')
    → m ≡ ok (a, db')
store_transaction-returned db db' (ok (b, mid)) a h = ground arith
store_transaction-returned db db' (err e) a h = absurd (ground arith)
