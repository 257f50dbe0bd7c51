-- ===== src/Outbox/History/Once.antt =====
-- The client sequences of a connector over an interleaving.
use qwen_harness_bridge.Outbox.Progress.Replays.{store_transaction-returned}
use qwen_harness_bridge.Outbox.Progress.Consumption.{lock_connector-found, admit-next}
use qwen_harness_bridge.Outbox.Progress.Acceptances.{Accepts, accept_new_goes, accept_new-sequence}
use qwen_harness_bridge.Outbox.Answer.{Acceptance}
use qwen_harness_bridge.Outbox.Progress.{Rises, Rises-trans}
use qwen_harness_bridge.Outbox.Messages.{Supply}
use qwen_harness_bridge.Database.{Database}
use qwen_harness_bridge.Outbox.{
  Filters, ConnectorIdentity, Database, ClientMessage, ok, StoreError, err,
}
use qwen_harness_bridge.Outbox.History.{
  commit_all, List, Filters, Transaction, Supply, commit, commit-IsLawful,
}
use qwen_harness_bridge.Outbox.Accept.{
  accept_client_message, accept, accept_locked, is_message, accept_new,
}
use qwen_harness_bridge.Prelude.{
  ◌≡◌, [], ◌∷◌, none, List, arith, find, ok, ◌≤◌, err, Result-cases, inr, inl, suc,
}

commit_all-Rises : (ts : List Transaction) (db : Database) → Rises db (commit_all ts db)
unfolding commit_all
commit_all-Rises [] db k d h = (d, h, omega arith)
commit_all-Rises (t ∷ ts) db k d h =
    Rises-trans db (commit t.act t.supply db) (commit_all ts (commit t.act t.supply db))
      ((commit-IsLawful t.act t.supply db).rises) (commit_all-Rises ts (commit t.act t.supply db)) k
      d h

pub accepted_as_new :
    (f : Filters) (identity : ConnectorIdentity) (message : ClientMessage) (s : Supply)
    (db db' : Database) (a : Acceptance)
    → find (is_message identity.connector_id message.message_id) db.connector_messages ≡ none
    → accept f identity message s db ≡ ok (a, db')
    → accept_new f identity message s db ≡ ok (a, db')
unfolding accept accept_locked
accepted_as_new f identity message s db db' a new h = ground arith

-- Once a message that was not stored before has been accepted from a connector, no other message of it
-- under the same or an earlier sequence is accepted any more, whatever transactions of the store and
-- of the repository come between, unless its identifier is that of a stored message: it is refused with
-- an error, and the database stays as it is.
pub accepted_once :
    (f : Filters) (identity : ConnectorIdentity) (message again : ClientMessage) (s s' : Supply)
    (db db' : Database) (a : Acceptance) (ts : List Transaction)
    → find (is_message identity.connector_id message.message_id) db.connector_messages ≡ none
    → accept_client_message f identity message s db ≡ (ok a, db')
    → again.sequence ≤ message.sequence
    → find
        (is_message identity.connector_id again.message_id)
        (commit_all ts db').connector_messages
      ≡ none
    → (e : StoreError) × (accept_client_message f identity again s' (commit_all ts db')
        ≡ (err e, commit_all ts db'))
unfolding accept_client_message
accepted_once f identity message again s s' db db' a ts new h older unknown =
    let late : Database = commit_all ts db' in
    elim (Result-cases (accept f identity again s' late)) [
      | inr (e, refused) ↦ (e, ground arith)
      | inl ((b, after), taken) ↦
          let t : Accepts f identity again s' late after b =
            accept_new_goes f identity again s' late after b
              (accepted_as_new f identity again s' late after b unknown taken) in
          let (locked, name) = lock_connector-found late identity t.connector t.locked in
          let (c, before, rises) =
            commit_all-Rises ts db' identity.connector_id t.connector locked in
          let first : c.last_client_sequence ≡ message.sequence =
            accept_new-sequence f identity message s db db' a c
              (accepted_as_new f identity message s db db' a new
                (store_transaction-returned db db' (accept f identity message s db) a h))
              before in
          let next : again.sequence ≡ suc t.connector.last_client_sequence =
            admit-next again _ _ t.connector (s'.clock.reading 0) late t.acknowledged t.admitted in
          absurd (omega (arith, first, next, rises, older))
    ]
