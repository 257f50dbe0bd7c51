-- ===== src/Outbox/Laws/InOrder.antt =====
-- outbox.ts: acceptClientMessage, the order in which the messages of a connector are accepted.
use qwen_harness_bridge.Outbox.Progress.Consumption.{lock_connector-found, admit-next}
use qwen_harness_bridge.Outbox.History.Once.{accepted_as_new}
use qwen_harness_bridge.Outbox.Progress.Acceptances.{accept_new_goes, accept_new-reached}
use qwen_harness_bridge.Outbox.Profile.{is_durable}
use qwen_harness_bridge.Outbox.Answer.{Acceptance}
use qwen_harness_bridge.Database.Tables.{find_connector}
use qwen_harness_bridge.Outbox.Messages.{Supply}
use qwen_harness_bridge.Database.{Database, ConnectorRow, Time, ConnectorMessageRow}
use qwen_harness_bridge.Outbox.Accept.{accept_client_message, is_message, accept}
use qwen_harness_bridge.Outbox.Admission.{admit}
use qwen_harness_bridge.Outbox.{
  lock_connector, validate_connector, Filters, ClientMessage, Database, ConnectorIdentity, Bool, ok,
  Option, find_connector, StoreError, err,
}
use qwen_harness_bridge.Prelude.{
  ◌≡◌, none, some, true, Bool, find, ok, Option-cases, Option, inl, err, ◌<◌, arith, ◌⊎◌, ◌≤◌, ◌+◌,
  inr, suc, Result-cases,
}

lock_connector-owner :
    (db : Database) (identity : ConnectorIdentity) (c : ConnectorRow)
    → lock_connector db identity ≡ ok c
    → c.owner_id ≡ identity.owner_id
unfolding lock_connector validate_connector
lock_connector-owner db identity c h =
    elim (Option-cases (find_connector identity.connector_id db)) [
      | inl missing ↦ absurd (ground arith)
      | inr (d, found) ↦ ground arith
    ]

admit-deadline :
    (message : ClientMessage) (durable coordination : Bool) (c : ConnectorRow) (now : Time)
    (db : Database) (o : Option ConnectorMessageRow)
    → admit message durable coordination c now db ≡ ok o
    → (now < message.expires_at) × (durable ≡ true → message.expires_at ≤ now + 60000)
unfolding admit
admit-deadline message durable coordination c now db o h = (ground arith, λ d. ground arith)

-- A message whose identifier is not stored for the connector yet has one of two outcomes. Either an error
-- is answered and the database stays as it is. Or the message is accepted: then the connector stands in
-- the database under the identifier and the owner of the identity, the message carries the sequence that
-- follows the connector's last one and comes before its deadline, which is at most a minute off if the
-- connector has durable receipts among its capabilities (for a hello, among those that it
-- names); and afterwards the connector stands at the message's sequence.
pub accepted_in_order :
    (f : Filters) (identity : ConnectorIdentity) (message : ClientMessage) (s : Supply)
    (db : Database)
    → find (is_message identity.connector_id message.message_id) db.connector_messages ≡ none
    → ((e : StoreError) × (accept_client_message f identity message s db ≡ (err e, db)))
      ⊎ ((a : Acceptance) × (db' : Database) × (c : ConnectorRow) × (d : ConnectorRow)
          × (accept_client_message f identity message s db ≡ (ok a, db'))
          × ((find_connector identity.connector_id db ≡ some c)
              × (c.owner_id ≡ identity.owner_id)
              × (message.sequence ≡ suc c.last_client_sequence))
          × ((s.clock.reading 0 < message.expires_at)
              × (is_durable message.body c ≡ true → message.expires_at ≤ s.clock.reading 0 + 60000))
          × (find_connector identity.connector_id db' ≡ some d)
          × (d.last_client_sequence ≡ message.sequence))
unfolding accept_client_message
accepted_in_order f identity message s db new =
    elim (Result-cases (accept f identity message s db)) [
      | inr (e, refused) ↦ inl (e, ground arith)
      | inl ((a, db'), taken) ↦
          let t =
            accept_new_goes f identity message s db db' a
              (accepted_as_new f identity message s db db' a new taken) in
          let (locked, name) = lock_connector-found db identity t.connector t.locked in
          let (d, last, stands) = accept_new-reached f identity message s db db' a t in
          inr (
            a,
            db',
            t.connector,
            d,
            ground arith,
            (
              locked,
              lock_connector-owner db identity t.connector t.locked,
              admit-next message _ _ t.connector _ db t.acknowledged t.admitted,
            ),
            admit-deadline message _ _ t.connector _ db t.acknowledged t.admitted,
            last,
            stands,
          )
    ]
