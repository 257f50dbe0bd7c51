-- ===== src/Outbox/Progress/Consumption.antt =====
-- The consumption of a client sequence.
use mathlib.Core.Option
use qwen_harness_bridge.Outbox.Progress.{Rises, inl, inr}
use qwen_harness_bridge.Outbox.Progress.Writes.{modify_connectors-IsValid}
use qwen_harness_bridge.Repository.Progress.Clients.{Clients}
use qwen_harness_bridge.Repository.Invariant.{IsValid}
use qwen_harness_bridge.Outbox.Profile.{is_coordinated}
use qwen_harness_bridge.Database.{Database, ConnectorRow, Time, Key, ConnectorMessageRow}
use qwen_harness_bridge.Outbox.Answer.{consume_row}
use qwen_harness_bridge.Database.Tables.{find_connector, find_job, has_connector_id}
use qwen_harness_bridge.Outbox.Admission.{admit}
use qwen_harness_bridge.Outbox.Accept.{consumed}
use qwen_harness_bridge.Outbox.{
  Filters, lock_connector, ClientMessage, validate_connector, Bool, ConnectorRow, Database,
  ConnectorIdentity, Option, ok, false,
}
use qwen_harness_bridge.Prelude.{
  ◌≡◌, some, Bool, ok, suc, Option, find, Option-cases, ◌==◌, false, arith, Bool-cases, inl, sym,
  refl, modify, find-modify_self, inr, ==_iff, find-modify_other, ◌∙◌, subst, ap, find-holds,
}

pub lock_connector-found :
    (db : Database) (identity : ConnectorIdentity) (c : ConnectorRow)
    → lock_connector db identity ≡ ok c
    → (find_connector identity.connector_id db ≡ some c) × (c.id ≡ identity.connector_id)
unfolding lock_connector validate_connector find_connector
lock_connector-found db identity c h =
    elim (Option-cases (find (has_connector_id identity.connector_id) db.connectors)) [
      | inl missing ↦ absurd (ground arith)
      | inr (d, found) ↦
          let same : d ≡ c = ground arith in
          let there : find (has_connector_id identity.connector_id) db.connectors ≡ some c =
            found ∙ ap some same in
          (
            there,
            (==_iff c.id identity.connector_id).0
                (find-holds (has_connector_id identity.connector_id) db.connectors c there),
          )
    ]

pub admit-next :
    (message : ClientMessage) (durable coordination : Bool) (c : ConnectorRow) (now : Time)
    (db : Database) (o : Option ConnectorMessageRow)
    → admit message durable coordination c now db ≡ ok o
    → message.sequence ≡ suc c.last_client_sequence
unfolding admit
admit-next message durable coordination c now db o h = ground arith

pub consumed-sequence :
    (f : Filters) (message : ClientMessage) (c d : ConnectorRow) (now : Time) (db : Database)
    → find_connector c.id (consumed f message c now db) ≡ some d
    → (e : ConnectorRow) × (find_connector c.id db ≡ some e)
      × (d.last_client_sequence ≡ message.sequence)
unfolding find_connector consumed consume_row
consumed-sequence f message c d now db h =
    let step : ConnectorRow → ConnectorRow =
      consume_row f message (is_coordinated message.body c) c now in
    let read : find (has_connector_id c.id) (modify (has_connector_id c.id) step db.connectors)
        ≡ Option.map step (find (has_connector_id c.id) db.connectors) =
      find-modify_self (has_connector_id c.id) step (λ x g. ground arith) db.connectors in
    elim (Option-cases (find (has_connector_id c.id) db.connectors)) [
      | inl missing ↦ absurd (ground arith)
      | inr (e, found) ↦ (e, found, ground arith)
    ]

pub consumed-reached :
    (f : Filters) (message : ClientMessage) (c e : ConnectorRow) (now : Time) (db : Database)
    → find_connector c.id db ≡ some e
    → (d : ConnectorRow) × (find_connector c.id (consumed f message c now db) ≡ some d)
      × (d.last_client_sequence ≡ message.sequence)
unfolding find_connector consumed consume_row
consumed-reached f message c e now db h =
    let step : ConnectorRow → ConnectorRow =
      consume_row f message (is_coordinated message.body c) c now in
    (
      step e,
      find-modify_self (has_connector_id c.id) step (λ x g. ground arith) db.connectors
          ∙ ap (Option.map step) h,
      ground arith,
    )

consumed_other :
    (f : Filters) (message : ClientMessage) (c d : ConnectorRow) (now : Time) (db : Database)
    (k : Key)
    → (c.id == k) ≡ false
    → find_connector k (consumed f message c now db) ≡ some d
    → find_connector k db ≡ some d
unfolding find_connector consumed consume_row
consumed_other f message c d now db k apart h =
    sym (
      find-modify_other (has_connector_id c.id) (has_connector_id k)
        (consume_row f message (is_coordinated message.body c) c now)
        (λ x g. ground (arith, (==_iff x.id c.id).0 g))
        (λ x g. ground (arith, (==_iff x.id c.id).0 g)) db.connectors)
    ∙ h

pub consumed-Rises :
    (f : Filters) (message : ClientMessage) (c : ConnectorRow) (now : Time) (db worked : Database)
    → find_connector c.id db ≡ some c
    → message.sequence ≡ suc c.last_client_sequence
    → Clients db worked
    → Rises worked (consumed f message c now worked)
consumed-Rises f message c now db worked found next kept k d h = elim (Bool-cases (c.id == k)) [
  | inl same ↦
      let key : c.id ≡ k = (==_iff c.id k).0 same in
      let (e, there, taken) = consumed-sequence f message c d now worked (
        subst (λ (i : Key). find_connector i (consumed f message c now worked) ≡ some d) (sym key)
          h) in
      let (b, before, sequence) = kept.0 c.id e there in
      let one : b ≡ c = ground (arith, before, found) in
      (
        e,
        subst (λ (i : Key). find_connector i worked ≡ some e) key there,
        ground (arith, one, sequence, taken, next),
      )
  | inr apart ↦ (d, consumed_other f message c d now worked k apart h, omega arith)
]

pub consumed-keeps :
    (f : Filters) (message : ClientMessage) (c : ConnectorRow) (now : Time) (db : Database)
    → (IsValid db → IsValid (consumed f message c now db))
      × ((k : Key) → find_job k (consumed f message c now db) ≡ find_job k db)
unfolding consumed find_job
consumed-keeps f message c now db = (
  modify_connectors-IsValid (has_connector_id c.id)
      (consume_row f message (is_coordinated message.body c) c now) db
      (λ d. unfold consume_row in ground arith),
  λ k. refl,
)
