-- ===== src/Outbox/Accept.antt =====
-- outbox.ts: acceptClientMessage.
use qwen_harness_bridge.Outbox.Repeats.{accept_duplicate}
use qwen_harness_bridge.Outbox.Business.{is_historical_claim, settle, apply_business}
use qwen_harness_bridge.Outbox.Admission.{admit, store_client_message, client_row}
use qwen_harness_bridge.Outbox.Profile.{locked_job, is_durable, is_coordinated}
use qwen_harness_bridge.Outbox.Answer.{Acceptance, consume_row, answer}
use qwen_harness_bridge.Database.Tables.{has_connector_id}
use qwen_harness_bridge.Outbox.Messages.{Supply}
use qwen_harness_bridge.Outbox.{
  ClientMessage, Filters, ConnectorIdentity, StoreError, StoreOutcome, store_transaction,
  lock_connector, Option, some, Bool,
}
use qwen_harness_bridge.Database.{Database, ConnectorRow, Time, Key, ConnectorMessageRow}
use qwen_harness_bridge.Prelude.{
  Result, modify, ◌>>=◌, ◌||◌, is_some, find, Option, some, Bool, ◌==◌, ◌&&◌, none,
}

-- The update of the connector's row.
unfoldable pub consumed : Filters → ClientMessage → ConnectorRow → Time → Database → Database
consumed f message connector now db = record db {
  connectors =
      modify (has_connector_id connector.id)
        (consume_row f message (is_coordinated message.body connector) connector now) db.connectors;
}

unfoldable pub accept_new :
    Filters
    → ConnectorIdentity
    → ClientMessage
    → Supply
    → Database
    → Result StoreError (Acceptance × Database)
accept_new f identity message s db = do
  let job = locked_job db identity message.body
  let now = s.clock.reading 0
  connector ← lock_connector db identity
  let durable = is_durable message.body connector
  let coordination = is_coordinated message.body connector
  acknowledged ← admit message durable coordination connector now db
  received ← store_client_message (client_row f message durable coordination connector s) db
  let excused = is_some job || is_historical_claim identity message.body durable job now received
  (business, worked) ← settle durable coordination excused received (
      apply_business f identity message message.body job acknowledged durable coordination s
        received)
  answer message business job durable coordination connector s
      (consumed f message connector now worked)

unfoldable pub is_message : Key → Key → ConnectorMessageRow → Bool
is_message connector_id message_id m =
    (m.connector_id == connector_id) && (m.message_id == message_id)

-- A message that was stored before is answered from its receipt.
unfoldable pub accept_locked :
    Filters
    → ConnectorIdentity
    → ClientMessage
    → Option ConnectorMessageRow
    → Supply
    → Database
    → Result StoreError (Acceptance × Database)
accept_locked f identity message none s db = accept_new f identity message s db
accept_locked f identity message (some existing) s db =
    accept_duplicate f identity.connector_id message existing s db

unfoldable pub accept :
    Filters
    → ConnectorIdentity
    → ClientMessage
    → Supply
    → Database
    → Result StoreError (Acceptance × Database)
accept f identity message s db = do
  connector ← lock_connector db identity
  accept_locked f identity message
      (find (is_message identity.connector_id message.message_id) db.connector_messages) s db

unfoldable pub accept_client_message :
    Filters → ConnectorIdentity → ClientMessage → Supply → Database → StoreOutcome Acceptance
accept_client_message f identity message s db =
    store_transaction db (accept f identity message s db)
