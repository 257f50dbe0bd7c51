-- ===== src/Outbox/Progress/Repeats.antt =====
-- outbox.ts: the writes of acceptClientMessage for a message that is stored already.
use qwen_harness_bridge.Outbox.Payloads.{same_payload}
use qwen_harness_bridge.Text.{text_eq}
use qwen_harness_bridge.Database.Tables.{has_connector_id}
use qwen_harness_bridge.Outbox.Progress.Writes.{modify_connectors-IsQuiet, modify_messages-IsQuiet}
use qwen_harness_bridge.Outbox.Messages.{Supply}
use qwen_harness_bridge.Outbox.Answer.{Acceptance, ack_type}
use qwen_harness_bridge.Outbox.Progress.{IsQuiet, arith, IsQuiet-refl, IsQuiet-trans, inl, inr}
use qwen_harness_bridge.Database.{
  CommandPayload, Key, Time, Database, Receipt, ConnectorMessageRow, StoredResponse, stored, fresh,
  client_payload, absent,
}
use qwen_harness_bridge.Outbox.{
  Filters, ClientMessage, Bool, ok, Result, StoreError, some, leb, true, not, false, text_eq, guard,
  store_error, client_replay_mismatch, internal,
}
use qwen_harness_bridge.Outbox.Duplicates.{
  refresh_server_message, OriginalResponse, is_original, refreshed, find_original_response,
  is_exact_duplicate, is_sync,
}
use qwen_harness_bridge.Outbox.Repeats.{
  renew_receipt, accept_duplicate, repeat_payload, renew, repeat_stored, renew_first,
  refresh_heartbeat, is_pulse, may_repeat, is_error, is_stored,
}
use qwen_harness_bridge.Prelude.{
  ℕ, ◌≡◌, Option, Bool, ok, Result, arith, bind-eq-ok, modify, Bool-cases, some, leb, ◌||◌, true,
  not, subst, refl, false, ◌&&◌, inl, inr, none, guard, or_throw, ◌==◌, ◌+◌,
}

refresh_message-IsQuiet :
    (o : OriginalResponse) (now : Time) (s : Supply) (k : ℕ) (db db' : Database)
    (row : ConnectorMessageRow)
    → refresh_server_message o now s k db ≡ ok (row, db')
    → IsQuiet db db'
unfolding refresh_server_message
refresh_message-IsQuiet o now s k db db' row h =
    let written : Database = record db {
      connector_messages =
          modify (is_original o) (refreshed o now (s.ids k).command_message) db.connector_messages;
    } in
    let shape : written ≡ db' = ground arith in
    subst (λ (x : Database). IsQuiet db x) shape
      (modify_messages-IsQuiet (is_original o) (refreshed o now (s.ids k).command_message) db
        (λ m. unfold refreshed in (refl, refl, refl)))

renew-IsQuiet :
    (o : OriginalResponse) (compares : Bool) (now later : Time) (s : Supply) (k : ℕ)
    (db db' : Database) (row : ConnectorMessageRow)
    → renew o compares now later s k db ≡ ok (row, db')
    → IsQuiet db db'
unfolding renew
renew-IsQuiet o compares now later s k db db' row h =
    elim (Bool-cases (
      leb o.row.expires_at now
      || not (text_eq o.row.type o.type)
      || (compares && not (same_payload o.row.payload o.payload)))) [
        | inl stale_row ↦ refresh_message-IsQuiet o later s k db db' row (ground arith)
        | inr good ↦ let same : db' ≡ db = ground arith in rw same (IsQuiet-refl db)
      ]

renew_first-IsQuiet :
    (o : Option OriginalResponse) (now : Time) (s : Supply) (db db' : Database)
    (r : Option ConnectorMessageRow)
    → renew_first o now s db ≡ ok (r, db')
    → IsQuiet db db'
unfolding renew_first
renew_first-IsQuiet none now s db db' r h =
    let same : db' ≡ db = ground arith in rw same (IsQuiet-refl db)
renew_first-IsQuiet (some o) now s db db' r h =
    let ((row, mid), renews, rest) = bind-eq-ok (renew o true now (s.clock.reading 1) s 0 db) _ h in
    let same : mid ≡ db' = ground arith in
    subst (λ (x : Database). IsQuiet db x) same
      (renew-IsQuiet o true now (s.clock.reading 1) s 0 db mid row renews)

renew_receipt-IsQuiet :
    (id : Key) (message : ClientMessage) (receipt : Receipt) (first : Option ConnectorMessageRow)
    (r : StoredResponse) (now : Time) (s : Supply) (db db' : Database) (a : Acceptance)
    → renew_receipt id message receipt first r now s db ≡ ok (a, db')
    → IsQuiet db db'
unfolding renew_receipt
renew_receipt-IsQuiet id message receipt first absent now s db db' a h =
    let same : db' ≡ db = ground arith in rw same (IsQuiet-refl db)
renew_receipt-IsQuiet id message receipt none (stored t p n k) now s db db' a h =
    absurd (ground arith)
renew_receipt-IsQuiet id message receipt (some m) (stored t p n k) now s db db' a h =
    let (o, finds, h1) =
      bind-eq-ok (find_original_response id message receipt false (stored t p n k) db) _ h in
    let (original, there, h2) = bind-eq-ok (or_throw o (store_error internal)) _ h1 in
    let (u, passes, h3) =
      bind-eq-ok
        (guard (text_eq original.type ack_type && (original.row.sequence == m.sequence + 1))
          (store_error internal))
        _ h2 in
    let ((row, mid), renews, h4) =
      bind-eq-ok (renew original false now (s.clock.reading 2) s 1 db) _ h3 in
    let same : mid ≡ db' = ground arith in
    subst (λ (x : Database). IsQuiet db x) same
      (renew-IsQuiet original false now (s.clock.reading 2) s 1 db mid row renews)

refresh_heartbeat-IsQuiet :
    (id : Key) (now : Time) (db : Database) → IsQuiet db (refresh_heartbeat id now db)
unfolding refresh_heartbeat
refresh_heartbeat-IsQuiet id now db =
    modify_connectors-IsQuiet (has_connector_id id)
      (λ c. record c { last_heartbeat_at = some now; health = fresh; updated_at = now }) db
      (λ c. (refl, refl)) (λ c. refl)

repeat_stored-IsQuiet :
    (id : Key) (message : ClientMessage) (receipt : Receipt) (response r : StoredResponse)
    (s : Supply) (db db' : Database) (a : Acceptance)
    → repeat_stored id message receipt response r s db ≡ ok (a, db')
    → IsQuiet db db'
unfolding repeat_stored
repeat_stored-IsQuiet id message receipt response r s db db' a h =
    let (u, may, h1) =
      bind-eq-ok
        (guard (may_repeat receipt message (s.clock.reading 0))
          (store_error client_replay_mismatch))
        _ h in
    let (o, finds, h2) =
      bind-eq-ok (find_original_response id message receipt true response db) _ h1 in
    let (w, whole, h3) =
      bind-eq-ok
        (guard (not (is_sync message.body || (receipt.coordination && is_error o)) || is_stored r)
          (store_error internal))
        _ h2 in
    let ((first, renewed), renews, h4) = bind-eq-ok (renew_first o (s.clock.reading 0) s db) _ h3 in
    let ((b, answered), answers, h5) =
      bind-eq-ok (renew_receipt id message receipt first r (s.clock.reading 0) s renewed) _ h4 in
    let quiet : IsQuiet db answered =
      IsQuiet-trans db renewed answered
        (renew_first-IsQuiet o (s.clock.reading 0) s db renewed first renews)
        (renew_receipt-IsQuiet id message receipt first r (s.clock.reading 0) s renewed answered b
          answers) in
    let pulse : Bool = is_pulse message.body && not receipt.durable in
    elim (Bool-cases pulse) [
      | inl beats ↦
          let shape : refresh_heartbeat id (s.clock.reading 0) answered ≡ db' = ground arith in
          subst (λ (x : Database). IsQuiet db x) shape
            (IsQuiet-trans db answered _ quiet
              (refresh_heartbeat-IsQuiet id (s.clock.reading 0) answered))
      | inr still ↦
          let same : answered ≡ db' = ground arith in
          subst (λ (x : Database). IsQuiet db x) same quiet
    ]

stored_payload-cases :
    (p : CommandPayload) (db' : Database) (a : Acceptance)
    (go : Receipt → StoredResponse → StoredResponse → Result StoreError (Acceptance × Database))
    → repeat_payload go p ≡ ok (a, db')
    → (receipt : Receipt) × (response : StoredResponse) × (r : StoredResponse) × (go receipt
          response r
        ≡ ok (a, db'))
unfolding repeat_payload
stored_payload-cases (client_payload receipt response r) db' a go h = (receipt, response, r, h)
stored_payload-cases p db' a go h = absurd (ground arith)

pub accept_duplicate-IsQuiet :
    (f : Filters) (id : Key) (message : ClientMessage) (m : ConnectorMessageRow) (s : Supply)
    (db db' : Database) (a : Acceptance)
    → accept_duplicate f id message m s db ≡ ok (a, db')
    → IsQuiet db db'
unfolding accept_duplicate
accept_duplicate-IsQuiet f id message m s db db' a h =
    let (u, exact, h1) =
      bind-eq-ok (guard (is_exact_duplicate f m message) (store_error client_replay_mismatch)) _
        h in
    let (receipt, response, r, goes) =
      stored_payload-cases m.payload db' a (λ p q o. repeat_stored id message p q o s db) h1 in
    repeat_stored-IsQuiet id message receipt response r s db db' a goes
