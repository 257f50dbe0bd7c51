-- ===== src/Outbox/Progress/Accepts.antt =====
-- The answers to a client message, and what else acceptance writes beside the jobs.
use qwen_harness_bridge.Outbox.Claim.{ClaimResult, offer_cancelled}
use qwen_harness_bridge.Outbox.Progress.Replays.{tombstone_batch-IsQuiet}
use qwen_harness_bridge.Outbox.Replay.{tombstone_replay_batch}
use qwen_harness_bridge.Repository.Commands.{is_server}
use qwen_harness_bridge.Outbox.Progress.Writes.{modify_messages-IsQuiet, enqueue_message-IsQuiet}
use qwen_harness_bridge.Outbox.Progress.{IsQuiet, arith, inr, inl, IsQuiet-trans, IsQuiet-refl}
use qwen_harness_bridge.Text.{Text, units}
use qwen_harness_bridge.Database.{
  Key, ConnectorMessageRow, ConnectorRow, CommandPayload, JobRow, Database, Time, error_payload,
  ack_payload, state_payload,
}
use qwen_harness_bridge.Outbox.{
  ClientMessage, Key, Option, StoreErrorCode, Bool, Text, ok, some, units, List, true, leb, false,
  ClientBody, hello, sync, ack, claim_rejected, claim_rejected_message,
}
use qwen_harness_bridge.Outbox.Business.{acknowledge_messages, Business, done, rejected}
use qwen_harness_bridge.Outbox.Answer.{
  answer_rejection, answer_hello, answer_ack, answer_sync, respond, Acceptance, with_receipt,
  ack_type, state_of, code_text, welcome, answer, answer_done,
}
use qwen_harness_bridge.Outbox.Messages.{
  remember_original_response, Supply, enqueue_server_message, is_client_message, with_response,
  stored_response, protocol_error,
}
use qwen_harness_bridge.Prelude.{
  ℕ, ◌≡◌, Bool, Option, ok, Result-cases, arith, some, none, inr, refl, inl, subst, ◌==◌, ◌&&◌,
  List, ◌+◌, true, leb, false, Bool-cases, ◌∷◌, [],
}

pub acknowledge-IsQuiet :
    (p : ConnectorMessageRow → Bool) (now : Time) (db : Database)
    → IsQuiet db (acknowledge_messages p now db)
unfolding acknowledge_messages
acknowledge-IsQuiet p now db =
    modify_messages-IsQuiet p (λ m. record m { acknowledged_at = some now }) db
      (λ m. (refl, refl, refl))

remember-IsQuiet :
    (id message_id : Key) (response : ConnectorMessageRow) (receipt : Bool) (db : Database)
    → IsQuiet db (remember_original_response id message_id response receipt db)
unfolding remember_original_response
remember-IsQuiet id message_id response receipt db =
    modify_messages-IsQuiet (is_client_message id message_id)
      (λ m. record m { payload = with_response receipt (stored_response response) m.payload }) db
      (λ m. (refl, refl, refl))

respond-IsQuiet :
    (id : Key) (message : ClientMessage) (type : Text) (payload : ℕ → CommandPayload)
    (expires_at : Time) (receipt : Bool) (s : Supply) (k : ℕ) (db db' : Database)
    (row : ConnectorMessageRow)
    → respond id message type payload expires_at receipt s k db ≡ ok (row, db')
    → IsQuiet db db'
unfolding respond
respond-IsQuiet id message type payload expires_at receipt s k db db' row h =
    elim (Result-cases
      (enqueue_server_message id type payload expires_at message.correlation_id s k db)) [
        | inr (e, failed) ↦ absurd (ground arith)
        | inl ((m, sent), queued) ↦
            let shape : remember_original_response id message.message_id m receipt sent ≡ db' =
              ground arith in
            subst (λ (x : Database). IsQuiet db x) shape
              (IsQuiet-trans db sent _
                (enqueue_message-IsQuiet id type payload expires_at message.correlation_id s k db
                  sent m queued)
                (remember-IsQuiet id message.message_id m receipt sent))
      ]

answer_hello-IsQuiet :
    (message : ClientMessage) (last_server : ℕ) (durable coordination : Bool) (c : ConnectorRow)
    (s : Supply) (db db' : Database) (a : Acceptance)
    → answer_hello message last_server durable coordination c s db ≡ ok (a, db')
    → IsQuiet db db'
unfolding answer_hello
answer_hello-IsQuiet message last_server durable coordination c s db db' a h =
    let now : Time = s.clock.reading 0 in
    let acknowledged : Database =
      acknowledge_messages
        (λ m. (m.connector_id == c.id) && is_server m.direction && leb m.sequence last_server) now
        db in
    elim (Result-cases (tombstone_replay_batch c.id last_server now s 3 acknowledged)) [
      | inr (e, failed) ↦ absurd (ground arith)
      | inl (buried, swept) ↦
          elim (Result-cases (welcome message last_server durable coordination c s buried)) [
            | inr (e, failed) ↦ absurd (ground arith)
            | inl ((row, mid), sent) ↦
                let same : mid ≡ db' = ground arith in
                subst (λ (x : Database). IsQuiet db x) same
                  (IsQuiet-trans db acknowledged mid (acknowledge-IsQuiet _ now db) (
                    IsQuiet-trans acknowledged buried mid
                      (tombstone_batch-IsQuiet c.id last_server now s 3 acknowledged buried swept)
                      (unfold welcome in
                        respond-IsQuiet c.id message (units "connector.welcome") _ (now + 60000)
                          false s 2 buried mid row sent)))
          ]
    ]

receipt-IsQuiet :
    (message : ClientMessage) (expires_at : Time) (replay : List ConnectorMessageRow)
    (c : ConnectorRow) (s : Supply) (db db' : Database) (a : Acceptance)
    → with_receipt message expires_at replay c s db ≡ ok (a, db')
    → IsQuiet db db'
unfolding with_receipt
receipt-IsQuiet message expires_at replay c s db db' a h =
    elim (Result-cases
      (respond c.id message ack_type (λ n. ack_payload message.sequence) expires_at true s 3 db)) [
        | inr (e, failed) ↦ absurd (ground arith)
        | inl ((row, mid), sent) ↦
            let same : mid ≡ db' = ground arith in
            subst (λ (x : Database). IsQuiet db x) same
              (respond-IsQuiet c.id message ack_type (λ n. ack_payload message.sequence) expires_at
                true s 3 db mid row sent)
      ]

answer_sync-IsQuiet :
    (message : ClientMessage) (n : ℕ) (nonce : Key) (job : Option JobRow) (c : ConnectorRow)
    (s : Supply) (db db' : Database) (a : Acceptance)
    → answer_sync message n nonce job c s db ≡ ok (a, db')
    → IsQuiet db db'
unfolding answer_sync
answer_sync-IsQuiet message n nonce none c s db db' a h = absurd (ground arith)
answer_sync-IsQuiet message n nonce (some j) c s db db' a h =
    elim (Result-cases (
      respond c.id message (units "job.state")
        (λ k. state_payload (state_of message n nonce j (s.clock.reading 5)))
        (s.clock.reading 6 + 60000) false s 2 db)) [
          | inr (e, failed) ↦ absurd (ground arith)
          | inl ((row, mid), sent) ↦
              IsQuiet-trans db mid db'
                (respond-IsQuiet c.id message (units "job.state")
                  (λ k. state_payload (state_of message n nonce j (s.clock.reading 5)))
                  (s.clock.reading 6 + 60000) false s 2 db mid row sent)
                (receipt-IsQuiet message (s.clock.reading 7 + 60000) (row ∷ []) c s mid db' a
                  (ground arith))
        ]

answer_rejection-IsQuiet :
    (message : ClientMessage) (code : StoreErrorCode) (text : Text) (durable : Bool)
    (c : ConnectorRow) (s : Supply) (db db' : Database) (a : Acceptance)
    → answer_rejection message code text durable c s db ≡ ok (a, db')
    → IsQuiet db db'
unfolding answer_rejection
answer_rejection-IsQuiet message code text durable c s db db' a h =
    elim (Result-cases (
      respond c.id message protocol_error (λ n. error_payload (code_text code) text)
        (s.clock.reading 0 + 60000) false s 2 db)) [
          | inr (e, failed) ↦ absurd (ground arith)
          | inl ((row, mid), sent) ↦
              IsQuiet-trans db mid db'
                (respond-IsQuiet c.id message protocol_error
                  (λ n. error_payload (code_text code) text) (s.clock.reading 0 + 60000) false s 2
                  db mid row sent)
                (elim (Bool-cases durable) [
                  | inl keeps ↦
                      receipt-IsQuiet message (s.clock.reading 5 + 60000) (row ∷ []) c s mid db' a
                        (unfold with_receipt in ground arith)
                  | inr plain ↦ let same : db' ≡ mid = ground arith in rw same (IsQuiet-refl mid)
                ])
        ]

answer_ack-IsQuiet :
    (message : ClientMessage) (c : ConnectorRow) (s : Supply) (db db' : Database) (a : Acceptance)
    → answer_ack message c s db ≡ ok (a, db')
    → IsQuiet db db'
unfolding answer_ack
answer_ack-IsQuiet message c s db db' a h =
    elim (Result-cases (
      respond c.id message ack_type (λ n. ack_payload message.sequence) (s.clock.reading 0 + 60000)
        false s 2 db)) [
          | inr (e, failed) ↦ absurd (ground arith)
          | inl ((row, mid), sent) ↦
              let same : mid ≡ db' = ground arith in
              subst (λ (x : Database). IsQuiet db x) same
                (respond-IsQuiet c.id message ack_type (λ n. ack_payload message.sequence)
                  (s.clock.reading 0 + 60000) false s 2 db mid row sent)
        ]

answer_done-IsQuiet :
    (message : ClientMessage) (body : ClientBody) (r : Option ClaimResult) (job : Option JobRow)
    (durable coordination : Bool) (c : ConnectorRow) (s : Supply) (db db' : Database)
    (a : Acceptance)
    → answer_done message body r job durable coordination c s db ≡ ok (a, db')
    → IsQuiet db db'
unfolding answer_done
answer_done-IsQuiet message (hello i lc ls caps) r job durable coordination c s db db' a h =
    answer_hello-IsQuiet message ls durable coordination c s db db' a h
answer_done-IsQuiet message (sync i n nonce) r job durable coordination c s db db' a h =
    answer_sync-IsQuiet message n nonce job c s db db' a h
answer_done-IsQuiet message (ack n) r job true coordination c s db db' a h =
    answer_ack-IsQuiet message c s db db' a h
answer_done-IsQuiet message (ack n) r job false coordination c s db db' a h =
    let same : db' ≡ db = ground arith in rw same (IsQuiet-refl db)
answer_done-IsQuiet message body (some offer_cancelled) job durable coordination c s db db' a h =
    answer_rejection-IsQuiet message claim_rejected claim_rejected_message durable c s db db' a h
answer_done-IsQuiet message body r job durable coordination c s db db' a h =
    answer_ack-IsQuiet message c s db db' a h

pub answer-IsQuiet :
    (message : ClientMessage) (b : Business) (job : Option JobRow) (durable coordination : Bool)
    (c : ConnectorRow) (s : Supply) (db db' : Database) (a : Acceptance)
    → answer message b job durable coordination c s db ≡ ok (a, db')
    → IsQuiet db db'
unfolding answer
answer-IsQuiet message (done r) job durable coordination c s db db' a h =
    answer_done-IsQuiet message message.body r job durable coordination c s db db' a h
answer-IsQuiet message (rejected code text) job durable coordination c s db db' a h =
    answer_rejection-IsQuiet message code text durable c s db db' a h
