-- ===== src/Outbox/Progress/Acceptances.antt =====
-- The acceptance of a client message from its admission to its answer.
use qwen_harness_bridge.Repository.Progress.{Related-then}
use qwen_harness_bridge.Outbox.Progress.Consumption.{
  lock_connector-found, consumed-keeps, consumed-sequence, consumed-Rises, admit-next,
  consumed-reached,
}
use qwen_harness_bridge.Database.Tables.{find_connector}
use qwen_harness_bridge.Outbox.Progress.Repeats.{accept_duplicate-IsQuiet}
use qwen_harness_bridge.Outbox.Progress.Accepts.{answer-IsQuiet}
use qwen_harness_bridge.Outbox.Progress.Businesses.{
  IsFound, locked_job-IsFound, settle-IsSound, business-IsSound,
}
use qwen_harness_bridge.Outbox.Profile.{is_durable, is_coordinated, locked_job}
use qwen_harness_bridge.Outbox.Business.{Business, settle, is_historical_claim, apply_business}
use qwen_harness_bridge.Outbox.Admission.{client_row, admit, store_client_message}
use qwen_harness_bridge.Outbox.Progress.Writes.{store_client_message-IsQuiet}
use qwen_harness_bridge.Outbox.Answer.{Acceptance, answer}
use qwen_harness_bridge.Outbox.Progress.{
  IsSound, IsQuiet, is_some, IsSound-after, inl, arith, inr, IsQuiet-IsSound, IsLawful,
  IsSound-IsLawful, Related-then, IsQuiet-refl, Evolve, Evolve-refl, Rises-trans, Clients-Rises,
}
use qwen_harness_bridge.Database.{Database, ConnectorRow, ConnectorMessageRow, Time, Key}
use qwen_harness_bridge.Outbox.Messages.{Supply}
use qwen_harness_bridge.Outbox.{
  Filters, ConnectorIdentity, ClientMessage, Database, ok, Option, lock_connector, Result,
  find_connector, some, StoreError, store_transaction, err,
}
use qwen_harness_bridge.Outbox.Accept.{
  accept_client_message, accept_new, consumed, accept, is_message, accept_locked,
}
use qwen_harness_bridge.Prelude.{
  ◌≡◌, ok, bind-eq-ok, Option, is_some, ◌∙◌, ◌||◌, refl, Option-cases, find, inl, arith, inr,
  Result, some, err, subst, sym,
}

-- What an acceptance that returned went through.
pub record Accepts (f : Filters) (identity : ConnectorIdentity) (message : ClientMessage)
    (s : Supply) (db db' : Database) (a : Acceptance) : Type 0 where
  pub connector : ConnectorRow
  pub acknowledged : Option ConnectorMessageRow
  pub received : Database
  pub business : Business
  pub worked : Database
  pub locked : lock_connector db identity ≡ ok connector
  pub admitted :
      admit message
        (is_durable message.body connector)
        (is_coordinated message.body connector)
        connector
        (s.clock.reading 0)
        db
      ≡ ok acknowledged
  pub stored :
      store_client_message
        (client_row f message
          (is_durable message.body connector)
          (is_coordinated message.body connector)
          connector
          s)
        db
      ≡ ok received
  pub settled :
      settle
        (is_durable message.body connector)
        (is_coordinated message.body connector)
        (is_some (locked_job db identity message.body)
          || is_historical_claim identity message.body
              (is_durable message.body connector)
              (locked_job db identity message.body)
              (s.clock.reading 0)
              received)
        received
        (apply_business f identity message message.body
          (locked_job db identity message.body)
          acknowledged
          (is_durable message.body connector)
          (is_coordinated message.body connector)
          s
          received)
      ≡ ok (business, worked)
  pub answered :
      answer message business
        (locked_job db identity message.body)
        (is_durable message.body connector)
        (is_coordinated message.body connector)
        connector
        s
        (consumed f message connector (s.clock.reading 0) worked)
      ≡ ok (a, db')

pub accept_new_goes :
    (f : Filters) (identity : ConnectorIdentity) (message : ClientMessage) (s : Supply)
    (db db' : Database) (a : Acceptance)
    → accept_new f identity message s db ≡ ok (a, db')
    → Accepts f identity message s db db' a
unfolding accept_new
accept_new_goes f identity message s db db' a h =
    let (c, locked, h1) = bind-eq-ok (lock_connector db identity) _ h in
    let (o, admitted, h2) = bind-eq-ok _ _ h1 in
    let (received, stored, h3) = bind-eq-ok _ _ h2 in
    let ((b, worked), settled, h4) = bind-eq-ok _ _ h3 in
    record {
      connector = c;
      acknowledged = o;
      received = received;
      business = b;
      worked = worked;
      locked = locked;
      admitted = admitted;
      stored = stored;
      settled = settled;
      answered = h4;
    }

-- Up to the business, an acceptance is sound; then the sequence is consumed, and the answer is quiet.
accept_worked :
    (f : Filters) (identity : ConnectorIdentity) (message : ClientMessage) (s : Supply)
    (db db' : Database) (a : Acceptance) (t : Accepts f identity message s db db' a)
    → IsSound db t.worked
accept_worked f identity message s db db' a t =
    let kept : IsQuiet db t.received =
      store_client_message-IsQuiet
        (client_row f message (is_durable message.body t.connector)
          (is_coordinated message.body t.connector) t.connector s)
        db t.received (unfold client_row in refl) t.stored in
    let there : IsFound (locked_job db identity message.body) t.received =
      λ j g. kept.jobs j.id ∙ locked_job-IsFound db identity message.body j g in
    IsSound-after db t.received t.worked kept (
      settle-IsSound _ _ _ t.received _ t.business t.worked
        (λ r mid g.
          business-IsSound f identity message message.body (locked_job db identity message.body)
            t.acknowledged _ _ s t.received mid r there g)
        t.settled)

accept_answered :
    (f : Filters) (identity : ConnectorIdentity) (message : ClientMessage) (s : Supply)
    (db db' : Database) (a : Acceptance) (t : Accepts f identity message s db db' a)
    → IsQuiet (consumed f message t.connector (s.clock.reading 0) t.worked) db'
accept_answered f identity message s db db' a t =
    answer-IsQuiet message t.business (locked_job db identity message.body) _ _ t.connector s _ db'
      a t.answered

accept_new-IsLawful :
    (f : Filters) (identity : ConnectorIdentity) (message : ClientMessage) (s : Supply)
    (db db' : Database) (a : Acceptance)
    → accept_new f identity message s db ≡ ok (a, db')
    → IsLawful db db'
accept_new-IsLawful f identity message s db db' a h =
    let t : Accepts f identity message s db db' a =
      accept_new_goes f identity message s db db' a h in
    let now : Time = s.clock.reading 0 in
    let spent : Database = consumed f message t.connector now t.worked in
    let work : IsSound db t.worked = accept_worked f identity message s db db' a t in
    let (valid, jobs) = consumed-keeps f message t.connector now t.worked in
    let quiet : IsQuiet spent db' = accept_answered f identity message s db db' a t in
    let (found, name) = lock_connector-found db identity t.connector t.locked in
    record {
      valid = λ v. quiet.valid (valid (work.valid v));
      evolves = λ v.
          Related-then Evolve Evolve-refl db t.worked db' (work.evolves v)
            (λ k. quiet.jobs k ∙ jobs k);
      rises = Rises-trans db t.worked db' (Clients-Rises db t.worked work.clients) (
          Rises-trans t.worked spent db'
            (consumed-Rises f message t.connector now db t.worked
              (subst (λ (k : Key). find_connector k db ≡ some t.connector) (sym name) found)
              (admit-next message _ _ t.connector now db t.acknowledged t.admitted) work.clients)
            (Clients-Rises spent db' quiet.clients));
    }

-- After an acceptance the connector stands at the sequence of the message.
pub accept_new-sequence :
    (f : Filters) (identity : ConnectorIdentity) (message : ClientMessage) (s : Supply)
    (db db' : Database) (a : Acceptance) (d : ConnectorRow)
    → accept_new f identity message s db ≡ ok (a, db')
    → find_connector identity.connector_id db' ≡ some d
    → d.last_client_sequence ≡ message.sequence
accept_new-sequence f identity message s db db' a d h found =
    let t : Accepts f identity message s db db' a =
      accept_new_goes f identity message s db db' a h in
    let now : Time = s.clock.reading 0 in
    let quiet : IsQuiet (consumed f message t.connector now t.worked) db' =
      accept_answered f identity message s db db' a t in
    let (locked, name) = lock_connector-found db identity t.connector t.locked in
    let (c, there, same) = quiet.clients.0 identity.connector_id d found in
    let (e, before, taken) = consumed-sequence f message t.connector c now t.worked (
      subst (λ (k : Key). find_connector k (consumed f message t.connector now t.worked) ≡ some c)
        (sym name) there) in
    sym same ∙ taken

-- The connector is still there.
pub accept_new-reached :
    (f : Filters) (identity : ConnectorIdentity) (message : ClientMessage) (s : Supply)
    (db db' : Database) (a : Acceptance)
    → Accepts f identity message s db db' a
    → (d : ConnectorRow) × (find_connector identity.connector_id db' ≡ some d)
      × (d.last_client_sequence ≡ message.sequence)
accept_new-reached f identity message s db db' a t =
    let quiet = accept_answered f identity message s db db' a t in
    let work = accept_worked f identity message s db db' a t in
    let (locked, name) = lock_connector-found db identity t.connector t.locked in
    let (e, there, kept) = work.clients.1 identity.connector_id t.connector locked in
    let (d, spent, taken) =
      consumed-reached f message t.connector e (s.clock.reading 0) t.worked
        (subst (λ (k : Key). find_connector k t.worked ≡ some e) (sym name) there) in
    let (after, last, same) = quiet.clients.1 identity.connector_id d (
      subst
        (λ (k : Key).
          find_connector k (consumed f message t.connector (s.clock.reading 0) t.worked) ≡ some d)
        name spent) in
    (after, last, same ∙ taken)

-- A transaction of the store is lawful if its body is where it returns.
store_transaction-IsLawful :
    {A : Type 0} (db : Database) (m : Result StoreError (A × Database))
    → ((a : A) (db' : Database) → m ≡ ok (a, db') → IsLawful db db')
    → IsLawful db (store_transaction db m).1
store_transaction-IsLawful db (ok (a, db')) h = h a db' refl
store_transaction-IsLawful db (err e) h =
    IsSound-IsLawful db db (IsQuiet-IsSound db db (IsQuiet-refl db))

pub accept-IsLawful :
    (f : Filters) (identity : ConnectorIdentity) (message : ClientMessage) (s : Supply)
    (db : Database)
    → IsLawful db (accept_client_message f identity message s db).1
unfolding accept_client_message accept
accept-IsLawful f identity message s db =
    store_transaction-IsLawful db (accept f identity message s db) λ a db' h.
      let (c, locked, goes) = bind-eq-ok (lock_connector db identity) _ h in
      elim (Option-cases
        (find (is_message identity.connector_id message.message_id) db.connector_messages)) [
          | inl new ↦
              accept_new-IsLawful f identity message s db db' a
                (unfold accept_locked in ground arith)
          | inr (m, known) ↦ IsSound-IsLawful db db' (
              IsQuiet-IsSound db db' (
                accept_duplicate-IsQuiet f identity.connector_id message m s db db' a
                  (unfold accept_locked in ground arith)))
        ]
