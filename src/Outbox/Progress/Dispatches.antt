-- ===== src/Outbox/Progress/Dispatches.antt =====
-- The dispatch of a job to a connector.
use qwen_harness_bridge.Outbox.Progress.Claims.{logged_update-IsSound}
use qwen_harness_bridge.Outbox.Progress.Replays.{store_transaction-IsSound}
use qwen_harness_bridge.Repository.Claim.{is_dispatched}
use qwen_harness_bridge.Outbox.Progress.{IsSound, IsQuiet-IsSound, IsSound-then, IsQuiet-refl}
use qwen_harness_bridge.Outbox.Progress.Writes.{found_by_its_id, enqueue_message-IsQuiet}
use qwen_harness_bridge.Outbox.Progress.Rows.{increment-lt, dispatch_row-Evolving}
use qwen_harness_bridge.Repository.{max_integer}
use qwen_harness_bridge.Database.Tables.{find_job, update_job}
use qwen_harness_bridge.Outbox.Messages.{
  Supply, append_job_event, enqueue_server_message, job_offer,
}
use qwen_harness_bridge.Database.{
  Key, Time, JobRow, Database, PolicyRow, ConnectorMessageRow, offer_payload,
}
use qwen_harness_bridge.Text.{Text}
use qwen_harness_bridge.Outbox.{
  ConnectorIdentity, Text, JobRow, Key, Time, Bool, List, some, ok, find_job, checked_job_increment,
  true, false, max_integer, claim_rejected, Option, keep_if, leb,
}
use qwen_harness_bridge.Outbox.Dispatch.{
  offer_job, write_offer, next_job, locked_row, may_dispatch, dispatch_input, dispatch_row,
  dispatch_locked, picked_job, dispatch_found, eligible_policies, dispatch_next, is_queued,
}
use qwen_harness_bridge.Prelude.{
  ℕ, ◌≡◌, Bool, List, some, min, ok, ◌+◌, Result-cases, suc, ◌<◌, true, false, inr, arith, inl,
  Option, refl, Option-cases, Bool-cases, ap, subst, none, ◌||◌, leb,
}

-- What an offer writes.
pub record OfferWrites (identity : ConnectorIdentity) (lease : Text) (j : JobRow) (s : Supply)
    (db db' : Database) (row : ConnectorMessageRow) : Type 0 where
  pub until : Time
  pub attempt : ℕ
  pub logged : Database
  pub bounded : until ≡ min (s.clock.reading 1 + 30000) j.expires_at
  pub next : attempt ≡ suc j.attempt
  pub room : j.revision < max_integer
  pub alive : s.clock.reading 2 < j.expires_at
  pub appends :
      append_job_event j.id
        (dispatch_input identity.connector_id lease until attempt j)
        s
        0
        (update_job j.id (dispatch_row identity.connector_id lease until (s.clock.reading 1)) db)
      ≡ ok logged
  pub sends :
      enqueue_server_message identity.connector_id job_offer
        (λ n. offer_payload j.id attempt lease j.repository_id)
        until
        (s.ids 0).command_correlation
        s
        0
        logged
      ≡ ok (row, db')

write_offer_adds :
    (identity : ConnectorIdentity) (lease : Text) (until : Time) (n : ℕ) (j : JobRow) (s : Supply)
    (db db' : Database) (row : ConnectorMessageRow)
    → until ≡ min (s.clock.reading 1 + 30000) j.expires_at
    → n ≡ suc j.attempt
    → j.revision < max_integer
    → s.clock.reading 2 < j.expires_at
    → write_offer identity lease until n j s db ≡ ok (some row, db')
    → OfferWrites identity lease j s db db' row
unfolding write_offer
write_offer_adds identity lease until n j s db db' row bounded next room alive h =
    elim (Result-cases (
      append_job_event j.id (dispatch_input identity.connector_id lease until n j) s 0 (
        update_job j.id (dispatch_row identity.connector_id lease until (s.clock.reading 1)) db))) [
          | inr (e, failed) ↦ absurd (ground arith)
          | inl (logged, appends) ↦ record {
            until = until;
            attempt = n;
            logged = logged;
            bounded = bounded;
            next = next;
            room = room;
            alive = alive;
            appends = appends;
            sends = ground arith;
          }
        ]

offer_job_adds :
    (identity : ConnectorIdentity) (lease : Text) (j : JobRow) (s : Supply) (db db' : Database)
    (row : ConnectorMessageRow)
    → offer_job identity lease j s db ≡ ok (some row, db')
    → OfferWrites identity lease j s db db' row
unfolding offer_job
offer_job_adds identity lease j s db db' row h =
    elim (Result-cases (checked_job_increment j.revision false claim_rejected)) [
      | inr (e, failed) ↦ absurd (ground arith)
      | inl (m, fits) ↦ elim (Result-cases (checked_job_increment j.attempt false claim_rejected)) [
        | inr (e, failed) ↦ absurd (ground arith)
        | inl (n, counts) ↦
            write_offer_adds identity lease (min (s.clock.reading 1 + 30000) j.expires_at) n j s db
              db' row refl (increment-lt j.attempt n false claim_rejected counts).1
              (increment-lt j.revision m false claim_rejected fits).0 (ground arith) (ground arith)
      ]
    ]

-- A job that is offered was found by the selection, and its policy leaves room for it.
pub dispatch_adds :
    (identity : ConnectorIdentity) (lease : Text) (is_locked : Key → Bool) (s : Supply)
    (db db' : Database) (row : ConnectorMessageRow)
    → dispatch_locked identity lease is_locked s db ≡ ok (some row, db')
    → (j : JobRow) × (next_job identity.owner_id is_locked
          (eligible_policies identity.owner_id (s.clock.reading 0) db)
          (s.clock.reading 0)
          db
        ≡ some j)
      × OfferWrites identity lease j s db db' row
unfolding dispatch_locked dispatch_found
dispatch_adds identity lease is_locked s db db' row h =
    elim (Option-cases (
      next_job identity.owner_id is_locked
        (eligible_policies identity.owner_id (s.clock.reading 0) db) (s.clock.reading 0) db)) [
          | inl idle ↦ absurd (ground arith)
          | inr (j, picked) ↦
              (j, picked, offer_job_adds identity lease j s db db' row (ground arith))
        ]

pub keep_if-holds :
    (p : JobRow → Bool) (o : Option JobRow) (j : JobRow)
    → keep_if p o ≡ some j
    → (o ≡ some j) × (p j ≡ true)
keep_if-holds p none j h = absurd (ground arith)
keep_if-holds p (some i) j h = elim (Bool-cases (p i)) [
  | inl holds ↦
      let same : i ≡ j = ground arith in
      (ap some same, subst (λ (x : JobRow). p x ≡ true) same holds)
  | inr fails ↦ absurd (ground arith)
]

pub next_job-found :
    (owner : Key) (is_locked : Key → Bool) (policies : List PolicyRow) (now : Time) (db : Database)
    (j : JobRow)
    → next_job owner is_locked policies now db ≡ some j
    → (find_job j.id db ≡ some j) × (may_dispatch owner policies now j ≡ true)
unfolding next_job locked_row
next_job-found owner is_locked policies now db j h =
    let (locked, may) = keep_if-holds (may_dispatch owner policies now) _ j h in
    elim (Option-cases (picked_job owner is_locked policies now db)) [
      | inl idle ↦ absurd (ground arith)
      | inr (i, picked) ↦ (found_by_its_id i.id db j (ground arith), may)
    ]

may_dispatch-open :
    (owner : Key) (policies : List PolicyRow) (now : Time) (j : JobRow)
    → may_dispatch owner policies now j ≡ true
    → (is_queued j.status || is_dispatched j.status) ≡ true
unfolding may_dispatch
may_dispatch-open owner policies now j h = ground arith

OfferWrites-IsSound :
    (identity : ConnectorIdentity) (lease : Text) (j : JobRow) (s : Supply) (db db' : Database)
    (row : ConnectorMessageRow)
    → find_job j.id db ≡ some j
    → (is_queued j.status || is_dispatched j.status) ≡ true
    → OfferWrites identity lease j s db db' row
    → IsSound db db'
OfferWrites-IsSound identity lease j s db db' row found free w =
    IsSound-then db w.logged db'
      (logged_update-IsSound j.id
        (dispatch_row identity.connector_id lease w.until (s.clock.reading 1)) j
        (dispatch_input identity.connector_id lease w.until w.attempt j) s 0 db w.logged
        (λ i. unfold dispatch_row in refl) found
        (dispatch_row-Evolving identity.connector_id lease w.until (s.clock.reading 1) j free
          w.room)
        w.appends)
      (enqueue_message-IsQuiet identity.connector_id job_offer
        (λ n. offer_payload j.id w.attempt lease j.repository_id) w.until
        (s.ids 0).command_correlation s 0 w.logged db' row w.sends)

write_offer_sends :
    (identity : ConnectorIdentity) (lease : Text) (until : Time) (n : ℕ) (j : JobRow) (s : Supply)
    (db db' : Database)
    → ¬ (write_offer identity lease until n j s db ≡ ok (none, db'))
unfolding write_offer
write_offer_sends identity lease until n j s db db' h = ground arith

offer_none_keeps :
    (identity : ConnectorIdentity) (lease : Text) (j : JobRow) (s : Supply) (db db' : Database)
    → offer_job identity lease j s db ≡ ok (none, db')
    → db' ≡ db
unfolding offer_job
offer_none_keeps identity lease j s db db' h =
    elim (Result-cases (checked_job_increment j.attempt false claim_rejected)) [
      | inr (e, failed) ↦ absurd (ground arith)
      | inl (n, counts) ↦ ground (
        arith,
        write_offer_sends identity lease (min (s.clock.reading 1 + 30000) j.expires_at) n j s db
            db',
      )
    ]

-- A dispatch that offers nothing writes nothing.
pub dispatch_none_keeps :
    (identity : ConnectorIdentity) (lease : Text) (is_locked : Key → Bool) (s : Supply)
    (db db' : Database)
    → dispatch_locked identity lease is_locked s db ≡ ok (none, db')
    → db' ≡ db
unfolding dispatch_locked dispatch_found
dispatch_none_keeps identity lease is_locked s db db' h =
    elim (Option-cases (
      next_job identity.owner_id is_locked
        (eligible_policies identity.owner_id (s.clock.reading 0) db) (s.clock.reading 0) db)) [
          | inl idle ↦ ground arith
          | inr (j, picked) ↦ elim (Bool-cases (leb j.expires_at (s.clock.reading 1))) [
            | inl late ↦ ground arith
            | inr live ↦ offer_none_keeps identity lease j s db db' (ground arith)
          ]
        ]

pub dispatch-IsSound :
    (identity : ConnectorIdentity) (lease : Text) (is_locked : Key → Bool) (s : Supply)
    (db : Database)
    → IsSound db (dispatch_next identity lease is_locked s db).1
unfolding dispatch_next
dispatch-IsSound identity lease is_locked s db =
    store_transaction-IsSound db (dispatch_locked identity lease is_locked s db)
      λ o db' h. offered o db' h
  where
    offered :
        (o : Option ConnectorMessageRow) (db' : Database)
        → dispatch_locked identity lease is_locked s db ≡ ok (o, db')
        → IsSound db db'
    offered none db' h =
        rw (dispatch_none_keeps identity lease is_locked s db db' h)
          (IsQuiet-IsSound db db (IsQuiet-refl db))
    offered (some row) db' h =
        let (j, picked, w) = dispatch_adds identity lease is_locked s db db' row h in
        let (found, may) =
          next_job-found identity.owner_id is_locked
            (eligible_policies identity.owner_id (s.clock.reading 0) db) (s.clock.reading 0) db j
            picked in
        OfferWrites-IsSound identity lease j s db db' row found
          (may_dispatch-open identity.owner_id _ (s.clock.reading 0) j may) w
