-- ===== src/Outbox/Progress/Businesses.antt =====
-- What a client message does to its job, and the acceptance of the whole message.
use qwen_harness_bridge.Outbox.Cancellations.{ingest_job_cancelled}
use qwen_harness_bridge.Outbox.Approvals.{ingest_approval_requested}
use qwen_harness_bridge.Outbox.Progress.Events.{
  job_event-IsSound, delivered_approval-IsSound, approval_requested-IsSound, job_cancelled-IsSound,
}
use qwen_harness_bridge.Outbox.Ingest.{ingest_job_event}
use qwen_harness_bridge.Outbox.Progress.Accepts.{acknowledge-IsQuiet}
use qwen_harness_bridge.Outbox.Progress.Writes.{found_by_its_id}
use qwen_harness_bridge.Outbox.Progress.Dispatches.{keep_if-holds}
use qwen_harness_bridge.Outbox.Progress.Claims.{claim_offered-IsSound}
use qwen_harness_bridge.Database.Tables.{find_job}
use qwen_harness_bridge.Outbox.Progress.{
  IsSound, inl, IsQuiet-IsSound, IsQuiet-refl, inr, IsSound-after,
}
use qwen_harness_bridge.Outbox.Messages.{Supply, is_server_sequence}
use qwen_harness_bridge.Outbox.Claim.{ClaimResult, claim_offered_job}
use qwen_harness_bridge.Text.{Text}
use qwen_harness_bridge.Database.{JobRow, Key, Database, ConnectorMessageRow}
use qwen_harness_bridge.Outbox.Profile.{locked_job, job_of}
use qwen_harness_bridge.Outbox.Business.{
  sync_business, ack_business, settle, apply_business, Business, a_claim, no_claim,
  acknowledge_messages, is_historical_claim,
}
use qwen_harness_bridge.Outbox.{
  ConnectorIdentity, lock_client_job, ClientMessage, Key, StoreError, JobRow, Filters, Bool, Text,
  ClientBody, some, ok, find_job, claim, err, is_authorized, sync, job_event, approval_requested,
  job_cancelled, ack, hello, heartbeat,
}
use qwen_harness_bridge.Prelude.{
  ℕ, ◌≡◌, Result, Option, Bool, Option-cases, some, ok, arith, none, subst, inl, err, refl,
  Bool-cases, inr,
}

-- The job of a message, where there is one, is the row that its id finds.
abbrev pub IsFound : Option JobRow → Database → Type 0
IsFound job db = (j : JobRow) → job ≡ some j → find_job j.id db ≡ some j

pub locked_job-IsFound :
    (db : Database) (identity : ConnectorIdentity) (body : ClientBody)
    → IsFound (locked_job db identity body) db
unfolding locked_job lock_client_job
locked_job-IsFound db identity body j h = elim (Option-cases (job_of body)) [
  | inl absent_id ↦ absurd (ground arith)
  | inr (id, named) ↦
      let (found, mine) =
        keep_if-holds (is_authorized identity) (find_job id db) j (ground arith) in
      found_by_its_id id db j found
]

no_claim-returns :
    (m : Result StoreError Database) (r : Option ClaimResult) (db' : Database)
    → no_claim m ≡ ok (r, db')
    → m ≡ ok db'
no_claim-returns m r db' h = ground arith

ack-IsSound :
    (id : Key) (n : ℕ) (o : Option ConnectorMessageRow) (s : Supply) (db db' : Database)
    → ack_business id n o s db ≡ ok db'
    → IsSound db db'
unfolding ack_business
ack-IsSound id n none s db db' h =
    let same : db' ≡ db = ground arith in rw same (IsQuiet-IsSound db db (IsQuiet-refl db))
ack-IsSound id n (some m) s db db' h =
    let acknowledged : Database =
      acknowledge_messages (is_server_sequence id n) (s.clock.reading 0) db in
    IsSound-after db acknowledged db'
      (acknowledge-IsQuiet (is_server_sequence id n) (s.clock.reading 0) db)
      (delivered_approval-IsSound m s acknowledged db' h)

sync_keeps :
    (identity : ConnectorIdentity) (id : Key) (n : ℕ) (job : Option JobRow) (db db' : Database)
    → sync_business identity id n job db ≡ ok db'
    → db' ≡ db
unfolding sync_business
sync_keeps identity id n none db db' h = absurd (ground arith)
sync_keeps identity id n (some j) db db' h = ground arith

claim-IsSound :
    (identity : ConnectorIdentity) (message : ClientMessage) (id : Key) (n : ℕ) (lease : Text)
    (job : Option JobRow) (durable coordination : Bool) (s : Supply) (db db' : Database)
    (r : ClaimResult)
    → IsFound job db
    → claim_offered_job identity message id n lease job durable coordination s db ≡ ok (r, db')
    → IsSound db db'
claim-IsSound identity message id n lease none durable coordination s db db' r found h =
    absurd (unfold claim_offered_job in ground arith)
claim-IsSound identity message id n lease (some j) durable coordination s db db' r found h =
    claim_offered-IsSound identity message id n lease j durable coordination s db db' r
      (found j refl) h

a_claim-returns :
    (m : Result StoreError (ClaimResult × Database)) (r : Option ClaimResult) (db' : Database)
    → a_claim m ≡ ok (r, db')
    → (c : ClaimResult) × (m ≡ ok (c, db'))
a_claim-returns (ok (c, db)) r db' h = (c, ground arith)
a_claim-returns (err e) r db' h = absurd (ground arith)

pub business-IsSound :
    (f : Filters) (identity : ConnectorIdentity) (message : ClientMessage) (body : ClientBody)
    (job : Option JobRow) (acknowledged : Option ConnectorMessageRow) (durable coordination : Bool)
    (s : Supply) (db db' : Database) (r : Option ClaimResult)
    → IsFound job db
    → apply_business f identity message body job acknowledged durable coordination s db
      ≡ ok (r, db')
    → IsSound db db'
unfolding apply_business
business-IsSound f identity message (claim id n lease) job o durable coordination s db db' r found
      h =
    elim (Bool-cases
      (is_historical_claim identity (claim id n lease) durable job (s.clock.reading 0) db)) [
        | inl lost ↦ absurd (ground arith)
        | inr current ↦
            let (c, claims) =
              a_claim-returns
                (claim_offered_job identity message id n lease job durable coordination s db) r db'
                (ground arith) in
            claim-IsSound identity message id n lease job durable coordination s db db' c found
              claims
      ]
business-IsSound f identity message (sync id n nonce) job o durable coordination s db db' r found
      h =
    let same : db' ≡ db = sync_keeps identity id n job db db' (no_claim-returns _ r db' h) in
    rw same (IsQuiet-IsSound db db (IsQuiet-refl db))
business-IsSound f identity message (job_event id n type payload source) none o durable coordination
      s db db' r found h =
    absurd (unfold ingest_job_event in ground arith)
business-IsSound f identity message (job_event id n type payload source) (some j) o durable
      coordination s db db' r found h =
    job_event-IsSound f message n type payload source j coordination s db db' (found j refl)
      (no_claim-returns _ r db' h)
business-IsSound f identity message (approval_requested a) none o durable coordination s db db' r
      found h =
    absurd (unfold ingest_approval_requested in ground arith)
business-IsSound f identity message (approval_requested a) (some j) o durable coordination s db db'
      r found h =
    approval_requested-IsSound f message a j coordination s db db' (found j refl)
      (no_claim-returns _ r db' h)
business-IsSound f identity message (job_cancelled id n reason) none o durable coordination s db db'
      r found h =
    absurd (unfold ingest_job_cancelled in ground arith)
business-IsSound f identity message (job_cancelled id n reason) (some j) o durable coordination s db
      db' r found h =
    job_cancelled-IsSound f message id n reason j coordination s db db' (found j refl)
      (no_claim-returns _ r db' h)
business-IsSound f identity message (ack n) job o durable coordination s db db' r found h =
    ack-IsSound identity.connector_id n o s db db' (no_claim-returns _ r db' h)
business-IsSound f identity message heartbeat job o durable coordination s db db' r found h =
    let same : db' ≡ db = ground arith in rw same (IsQuiet-IsSound db db (IsQuiet-refl db))
business-IsSound f identity message (hello c lc ls caps) job o durable coordination s db db' r found
      h =
    let same : db' ≡ db = ground arith in rw same (IsQuiet-IsSound db db (IsQuiet-refl db))

-- The savepoint undoes the writes of a rejected message.
pub settle-IsSound :
    (durable coordination excused : Bool) (db : Database)
    (m : Result StoreError (Option ClaimResult × Database)) (b : Business) (db' : Database)
    → ((r : Option ClaimResult) (mid : Database) → m ≡ ok (r, mid) → IsSound db mid)
    → settle durable coordination excused db m ≡ ok (b, db')
    → IsSound db db'
unfolding settle
settle-IsSound durable coordination excused db (ok (r, mid)) b db' sound h =
    let same : mid ≡ db' = ground arith in
    subst (λ (x : Database). IsSound db x) same (sound r mid refl)
settle-IsSound durable coordination excused db (err e) b db' sound h =
    let same : db' ≡ db = ground arith in rw same (IsQuiet-IsSound db db (IsQuiet-refl db))
