-- ===== src/Repository/Progress/Calls.antt =====
-- Each method of the repository keeps the invariant and only advances jobs.
use qwen_harness_bridge.Repository.Progress.Clients.{
  Clients-refl, append_event-Clients, Clients-trans, Clients, enqueue-Clients, update-Clients,
}
use qwen_harness_bridge.Repository.Claim.Effects.{claim_none_keeps, claim_returns}
use qwen_harness_bridge.Repository.Progress.Rows.{
  transition_row-id, transition_row-JobIsValid, transition_row-Advance, cancel_row-id,
  cancel_row-JobIsValid, claim_row-JobIsValid, claim_row-Advance, cancel_row-Advance,
}
use qwen_harness_bridge.Repository.Cancel.Effects.{cancel_returns, CancelMoves}
use qwen_harness_bridge.Repository.Claim.{
  claim_offer, ClaimOfferInput, may_claim, offers, claim_row, is_dispatched,
}
use qwen_harness_bridge.Repository.Cancel.{
  cancel_atomically, CancelJobInput, notify_cancel, cancel_row,
}
use qwen_harness_bridge.Text.{Text}
use qwen_harness_bridge.Repository.Transition.Effects.{transition_returns}
use qwen_harness_bridge.Repository.Invariant.Writes.{
  append_event-IsValid, update-IsValid, enqueue-IsValid,
}
use qwen_harness_bridge.Repository.Commands.{
  append_event, next_event_sequence, enqueue_server_command, job_cancel,
}
use qwen_harness_bridge.Repository.Transition.{transition_and_append, event_stage, transition_row}
use qwen_harness_bridge.Database.Tables.{find_job, update_job}
use qwen_harness_bridge.Database.Clock.{Clock, FreshIds}
use qwen_harness_bridge.Repository.{JobEventInput, JobRecord, Text, Error, transaction}
use qwen_harness_bridge.JobState.{JobStatus}
use qwen_harness_bridge.Repository.Progress.{
  Related-refl, Advances, JobEventInput, Clock, find_job, Advance, append_event, Related-then,
  update-Related, append_event-keeps, enqueue-keeps, Advance-refl,
}
use qwen_harness_bridge.Repository.Invariant.{IsValid, JobIsValid}
use qwen_harness_bridge.Database.{Key, Database, JobRow, cancel_command}
use qwen_harness_bridge.Prelude.{
  ℕ, ◌≡◌, refl, some, err, ok, Result, Bool, Option, inl, inr, arith, Option-cases, true, none,
  false, ◌+◌,
}

-- The two facts together, as one property of a call.
pub record IsSafe (db db' : Database) : Type 0 where
  pub valid : IsValid db → IsValid db'
  pub advances : IsValid db → Advances db db'
  pub clients : Clients db db'

pub IsSafe-refl : (db : Database) → IsSafe db db
IsSafe-refl db = record {
  valid = λ v. v;
  advances = λ v. Related-refl Advance Advance-refl db db (λ i. refl);
  clients = Clients-refl db;
}

-- An update of a found job followed by an event.
pub logged_update-IsSafe :
    (id : Key) (f : JobRow → JobRow) (j : JobRow) (input : JobEventInput) (clock : Clock)
    (ids : FreshIds) (db db' : Database)
    → ((i : JobRow) → (f i).id ≡ i.id)
    → find_job id db ≡ some j
    → (JobIsValid j → JobIsValid (f j))
    → Advance j (f j)
    → append_event id
        (next_event_sequence (update_job id f db) id)
        input
        clock
        ids
        (update_job id f db)
      ≡ ok db'
    → IsSafe db db'
logged_update-IsSafe id f j input clock ids db db' keep found valid advance appends = record {
  valid = λ v.
      append_event-IsValid id input clock ids _ db' appends
        (update-IsValid id f db j keep found (valid (v.jobs id j found)) v);
  advances = λ v.
      Related-then Advance Advance-refl db (update_job id f db) db'
        (update-Related Advance Advance-refl id f db j keep found advance)
        (append_event-keeps id _ input clock ids _ db' appends);
  clients =
      Clients-trans db (update_job id f db) db' (update-Clients id f db)
        (append_event-Clients id _ input clock ids (update_job id f db) db' appends);
}

-- A transaction is safe if its body is safe where it returns.
pub transaction-IsSafe :
    {A : Type 0} (db : Database) (m : Result Error (A × Database))
    → ((a : A) (db' : Database) → m ≡ ok (a, db') → IsSafe db db')
    → IsSafe db (transaction db m).1
transaction-IsSafe db (ok (a, db')) h = h a db' refl
transaction-IsSafe db (err e) h = IsSafe-refl db

-- The same, where the rollback leaves another database behind.
pub transaction_from-IsSafe :
    {A : Type 0} (db base : Database) (m : Result Error (A × Database))
    → IsSafe db base
    → ((a : A) (db' : Database) → m ≡ ok (a, db') → IsSafe db db')
    → IsSafe db (transaction base m).1
transaction_from-IsSafe db base (ok (a, db')) s h = h a db' refl
transaction_from-IsSafe db base (err e) s h = s

pub returned :
    {A : Type 0} (db db' : Database) (m : Result Error (A × Database)) (a : A)
    → m ≡ ok (a, db')
    → transaction db m ≡ (ok a, db')
returned db db' m a h = rw h

pub transition-IsSafe :
    (id : Key) (expected : ℕ) (status : JobStatus) (event : JobEventInput) (clock : Clock)
    (ids : FreshIds) (db : Database)
    → IsSafe db (transition_and_append id expected status event clock ids db).1
unfolding transition_and_append
transition-IsSafe id expected status event clock ids db = transaction-IsSafe db _ λ r db' h.
    let (j, found, same, edge, _, fits, appends, _) =
      transition_returns id expected status event clock ids db db' r (returned db db' _ r h) in
    let stage = event_stage event status in
    logged_update-IsSafe id (transition_row status stage clock) j event clock ids db db'
      (transition_row-id status stage clock) found
      (transition_row-JobIsValid status stage clock j edge (rw same fits))
      (transition_row-Advance status stage clock j edge) appends

-- What is kept by a write that leaves the jobs alone.
abbrev pub JobsStay : Database → Database → Type 0
JobsStay db db' =
    (IsValid db → IsValid db') × ((i : Key) → find_job i db' ≡ find_job i db) × Clients db db'

-- The command of a cancellation, if one is sent.
pub notify_cancel-keeps :
    (owner : Key) (updated : JobRow) (reason : Text) (immediate : Bool) (clock : Clock)
    (ids : FreshIds) (db db' : Database)
    → notify_cancel owner updated reason immediate clock ids db ≡ ok db'
    → JobsStay db db'
unfolding notify_cancel
notify_cancel-keeps owner updated reason true clock ids db db' h =
    let same : db' ≡ db = ground arith in rw same ((λ v. v), (λ i. refl), Clients-refl db)
notify_cancel-keeps owner updated reason false clock ids db db' h =
    elim (Option-cases updated.connector_id) [
      | inl e ↦ absurd (ground arith)
      | inr (c, e) ↦
          let sent : enqueue_server_command owner c job_cancel
                (cancel_command updated.id updated.attempt updated.revision reason ids.nonce)
                updated.expires_at clock 0 ids db
              ≡ ok db' =
            ground arith in
          (
            enqueue-IsValid owner c _ _ _ clock 0 ids db db' sent,
            enqueue-keeps owner c _ _ _ clock 0 ids db db' sent,
            enqueue-Clients owner c _ _ _ clock 0 ids db db' sent,
          )
    ]

pub IsSafe-then : (db db' db'' : Database) → IsSafe db db' → JobsStay db' db'' → IsSafe db db''
IsSafe-then db db' db'' s (valid, same, clients) = record {
  valid = λ v. valid (s.valid v);
  advances = λ v. Related-then Advance Advance-refl db db' db'' (s.advances v) same;
  clients = Clients-trans db db' db'' s.clients clients;
}

cancelled-IsSafe :
    (input : CancelJobInput) (clock : Clock) (ids : FreshIds) (db db' : Database) (j : JobRow)
    (r : JobRecord)
    → find_job input.job_id db ≡ some j
    → CancelMoves input clock ids db j r db'
    → IsSafe db db'
cancelled-IsSafe input clock ids db db' j r found m =
    IsSafe-then db m.logged db'
      (logged_update-IsSafe input.job_id (cancel_row clock) j m.event_input clock ids db m.logged
        (cancel_row-id clock) found (cancel_row-JobIsValid clock j m.live m.room)
        (cancel_row-Advance clock j m.live) m.appends)
      (notify_cancel-keeps input.owner_id _ _ _ clock ids m.logged db' m.notifies)

pub cancel-IsSafe :
    (input : CancelJobInput) (clock : Clock) (ids : FreshIds) (db : Database)
    → IsSafe db (cancel_atomically input clock ids db).1
unfolding cancel_atomically
cancel-IsSafe input clock ids db = transaction-IsSafe db _ λ r db' h.
    let (j, found, _, outcome) = cancel_returns input clock ids db db' r (returned db db' _ r h) in
    elim outcome [
      | inl (_, _, same) ↦ rw same (IsSafe-refl db)
      | inr m ↦ cancelled-IsSafe input clock ids db db' j r found m
    ]

may_claim-dispatched :
    (input : ClaimOfferInput) (n : ℕ) (j : JobRow) (clock : Clock) (db : Database)
    → may_claim input n j clock db ≡ true
    → (is_dispatched j.status ≡ true) × (n ≡ j.attempt + 1)
unfolding may_claim offers
may_claim-dispatched input n j clock db h = ground arith

claimed-IsSafe :
    (id : Key) (input : ClaimOfferInput) (clock : Clock) (ids : FreshIds) (db db' : Database)
    (r : Option JobRecord)
    → claim_offer id input clock ids db ≡ (ok r, db')
    → IsSafe db db'
claimed-IsSafe id input clock ids db db' none h =
    rw (claim_none_keeps id input clock ids db db' h) (IsSafe-refl db)
claimed-IsSafe id input clock ids db db' (some r) h =
    let c = claim_returns id input clock ids db db' r h in
    let (sent, next) = may_claim-dispatched input c.attempt c.current clock db c.allowed in
    logged_update-IsSafe id (claim_row input c.attempt clock) c.current c.event_input clock ids db
      db' (λ i. unfold claim_row in refl) c.found
      (claim_row-JobIsValid input c.attempt clock c.current sent c.room)
      (claim_row-Advance input c.attempt clock c.current sent next) c.appends

pub claim-IsSafe :
    (id : Key) (input : ClaimOfferInput) (clock : Clock) (ids : FreshIds) (db : Database)
    → IsSafe db (claim_offer id input clock ids db).1
unfolding claim_offer
claim-IsSafe id input clock ids db =
    transaction-IsSafe db _
      λ r db' h. claimed-IsSafe id input clock ids db db' r (returned db db' _ r h)
