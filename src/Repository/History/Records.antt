-- ===== src/Repository/History/Records.antt =====
-- What an idempotency record says stays readable, whatever is called after it was written.
use qwen_harness_bridge.Repository.History.{
  serve, run, Turn, Call, transitions, cancels, claims, decides, acknowledges, creates,
}
use qwen_harness_bridge.Repository.Progress.Creation.{create_job_returns}
use qwen_harness_bridge.Repository.ShortId.{RandomBytes}
use qwen_harness_bridge.Repository.Progress.Decisions.{throw_expired-keeps}
use qwen_harness_bridge.Repository.Approval.Effects.{decide_body_returns}
use qwen_harness_bridge.Repository.{JobEventInput, Error, transaction, to_job_record, JobRecord}
use qwen_harness_bridge.JobState.{JobStatus}
use qwen_harness_bridge.Database.Clock.{Clock, FreshIds}
use qwen_harness_bridge.Database.Tables.{find_idempotency, update_job, has_key, find_job}
use qwen_harness_bridge.Repository.Commands.{append_event, enqueue_server_command}
use qwen_harness_bridge.Repository.Create.{
  commit_rival, original_job, CreateIdempotentInput, register_job, create_idempotent, create_new,
  create_job, delete_job, create_body,
}
use qwen_harness_bridge.Repository.Results.{acknowledge_result, acknowledge_current}
use qwen_harness_bridge.Repository.Claim.{claim_offer, claim_current, ClaimOfferInput}
use qwen_harness_bridge.Repository.Transition.{transition_and_append}
use qwen_harness_bridge.Repository.Cancel.{cancel_atomically, cancel_current, CancelJobInput}
use qwen_harness_bridge.Database.{Database, Key, IdempotencyRow, JobRow, ApprovalRow}
use qwen_harness_bridge.Repository.Approval.{
  record_approval_decision, announce, RecordApprovalDecisionInput, ApprovalRecord, decide_body,
  store_approval,
}
use qwen_harness_bridge.Prelude.{
  ℕ, ◌≡◌, find, Option, arith, Result, some, ok, none, Bool, err, inl, ◌∙◌, inr, ap, refl,
  Bool-cases, Option-cases, Result-cases, ◌==◌, List, ◌&&◌, ◌∷◌, subst, [],
}

-- A call that does not write idempotency records.
abbrev KeepsRecords : Database → Database → Type 0
KeepsRecords db db' = db'.idempotency_records ≡ db.idempotency_records

transition-records :
    (id : Key) (expected : ℕ) (status : JobStatus) (event : JobEventInput) (clock : Clock)
    (ids : FreshIds) (db : Database)
    → KeepsRecords db (transition_and_append id expected status event clock ids db).1
unfolding transition_and_append append_event update_job
transition-records id expected status event clock ids db = ground arith

cancel-records :
    (input : CancelJobInput) (clock : Clock) (ids : FreshIds) (db : Database)
    → KeepsRecords db (cancel_atomically input clock ids db).1
unfolding cancel_atomically cancel_current append_event update_job enqueue_server_command
cancel-records input clock ids db = ground arith

claim-records :
    (id : Key) (input : ClaimOfferInput) (clock : Clock) (ids : FreshIds) (db : Database)
    → KeepsRecords db (claim_offer id input clock ids db).1
unfolding claim_offer claim_current append_event update_job
claim-records id input clock ids db = ground arith

acknowledge-records :
    (owner id : Key) (clock : Clock) (db : Database)
    → KeepsRecords db (acknowledge_result owner id clock db).1
unfolding acknowledge_result acknowledge_current update_job
acknowledge-records owner id clock db = ground arith

announce-records :
    (owner : Option Key) (job : JobRow) (row : ApprovalRow) (clock : Clock) (ids : FreshIds)
    (db db' : Database)
    → announce owner job row clock ids db ≡ ok db'
    → KeepsRecords db db'
unfolding announce append_event enqueue_server_command
announce-records none job row clock ids db db' h = ground arith
announce-records (some owner) job row clock ids db db' h = ground arith

decision-records :
    (input : RecordApprovalDecisionInput) (clock : Clock) (ids : FreshIds) (db : Database)
    → KeepsRecords db (record_approval_decision input clock ids db).1
unfolding record_approval_decision
decision-records input clock ids db =
    rw (throw_expired-keeps (transaction db (decide_body input clock ids db)))
      (by_body (decide_body input clock ids db) refl)
  where
    by_body :
        (m : Result Error ((ApprovalRecord × Bool) × Database))
        → decide_body input clock ids db ≡ m
        → KeepsRecords db (transaction db m).1
    by_body (err e) h = refl
    by_body (ok ((r, late), db')) h = elim (decide_body_returns input clock ids db db' r late h) [
      | inl d ↦
          announce-records input.owner_id d.job d.row clock ids (store_approval d.row db) db'
            d.announces
          ∙ unfold store_approval in refl
      | inr k ↦ ap (λ (x : Database). x.idempotency_records) k.kept
    ]

-- A committed record hides none that was there.
commit_rival-record :
    (rival : Option IdempotencyRow) (db : Database) (owner request : Key) (x : IdempotencyRow)
    → find_idempotency owner request db ≡ some x
    → find_idempotency owner request (commit_rival rival db) ≡ some x
unfolding commit_rival find_idempotency find
commit_rival-record none db owner request x h = h
commit_rival-record (some r) db owner request x h = elim (Bool-cases (has_key owner request r)) [
  | inr apart ↦ ground arith
  | inl same ↦
      let p : r.owner_id ≡ owner = ground arith in
      let q : r.client_request_id ≡ request = ground arith in
      unfold find_idempotency in rw (p, q, h) h
]

pub original_job_returns :
    (input : CreateIdempotentInput) (x : IdempotencyRow) (db db' : Database) (r : JobRecord)
    → original_job input x db ≡ ok (r, db')
    → (db' ≡ db)
      × (x.request_digest ≡ input.request_digest)
      × ((j : JobRow) × (find_job x.job_id db ≡ some j) × (r ≡ to_job_record j))
unfolding original_job
original_job_returns input x db db' r h = elim (Option-cases (find_job x.job_id db)) [
  | inl e ↦ absurd (ground arith)
  | inr (j, e) ↦ (ground arith, ground arith, (j, e, ground arith))
]

abbrev pub Remembers : Key → Key → IdempotencyRow → Database → Type 0
Remembers owner request x db = find_idempotency owner request db ≡ some x

KeepsRecords-Remembers :
    (owner request : Key) (x : IdempotencyRow) (db db' : Database)
    → KeepsRecords db db'
    → Remembers owner request x db
    → Remembers owner request x db'
unfolding find_idempotency
KeepsRecords-Remembers owner request x db db' k h = rw k h

registered-Remembers :
    (input : CreateIdempotentInput) (row : JobRow) (winner : Option IdempotencyRow) (clock : Clock)
    (seen db' : Database) (r : JobRecord) (owner request : Key) (x : IdempotencyRow)
    → find_idempotency input.owner_id input.client_request_id seen ≡ winner
    → Remembers owner request x seen
    → register_job input row winner clock seen ≡ ok (r, db')
    → Remembers owner request x db'
unfolding register_job
registered-Remembers input row none clock seen db' r owner request x missing known h =
    elim (Bool-cases ((input.owner_id == owner) && (input.client_request_id == request))) [
      | inr apart ↦ unfold find_idempotency find in ground arith
      | inl same ↦
          let p : input.owner_id ≡ owner = ground arith in
          let q : input.client_request_id ≡ request = ground arith in
          absurd (
            ground (
              arith,
              subst (λ (k : Key). find_idempotency k input.client_request_id seen ≡ none) p missing,
              subst (λ (k : Key). find_idempotency owner k seen ≡ none) q,
            ))
    ]
registered-Remembers input row (some w) clock seen db' r owner request x missing known h =
    let (same, _, _) = original_job_returns input w (delete_job row.id seen) db' r h in
    KeepsRecords-Remembers owner request x seen db' (rw same (unfold delete_job in refl)) known

create-Remembers :
    (input : CreateIdempotentInput) (bytes : ℕ → RandomBytes) (rival : Option IdempotencyRow)
    (clock : Clock) (ids : FreshIds) (db : Database) (owner request : Key) (x : IdempotencyRow)
    → Remembers owner request x db
    → Remembers owner request x (create_idempotent input bytes rival clock ids db).1
unfolding create_idempotent
create-Remembers input bytes rival clock ids db owner request x known =
    by_record (find_idempotency input.owner_id input.client_request_id db)
  where
    kept : Remembers owner request x (commit_rival rival db)
    kept = commit_rival-record rival db owner request x known

    fresh :
        (r : JobRecord) (db' : Database)
        → create_new input bytes rival clock ids db ≡ ok (r, db')
        → Remembers owner request x db'
    fresh r db' e = elim (Result-cases (create_job input bytes clock ids db)) [
      | inr (y, f) ↦ absurd (unfold create_new in ground arith)
      | inl ((row, with_job), f) ↦
          let (t, _, same, new, shape) =
            create_job_returns input bytes clock ids db with_job row f in
          registered-Remembers input row _ clock (commit_rival rival with_job) db' r owner request x
            refl
            (commit_rival-record rival with_job owner request x
              (rw shape (unfold find_idempotency in known)))
            (unfold create_new in ground arith)
    ]

    settle :
        (base : Database) (m : Result Error (JobRecord × Database))
        → Remembers owner request x base
        → ((r : JobRecord) (db' : Database) → m ≡ ok (r, db') → Remembers owner request x db')
        → Remembers owner request x (transaction base m).1
    settle base (ok (r, db')) b f = f r db' refl
    settle base (err e) b f = b

    by_record :
        (o : Option IdempotencyRow)
        → Remembers owner request x (create_body input o bytes rival clock ids db).1
    by_record none = settle (commit_rival rival db) _ kept fresh
    by_record (some w) =
        settle db (original_job input w db) known
          λ r db' h. rw (original_job_returns input w db db' r h).0 known

serve-Remembers :
    (c : Call) (clock : Clock) (ids : FreshIds) (db : Database) (owner request : Key)
    (x : IdempotencyRow)
    → Remembers owner request x db
    → Remembers owner request x (serve c clock ids db)
unfolding serve
serve-Remembers (transitions id expected status event) clock ids db owner request x =
    KeepsRecords-Remembers owner request x db _
      (transition-records id expected status event clock ids db)
serve-Remembers (cancels input) clock ids db owner request x =
    KeepsRecords-Remembers owner request x db _ (cancel-records input clock ids db)
serve-Remembers (claims id input) clock ids db owner request x =
    KeepsRecords-Remembers owner request x db _ (claim-records id input clock ids db)
serve-Remembers (decides input) clock ids db owner request x =
    KeepsRecords-Remembers owner request x db _ (decision-records input clock ids db)
serve-Remembers (acknowledges key id) clock ids db owner request x =
    KeepsRecords-Remembers owner request x db _ (acknowledge-records key id clock db)
serve-Remembers (creates input bytes rival) clock ids db owner request x =
    create-Remembers input bytes rival clock ids db owner request x

pub run-Remembers :
    (ts : List Turn) (db : Database) (owner request : Key) (x : IdempotencyRow)
    → Remembers owner request x db
    → Remembers owner request x (run ts db)
unfolding run
run-Remembers [] db owner request x h = h
run-Remembers (t ∷ ts) db owner request x h =
    run-Remembers ts _ owner request x (serve-Remembers t.call t.clock t.ids db owner request x h)
