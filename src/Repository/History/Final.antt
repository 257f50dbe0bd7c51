-- ===== src/Repository/History/Final.antt =====
-- A decision on an approval is final, and it is made in time.
use qwen_harness_bridge.JobState.{waiting_approval}
use qwen_harness_bridge.Repository.Progress.Decisions.{throw_expired-keeps}
use qwen_harness_bridge.Repository.{Error, transaction, waiting_approval}
use qwen_harness_bridge.Repository.History.{
  serve, Call, transitions, cancels, claims, acknowledges, creates, decides, run, Turn,
}
use qwen_harness_bridge.Repository.Approval.Effects.{Decides, decide_body_returns}
use qwen_harness_bridge.Repository.History.Decisions.{
  KeepsApprovals, decide_row-lem, transition-approvals, cancel-approvals, claim-approvals,
  acknowledge-approvals, create-approvals,
}
use mathlib.Core.Option
use qwen_harness_bridge.Database.Clock.{Clock, FreshIds}
use qwen_harness_bridge.Database.{Key, Database, ApprovalRow, JobRow}
use qwen_harness_bridge.Repository.Commands.{append_event, enqueue_server_command}
use qwen_harness_bridge.Repository.Approval.{
  announce, store_approval, RecordApprovalDecisionInput, ApprovalRecord, record_approval_decision,
  decide_body,
}
use qwen_harness_bridge.Database.Tables.{find_approval, has_approval_id, find_job}
use qwen_harness_bridge.Prelude.{
  ◌≡◌, if◌then◌else◌, some, Option, ◌==◌, ==_iff, Bool-cases, Bool, find-holds, ok, inl, arith,
  find-modify_self, ==_refl, none, inr, find-modify_other, ◌⊎◌, Result, is_some, true, err, ap,
  refl, false, List, ◌<◌, ◌∷◌, [],
}

announce-approvals :
    (owner : Option Key) (job : JobRow) (row : ApprovalRow) (clock : Clock) (ids : FreshIds)
    (db db' : Database)
    → announce owner job row clock ids db ≡ ok db'
    → KeepsApprovals db db'
unfolding announce append_event enqueue_server_command
announce-approvals none job row clock ids db db' h = ground arith
announce-approvals (some owner) job row clock ids db db' h = ground arith

find_approval-id :
    (a : Key) (db : Database) (x : ApprovalRow) → find_approval a db ≡ some x → x.id ≡ a
unfolding find_approval
find_approval-id a db x h = (==_iff x.id a).0 (find-holds (has_approval_id a) db.approvals x h)

-- Reading an approval after one was stored.
find-store_approval :
    (a : Key) (row : ApprovalRow) (db : Database)
    → find_approval a (store_approval row db) ≡ (
        if row.id == a then Option.map (λ x. row) (find_approval row.id db) else find_approval a db)
unfolding find_approval store_approval
find-store_approval a row db = elim (Bool-cases (row.id == a)) [
  | inl same ↦ rw same (
      rw (← (==_iff row.id a).0 same)
        (find-modify_self (has_approval_id row.id) (λ x. row) (λ x h. ==_refl row.id) db.approvals))
  | inr apart ↦ rw apart (
      find-modify_other (has_approval_id row.id) (has_approval_id a) (λ x. row)
        (λ x h. ground arith) (λ x h. apart) db.approvals)
]

-- The database after a decision that was written.
Decides-view :
    (input : RecordApprovalDecisionInput) (clock : Clock) (ids : FreshIds) (db db' : Database)
    (r : ApprovalRecord) (late : Bool) (d : Decides input clock ids db r late db') (a : Key)
    → find_approval a db' ≡ (if input.approval_id == a then some d.row else find_approval a db)
unfolding find_approval
Decides-view input clock ids db db' r late d a =
    let same_id = (decide_row-lem input _ _ d.job d.approval d.row clock late d.decides).0 in
    let at = find_approval-id input.approval_id db d.approval d.found in
    rw (announce-approvals input.owner_id d.job d.row clock ids _ db' d.announces)
      (ground (arith, find-store_approval a d.row db, d.found))

decision-outcome :
    (input : RecordApprovalDecisionInput) (clock : Clock) (ids : FreshIds) (db : Database)
    → KeepsApprovals db (record_approval_decision input clock ids db).1
      ⊎ ((r : ApprovalRecord) × (late : Bool) × Decides input clock ids db r late
            (record_approval_decision input clock ids db).1)
unfolding record_approval_decision
decision-outcome input clock ids db =
    rw (throw_expired-keeps (transaction db (decide_body input clock ids db)))
      (by_body (decide_body input clock ids db) refl)
  where
    by_body :
        (m : Result Error ((ApprovalRecord × Bool) × Database))
        → decide_body input clock ids db ≡ m
        → KeepsApprovals db (transaction db m).1
          ⊎ ((r : ApprovalRecord) × (late : Bool) × Decides input clock ids db r late
                (transaction db m).1)
    by_body (err e) h = inl refl
    by_body (ok ((r, late), db')) h = elim (decide_body_returns input clock ids db db' r late h) [
      | inl d ↦ inr (r, late, d)
      | inr k ↦ inl (ap (λ (x : Database). x.approvals) k.kept)
    ]

other_approval :
    (i a : Key) (db : Database) (y x : ApprovalRow)
    → find_approval i db ≡ some y
    → y.decision ≡ none
    → find_approval a db ≡ some x
    → is_some x.decision ≡ true
    → (i == a) ≡ false
other_approval i a db y x here open_ there was = elim (Bool-cases (i == a)) [
  | inr apart ↦ apart
  | inl same ↦ absurd (ground (arith, ap (λ (k : Key). find_approval k db) ((==_iff i a).0 same)))
]

decided-serve :
    (c : Call) (clock : Clock) (ids : FreshIds) (db : Database) (a : Key) (x : ApprovalRow)
    → find_approval a db ≡ some x
    → is_some x.decision ≡ true
    → find_approval a (serve c clock ids db) ≡ some x
unfolding serve find_approval
decided-serve (transitions id n s e) clock ids db a x found was =
    rw (transition-approvals id n s e clock ids db) found
decided-serve (cancels input) clock ids db a x found was =
    rw (cancel-approvals input clock ids db) found
decided-serve (claims id input) clock ids db a x found was =
    rw (claim-approvals id input clock ids db) found
decided-serve (acknowledges owner id) clock ids db a x found was =
    rw (acknowledge-approvals owner id clock db) found
decided-serve (creates input bytes rival) clock ids db a x found was =
    rw (create-approvals input bytes rival clock ids db) found
decided-serve (decides input) clock ids db a x found was =
    elim (decision-outcome input clock ids db) [
      | inl same ↦ rw same found
      | inr (r, late, d) ↦ rw (Decides-view input clock ids db _ r late d a) (
          rw (other_approval input.approval_id a db d.approval x d.found d.undecided found was)
            found)
    ]

-- Once an approval has been decided, no history of calls changes its row: the decision, its time and
-- all else stay as they were recorded, whoever asks for another decision.
pub decision_stays :
    (ts : List Turn) (db : Database) (a : Key) (x : ApprovalRow)
    → find_approval a db ≡ some x
    → is_some x.decision ≡ true
    → find_approval a (run ts db) ≡ some x
unfolding run
decision_stays [] db a x found was = found
decision_stays (t ∷ ts) db a x found was =
    decision_stays ts (serve t.call t.clock t.ids db) a x
      (decided-serve t.call t.clock t.ids db a x found was) was

-- A decision of the owner that was written and returned: what bound it, and what it left behind.
pub record Granted (input : RecordApprovalDecisionInput) (clock : Clock) (db : Database)
    (r : ApprovalRecord) (db' : Database) : Type 0 where
  pub approval : ApprovalRow
  pub job : JobRow
  pub found : find_approval input.approval_id db ≡ some approval
  pub job_found : find_job approval.job_id db ≡ some job
  pub undecided : approval.decision ≡ none
  pub waiting : job.status ≡ waiting_approval
  pub revision :
      (job.revision ≡ input.expected_job_revision) × (approval.job_revision ≡ job.revision)
  pub attempt : job.attempt ≡ approval.attempt
  pub in_time : clock.reading 1 < approval.expires_at
  pub job_live : clock.reading 2 < job.expires_at
  pub granted : r.approval.decision ≡ some input.decision
  pub stored : find_approval input.approval_id db' ≡ some r.approval
