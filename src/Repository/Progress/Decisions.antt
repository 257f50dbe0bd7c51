-- ===== src/Repository/Progress/Decisions.antt =====
-- recordApprovalDecision and acknowledgeResult keep the invariant and only advance jobs.
use qwen_harness_bridge.Repository.Progress.Clients.{
  Clients-refl, Clients-trans, append_event-Clients, enqueue-Clients, update-Clients,
}
use qwen_harness_bridge.Repository.Commands.{
  append_event, next_event_sequence, enqueue_server_command, approval_decision,
}
use qwen_harness_bridge.Repository.Progress.{
  update-Related, append_event, enqueue-keeps, append_event-keeps, Advance, Advance-refl,
}
use qwen_harness_bridge.Repository.Progress.Rows.{
  acknowledge_row-id, acknowledge_row-JobIsValid, acknowledge_row-Advance,
}
use qwen_harness_bridge.Repository.Invariant.Writes.{
  update-IsValid, enqueue-IsValid, append_event-IsValid,
}
use qwen_harness_bridge.Json.{as_record}
use qwen_harness_bridge.JobState.{is_terminal}
use qwen_harness_bridge.Repository.Approval.Effects.{Decides, Repeats, decide_body_returns}
use qwen_harness_bridge.Repository.Progress.Calls.{
  IsSafe, transaction-IsSafe, IsSafe-refl, IsSafe-then, JobsStay,
}
use qwen_harness_bridge.Repository.Cancel.{owned_by}
use qwen_harness_bridge.Database.Clock.{Clock, FreshIds}
use qwen_harness_bridge.Repository.{Outcome, transaction}
use qwen_harness_bridge.Database.{Key, Database, JobRow, ApprovalRow, decision_command}
use qwen_harness_bridge.Database.Tables.{find_job, find_connector, update_job}
use qwen_harness_bridge.Repository.Results.{
  acknowledge_current, acknowledge_result, JobResultRecord, summary_text, acknowledge_row,
}
use qwen_harness_bridge.Repository.Approval.{
  record_approval_decision, RecordApprovalDecisionInput, store_approval, announce, throw_expired,
  ApprovalRecord, decide_body, decided_event,
}
use qwen_harness_bridge.Prelude.{
  ◌≡◌, Option, is_some, Bool, ok, refl, ◌⊎◌, arith, err, Option-cases, some, true, inl, inr, false,
  Bool-cases, none, ◌==◌, ◌&&◌, Result-cases, ◌∙◌,
}

announce-keeps :
    (owner : Option Key) (job : JobRow) (row : ApprovalRow) (clock : Clock) (ids : FreshIds)
    (db db' : Database)
    → announce owner job row clock ids db ≡ ok db'
    → JobsStay db db'
unfolding announce
announce-keeps none job row clock ids db db' h =
    let same : db' ≡ db = ground arith in rw same ((λ v. v), (λ i. refl), Clients-refl db)
announce-keeps (some owner) job row clock ids db db' h = elim (Option-cases job.connector_id) [
  | inl e ↦ absurd (ground arith)
  | inr (c, e) ↦
      elim (Result-cases
        (append_event job.id (next_event_sequence db job.id) (decided_event row) clock ids db)) [
          | inr (x, f) ↦ absurd (ground arith)
          | inl (logged, f) ↦
              let sent : enqueue_server_command owner c approval_decision
                    (decision_command row.id job.id row.attempt row.job_revision
                      row.action_fingerprint row.decision)
                    job.expires_at clock 9 ids logged
                  ≡ ok db' =
                ground arith in
              (
                (λ v.
                    enqueue-IsValid owner c _ _ _ clock 9 ids logged db' sent
                      (append_event-IsValid job.id _ clock ids db logged f v)),
                (λ i.
                    enqueue-keeps owner c _ _ _ clock 9 ids logged db' sent i
                    ∙ append_event-keeps job.id _ _ clock ids db logged f i),
                Clients-trans db logged db' (append_event-Clients job.id _ _ clock ids db logged f)
                    (enqueue-Clients owner c _ _ _ clock 9 ids logged db' sent),
              )
        ]
]

store_approval-keeps : (row : ApprovalRow) (db : Database) → JobsStay db (store_approval row db)
unfolding store_approval find_job find_connector
store_approval-keeps row db = (
  (λ v. record { jobs = v.jobs; events = v.events; messages = v.messages }),
  (λ i. refl),
  ((λ k d h. (d, h, refl), λ k d h. (d, h, refl))),
)

decided-IsSafe :
    (input : RecordApprovalDecisionInput) (clock : Clock) (ids : FreshIds) (db db' : Database)
    (a : ApprovalRecord) (late : Bool)
    → Decides input clock ids db a late db' ⊎ Repeats input db a late db'
    → IsSafe db db'
decided-IsSafe input clock ids db db' a late (inl d) =
    IsSafe-then db (store_approval d.row db) db'
      (IsSafe-then db db (store_approval d.row db) (IsSafe-refl db) (store_approval-keeps d.row db))
      (announce-keeps input.owner_id d.job d.row clock ids _ db' d.announces)
decided-IsSafe input clock ids db db' a late (inr r) = rw r.kept (IsSafe-refl db)

pub throw_expired-keeps : (o : Outcome (ApprovalRecord × Bool)) → (throw_expired o).1 ≡ o.1
unfolding throw_expired
throw_expired-keeps (ok (a, true), db) = refl
throw_expired-keeps (ok (a, false), db) = refl
throw_expired-keeps (err e, db) = refl

pub decision-IsSafe :
    (input : RecordApprovalDecisionInput) (clock : Clock) (ids : FreshIds) (db : Database)
    → IsSafe db (record_approval_decision input clock ids db).1
unfolding record_approval_decision
decision-IsSafe input clock ids db =
    rw (throw_expired-keeps (transaction db (decide_body input clock ids db)))
      (transaction-IsSafe db _ answered)
  where
    answered :
        (a : ApprovalRecord × Bool) (db' : Database)
        → decide_body input clock ids db ≡ ok (a, db')
        → IsSafe db db'
    answered (a, late) db' h =
        decided-IsSafe input clock ids db db' a late
          (decide_body_returns input clock ids db db' a late h)

acknowledged-IsSafe :
    (owner_id job_id : Key) (clock : Clock) (db : Database) (r : Option JobResultRecord)
    (db' : Database)
    → acknowledge_current (owned_by owner_id (find_job job_id db)) job_id clock db ≡ ok (r, db')
    → IsSafe db db'
unfolding acknowledge_current owned_by
acknowledged-IsSafe owner_id job_id clock db r db' h = elim (Option-cases (find_job job_id db)) [
  | inl missing ↦ let same : db' ≡ db = ground arith in rw same (IsSafe-refl db)
  | inr (j, found) ↦ elim (Bool-cases (is_terminal j.status)) [
    | inr live ↦ let same : db' ≡ db = ground arith in rw same (IsSafe-refl db)
    | inl over ↦
        elim (Bool-cases
          ((j.owner_id == owner_id) && is_some (summary_text (as_record j.summary)))) [
            | inr no_result ↦ let same : db' ≡ db = ground arith in rw same (IsSafe-refl db)
            | inl result ↦
                let shape : db' ≡ update_job job_id (acknowledge_row clock) db = ground arith in
                rw shape (record {
                  valid = λ v.
                      update-IsValid job_id (acknowledge_row clock) db j (acknowledge_row-id clock)
                        found (acknowledge_row-JobIsValid clock j over (v.jobs job_id j found)) v;
                  advances = λ v.
                      update-Related Advance Advance-refl job_id (acknowledge_row clock) db j
                        (acknowledge_row-id clock) found (acknowledge_row-Advance clock j);
                  clients = update-Clients job_id (acknowledge_row clock) db;
                })
          ]
  ]
]

pub acknowledge-IsSafe :
    (owner_id job_id : Key) (clock : Clock) (db : Database)
    → IsSafe db (acknowledge_result owner_id job_id clock db).1
unfolding acknowledge_result
acknowledge-IsSafe owner_id job_id clock db =
    transaction-IsSafe db _ (acknowledged-IsSafe owner_id job_id clock db)
