-- ===== src/Repository/Approval/Effects.antt =====
-- What recordApprovalDecision did to the database, from what it answered.
use qwen_harness_bridge.Database.Tables.{find_approval, find_job}
use qwen_harness_bridge.Database.Clock.{Clock, FreshIds}
use qwen_harness_bridge.Database.{Database, ApprovalRow, JobRow, ApprovalDecision}
use qwen_harness_bridge.Repository.Approval.{
  RecordApprovalDecisionInput, Clock, Database, decide_body, decide_locked, ApprovalRecord,
  find_approval, absent_or, repeats, to_approval_record, matches_job, decide, decision_time,
  announce, store_approval,
}
use qwen_harness_bridge.Prelude.{
  ◌≡◌, Bool, ok, ◌⊎◌, some, true, none, false, is_some, Option-cases, inl, arith, inr, Result-cases,
}

-- A decision that was written: the undecided approval, its job, and the rows.
pub record Decides (input : RecordApprovalDecisionInput) (clock : Clock) (ids : FreshIds)
    (db : Database) (a : ApprovalRecord) (expired : Bool) (db' : Database) : Type 0 where
  pub approval : ApprovalRow
  pub job : JobRow
  pub row : ApprovalRow
  pub found : find_approval input.approval_id db ≡ some approval
  pub job_found : find_job approval.job_id db ≡ some job
  pub owned : absent_or input.owner_id job.owner_id ≡ true
  pub undecided : approval.decision ≡ none
  pub bound : matches_job input job approval ≡ true
  pub decides :
      decide input (is_some input.owner_id) (decision_time input clock) job approval clock
      ≡ ok (row, expired)
  pub announces : announce input.owner_id job row clock ids (store_approval row db) ≡ ok db'
  pub answers : a ≡ to_approval_record row job

-- What the transaction answered without writing.
pub record Repeats (input : RecordApprovalDecisionInput) (db : Database) (a : ApprovalRecord)
    (expired : Bool) (db' : Database) : Type 0 where
  pub approval : ApprovalRow
  pub job : JobRow
  pub old : ApprovalDecision
  pub found : find_approval input.approval_id db ≡ some approval
  pub job_found : find_job approval.job_id db ≡ some job
  pub was_decided : approval.decision ≡ some old
  pub repeated : repeats input job approval old ≡ true
  pub not_expired : expired ≡ false
  pub kept : db' ≡ db
  pub answers : a ≡ to_approval_record approval job

pub decide_body_returns :
    (input : RecordApprovalDecisionInput) (clock : Clock) (ids : FreshIds) (db db' : Database)
    (a : ApprovalRecord) (expired : Bool)
    → decide_body input clock ids db ≡ ok ((a, expired), db')
    → Decides input clock ids db a expired db' ⊎ Repeats input db a expired db'
unfolding decide_body decide_locked
decide_body_returns input clock ids db db' a expired h =
    elim (Option-cases (find_approval input.approval_id db)) [
      | inl missing ↦ absurd (ground arith)
      | inr (approval, found) ↦ elim (Option-cases (find_job approval.job_id db)) [
        | inl missing ↦ absurd (ground arith)
        | inr (job, job_found) ↦ elim (Option-cases approval.decision) [
          | inl undecided ↦
              elim (Result-cases (
                decide input (is_some input.owner_id) (decision_time input clock) job approval
                  clock)) [
                    | inr (x, e) ↦ absurd (ground arith)
                    | inl ((row, late), e) ↦ inl (record {
                      approval = approval;
                      job = job;
                      row = row;
                      found = found;
                      job_found = job_found;
                      owned = ground arith;
                      undecided = undecided;
                      bound = ground arith;
                      decides = ground arith;
                      announces = ground arith;
                      answers = ground arith;
                    })
                  ]
          | inr (old, was) ↦ inr (record {
            approval = approval;
            job = job;
            old = old;
            found = found;
            job_found = job_found;
            was_decided = was;
            repeated = ground arith;
            not_expired = ground arith;
            kept = ground arith;
            answers = ground arith;
          })
        ]
      ]
    ]
