-- ===== src/Outbox/Laws/Materialized.antt =====
-- outbox.ts: materializeServerMessage and the offers of jobs that have ended.
use qwen_harness_bridge.Outbox.History.Reached.{end_is_final}
use qwen_harness_bridge.Outbox.{StoreError, err}
use qwen_harness_bridge.Repository.Invariant.{IsValid}
use qwen_harness_bridge.Outbox.Messages.{job_offer}
use qwen_harness_bridge.Outbox.History.{Transaction, commit_all}
use qwen_harness_bridge.Database.Tables.{find_job}
use qwen_harness_bridge.Text.{Text, text_eq}
use qwen_harness_bridge.Database.{
  ConnectorMessageRow, Key, Time, Database, JobRow, offer_payload, CommandPayload,
}
use qwen_harness_bridge.JobState.{is_terminal}
use qwen_harness_bridge.Outbox.Materialize.{
  read_actionable_offer, materialize_server_message, hydrate_offer, may_hydrate,
}
use qwen_harness_bridge.Prelude.{
  ℕ, ◌≡◌, some, Option, List, true, ok, arith, err, Result-cases, inl, subst, inr,
}

ended_not_actionable :
    (stored : ConnectorMessageRow) (job : Key) (n : ℕ) (lease : Text) (repository : Key) (at : Time)
    (db : Database) (k : JobRow) (c : Key)
    → find_job job db ≡ some k
    → is_terminal k.status ≡ true
    → ¬ (read_actionable_offer stored (offer_payload job n lease repository) at db ≡ ok c)
unfolding read_actionable_offer may_hydrate is_terminal
ended_not_actionable stored job n lease repository at db k c found over h = ground arith

-- Once a job of a valid database has ended, its offer is not sent any more: whatever transactions of
-- the store and of the repository come between, and whatever the first read of the offer has seen, a
-- second read after the end makes the message fail with an error, whatever the clock and the decryptor.
pub ended_never_offered :
    (stored : ConnectorMessageRow) (job : Key) (n : ℕ) (lease : Text) (repository : Key)
    (decryptor : Option (Key → Key)) (before after : Time) (db seen : Database) (j : JobRow)
    (ts : List Transaction)
    → text_eq stored.type job_offer ≡ true
    → stored.payload ≡ offer_payload job n lease repository
    → IsValid db
    → find_job job db ≡ some j
    → is_terminal j.status ≡ true
    → (e : StoreError) × (materialize_server_message stored decryptor before after seen
          (commit_all ts db)
        ≡ err e)
unfolding materialize_server_message hydrate_offer
ended_never_offered stored job n lease repository decryptor before after db seen j ts offer shape v
      found over =
    let (k, there, status, _, _, _) = end_is_final ts db job j v found over in
    elim (Result-cases (read_actionable_offer stored stored.payload after (commit_all ts db))) [
      | inl (c, reads) ↦ absurd (
          ended_not_actionable stored job n lease repository after (commit_all ts db) k c there
            (rw status over)
            (subst
              (λ (p : CommandPayload).
                read_actionable_offer stored p after (commit_all ts db) ≡ ok c)
              shape reads))
      | inr (e, fails) ↦
          elim (Result-cases
            (materialize_server_message stored decryptor before after seen (commit_all ts db))) [
              | inr (x, failed) ↦ (x, failed)
              | inl (sent, goes) ↦ absurd (ground arith)
            ]
    ]
