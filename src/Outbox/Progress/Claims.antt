-- ===== src/Outbox/Progress/Claims.antt =====
-- A claim of an offer, by the connector store.
use qwen_harness_bridge.Outbox.Offers.{has_original_offer}
use qwen_harness_bridge.Repository.Claim.{is_dispatched}
use qwen_harness_bridge.Outbox.Progress.Writes.{
  update-IsSound, append_job_event-IsQuiet, modify_messages-IsQuiet,
}
use qwen_harness_bridge.Outbox.Progress.Rows.{Evolving, offer_row-Evolving, increment-lt}
use qwen_harness_bridge.Outbox.Progress.{
  IsQuiet, IsSound, inl, arith, IsQuiet-IsSound, IsSound-then, IsQuiet-refl, inr,
}
use qwen_harness_bridge.Database.Tables.{find_job, update_job}
use qwen_harness_bridge.Repository.{JobEventInput, max_integer}
use qwen_harness_bridge.Text.{Text}
use qwen_harness_bridge.Outbox.{
  ConnectorIdentity, ClientMessage, Bool, find_job, ok, some, max_integer, any,
  checked_job_increment, true, claim_rejected, false,
}
use qwen_harness_bridge.Database.{Key, JobRow, ConnectorMessageRow, CommandPayload, Time, Database}
use qwen_harness_bridge.Outbox.Claim.{
  claim_offered_job, claim_matched, ClaimResult, withdrawn_claim, claim_input, offer_row,
  matches_offer,
}
use qwen_harness_bridge.Outbox.Messages.{
  replace_server_message, withdraw_cancelled_offer, Supply, append_job_event, is_offer_of,
  cancelled_tombstone_payload, tombstone, is_replaced,
}
use qwen_harness_bridge.Prelude.{
  ℕ, ◌≡◌, Bool, ok, ◌<◌, some, Option-cases, Bool-cases, find, any, inl, ◌==◌, arith, ◌&&◌,
  Result-cases, inr, true, false, refl, modify, ◌||◌, ◌+◌, subst,
}

-- An update of a found job, and the event that tells of it.
pub logged_update-IsSound :
    (id : Key) (f : JobRow → JobRow) (j : JobRow) (input : JobEventInput) (s : Supply) (k : ℕ)
    (db db' : Database)
    → ((i : JobRow) → (f i).id ≡ i.id)
    → find_job id db ≡ some j
    → Evolving j (f j)
    → append_job_event id input s k (update_job id f db) ≡ ok db'
    → IsSound db db'
logged_update-IsSound id f j input s k db db' keep found step appends =
    IsSound-then db (update_job id f db) db' (update-IsSound id f db j keep found step)
      (append_job_event-IsQuiet id input s k (update_job id f db) db' appends)

pub replace_message-IsQuiet :
    (row : ConnectorMessageRow) (payload : CommandPayload) (expects_offer expired : Bool)
    (now : Time) (s : Supply) (k : ℕ) (db db' : Database)
    → replace_server_message row payload expects_offer expired now s k db ≡ ok db'
    → IsQuiet db db'
unfolding replace_server_message
replace_message-IsQuiet row payload expects_offer expired now s k db db' h =
    elim (Bool-cases (
      any (λ m. (m.connector_id == row.connector_id) && (m.message_id == (s.ids k).command_message))
        db.connector_messages)) [
          | inl taken ↦ absurd (ground arith)
          | inr new ↦
              let written : Database = record db {
                connector_messages =
                    modify (is_replaced row expects_offer expired now)
                      (tombstone payload now (s.ids k).command_message) db.connector_messages;
              } in
              let shape : written ≡ db' = ground arith in
              subst (λ (x : Database). IsQuiet db x) shape
                (modify_messages-IsQuiet (is_replaced row expects_offer expired now)
                  (tombstone payload now (s.ids k).command_message) db
                  (λ m. unfold tombstone in (refl, refl, refl)))
        ]

pub withdraw_offer-IsQuiet :
    (connector_id job_id : Key) (lease : Text) (now : Time) (s : Supply) (k : ℕ) (db db' : Database)
    → withdraw_cancelled_offer connector_id job_id lease now s k db ≡ ok db'
    → IsQuiet db db'
unfolding withdraw_cancelled_offer
withdraw_offer-IsQuiet connector_id job_id lease now s k db db' h =
    elim (Option-cases (find (is_offer_of connector_id job_id lease) db.connector_messages)) [
      | inl missing ↦ let same : db' ≡ db = ground arith in rw same (IsQuiet-refl db)
      | inr (m, found) ↦
          replace_message-IsQuiet m cancelled_tombstone_payload true false now s k db db'
            (ground arith)
    ]

-- What a claim that matches the offer does.
pub claim_matched_adds :
    (identity : ConnectorIdentity) (message : ClientMessage) (n : ℕ) (j : JobRow)
    (durable limit : Bool) (s : Supply) (db db' : Database) (r : ClaimResult)
    → claim_matched identity message n j durable limit s db ≡ ok (r, db')
    → (j.revision < max_integer)
      × (append_job_event j.id
            (claim_input identity message n)
            s
            0
            (update_job j.id (offer_row n (s.clock.reading 0)) db)
          ≡ ok db')
unfolding claim_matched
claim_matched_adds identity message n j durable limit s db db' r h =
    elim (Result-cases (checked_job_increment j.revision limit claim_rejected)) [
      | inr (e, failed) ↦ absurd (ground arith)
      | inl (m, fits) ↦ ((increment-lt j.revision m limit claim_rejected fits).0, ground arith)
    ]

matches_offer-dispatched :
    (j : JobRow) (n : ℕ) (lease : Text)
    → matches_offer j n lease ≡ true
    → (is_dispatched j.status ≡ true) × (n ≡ j.attempt + 1)
unfolding matches_offer
matches_offer-dispatched j n lease h = ground arith

pub claim_offered-IsSound :
    (identity : ConnectorIdentity) (message : ClientMessage) (id : Key) (n : ℕ) (lease : Text)
    (j : JobRow) (durable coordination : Bool) (s : Supply) (db db' : Database) (r : ClaimResult)
    → find_job j.id db ≡ some j
    → claim_offered_job identity message id n lease (some j) durable coordination s db ≡ ok (r, db')
    → IsSound db db'
unfolding claim_offered_job
claim_offered-IsSound identity message id n lease j durable coordination s db db' r found h =
    elim (Bool-cases (withdrawn_claim j n lease (s.clock.reading 0))) [
      | inl withdrawn ↦ IsQuiet-IsSound db db' (
          withdraw_offer-IsQuiet identity.connector_id j.id lease (s.clock.reading 0) s 1 db db'
            (ground arith))
      | inr active ↦ elim (Bool-cases (matches_offer j n lease)) [
        | inl matches ↦
            let limit : Bool =
              coordination
              && ((j.revision == max_integer) || (j.attempt == max_integer))
              && has_original_offer db identity id n (some lease) in
            let (room, appends) =
              claim_matched_adds identity message n j durable limit s db db' r (ground arith) in
            logged_update-IsSound j.id (offer_row n (s.clock.reading 0)) j
              (claim_input identity message n) s 0 db db' (λ i. unfold offer_row in refl) found
              (let (sent, next) = matches_offer-dispatched j n lease matches in
                offer_row-Evolving n (s.clock.reading 0) j sent next room)
              appends
        | inr other ↦ absurd (ground arith)
      ]
    ]
