-- ===== src/Outbox/Payloads.antt =====
-- outbox.ts: canonicalJson(a) === canonicalJson(b), for the payloads of messages.
use qwen_harness_bridge.Database.{
  cancel_command, decision_command, offer_payload, error_payload, ack_payload, welcome_payload,
  state_payload, client_payload, absent, stored, StoredResponse,
}
use qwen_harness_bridge.Outbox.Ingest.{same_status! }
use qwen_harness_bridge.Repository.Approval.{same_decision}
use qwen_harness_bridge.Text.{Text, text_eq}
use qwen_harness_bridge.Database.{StatePayload, Receipt, Mode, ApprovalDecision, CommandPayload}
use qwen_harness_bridge.Database.{normal, read_only}
use qwen_harness_bridge.Prelude.{
  ℕ, none, some, [], ◌∷◌, List, Option, Bool, ◌==◌, true, not, false, ◌&&◌,
}

abbrev same_number : Option ℕ → Option ℕ → Bool
same_number none none = true
same_number (some m) (some n) = m == n
same_number m n = false

abbrev same_text : Option Text → Option Text → Bool
same_text none none = true
same_text (some s) (some t) = text_eq s t
same_text s t = false

unfoldable pub same_texts : List Text → List Text → Bool
same_texts [] [] = true
same_texts (s ∷ ss) (t ∷ ts) = let rest = same_texts ss ts in text_eq s t && rest
same_texts ss ts = false

abbrev same_mode : Mode → Mode → Bool
same_mode normal normal = true
same_mode read_only read_only = true
same_mode m n = false

abbrev same_choice : Option ApprovalDecision → Option ApprovalDecision → Bool
same_choice none none = true
same_choice (some d) (some e) = same_decision d e
same_choice d e = false

abbrev same_flag : Bool → Bool → Bool
same_flag true b = b
same_flag false b = not b

unfoldable pub same_state : StatePayload → StatePayload → Bool
same_state p q =
    (p.job_id == q.job_id)
    && (p.repository_id == q.repository_id)
    && same_mode p.mode q.mode
    && (p.requested_attempt == q.requested_attempt)
    && (p.current_attempt == q.current_attempt)
    && same_status! p.status q.status
    && (p.job_revision == q.job_revision)
    && same_number p.cancel_revision q.cancel_revision
    && same_text p.lease_id q.lease_id
    && same_number p.lease_expires_at q.lease_expires_at
    && (p.expires_at == q.expires_at)
    && (p.observed_at == q.observed_at)
    && (p.state_valid_until == q.state_valid_until)
    && (p.request_message_id == q.request_message_id)
    && (p.request_sequence == q.request_sequence)
    && (p.nonce == q.nonce)

unfoldable pub same_receipt : Receipt → Receipt → Bool
same_receipt p q =
    (p.payload == q.payload)
    && (p.sent_at == q.sent_at)
    && (p.expires_at == q.expires_at)
    && same_flag p.durable q.durable
    && same_flag p.coordination q.coordination

unfoldable mutual
  pub same_payload : CommandPayload → CommandPayload → Bool
  same_payload (cancel_command j n r t k) (cancel_command j' n' r' t' k') =
      (j == j') && (n == n') && (r == r') && text_eq t t' && (k == k')
  same_payload (decision_command a j n r k d) (decision_command a' j' n' r' k' d') =
      (a == a') && (j == j') && (n == n') && (r == r') && (k == k') && same_choice d d'
  same_payload (offer_payload j n t k) (offer_payload j' n' t' k') =
      (j == j') && (n == n') && text_eq t t' && (k == k')
  same_payload (error_payload c t) (error_payload c' t') = text_eq c c' && text_eq t t'
  same_payload (ack_payload n) (ack_payload n') = n == n'
  same_payload (welcome_payload c n r ts) (welcome_payload c' n' r' ts') =
      (c == c') && (n == n') && (r == r') && same_texts ts ts'
  same_payload (state_payload p) (state_payload q) = same_state p q
  same_payload (client_payload p r a) (client_payload p' r' a') =
      let responses = same_response r r' in
      let receipts = same_response a a' in same_receipt p p' && responses && receipts
  same_payload p q = false

  pub same_response : StoredResponse → StoredResponse → Bool
  same_response absent absent = true
  same_response (stored t p n k) (stored t' p' n' k') =
      let payloads = same_payload p p' in text_eq t t' && payloads && (n == n') && (k == k')
  same_response r q = false
