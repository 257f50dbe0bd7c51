-- ===== src/Outbox/Offers.antt =====
-- outbox.ts: hasOriginalOffer and hasExpiredOriginalOffer. A dispatch leaves its offer in the job's log,
-- where it can be proved after the job has been offered to another connector.
use qwen_harness_bridge.Json.{max_safe_integer}
use qwen_harness_bridge.Repository.Claim.{is_lease, is_uuid}
use qwen_harness_bridge.Repository.Commands.{control_plane}
use qwen_harness_bridge.Database.Tables.{find_job}
use qwen_harness_bridge.Outbox.{
  ConnectorIdentity, List, true, some, keep_if, none, find_job, text_eq, false, not, leb,
  max_safe_integer,
}
use qwen_harness_bridge.Text.{Text, units, text_eq}
use qwen_harness_bridge.Database.{
  EventPayload, Database, Key, JobEventRow, DispatchProof, Time, offered,
}
use qwen_harness_bridge.Prelude.{
  Bool, List, Option, [], false, leb, none, not, select, some, true, ℕ, ◌&&◌, ◌==◌, ◌||◌, ◌∷◌,
}

unfoldable pub job_dispatched : Text
job_dispatched = units "job.dispatched"

unfoldable pub job_redispatched : Text
job_redispatched = units "job.redispatched"

abbrev pub proof_of : EventPayload → Option DispatchProof
proof_of (offered p) = some p
proof_of _ = none

unfoldable pub is_dispatch_event : Key → JobEventRow → Bool
is_dispatch_event job_id e =
    (e.job_id == job_id)
    && text_eq e.source control_plane
    && (text_eq e.event_type job_dispatched || text_eq e.event_type job_redispatched)

-- The one proof among the events of the job that meets the test; none if there are two.
unfoldable pub only_proof : Key → (DispatchProof → Bool) → List JobEventRow → Option DispatchProof
only_proof job_id test events = elim (select (λ e. is_dispatch_event job_id e && meets e) events) [
  | [] ↦ none
  | e ∷ rest ↦ elim rest [ [] ↦ proof_of e.payload | f ∷ more ↦ none ]
]
  where
    meets : JobEventRow → Bool
    meets e = elim (proof_of e.payload) [ none ↦ false | some p ↦ test p ]

abbrev same_lease : Option Text → Text → Bool
same_lease none t = true
same_lease (some s) t = text_eq s t

-- A claim names its lease; a sync does not.
unfoldable pub has_original_offer : Database → ConnectorIdentity → Key → ℕ → Option Text → Bool
has_original_offer db identity job_id attempt lease =
    elim (keep_if (λ j. j.owner_id == identity.owner_id) (find_job job_id db)) [
      | none ↦ false
      | some job ↦ elim (only_proof job_id asked db.job_events) [
        | none ↦ false
        | some p ↦
            (p.owner_id == identity.owner_id)
            && (p.connector_id == identity.connector_id)
            && (p.repository_id == job.repository_id)
            && (p.attempt == attempt)
            && leb 1 p.attempt
            && leb p.attempt max_safe_integer
            && is_uuid p.lease_id
      ]
    ]
  where
    asked : DispatchProof → Bool
    asked p =
        (p.connector_id == identity.connector_id)
        && (p.attempt == attempt)
        && same_lease lease p.lease_id

unfoldable pub has_expired_original_offer :
    Database → ConnectorIdentity → Key → ℕ → Text → Time → Bool
has_expired_original_offer db identity job_id attempt lease now =
    elim (keep_if (λ j. j.owner_id == identity.owner_id) (find_job job_id db)) [
      | none ↦ false
      | some job ↦ elim (only_proof job_id (λ p. text_eq p.lease_id lease) db.job_events) [
        | none ↦ false
        | some p ↦
            not (is_lease job.lease_id lease)
            && (p.owner_id == identity.owner_id)
            && (p.connector_id == identity.connector_id)
            && (p.repository_id == job.repository_id)
            && (p.attempt == attempt)
            && text_eq p.lease_id lease
            && leb p.lease_expires_at now
      ]
    ]
