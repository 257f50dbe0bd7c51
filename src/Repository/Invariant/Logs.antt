-- ===== src/Repository/Invariant/Logs.antt =====
-- The sequences of the two logs under the writes that extend them.
use qwen_harness_bridge.Database.{Key, JobEventRow}
use qwen_harness_bridge.Database.Tables.{max_sequence}
use qwen_harness_bridge.Repository.Invariant.{sequences, Key, IsDense}
use qwen_harness_bridge.Prelude.{
  ◌≡◌, List, ◌+◌, length, ◌∷◌, Bool-cases, ◌==◌, inl, arith, inr, [], ap, refl, sym, ◌∙◌, ==_iff,
}

pub max_sequence-length :
    (id : Key) (es : List JobEventRow)
    → IsDense (sequences id es)
    → max_sequence id es ≡ length (sequences id es)
unfolding max_sequence sequences
max_sequence-length id [] d = refl
max_sequence-length id (e ∷ es) d = elim (Bool-cases (e.job_id == id)) [
  | inl same ↦ ground (arith, max_sequence-length id es)
  | inr other ↦ ground (arith, max_sequence-length id es)
]

-- The event that takes the next sequence leaves every job's log without a gap.
pub append-IsDense :
    (k id : Key) (e : JobEventRow) (es : List JobEventRow)
    → ((i : Key) → IsDense (sequences i es))
    → e.job_id ≡ id
    → e.sequence ≡ max_sequence id es + 1
    → IsDense (sequences k (e ∷ es))
unfolding sequences
append-IsDense k id e es d same next = elim (Bool-cases (e.job_id == k)) [
  | inl hit ↦ rw hit (
    ground (
      arith,
      max_sequence-length k es (d k),
      ap (λ (i : Key). max_sequence i es) (sym same ∙ (==_iff e.job_id k).0 hit),
    ),
    d k,
  )
  | inr miss ↦ rw miss (d k)
]
