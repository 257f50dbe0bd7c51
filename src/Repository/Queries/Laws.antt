-- ===== src/Repository/Queries/Laws.antt =====
-- What the reads of the repository answer.
use qwen_harness_bridge.Repository.Queries.Sorting.{
  order_by-Perm, IsOrdered-IsSorted, order_by-IsOrdered, taken_all,
}
use mathlib.Core.List.{Perm}
use qwen_harness_bridge.JobState.{
  JobStatus, queued, dispatched, running, waiting_approval, cancelling, succeeded, failed,
  cancelled, expired,
}
use qwen_harness_bridge.Text.{Text, text_eq, text_eq_iff}
use qwen_harness_bridge.Repository.{status_text, JobRecord, to_job_record}
use qwen_harness_bridge.Json.{safe_natural, Number}
use qwen_harness_bridge.Database.{JobRow, Database}
use qwen_harness_bridge.Repository.Queries.{
  validate_limit, list_jobs, listed_before, order_by, safe_natural, ListJobsInput, JobRow,
  JobRecord, listed, status_matches, same_status,
}
use qwen_harness_bridge.Prelude.{
  ℕ, ◌≡◌, List, select, true, length, take, false, Bool-cases, if◌then◌else◌, ◌∙◌, Option, arith,
  inl, ◌⊎◌, [], ok, drop, inr, refl, ◌≤◌, map, ◌++◌, bind-eq-ok, take-append-drop, length-take-le,
  some, ◌<◌, ◌↔◌, Chosen, IsSorted, subst, sym, select-Chosen, ap, none, Option-cases,
}

listed_before-asym : (i j : JobRow) → listed_before j i ≡ true → listed_before i j ≡ false
unfolding listed_before
listed_before-asym i j h = ground arith

listed_before_weak :
    (i j k : JobRow)
    → listed_before k j ≡ false
    → listed_before j i ≡ false
    → listed_before k i ≡ false
unfolding listed_before
listed_before_weak i j k h g = ground arith

validate_limit_lem :
    (limit : Option Number) (n : ℕ) → validate_limit limit ≡ ok n → (1 ≤ n) × (n ≤ 5)
unfolding validate_limit safe_natural
validate_limit_lem limit n h = ground arith

-- The limit that is given, and five where none is given.
abbrev pub IsLimit : Option Number → ℕ → Type 0
IsLimit none n = n ≡ 5
IsLimit (some limit) n = safe_natural limit ≡ some n

validate_limit-IsLimit :
    (limit : Option Number) (n : ℕ) → validate_limit limit ≡ ok n → IsLimit limit n
unfolding validate_limit
validate_limit-IsLimit none n h = unfold safe_natural in ground arith
validate_limit-IsLimit (some limit) n h = elim (Option-cases (safe_natural limit)) [
  | inl e ↦ absurd (ground arith)
  | inr (m, e) ↦ ground arith
]

-- The conditions of a listing on a job.
pub record Asked (input : ListJobsInput) (j : JobRow) : Type 0 where
  pub owner : j.owner_id ≡ input.owner_id
  pub status : (s : JobStatus) → input.status ≡ some s → j.status ≡ s
  pub unread : input.unread_only ≡ true → j.unread_terminal ≡ true

-- A job was updated later than another, or at the same time and has the smaller id.
abbrev pub ListedFirst : JobRow → JobRow → Type 0
ListedFirst i j = (j.updated_at < i.updated_at) ⊎ ((j.updated_at ≡ i.updated_at) × (i.id ≤ j.id))

status_of : Text → JobStatus
status_of t =
    if text_eq t (status_text queued)
    then queued
    else if text_eq t (status_text dispatched)
    then dispatched
    else if text_eq t (status_text running)
    then running
    else if text_eq t (status_text waiting_approval)
    then waiting_approval
    else if text_eq t (status_text cancelling)
    then cancelling
    else if text_eq t (status_text succeeded)
    then succeeded
    else if text_eq t (status_text failed)
    then failed
    else if text_eq t (status_text cancelled)
    then cancelled
    else expired

status_of-status_text : (s : JobStatus) → status_of (status_text s) ≡ s
unfolding status_of text_eq status_text
status_of-status_text queued = refl
status_of-status_text dispatched = refl
status_of-status_text running = refl
status_of-status_text waiting_approval = refl
status_of-status_text cancelling = refl
status_of-status_text succeeded = refl
status_of-status_text failed = refl
status_of-status_text cancelled = refl
status_of-status_text expired = refl

same_status_iff : (s t : JobStatus) → (same_status s t ≡ true) ↔ (s ≡ t)
unfolding same_status
same_status_iff s t = (
  λ h.
      sym (status_of-status_text s)
      ∙ ap status_of ((text_eq_iff (status_text s) (status_text t)).0 h)
      ∙ status_of-status_text t,
  λ e. (text_eq_iff (status_text s) (status_text t)).1 (ap status_text e),
)

status_matches_iff :
    (asked : Option JobStatus) (t : JobStatus)
    → (status_matches asked t ≡ true) ↔ ((s : JobStatus) → asked ≡ some s → t ≡ s)
status_matches_iff none t = (λ h s e. absurd (ground arith), λ h. refl)
status_matches_iff (some u) t = (
  λ h s e.
      (same_status_iff t s).0 (subst (λ (x : JobStatus). same_status t x ≡ true) (ground arith) h),
  λ h. (same_status_iff t u).1 (h u refl),
)

listed_iff : (input : ListJobsInput) (j : JobRow) → (listed input j ≡ true) ↔ Asked input j
unfolding listed
listed_iff input j = (
  λ h. record {
    owner = ground arith;
    status = (status_matches_iff input.status j.status).0 (ground arith);
    unread = λ e. ground arith;
  },
  λ a.
      let matches = (status_matches_iff input.status j.status).1 a.status in
      elim (Bool-cases input.unread_only) [
        | inl e ↦ ground (arith, a.owner, a.unread e)
        | inr e ↦ ground (arith, a.owner)
      ],
)

listed_first : (i j : JobRow) → listed_before j i ≡ false → ListedFirst i j
unfolding listed_before
listed_first i j h = ground arith

-- A list of jobs that is answered holds at most the limit of rows. The limit is the given one, which is
-- from 1 to 5, or 5 without one. The
-- rows, with those that the limit cut off, are a permutation of the chosen jobs: those of the asking
-- owner that have the asked status, if one is asked for, and an unread result, if only these are asked
-- for. They come by falling update times, and by rising ids among equal times, the rows that are cut off
-- last; nothing is cut off below the limit.
pub list_jobs-IsSorted :
    (input : ListJobsInput) (db : Database) (answer : List JobRecord)
    → list_jobs input db ≡ ok answer
    → (n : ℕ) × (rows : List JobRow) × (rest : List JobRow) × (chosen : List JobRow) × (IsLimit
          input.limit n
        × (1 ≤ n)
        × (n ≤ 5)
        × (length rows ≤ n))
      × (answer ≡ map to_job_record rows)
      × Chosen (Asked input) db.jobs chosen
      × Perm (rows ++ rest) chosen
      × IsSorted ListedFirst (rows ++ rest)
      × ((length rows ≡ n) ⊎ (rest ≡ []))
unfolding list_jobs
list_jobs-IsSorted input db answer h =
    let (n, valid, answers) = bind-eq-ok (validate_limit input.limit) _ h in
    let (low, high) = validate_limit_lem input.limit n valid in
    let chosen = select (listed input) db.jobs in
    let sorted = order_by listed_before chosen in
    let whole = take-append-drop n sorted in
    (
      n,
      take n sorted,
      drop n sorted,
      chosen,
      (validate_limit-IsLimit input.limit n valid, low, high, length-take-le n sorted),
      ground arith,
      select-Chosen (Asked input) (listed input) (listed_iff input) db.jobs,
      rw whole (order_by-Perm listed_before chosen),
      rw whole (
          IsOrdered-IsSorted listed_before ListedFirst listed_first sorted
            (order_by-IsOrdered listed_before listed_before-asym listed_before_weak chosen)),
      taken_all n sorted,
    )
