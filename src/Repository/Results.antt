-- ===== src/Repository/Results.antt =====
-- job-repository.ts: acknowledgeResult, and toJobResultRecord with its readers of JSON.
use qwen_harness_bridge.JobState.{is_terminal}
use qwen_harness_bridge.Database.Tables.{find_job, update_job}
use qwen_harness_bridge.Repository.Cancel.{owned_by}
use qwen_harness_bridge.Repository.{Outcome, Error, transaction, is_blank}
use qwen_harness_bridge.Json.{
  Fields, as_record, Json, get, array, coalesce, as_string, number, string, items, safe_natural,
}
use Prim.Native.String.{String, [], ◌∷◌}
use qwen_harness_bridge.Text.{Text}
use qwen_harness_bridge.Database.{Key, JobRow, Database, Time}
use qwen_harness_bridge.Database.Clock.{Clock}
use qwen_harness_bridge.Prelude.{
  ℕ, List, Option, some, [], ◌∷◌, Result, option_or, ◌++◌, ok, none, false, if◌then◌else◌, ◌&&◌,
  is_some,
}

pub record Artifact : Type 0 where
  pub name : Text
  pub media_type : Text
  pub url : Text

pub record JobResultRecord : Type 0 where
  pub job_id : Key
  pub summary : Text
  pub changed_files : List Text
  pub passed : ℕ
  pub failed : ℕ
  pub test_summary : Text
  pub artifacts : List Artifact
  pub acknowledged_at : Time

strings : List Json → List Text
strings [] = []
strings (string t ∷ vs) = t ∷ strings vs
strings (_ ∷ vs) = strings vs

-- asStringArray.
unfoldable pub as_string_array : Option Json → List Text
unfolding strings
as_string_array (some (array vs)) = strings (items vs)
as_string_array _ = []

-- asNonNegativeInteger.
unfoldable pub as_non_negative_integer : Option Json → ℕ
as_non_negative_integer (some (number n)) = option_or (safe_natural n) 0
as_non_negative_integer _ = 0

-- The first of two members that is a string.
abbrev first_string : Option Text → Option Text → Option Text
first_string none b = b
first_string (some a) b = some a

artifact_of : Option Fields → List Artifact
artifact_of none = []
artifact_of (some value) = elim (as_string (get "name" value)) [
  | none ↦ []
  | some name ↦
      elim (first_string (as_string (get "mediaType" value)) (as_string (get "media_type" value))) [
        | none ↦ []
        | some media_type ↦ elim (as_string (get "url" value)) [
          | none ↦ []
          | some url ↦ record { name = name; media_type = media_type; url = url } ∷ []
        ]
      ]
]

artifacts_of : List Json → List Artifact
artifacts_of [] = []
artifacts_of (v ∷ vs) = artifact_of (as_record (some v)) ++ artifacts_of vs

unfoldable pub as_artifacts : Option Json → List Artifact
unfolding artifacts_of artifact_of
as_artifacts (some (array vs)) = artifacts_of (items vs)
as_artifacts _ = []

-- The summary text, if the object has one that is not blank.
unfoldable pub summary_text : Option Fields → Option Text
summary_text none = none
summary_text (some fs) = elim (as_string (get "summary" fs)) [
  | none ↦ none
  | some t ↦ if is_blank t then none else some t
]

abbrev member : String → Option Fields → Option Json
member k none = none
member k (some fs) = get k fs

result_record : JobRow → Option Fields → Option Text → Option Time → Option JobResultRecord
result_record row summary (some text) (some acknowledged_at) =
    let tests = as_record (member "tests" summary) in
    some (record {
      job_id = row.id;
      summary = text;
      changed_files =
          as_string_array
            (coalesce (member "changed_files" summary) (member "changedFiles" summary));
      passed = as_non_negative_integer (member "passed" tests);
      failed = as_non_negative_integer (member "failed" tests);
      test_summary = option_or (as_string (member "summary" tests)) [];
      artifacts = as_artifacts (member "artifacts" summary);
      acknowledged_at = acknowledged_at;
    })
result_record row summary _ _ = none

unfoldable pub to_job_result_record : JobRow → Option JobResultRecord
unfolding result_record
to_job_result_record row =
    let summary = as_record row.summary in
    result_record row summary (summary_text summary) row.acknowledged_at

-- update … set acknowledged_at = clock_timestamp(), unread_terminal = false where acknowledged_at is null.
unfoldable pub acknowledge_row : Clock → JobRow → JobRow
acknowledge_row clock job = elim job.acknowledged_at [
  | none ↦ record job { acknowledged_at = some (clock.reading 0); unread_terminal = false }
  | some t ↦ job
]

unfoldable pub acknowledge_current :
    Option JobRow → Key → Clock → Database → Result Error (Option JobResultRecord × Database)
acknowledge_current none job_id clock db = ok (none, db)
acknowledge_current (some current) job_id clock db =
    if is_terminal current.status && is_some (summary_text (as_record current.summary))
    then ok (
      to_job_result_record (acknowledge_row clock current),
      update_job job_id (acknowledge_row clock) db,
    )
    else ok (none, db)

unfoldable pub acknowledge_result : Key → Key → Clock → Database → Outcome (Option JobResultRecord)
acknowledge_result owner_id job_id clock db =
    transaction db (acknowledge_current (owned_by owner_id (find_job job_id db)) job_id clock db)
