-- ===== src/Provenance/TaskIndex.antt =====
-- `task_metadata_index` and `trace_rollout_key` of provenance/pipeline.py.
pub mod Stripped
pub mod Indexed
use nodelm.Base.{
  Bool, not, ◌&&◌, List, [], ◌∷◌, ◌++◌, Text, text, ◌==◌, if◌then◌else◌, for_each, Result, ok, err,
  ◌>>=◌, ◌>>◌, raise_if, Option, none, some, ℕ,
}
use nodelm.Provenance.Values.{Fields, string, object, end, field}
use nodelm.Provenance.Json.{stable_model_id}
use nodelm.Provenance.GoldFree.{casefold}
use nodelm.Provenance.Normalize.{
  NormalizationError, other_row_dataset, missing_task, other_task_source, other_task_revision,
  conflicting_task_metadata, required_string, required_identifier,
}
use nodelm.Provenance.Sample.{string_or_null}
use nodelm.Provenance.Pipeline.{
  TaskFields, DatasetSource, canonical_license, language_of, repository_of, same_text,
  optional_string,
}

-- The table of tasks: the identifier and the fields of each.
abbrev pub TaskTable : Type 0
TaskTable = List (Text × TaskFields)

-- SELECT … FROM tasks WHERE instance_id = ?
unfoldable pub lookup_task : TaskTable → Text → Option TaskFields
unfolding ◌==◌
lookup_task [] id = none
lookup_task ((key, task) ∷ tasks) id =
    let rest = lookup_task tasks id in if key == id then some task else rest

unfoldable pub same_fields : TaskFields → TaskFields → Bool
unfolding ◌==◌
same_fields a b =
    a.repo == b.repo
    && a.base_commit == b.base_commit
    && a.license == b.license
    && a.language == b.language

-- What an expected name or revision is compared with, where one is given.
unfoldable pub require_source : Option Text → Fields → Result NormalizationError (Unit {0})
unfolding required_string ◌==◌
require_source none row = ok tt
require_source (some expected) row = required_string (text "source_dataset" ∷ []) row >>= λ name.
    raise_if (not (name == expected)) other_task_source

unfoldable pub require_revision : Option Text → Fields → Result NormalizationError (Unit {0})
unfolding required_string ◌==◌ casefold
require_revision none row = ok tt
require_revision (some expected) row =
    required_string (text "source_dataset_revision" ∷ []) row >>= λ revision.
    raise_if (not (casefold revision == casefold expected)) other_task_revision

unfoldable pub task_fields_of : Fields → Result NormalizationError TaskFields
unfolding required_string canonical_license language_of
task_fields_of row = do
  repo ← required_string (text "repo" ∷ text "repository" ∷ []) row
  base_commit ← required_string (text "base_commit" ∷ []) row
  raw_license ← required_string (text "license" ∷ text "repository_license" ∷ []) row
  license ← canonical_license raw_license
  raw_language ← required_string (text "language" ∷ []) row
  language ← language_of raw_language
  ok (record { repo = repo; base_commit = base_commit; license = license; language = language })

-- A row of a task that is there must agree with it.
unfoldable pub add_task : TaskTable → Text → TaskFields → Result NormalizationError TaskTable
unfolding lookup_task same_fields
add_task tasks id task = elim (lookup_task tasks id) [
  | none ↦ ok (tasks ++ (id, task) ∷ [])
  | some existing ↦
      raise_if (not (same_fields existing task)) (conflicting_task_metadata id) >> ok tasks
]

unfoldable pub index_row :
    Option Text → Option Text → TaskTable → Fields → Result NormalizationError TaskTable
unfolding required_identifier
index_row name revision tasks row = do
  require_source name row
  require_revision revision row
  id ← required_identifier (text "instance_id" ∷ []) row
  task ← task_fields_of row
  add_task tasks id task

-- With the expected name and revision of the source, if any.
unfoldable pub task_metadata_index :
    Option Text → Option Text → List Fields → Result NormalizationError TaskTable
unfolding for_each
task_metadata_index name revision = for_each (index_row name revision) []

-- The identity of a rollout within its partition.
unfoldable pub trace_rollout_key :
    (Text → List ℕ)
    → Fields
    → DatasetSource
    → Text
    → Text
    → (Text → Option TaskFields)
    → Result NormalizationError Text
unfolding stable_model_id
trace_rollout_key sha256 row source partition_name row_dataset_name task_lookup = do
  raise_if (not (same_text (optional_string (text "hf_dataset_name") row) row_dataset_name))
      other_row_dataset
  id ← required_identifier (text "instance_id" ∷ []) row
  rollout ← required_string (text "trajectory_id" ∷ text "rollout_id" ∷ []) row
  elim (task_lookup id) [
    | none ↦ err missing_task
    | some task ↦ repository_of task.repo >>= λ repository. ok (
        stable_model_id sha256 (
          object (
            field (text "schema_version") (string (text "nodelm.trace-rollout-key/v1")) (
              field (text "source_dataset") (string source.name) (
                field (text "source_dataset_revision") (string_or_null source.revision) (
                  field (text "partition_name") (string partition_name) (
                    field (text "row_dataset_name") (string row_dataset_name) (
                      field (text "repository") (string repository) (
                        field (text "instance_id") (string id)
                          (field (text "rollout_id") (string rollout) end))))))))))
  ]
