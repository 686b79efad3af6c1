-- ===== src/Contamination/TaskMetadata.antt =====
-- `_required_text` and `decontamination_task_metadata_index` of decontamination/contamination.py. A row is
-- its entries, with none for a value that is no string.
pub mod Looked
use nodelm.Base.{
  Bool, true, false, not, ◌&&◌, List, [], ◌∷◌, ◌++◌, Text, text, ◌==◌, if◌then◌else◌, for_each,
  Result, ok, err, ◌>>=◌, ◌>>◌, raise_if, Option, none, some,
}
use nodelm.Base.Methods.{strip, is_empty}
use nodelm.Fingerprint.Repository.{canonical_repository}

pub data MetadataError : Type 0 where
  missing_field : List Text → MetadataError
  invalid_task_repository : Text → MetadataError
  conflicting_metadata : Text → MetadataError

abbrev pub Row : Type 0
Row = List (Text × Option Text)

-- `row.get(field)`, where the value is a string.
unfoldable pub get_text : Text → Row → Option Text
unfolding ◌==◌
get_text field [] = none
get_text field ((key, value) ∷ row) =
    let rest = get_text field row in if key == field then value else rest

unfoldable pub stripped : Option Text → Text
unfolding strip
stripped none = []
stripped (some value) = strip value

unfoldable pub first_text : List Text → Row → Option Text
unfolding get_text stripped is_empty
first_text [] row = none
first_text (field ∷ fields) row =
    let rest = first_text fields row in
    let value = stripped (get_text field row) in if is_empty value then rest else some value

unfoldable pub required_text : List Text → Row → Result MetadataError Text
unfolding first_text
required_text fields row = elim (first_text fields row) [
  | none ↦ err (missing_field fields)
  | some value ↦ ok value
]

pub record TaskMetadata : Type 0 where
  pub repository : Text
  pub task_text : Text
  pub reference_patch : Text

unfoldable pub same_metadata : TaskMetadata → TaskMetadata → Bool
unfolding ◌==◌
same_metadata a b =
    a.repository == b.repository
    && a.task_text == b.task_text
    && a.reference_patch == b.reference_patch

-- SELECT … FROM tasks WHERE task_id = ?
unfoldable pub lookup : Text → List (Text × TaskMetadata) → Option TaskMetadata
unfolding ◌==◌
lookup id [] = none
lookup id ((key, task) ∷ tasks) =
    let rest = lookup id tasks in if key == id then some task else rest

unfoldable pub task_repository : Text → Result MetadataError Text
unfolding canonical_repository
task_repository raw = elim (canonical_repository raw) [
  | err e ↦ err (invalid_task_repository raw)
  | ok repository ↦ ok repository
]

abbrev pub id_fields : List Text
id_fields = text "instance_id" ∷ text "task_id" ∷ []

unfoldable pub metadata_of : Row → Result MetadataError TaskMetadata
unfolding required_text task_repository
metadata_of row = do
  raw ← required_text (text "repo" ∷ text "repository" ∷ []) row
  repository ← task_repository raw
  task ←
      required_text
        (text "problem_statement"
          ∷ text "task"
          ∷ text "task_description"
          ∷ text "pr_description"
          ∷ [])
        row
  patch ← required_text (text "patch" ∷ text "reference_patch" ∷ []) row
  ok (record { repository = repository; task_text = task; reference_patch = patch })

-- A row of a task that is there must agree with it.
unfoldable pub insert_task :
    List (Text × TaskMetadata)
    → Text
    → TaskMetadata
    → Result MetadataError (List (Text × TaskMetadata))
unfolding lookup same_metadata
insert_task tasks id task = elim (lookup id tasks) [
  | none ↦ ok (tasks ++ (id, task) ∷ [])
  | some existing ↦
      raise_if (not (same_metadata existing task)) (conflicting_metadata id) >> ok tasks
]

unfoldable pub read_row :
    List (Text × TaskMetadata) → Row → Result MetadataError (List (Text × TaskMetadata))
unfolding required_text metadata_of insert_task
read_row tasks row = do
  id ← required_text id_fields row
  task ← metadata_of row
  insert_task tasks id task

unfoldable pub task_metadata_index : List Row → Result MetadataError (List (Text × TaskMetadata))
unfolding read_row for_each
task_metadata_index rows = for_each read_row [] rows
