-- ===== src/Provenance/Examples/Tasks.antt =====
-- The theorems on tasks and on gold fields at concrete rows.
use nodelm.Base.{◌+◌, ◌≡◌, ◌↔◌, refl, false, List, [], ◌∷◌, map, Text, text, ok, err, some}
use nodelm.Contamination.Forest.{contains}
use nodelm.Gates.License.{evaluate_license}
use nodelm.Gates.Status.{pass, is_pass}
use nodelm.Provenance.Values.{Value, Fields, string, array, object, nil, cons, end, field}
use nodelm.Provenance.GoldFree.{
  forbidden_patch, field_tokens, field_contains_patch, field_references_gold, validate_gold_free,
  validate_gold_free_trajectory,
}
use nodelm.Provenance.GoldFree.Paths.{LeadsFrom, is_gold_patch, validate_gold_free_trajectory_iff}
use nodelm.Provenance.Pipeline.{DatasetSource}
use nodelm.Provenance.Tasks.{
  rejected_tasks, admitted_tasks, TaskRow, find_task, has_rejection, same_record,
  task_provenance_projection, project_row, admit_record, reject_row, admit_beside, mark_if_admitted,
  mark_instance_conflict, insert_rejection, safe_rejection, Rejection,
}
use nodelm.Provenance.Tasks.Agreed.{IsAgreed}
use nodelm.Provenance.Tasks.Counted.{task_provenance_projection-counts}
use nodelm.Provenance.Tasks.Admitted.{task_provenance_projection-IsAgreed}
use nodelm.Provenance.TaskRecord.{
  TaskProvenanceRecord, required_license, required_repository, required_base_commit, row_id,
  row_language, some_or, project_task_provenance,
}
use nodelm.Provenance.TaskRecord.{conflicting_task_provenance, duplicate_task_provenance}
use nodelm.Provenance.TaskRecord.{invalid_base_commit}

abbrev pub commit : Text
commit = text "0123456789abcdef0123456789abcdef01234567"

abbrev pub source : DatasetSource
source = record {
  name = text "tasks";
  repository_id = text "owner/tasks";
  revision = some commit;
  status = pass;
}

abbrev pub task_of : Text → Text → Text → Fields
task_of id language base = field (text "instance_id") (string id) (
    field (text "repo") (string (text "Owner/Name")) (
      field (text "base_commit") (string base) (
        field (text "license") (string (text "MIT License"))
          (field (text "language") (string language) end))))

-- Two rows of `a` that agree, and two of `b` of which one has no commit.
abbrev task_rows : List Fields
task_rows =
    task_of (text "a") (text "ts") commit
    ∷ task_of (text "b") (text "ts") commit
    ∷ task_of (text "a") (text " TypeScript") commit
    ∷ task_of (text "b") (text "ts") (text "HEAD")
    ∷ []

abbrev task_record : TaskProvenanceRecord
task_record = record {
  source_dataset = text "tasks";
  source_dataset_revision = commit;
  instance_id = text "a";
  repository = text "github.com/owner/name";
  base_commit = commit;
  repository_license = text "MIT";
  language = text "TypeScript";
}

projects : project_task_provenance source (task_of (text "a") (text "ts") commit) ≡ ok task_record
unfolding project_task_provenance required_license required_repository required_base_commit row_id
    row_language some_or evaluate_license is_pass
projects = refl

no_commit :
    project_task_provenance source (task_of (text "b") (text "ts") (text "HEAD"))
    ≡ err invalid_base_commit
unfolding project_task_provenance required_license required_repository required_base_commit row_id
    row_language some_or evaluate_license is_pass
no_commit = refl

codes :
    map (λ (q : Rejection). q.reason_code) (task_provenance_projection source task_rows).rejections
    ≡ duplicate_task_provenance ∷ conflicting_task_provenance ∷ conflicting_task_provenance ∷ []
unfolding task_provenance_projection project_row project_task_provenance required_license
    required_repository required_base_commit row_id row_language some_or evaluate_license is_pass
    admit_record reject_row admit_beside mark_if_admitted mark_instance_conflict insert_rejection
    find_task has_rejection same_record contains safe_rejection
codes = refl

task_provenance_projection-IsAgreed_example :
    ((u : TaskRow) × (find_task (text "a") (task_provenance_projection source task_rows).tasks
        ≡ some u)
      × (u.payload ≡ task_record))
    ↔ IsAgreed source (text "a") task_rows task_record
task_provenance_projection-IsAgreed_example =
    task_provenance_projection-IsAgreed source task_rows (text "a") task_record

task_provenance_projection-counts_example :
    admitted_tasks (task_provenance_projection source task_rows)
      + rejected_tasks (task_provenance_projection source task_rows)
    ≡ 4
task_provenance_projection-counts_example = task_provenance_projection-counts source task_rows

-- A patch below a field of the reference.
abbrev step : Value
step = object (
    field (text "role") (string (text "tool")) (
      field (text "goldenResult")
        (array (cons (object (field (text "the-diff") (string (text "-a")) end)) nil)) end))

tokens_of_name : field_tokens (text "goldenResult") ≡ text "golden" ∷ text "result" ∷ []
unfolding field_tokens
tokens_of_name = refl

gold_found : validate_gold_free_trajectory (array (cons step nil)) ≡ err forbidden_patch
unfolding validate_gold_free field_contains_patch field_references_gold
gold_found = refl

validate_gold_free_trajectory_iff_example :
    (validate_gold_free_trajectory (array (cons step nil)) ≡ ok tt)
    ↔ ((path : List Text) → LeadsFrom (array (cons step nil)) path → is_gold_patch path ≡ false)
validate_gold_free_trajectory_iff_example =
    validate_gold_free_trajectory_iff (array (cons step nil))
