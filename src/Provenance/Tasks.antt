-- ===== src/Provenance/Tasks.antt =====
-- `project_task_provenance` and the projection of all tasks of provenance/task_provenance.py. Its tables are
-- lists of rows; the payload of a row is the value that its JSON text stands for.
pub mod Standing
pub mod Indexed
pub mod Followed
pub mod Moved
pub mod Agreed
pub mod Admitted
pub mod Distinct
pub mod Counted
pub mod Same
use nodelm.Base.{
  ℕ, suc, Bool, true, false, not, ◌&&◌, ◌||◌, List, [], ◌∷◌, ◌++◌, map, length, Text, text, ◌==◌,
  eqb, if◌then◌else◌, select, Result, ok, err, ◌>>=◌, ◌>>◌, raise_if, Option, none, some,
}
use nodelm.Base.Methods.{strip, is_empty}
use nodelm.Base.Urls.{lower}
use nodelm.Contamination.Forest.{contains}
use nodelm.Contamination.Ordering.{distinct}
use nodelm.Fingerprint.Repository.{canonical_repository}
use nodelm.Gates.License.{
  LicenseDecision, LicenseDisposition, allow, reject, unknown, evaluate_license,
}
use nodelm.Gates.Status.{is_pass, any}
use nodelm.Provenance.Values.{
  Value, Items, Fields, null, floating, boolean, integer, negative, string, array, object, nil,
  cons, end, field, get_value,
}
use nodelm.Provenance.Normalize.{string_of, identifier_of}
use nodelm.Provenance.Sample.{is_commit}
use nodelm.Provenance.Pipeline.{DatasetSource, canonical_language}
use nodelm.Provenance.TaskRecord.{
  conflicting_task_provenance, duplicate_task_provenance, TaskProjectionError, TaskProvenanceRecord,
  get_either, project_task_provenance, row_id, text_of,
}

-- A code stands for its reason too, and `cause` for the code and the reason of the cause.
pub record Rejection : Type 0 where
  pub row_index : ℕ
  pub instance_id : Option Text
  pub repository : Option Text
  pub reason_code : TaskProjectionError
  pub cause : Option TaskProjectionError

unfoldable pub safe_rejection :
    ℕ → Fields → TaskProjectionError → Option TaskProjectionError → Rejection
unfolding row_id text_of get_either
safe_rejection index row code cause = record {
  row_index = index;
  instance_id = row_id row;
  repository = text_of (get_either (text "repo") (text "repository") row);
  reason_code = code;
  cause = cause;
}

pub record TaskRow : Type 0 where
  pub instance_id : Text
  pub row_index : ℕ
  pub repository : Text
  pub payload : TaskProvenanceRecord

pub record TaskTables : Type 0 where
  pub tasks : List TaskRow
  pub conflicts : List Text
  pub rejections : List Rejection

abbrev pub no_tasks : TaskTables
no_tasks = record { tasks = []; conflicts = []; rejections = [] }

-- INSERT OR REPLACE INTO rejections
unfoldable pub insert_rejection : Rejection → TaskTables → TaskTables
insert_rejection r t = record t {
  rejections = select (λ q. not (eqb q.row_index r.row_index)) t.rejections ++ r ∷ [];
}

-- `instance_id = ?`
unfoldable pub is_id : Text → Option Text → Bool
unfolding ◌==◌
is_id id none = false
is_id id (some s) = s == id

unfoldable pub is_conflict_code : TaskProjectionError → Bool
is_conflict_code conflicting_task_provenance = true
is_conflict_code _ = false

-- The rejection of another row of an instance in conflict: its own reason becomes the cause.
unfoldable pub as_conflict : Rejection → Rejection
unfolding is_conflict_code
as_conflict r = record r {
  reason_code = conflicting_task_provenance;
  cause = if is_conflict_code r.reason_code then r.cause else some r.reason_code;
}

unfoldable pub reclassify_rejections_as_conflict : Text → List Rejection → List Rejection
unfolding is_id as_conflict
reclassify_rejections_as_conflict id =
    map (λ r. if is_id id r.instance_id then as_conflict r else r)

-- INSERT OR IGNORE INTO conflicts
unfoldable pub add_conflict : Text → List Text → List Text
unfolding contains
add_conflict id conflicts = if contains id conflicts then conflicts else conflicts ++ id ∷ []

unfoldable pub reject_admitted : Text → Option TaskRow → TaskTables → TaskTables
unfolding insert_rejection
reject_admitted id none t = t
reject_admitted id (some row) t =
    insert_rejection
      (record {
        row_index = row.row_index;
        instance_id = some id;
        repository = some row.repository;
        reason_code = conflicting_task_provenance;
        cause = none;
      })
      t

-- With the task that was admitted for the instance, if any.
unfoldable pub mark_instance_conflict : Text → Option TaskRow → TaskTables → TaskTables
unfolding ◌==◌ add_conflict reclassify_rejections_as_conflict reject_admitted
mark_instance_conflict id admitted t = reject_admitted id admitted (record {
  tasks = select (λ row. not (row.instance_id == id)) t.tasks;
  conflicts = add_conflict id t.conflicts;
  rejections = reclassify_rejections_as_conflict id t.rejections;
})

-- SELECT … FROM tasks WHERE instance_id = ?
unfoldable pub find_task : Text → List TaskRow → Option TaskRow
unfolding ◌==◌
find_task id [] = none
find_task id (row ∷ rows) =
    let rest = find_task id rows in if row.instance_id == id then some row else rest

unfoldable pub has_rejection : Text → List Rejection → Bool
unfolding any is_id
has_rejection id = any (λ r. is_id id r.instance_id)

unfoldable pub same_record : TaskProvenanceRecord → TaskProvenanceRecord → Bool
unfolding ◌==◌
same_record a b =
    a.source_dataset == b.source_dataset
    && a.source_dataset_revision == b.source_dataset_revision
    && a.instance_id == b.instance_id
    && a.repository == b.repository
    && a.base_commit == b.base_commit
    && a.repository_license == b.repository_license
    && a.language == b.language

unfoldable pub mark_if_admitted : Text → Option TaskRow → TaskTables → TaskTables
mark_if_admitted id none t = t
mark_if_admitted id (some row) t = mark_instance_conflict id (some row) t

-- A row that is rejected.
unfoldable pub reject_row : ℕ → Fields → TaskProjectionError → TaskTables → TaskTables
reject_row index row e t = elim (row_id row) [
  | none ↦ insert_rejection (safe_rejection index row e none) t
  | some id ↦
      if contains id t.conflicts
      then insert_rejection (safe_rejection index row conflicting_task_provenance (some e)) t
      else mark_if_admitted id (find_task id t.tasks)
          (insert_rejection (safe_rejection index row e none) t)
]

-- A row that has a record, beside the task of its instance that is there.
unfoldable pub admit_beside :
    ℕ → Fields → TaskProvenanceRecord → Option TaskRow → TaskTables → TaskTables
admit_beside index row r none t =
    if has_rejection r.instance_id t.rejections
    then insert_rejection (safe_rejection index row conflicting_task_provenance none)
        (mark_instance_conflict r.instance_id none t)
    else record t {
      tasks =
          t.tasks
          ++ record {
            instance_id = r.instance_id;
            row_index = index;
            repository = r.repository;
            payload = r;
          }
            ∷ [];
    }
admit_beside index row r (some existing) t =
    if same_record existing.payload r
    then insert_rejection (safe_rejection index row duplicate_task_provenance none) t
    else insert_rejection (safe_rejection index row conflicting_task_provenance none)
        (mark_instance_conflict r.instance_id (some existing) t)

unfoldable pub admit_record : ℕ → Fields → TaskProvenanceRecord → TaskTables → TaskTables
admit_record index row r t =
    if contains r.instance_id t.conflicts
    then insert_rejection (safe_rejection index row conflicting_task_provenance none) t
    else admit_beside index row r (find_task r.instance_id t.tasks) t

unfoldable pub project_row : DatasetSource → ℕ → Fields → TaskTables → TaskTables
project_row source index row t = elim (project_task_provenance source row) [
  | err e ↦ reject_row index row e t
  | ok r ↦ admit_record index row r t
]

-- The loop over the rows, from an index.
unfoldable pub project_rows : DatasetSource → ℕ → List Fields → TaskTables → TaskTables
project_rows source index [] t = t
project_rows source index (row ∷ rows) t =
    project_rows source (suc index) rows (project_row source index row t)

unfoldable pub task_provenance_projection : DatasetSource → List Fields → TaskTables
unfolding project_rows
task_provenance_projection source rows = project_rows source 0 rows no_tasks

abbrev pub admitted_tasks : TaskTables → ℕ
admitted_tasks t = length t.tasks

abbrev pub rejected_tasks : TaskTables → ℕ
rejected_tasks t = length t.rejections
