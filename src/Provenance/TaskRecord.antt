-- ===== src/Provenance/TaskRecord.antt =====
-- `TaskProvenanceRecord` and `project_task_provenance` of provenance/task_provenance.py.
use nodelm.Base.{
  Bool, true, false, not, ◌||◌, Text, text, ◌==◌, eqb, if◌then◌else◌, Result, ok, err, ◌>>=◌, ◌>>◌,
  raise_if, Option, none, some,
}
use nodelm.Base.Methods.{strip, is_empty}
use nodelm.Base.Urls.{lower}
use nodelm.Fingerprint.Repository.{canonical_repository}
use nodelm.Gates.License.{allow, reject, unknown, evaluate_license}
use nodelm.Gates.Status.{is_pass}
use nodelm.Provenance.Values.{
  Value, Fields, null, floating, boolean, integer, negative, string, array, object, nil, cons, end,
  field, get_value,
}
use nodelm.Provenance.Normalize.{string_of, identifier_of}
use nodelm.Provenance.Sample.{is_commit}
use nodelm.Provenance.Pipeline.{DatasetSource, canonical_language}

-- The reason codes; the reason of a code is fixed, or that of the license or repository it names.
pub data TaskProjectionError : Type 0 where
  unverified_source license_unknown license_reject : TaskProjectionError
  missing_instance_id missing_repository invalid_repository invalid_base_commit :
      TaskProjectionError
  missing_language conflicting_task_provenance duplicate_task_provenance : TaskProjectionError

pub record TaskProvenanceRecord : Type 0 where
  pub source_dataset : Text
  pub source_dataset_revision : Text
  pub instance_id : Text
  pub repository : Text
  pub base_commit : Text
  pub repository_license : Text
  pub language : Text

-- `bool(value)`
unfoldable pub is_true : Value → Bool
unfolding ◌==◌ is_empty
is_true null = false
is_true (floating t) = not (t == text "0.0" || t == text "-0.0")
is_true (boolean b) = b
is_true (integer n) = not (eqb n 0)
is_true (negative n) = true
is_true (string s) = not (is_empty s)
is_true (array nil) = false
is_true (array (cons value items)) = true
is_true (object end) = false
is_true (object (field key value fields)) = true

-- `row.get(first) or row.get(second)`
unfoldable pub get_either : Text → Text → Fields → Option Value
unfolding get_value is_true
get_either first second row = elim (get_value first row) [
  | none ↦ get_value second row
  | some value ↦ if is_true value then some value else get_value second row
]

unfoldable pub text_of : Option Value → Option Text
text_of (some (string s)) = some s
text_of _ = none

unfoldable pub some_or :
    {A : Type 0} → TaskProjectionError → Option A → Result TaskProjectionError A
some_or e none = err e
some_or e (some a) = ok a

unfoldable pub required_repository : Fields → Result TaskProjectionError Text
unfolding get_either string_of some_or canonical_repository
required_repository row =
    some_or missing_repository (string_of (get_either (text "repo") (text "repository") row))
    >>= λ candidate. elim (canonical_repository candidate) [
      | err e ↦ err invalid_repository
      | ok r ↦ ok r
    ]

unfoldable pub required_base_commit : Fields → Result TaskProjectionError Text
unfolding get_value text_of is_commit strip lower
required_base_commit row = elim (text_of (get_value (text "base_commit") row)) [
  | none ↦ err invalid_base_commit
  | some s ↦ if is_commit (strip s) then ok (lower (strip s)) else err invalid_base_commit
]

unfoldable pub required_license : Fields → Result TaskProjectionError Text
unfolding get_either text_of some_or
required_license row =
    let decision =
      evaluate_license (text_of (get_either (text "license") (text "repository_license") row)) in
    elim decision.disposition [
      | reject ↦ err license_reject
      | unknown ↦ err license_unknown
      | allow ↦ some_or license_unknown decision.normalized_spdx
    ]

-- The identifier of a row, where it has one.
unfoldable pub row_id : Fields → Option Text
unfolding get_value identifier_of
row_id row = identifier_of (get_value (text "instance_id") row)

unfoldable pub row_language : Fields → Option Text
unfolding get_value text_of canonical_language
row_language row = elim (text_of (get_value (text "language") row)) [
  | none ↦ none
  | some s ↦ canonical_language s
]

unfoldable pub project_task_provenance :
    DatasetSource → Fields → Result TaskProjectionError TaskProvenanceRecord
project_task_provenance source row = elim source.revision [
  | none ↦ err unverified_source
  | some revision ↦ do
    raise_if (not (is_pass source.status)) unverified_source
    spdx ← required_license row
    id ← some_or missing_instance_id (row_id row)
    repository ← required_repository row
    commit ← required_base_commit row
    language ← some_or missing_language (row_language row)
    ok (record {
      source_dataset = source.name;
      source_dataset_revision = revision;
      instance_id = id;
      repository = repository;
      base_commit = commit;
      repository_license = spdx;
      language = language;
    })
]
