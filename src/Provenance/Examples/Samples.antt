-- ===== src/Provenance/Examples/Samples.antt =====
-- The theorems on samples at a concrete trace and its task.
use nodelm.Base.{
  for_each, ℕ, zero, suc, arith, map, ◌≡◌, refl, true, List, [], ◌∷◌, Text, text, ok, none, some,
}
use nodelm.Base.Methods.{strip, is_empty}
use nodelm.Gates.License.{evaluate_license}
use nodelm.Gates.Status.{pass, is_pass}
use nodelm.Provenance.Values.{Fields, string, array, object, nil, cons, end, field, boolean}
use nodelm.Provenance.Json.Digest.{IsSha256}
use nodelm.Provenance.Lineage.{
  EvidenceBinding, normalization_evidence_lineage, has_exact_normalized_sample_lineage,
}
use nodelm.Provenance.Sample.{NormalizedSample, normalize_sample}
use nodelm.Provenance.Pipeline.{
  TaskFields, DatasetSource, TraceOptions, looked_up, normalize_trace_sample,
}
use nodelm.Provenance.Pipeline.Exact.{normalize_trace_sample-exact}
use nodelm.Provenance.Pipeline.Joined.{IsJoined}
use nodelm.Provenance.TaskIndex.{
  TaskTable, index_row, require_revision, lookup_task, require_source, task_fields_of, add_task,
  task_metadata_index,
}
use nodelm.Provenance.TaskIndex.Indexed.{task_metadata_index-IsJoined}
use nodelm.Provenance.Normalize.{required_string, required_identifier}
use nodelm.Gates.Status.{any, is_none}
use nodelm.Provenance.GoldFree.{field_contains_patch, validate_gold_free}
use nodelm.Provenance.Normalize.{parse_resolution_status, parse_resolved, trajectory_of}
use nodelm.Provenance.Pipeline.{
  fill_metadata, is_other_dataset, join_field, join_optional, lineage_of, require_resolution,
  values_match,
}
use nodelm.Provenance.Sample.{checked_sample, is_allowed, sample_of}

abbrev zeros : ℕ → List ℕ
zeros zero = []
zeros (suc n) = 0 ∷ zeros n

-- A digest that is the same for all texts.
abbrev sha256 : Text → List ℕ
sha256 s = zeros 32

sha256-IsSha256 : IsSha256 sha256
sha256-IsSha256 = record { bytes = λ s. refl; small = λ s. ground arith }

abbrev commit : Text
commit = text "0123456789abcdef0123456789abcdef01234567"

abbrev trace_source : DatasetSource
trace_source = record {
  name = text "traces";
  repository_id = text "owner/traces";
  revision = some commit;
  status = pass;
}

abbrev task : TaskFields
task = record {
  repo = text "github.com/owner/name";
  base_commit = commit;
  license = text "MIT";
  language = text "TypeScript";
}

abbrev tasks : TaskTable
tasks = (text "a", task) ∷ []

-- A row of the task, as the projection of tasks writes it.
abbrev task_rows : List Fields
task_rows =
    field (text "source_dataset") (string (text "tasks")) (
      field (text "instance_id") (string (text "a")) (
        field (text "repository") (string (text "github.com/owner/name")) (
          field (text "base_commit") (string commit) (
            field (text "repository_license") (string (text "MIT"))
              (field (text "language") (string (text "TypeScript")) end)))))
    ∷ []

abbrev evidence : EvidenceBinding
evidence = record {
  materialization_manifest_sha256 = text "m";
  partition_name = text "p";
  upstream_source = text "u";
  task_source_name = text "tasks";
  task_source_revision = commit;
  task_provenance_sha256 = text "t";
}

abbrev options : TraceOptions
options = record {
  harness = text " agent ";
  generating_model = text "model";
  task_lookup = some (lookup_task tasks);
  require_task_match = true;
  expected_row_dataset_name = none;
  extra_lineage = normalization_evidence_lineage evidence;
}

-- A trace that states its repository in another form, and no commit.
abbrev row : Fields
row = field (text "instance_id") (string (text "a")) (
    field (text "trajectory_id") (string (text "r")) (
      field (text "repo") (string (text "Owner/Name")) (
        field (text "metadata") (object (field (text "language") (string (text "ts")) end)) (
          field (text "resolved") (boolean true) (
            field (text "trajectory")
              (array (cons (object (field (text "role") (string (text "tool")) end)) nil))
              (field (text "model_patch") (string (text "+a\n-b\n")) end))))))

abbrev normalized_sample : NormalizedSample
normalized_sample = record {
  source_dataset = text "traces";
  source_dataset_revision = commit;
  repository = text "github.com/owner/name";
  repository_license = text "MIT";
  base_commit = commit;
  issue_or_pr_id = text "a";
  language = text "TypeScript";
  harness = text "agent";
  generating_model = text "model";
  rollout_id = text "r";
  resolved = true;
  trajectory = cons (object (field (text "role") (string (text "tool")) end)) nil;
  generated_patch = some (text "+a\n-b\n");
  patch_metadata = record {
    sha256 = text "0000000000000000000000000000000000000000000000000000000000000000";
    bytes = 6;
    added_lines = 1;
    removed_lines = 1;
    source_field = text "model_patch";
  };
  provenance_lineage =
      text "hf-dataset:owner/traces@0123456789abcdef0123456789abcdef01234567"
      ∷ text "instance:a"
      ∷ text "raw-row:0000000000000000000000000000000000000000000000000000000000000000"
      ∷ text "task-metadata:a"
      ∷ normalization_evidence_lineage evidence;
}

normalizes : normalize_trace_sample sha256 row trace_source options ≡ ok normalized_sample
unfolding normalize_trace_sample is_pass is_empty strip any normalization_evidence_lineage
    is_other_dataset required_identifier parse_resolution_status require_resolution is_none
    looked_up join_optional join_field fill_metadata values_match normalize_sample required_string
    trajectory_of parse_resolved checked_sample sample_of evaluate_license is_allowed lineage_of
    field_contains_patch validate_gold_free lookup_task
normalizes = refl

indexed : task_metadata_index (some (text "tasks")) none task_rows ≡ ok tasks
unfolding task_metadata_index for_each require_source required_string required_identifier
    task_fields_of evaluate_license add_task index_row require_revision
indexed = refl

evidence-stripped :
    map strip (normalization_evidence_lineage evidence) ≡ normalization_evidence_lineage evidence
unfolding strip normalization_evidence_lineage
evidence-stripped = refl

normalize_trace_sample-exact_example :
    has_exact_normalized_sample_lineage normalized_sample.provenance_lineage (record {
      source_repository_id = text "owner/traces";
      source_revision = commit;
      instance_id = text "a";
      evidence_lineage = normalization_evidence_lineage evidence;
    })
    ≡ true
normalize_trace_sample-exact_example =
    normalize_trace_sample-exact sha256 row trace_source options evidence commit normalized_sample
      sha256-IsSha256 refl refl refl evidence-stripped normalizes

task_metadata_index-IsJoined_example :
    (t : TaskFields) × (lookup_task tasks (text "a") ≡ some t) × IsJoined t normalized_sample
task_metadata_index-IsJoined_example =
    task_metadata_index-IsJoined sha256 (some (text "tasks")) none task_rows tasks row trace_source
      options normalized_sample indexed refl refl normalizes
