-- ===== src/Gates/Examples.antt =====
-- The theorems on the gates at concrete values.
use nodelm.Base.{ℕ, suc, ◌≡◌, refl, true, ok, List, [], ◌∷◌, Text, text, Option, some, none}
use nodelm.Gates.Status.{pass}
use nodelm.Gates.License.{evaluate_license, allow}
use nodelm.Gates.License.Allowed.{IsAllowed, evaluate_license-IsAllowed}
use nodelm.Gates.Gold.{
  OracleIsolationCheck, OracleIsolationAttestation, GoldExposureAudit, check_attestation,
  validate_audit,
}
use nodelm.Gates.Gold.Accepted.{
  IsAttested, check_attestation-IsAttested, IsAudited, validate_audit-IsAudited,
}
use nodelm.Gates.Registry.{CandidateRegistry, validate_registry_state}
use nodelm.Gates.Registry.Selected.{IsSelected, validate_registry_state-IsSelected}
use nodelm.Gates.Lifecycle.{
  TrainingBackend, RaisedError, Stage, reload_checkpoint, TrainingLifecycleReport,
  run_training_lifecycle,
}
use nodelm.Contamination.TaskMetadata.{Row, TaskMetadata, task_metadata_index}
use nodelm.Contamination.TaskMetadata.Looked.{IsLooked, task_metadata_index-IsLooked}
use nodelm.Base.{inl, inr}
use nodelm.Gates.Lifecycle.Run.{IsRun, run_training_lifecycle-IsRun}

allowed : (evaluate_license (some (text " MIT License "))).disposition ≡ allow
unfolding evaluate_license
allowed = refl

evaluate_license-IsAllowed_example : IsAllowed (some (text " MIT License "))
evaluate_license-IsAllowed_example =
    evaluate_license-IsAllowed (some (text " MIT License ")) allowed

abbrev check : Text → OracleIsolationCheck
check name = record { name = name; passed = true }

abbrev attestation : OracleIsolationAttestation
attestation = record {
  passed = true;
  source_name = text "open-swe-traces";
  partition_name = text "sweagent/minimax_m25/swe-rebench-v2";
  raw_row_count = 3;
  expected_sample_count = 3;
  covered_sample_count = 3;
  reference_patch_row_count = 3;
  checks =
      check (text "raw-normalized-population-binding")
      ∷ check (text "recorded-model-context-boundary")
      ∷ check (text "recorded-model-input-gold-absence")
      ∷ check (text "reference-patch-coverage")
      ∷ check (text "upstream-git-hacking-review")
      ∷ [];
  findings_bytes = 0;
  finding_count = 0;
}

attested : check_attestation attestation ≡ ok tt
unfolding check_attestation
attested = refl

check_attestation-IsAttested_example : IsAttested attestation
check_attestation-IsAttested_example = check_attestation-IsAttested attestation attested

abbrev audit : GoldExposureAudit
audit = record {
  status = pass;
  expected_sample_count = 3;
  audited_sample_count = 3;
  structural_scan = record { status = pass; finding_count = 0 };
  oracle_isolation = record {
    status = pass;
    attestation_artifact = some (text "a.json");
    attestation_sha256 = some (text "00");
    attestation_bytes = some 7;
    covered_sample_count = 3;
  };
}

audited : validate_audit audit ≡ ok tt
unfolding validate_audit
audited = refl

validate_audit-IsAudited_example : IsAudited audit
validate_audit-IsAudited_example = validate_audit-IsAudited audit audited refl

abbrev registry : CandidateRegistry
registry = record {
  metadata_status = pass;
  execution_status = pass;
  bakeoff_status = pass;
  candidates =
      (record {
        name = text "a";
        repository_id = text "o/a";
        metadata_status = pass;
        context_limit = some 4096;
      })
      ∷ (record {
        name = text "b";
        repository_id = text "o/b";
        metadata_status = pass;
        context_limit = some 8192;
      })
      ∷ [];
  selected_candidate = some (text "b");
  execution_evidence = 1;
  bakeoff_evidence = 2;
}

accepted : validate_registry_state registry ≡ ok tt
unfolding validate_registry_state
accepted = refl

validate_registry_state-IsSelected_example : IsSelected registry (text "b")
validate_registry_state-IsSelected_example =
    validate_registry_state-IsSelected registry (text "b") accepted refl

abbrev patch_text : Text
patch_text =
    100 ∷ 105 ∷ 102 ∷ 102 ∷ 32 ∷ 45 ∷ 45 ∷ 103 ∷ 105 ∷ 116 ∷ 32 ∷ 97 ∷ 32 ∷ 98 ∷ 10 ∷ 43 ∷ 120 ∷ 10
    ∷ []

-- A backend that counts its operations and cannot reload a checkpoint.
abbrev reloading_fails : Stage → ℕ → ℕ × Option RaisedError
reloading_fails reload_checkpoint n =
    (n, some (record { error_type = text "OSError"; error_message = text "gone" }))
reloading_fails _ n = (suc n, none)

abbrev backend : TrainingBackend ℕ
backend = record { operation = reloading_fails; infer = λ n. (n, ok (text "done")) }

run_training_lifecycle-IsRun_example :
    (r : TrainingLifecycleReport) × (run_training_lifecycle backend 0 ≡ ok r) × IsRun r
run_training_lifecycle-IsRun_example = run_training_lifecycle-IsRun backend 0

abbrev task_row : Text → Row
task_row repository =
    (text "instance_id", some (text "t1"))
    ∷ (text "repo", some repository)
    ∷ (text "task", some (text "fix"))
    ∷ (text "patch", some (text "p"))
    ∷ []

abbrev rows : List Row
rows = task_row (text "o/n") ∷ task_row (text "O/N.git") ∷ []

abbrev tasks : List (Text × TaskMetadata)
tasks =
    (
      text "t1",
      record {
        repository = text "github.com/o/n";
        task_text = text "fix";
        reference_patch = text "p";
      },
    )
    ∷ []

indexed : task_metadata_index rows ≡ ok tasks
unfolding task_metadata_index
indexed = refl

task_metadata_index-IsLooked_example : IsLooked tasks (task_row (text "O/N.git"))
task_metadata_index-IsLooked_example =
    task_metadata_index-IsLooked rows tasks (task_row (text "O/N.git")) indexed (inr (inl refl))
