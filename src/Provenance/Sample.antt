-- ===== src/Provenance/Sample.antt =====
-- `NormalizedSample` of models.py and `normalize_sample` of provenance/normalize.py.
pub mod Normalized
use nodelm.Base.{
  ℕ, Bool, true, false, not, ◌&&◌, ◌||◌, List, [], ◌∷◌, Text, text, ◌==◌, eqb, leb, length,
  if◌then◌else◌, Result, ok, err, ◌>>=◌, ◌>>◌, raise_if, Option, none, some,
}
use nodelm.Base.Methods.{is_empty}
use nodelm.Gates.License.{
  LicenseDecision, LicenseDisposition, allow, reject, unknown, evaluate_license,
}
use nodelm.Provenance.Values.{
  Value, Items, Fields, null, boolean, integer, string, array, object, nil, cons, end, field,
  get_value,
}
use nodelm.Provenance.Json.{stable_model_id}
use nodelm.Provenance.Normalize.{
  NormalizationError, license_not_allowed, invalid_sample, parse_resolved, required_string,
  required_identifier, extract_model_patch, trajectory_of, PatchMetadata, model_patch_metadata,
}

pub record NormalizedSample : Type 0 where
  pub source_dataset : Text
  pub source_dataset_revision : Text
  pub repository : Text
  pub repository_license : Text
  pub base_commit : Text
  pub issue_or_pr_id : Text
  pub language : Text
  pub harness : Text
  pub generating_model : Text
  pub rollout_id : Text
  pub resolved : Bool
  pub trajectory : Items
  pub generated_patch : Option Text
  pub patch_metadata : PatchMetadata
  pub provenance_lineage : List Text

unfoldable pub texts : List Text → Items
texts [] = nil
texts (s ∷ rest) = cons (string s) (texts rest)

unfoldable pub string_or_null : Option Text → Value
string_or_null none = null
string_or_null (some s) = string s

unfoldable pub metadata_fields : PatchMetadata → Fields
metadata_fields m = field (text "sha256") (string m.sha256) (
    field (text "bytes") (integer m.bytes) (
      field (text "added_lines") (integer m.added_lines) (
        field (text "removed_lines") (integer m.removed_lines)
          (field (text "source_field") (string m.source_field) end))))

unfoldable pub identity_fields : NormalizedSample → Fields
unfolding texts string_or_null metadata_fields
identity_fields s = field (text "source_dataset") (string s.source_dataset) (
    field (text "source_dataset_revision") (string s.source_dataset_revision) (
      field (text "repository") (string s.repository) (
        field (text "repository_license") (string s.repository_license) (
          field (text "base_commit") (string s.base_commit) (
            field (text "issue_or_pr_id") (string s.issue_or_pr_id) (
              field (text "language") (string s.language) (
                field (text "harness") (string s.harness) (
                  field (text "generating_model") (string s.generating_model) (
                    field (text "rollout_id") (string s.rollout_id) (
                      field (text "resolved") (boolean s.resolved) (
                        field (text "trajectory") (array s.trajectory) (
                          field (text "generated_patch") (string_or_null s.generated_patch) (
                            field (text "patch_metadata")
                              (object (metadata_fields s.patch_metadata))
                              (field (text "provenance_lineage")
                                (array (texts s.provenance_lineage)) end))))))))))))))

-- The `sample_id` that a sample without one is given.
unfoldable pub sample_id : (Text → List ℕ) → NormalizedSample → Text
unfolding stable_model_id identity_fields
sample_id sha256 s = stable_model_id sha256 (object (identity_fields s))

is_hex : ℕ → Bool
is_hex c = leb 48 c && leb c 57 || leb 65 c && leb c 70 || leb 97 c && leb c 102

all_hex : Text → Bool
unfolding is_hex
all_hex [] = true
all_hex (c ∷ s) = is_hex c && all_hex s

-- `^[0-9a-fA-F]{40}$`
unfoldable pub is_commit : Text → Bool
unfolding all_hex
is_commit s = eqb (length s) 40 && all_hex s

-- The constraints on the fields of a sample.
unfoldable pub is_valid_sample : NormalizedSample → Bool
unfolding is_commit is_empty
is_valid_sample s =
    not (is_empty s.source_dataset)
    && is_commit s.source_dataset_revision
    && not (is_empty s.repository)
    && not (is_empty s.repository_license)
    && is_commit s.base_commit
    && not (is_empty s.issue_or_pr_id)
    && not (is_empty s.language)
    && not (is_empty s.harness)
    && not (is_empty s.generating_model)
    && not (is_empty s.rollout_id)
    && not (is_empty s.provenance_lineage)

unfoldable pub checked_sample : NormalizedSample → Result NormalizationError NormalizedSample
unfolding is_valid_sample
checked_sample s = if is_valid_sample s then ok s else err invalid_sample

-- `decision.normalized_spdx or raw_license`
unfoldable pub spdx_or : Text → Option Text → Text
unfolding is_empty
spdx_or raw none = raw
spdx_or raw (some spdx) = if is_empty spdx then raw else spdx

unfoldable pub is_allowed : LicenseDisposition → Bool
is_allowed allow = true
is_allowed _ = false

-- `patch or None`
unfoldable pub patch_or_none : Text → Option Text
unfolding is_empty
patch_or_none patch = if is_empty patch then none else some patch

-- What the caller states of all samples.
pub record SampleLabels : Type 0 where
  pub source_dataset : Text
  pub source_revision : Text
  pub harness : Text
  pub generating_model : Text
  pub lineage : List Text

unfoldable pub sample_of :
    (Text → List ℕ)
    → Fields
    → SampleLabels
    → Text
    → Text
    → Text
    → Text
    → Text
    → Text
    → Bool
    → Items
    → NormalizedSample
unfolding spdx_or patch_or_none extract_model_patch model_patch_metadata
sample_of sha256 row labels raw_license repository base_commit id language rollout resolved
      trajectory =
    let (patch, patch_field) = extract_model_patch row in
    record {
      source_dataset = labels.source_dataset;
      source_dataset_revision = labels.source_revision;
      repository = repository;
      repository_license =
          spdx_or raw_license (evaluate_license (some raw_license)).normalized_spdx;
      base_commit = base_commit;
      issue_or_pr_id = id;
      language = language;
      harness = labels.harness;
      generating_model = labels.generating_model;
      rollout_id = rollout;
      resolved = resolved;
      trajectory = trajectory;
      generated_patch = patch_or_none patch;
      patch_metadata = model_patch_metadata sha256 patch patch_field;
      provenance_lineage = labels.lineage;
    }

unfoldable pub normalize_sample :
    (Text → List ℕ) → Fields → SampleLabels → Result NormalizationError NormalizedSample
normalize_sample sha256 row labels = do
  raw_license ← required_string (text "license" ∷ text "repository_license" ∷ []) row
  raise_if (not (is_allowed (evaluate_license (some raw_license)).disposition))
      (license_not_allowed raw_license)
  repository ← required_string (text "repo" ∷ text "repository" ∷ []) row
  base_commit ← required_string (text "base_commit" ∷ []) row
  id ←
      required_identifier
        (text "instance_id" ∷ text "issue_or_pr_id" ∷ text "pull_number" ∷ text "issue_id" ∷ []) row
  language ← required_string (text "language" ∷ []) row
  rollout ← required_string (text "trajectory_id" ∷ text "rollout_id" ∷ []) row
  resolved ← parse_resolved (get_value (text "resolved") row)
  trajectory ← trajectory_of (get_value (text "trajectory") row)
  checked_sample (
      sample_of sha256 row labels raw_license repository base_commit id language rollout resolved
        trajectory)
