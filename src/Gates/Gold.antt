-- ===== src/Gates/Gold.antt =====
-- The validators of provenance/gold.py, over the fields that they read, and the tables of reviewed audits.
pub mod Accepted
use nodelm.Base.{
  ℕ, Bool, true, false, not, ◌&&◌, ◌||◌, List, [], ◌∷◌, map, Text, text, ◌==◌, ltb, eqb,
  if◌then◌else◌, Result, ok, err, ◌>>=◌, ◌>>◌, raise_if, Option, none, some,
}
use nodelm.Contamination.Forest.{contains}
use nodelm.Split.Maps.{get}
use nodelm.Gates.Status.{VerificationStatus, pass, fail, is_pass, is_none, any}

pub data GoldError : Type 0 where
  incomplete_attestation claimed_attestation incomplete_checks incomplete_pass all_checks_pass :
      GoldError
  too_many_covered too_many_reference incomplete_reference incomplete_audit : GoldError
  no_reviewed_artifact wrong_artifact_digest : GoldError

pub record OracleIsolationEvidence : Type 0 where
  pub status : VerificationStatus
  pub attestation_artifact : Option Text
  pub attestation_sha256 : Option Text
  pub attestation_bytes : Option ℕ
  pub covered_sample_count : ℕ

-- `require_complete_pass_attestation`
unfoldable pub check_evidence : OracleIsolationEvidence → Result GoldError (Unit {0})
unfolding is_pass is_none
check_evidence e = do
  raise_if
      (is_pass e.status
        && (is_none e.attestation_artifact
            || is_none e.attestation_sha256
            || is_none e.attestation_bytes))
      incomplete_attestation
  raise_if
      (not (is_pass e.status)
        && (not (is_none e.attestation_artifact)
            || not (is_none e.attestation_sha256)
            || not (is_none e.attestation_bytes)))
      claimed_attestation

pub record OracleIsolationCheck : Type 0 where
  pub name : Text
  pub passed : Bool

abbrev pub oracle_isolation_check_order : List Text
oracle_isolation_check_order =
    text "raw-normalized-population-binding"
    ∷ text "recorded-model-context-boundary"
    ∷ text "recorded-model-input-gold-absence"
    ∷ text "reference-patch-coverage"
    ∷ text "upstream-git-hacking-review"
    ∷ []

abbrev pub reference_patch_coverage_partitions : List Text
reference_patch_coverage_partitions =
    text "openhands/minimax_m25/swe-rebench-v2"
    ∷ text "openhands/qwen35_122b/swe-rebench-v2"
    ∷ text "sweagent/minimax_m25/swe-rebench-v2"
    ∷ text "sweagent/qwen35_122b/swe-rebench-v2"
    ∷ []

-- A status of an attestation or of a check is PASS or FAIL: whether it is PASS.
pub record OracleIsolationAttestation : Type 0 where
  pub passed : Bool
  pub source_name : Text
  pub partition_name : Text
  pub raw_row_count : ℕ
  pub expected_sample_count : ℕ
  pub covered_sample_count : ℕ
  pub reference_patch_row_count : ℕ
  pub checks : List OracleIsolationCheck
  pub findings_bytes : ℕ
  pub finding_count : ℕ

unfoldable pub same_names : List Text → List Text → Bool
unfolding ◌==◌
same_names [] [] = true
same_names (a ∷ s) (b ∷ t) = a == b && same_names s t
same_names _ _ = false

unfoldable pub checks_pass : List OracleIsolationCheck → Bool
unfolding any
checks_pass checks = not (any (λ c. not c.passed) checks)

-- The partitions whose reference patches all rows must have.
unfoldable pub is_selected : OracleIsolationAttestation → Bool
unfolding ◌==◌ contains
is_selected a =
    a.source_name == text "open-swe-traces"
    && contains a.partition_name reference_patch_coverage_partitions

-- `require_complete_pass_evidence`
unfoldable pub check_attestation : OracleIsolationAttestation → Result GoldError (Unit {0})
unfolding same_names checks_pass is_selected
check_attestation a = do
  raise_if (not (same_names (map (λ c. c.name) a.checks) oracle_isolation_check_order))
      incomplete_checks
  raise_if
      (a.passed
        && (not (checks_pass a.checks)
            || not (eqb a.finding_count 0)
            || not (eqb a.findings_bytes 0)
            || not (eqb a.covered_sample_count a.expected_sample_count)))
      incomplete_pass
  raise_if (not a.passed && checks_pass a.checks) all_checks_pass
  raise_if (ltb a.raw_row_count a.covered_sample_count) too_many_covered
  raise_if (ltb a.raw_row_count a.reference_patch_row_count) too_many_reference
  raise_if
      (a.passed
        && is_selected a
        && (not (eqb a.reference_patch_row_count a.raw_row_count)
            || not (eqb a.reference_patch_row_count a.covered_sample_count)))
      incomplete_reference

pub record StructuralGoldScan : Type 0 where
  pub status : VerificationStatus
  pub finding_count : ℕ

pub record GoldExposureAudit : Type 0 where
  pub status : VerificationStatus
  pub expected_sample_count : ℕ
  pub audited_sample_count : ℕ
  pub structural_scan : StructuralGoldScan
  pub oracle_isolation : OracleIsolationEvidence

-- `pass_requires_complete_zero_finding_coverage`
unfoldable pub check_audit : GoldExposureAudit → Result GoldError (Unit {0})
unfolding is_pass
check_audit a =
    raise_if
      (is_pass a.status
        && (not (is_pass a.structural_scan.status)
            || not (eqb a.structural_scan.finding_count 0)
            || not (is_pass a.oracle_isolation.status)
            || eqb a.expected_sample_count 0
            || not (eqb a.expected_sample_count a.audited_sample_count)
            || not (eqb a.oracle_isolation.covered_sample_count a.audited_sample_count)))
      incomplete_audit

-- A record is validated from the inside.
unfoldable pub validate_audit : GoldExposureAudit → Result GoldError (Unit {0})
unfolding check_evidence check_audit
validate_audit a = do check_evidence a.oracle_isolation; check_audit a

-- `require_authorized_oracle_attestation` and `require_authorized_gold_audit`, with their tables.
unfoldable pub require_reviewed :
    List (Text × Text) → (normalized_sha256 digest : Text) → Result GoldError (Unit {0})
unfolding get ◌==◌
require_reviewed table normalized_sha256 digest = elim (get normalized_sha256 table) [
  | none ↦ err no_reviewed_artifact
  | some expected ↦ raise_if (not (digest == expected)) wrong_artifact_digest
]

unfoldable pub require_authorized_oracle_attestation : Text → Text → Result GoldError (Unit {0})
unfolding require_reviewed
require_authorized_oracle_attestation = require_reviewed []

unfoldable pub require_authorized_gold_audit : Text → Text → Result GoldError (Unit {0})
unfolding require_reviewed
require_authorized_gold_audit = require_reviewed []
