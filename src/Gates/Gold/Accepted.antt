-- ===== src/Gates/Gold/Accepted.antt =====
-- Accepted attestations and audits of provenance/gold.py.
use nodelm.Base.{
  refl, ◌∙◌, text, ◌++◌, ◌==◌, ==-refl, ◌⊎◌, inl, inr, ℕ, ◌≤◌, ◌<◌, ◌≡◌, ap, Bool, true, false, not,
  ◌&&◌, ◌||◌, map, Text, arith, ltb, eqb, ok, >>=-eq-ok, raise_if-eq-ok, passed, some, ◌↔◌, List,
  In,
}
use nodelm.Gates.Status.{pass, is_pass, is_none, some_of_is_none, any-false, any_of_none}
use nodelm.Contamination.Forest.{contains}
use nodelm.Gates.Gold.{
  reference_patch_coverage_partitions, incomplete_attestation, incomplete_checks, incomplete_pass,
  all_checks_pass, too_many_covered, too_many_reference, incomplete_reference, incomplete_audit,
  OracleIsolationCheck, OracleIsolationAttestation, same_names, checks_pass, is_selected,
  oracle_isolation_check_order, check_evidence, check_attestation, GoldExposureAudit, check_audit,
  validate_audit,
}

-- A guard over two tests that is passed in a case that it is about.
both_hold :
    (p s x y : Bool)
    → (p && s && (not x || not y)) ≡ false
    → p ≡ true
    → s ≡ true
    → (x ≡ true) × (y ≡ true)
both_hold p s x y h e f = (ground arith, ground arith)

referenced_lem :
    (p s : Bool) (reference raw covered expected : ℕ)
    → (p && s && (not (eqb reference raw) || not (eqb reference covered))) ≡ false
    → p ≡ true
    → s ≡ true
    → covered ≡ expected
    → (raw ≡ expected) × (reference ≡ raw)
referenced_lem p s reference raw covered expected h e f c =
    let (x, y) = both_hold p s (eqb reference raw) (eqb reference covered) h e f in
    (ground arith, ground arith)

-- `checks_pass` says that all checks pass.
checks_pass_iff :
    (checks : List OracleIsolationCheck)
    → (checks_pass checks ≡ true) ↔ ((c : OracleIsolationCheck) → In c checks → c.passed ≡ true)
unfolding checks_pass
checks_pass_iff checks = (
  λ t c i. holds c.passed (any-false failing c checks (ground arith) i),
  λ h. ap not (any_of_none failing checks (λ c i. ap not (h c i))),
)
  where
    failing : OracleIsolationCheck → Bool
    failing = λ c. not c.passed

    holds : (b : Bool) → not b ≡ false → b ≡ true
    holds b e = ground arith

-- A partition of the runs of one of two agents with one of two models.
pub record IsRun (partition : Text) : Type 0 where
  pub agent : Text
  pub model : Text
  pub is_agent : (agent ≡ text "openhands") ⊎ (agent ≡ text "sweagent")
  pub is_model : (model ≡ text "minimax_m25") ⊎ (model ≡ text "qwen35_122b")
  pub named : partition ≡ agent ++ (text "/" ++ (model ++ text "/swe-rebench-v2"))

partition_found :
    (agent model : Text)
    → (agent ≡ text "openhands") ⊎ (agent ≡ text "sweagent")
    → (model ≡ text "minimax_m25") ⊎ (model ≡ text "qwen35_122b")
    → contains
        (agent ++ (text "/" ++ (model ++ text "/swe-rebench-v2")))
        reference_patch_coverage_partitions
      ≡ true
unfolding contains ◌==◌
partition_found agent model (inl e) (inl f) = rw (e, f) refl
partition_found agent model (inl e) (inr f) = rw (e, f) refl
partition_found agent model (inr e) (inl f) = rw (e, f) refl
partition_found agent model (inr e) (inr f) = rw (e, f) refl

is_selected_of-IsRun :
    (a : OracleIsolationAttestation)
    → a.source_name ≡ text "open-swe-traces"
    → IsRun a.partition_name
    → is_selected a ≡ true
unfolding is_selected
is_selected_of-IsRun a s r =
    both _ _ (ap (λ x. x == text "open-swe-traces") s ∙ ==-refl (text "open-swe-traces")) (
      ap (λ x. contains x reference_patch_coverage_partitions) r.named
      ∙ partition_found r.agent r.model r.is_agent r.is_model)
  where
    both : (x y : Bool) → x ≡ true → y ≡ true → (x && y) ≡ true
    both x y e f = ground arith

-- What an accepted attestation vouches for.
pub record IsAttested (a : OracleIsolationAttestation) : Type 0 where
  pub status_pass :
      (a.passed ≡ true) ↔ ((c : OracleIsolationCheck) → In c a.checks → c.passed ≡ true)
  pub covered : a.covered_sample_count ≤ a.raw_row_count
  pub complete :
      a.passed ≡ true → (a.covered_sample_count ≡ a.expected_sample_count) × (a.finding_count ≡ 0)
  pub selected :
      a.passed ≡ true
      → a.source_name ≡ text "open-swe-traces"
      → IsRun a.partition_name
      → (a.raw_row_count ≡ a.expected_sample_count)
        × (a.reference_patch_row_count ≡ a.raw_row_count)

-- An accepted attestation passes exactly if each of its checks does; then it covers all expected samples and
-- has no finding, and in each of the four partitions of open-swe-traces with the runs of two agents on
-- two models every raw row is expected and has a reference patch.
pub check_attestation-IsAttested :
    (a : OracleIsolationAttestation) → check_attestation a ≡ ok tt → IsAttested a
unfolding check_attestation
check_attestation-IsAttested a h =
    let (_, h) =
      passed (not (same_names (map (λ c. c.name) a.checks) oracle_isolation_check_order))
        incomplete_checks _ h in
    let (whole, h) =
      passed
        (a.passed
          && (not (checks_pass a.checks)
              || not (eqb a.finding_count 0)
              || not (eqb a.findings_bytes 0)
              || not (eqb a.covered_sample_count a.expected_sample_count)))
        incomplete_pass _ h in
    let (failed, h) = passed (not a.passed && checks_pass a.checks) all_checks_pass _ h in
    let (covered, h) = passed (ltb a.raw_row_count a.covered_sample_count) too_many_covered _ h in
    let (_, h) = passed (ltb a.raw_row_count a.reference_patch_row_count) too_many_reference _ h in
    let referenced =
      raise_if-eq-ok
        (a.passed
          && is_selected a
          && (not (eqb a.reference_patch_row_count a.raw_row_count)
              || not (eqb a.reference_patch_row_count a.covered_sample_count)))
        incomplete_reference tt h in
    let complete : a.passed ≡ true
        → (a.covered_sample_count ≡ a.expected_sample_count) × (a.finding_count ≡ 0) =
      λ p. (ground arith, ground arith) in
    record {
      status_pass = (
        λ p. (checks_pass_iff a.checks).0 (ground arith),
        λ c. passed_of a.passed (checks_pass a.checks) failed ((checks_pass_iff a.checks).1 c),
      );
      covered = ground arith;
      complete = complete;
      selected = λ p s r.
          referenced_lem a.passed (is_selected a) a.reference_patch_row_count a.raw_row_count
            a.covered_sample_count a.expected_sample_count referenced p (is_selected_of-IsRun a s r)
            (complete p).0;
    }
  where
    passed_of : (p c : Bool) → (not p && c) ≡ false → c ≡ true → p ≡ true
    passed_of p c h e = ground arith

-- What an accepted audit that passes vouches for.
pub record IsAudited (a : GoldExposureAudit) : Type 0 where
  pub sampled : 0 < a.audited_sample_count
  pub expected : a.audited_sample_count ≡ a.expected_sample_count
  pub covered : a.oracle_isolation.covered_sample_count ≡ a.expected_sample_count
  pub no_findings : a.structural_scan.finding_count ≡ 0
  pub attestation : (sha256 : Text) × (a.oracle_isolation.attestation_sha256 ≡ some sha256)

-- An accepted audit that passes has audited a population that is not empty, all of it, without a finding,
-- and its oracle isolation covers all of it and names its attestation.
pub validate_audit-IsAudited :
    (a : GoldExposureAudit) → validate_audit a ≡ ok tt → a.status ≡ pass → IsAudited a
unfolding validate_audit check_evidence check_audit is_pass
validate_audit-IsAudited a h p =
    let e = a.oracle_isolation in
    let (_, checked, h) = >>=-eq-ok (check_evidence e) (λ _. check_audit a) h in
    let (named, _) =
      passed
        (is_pass e.status
          && (is_none e.attestation_artifact
              || is_none e.attestation_sha256
              || is_none e.attestation_bytes))
        incomplete_attestation _ checked in
    let clear =
      raise_if-eq-ok
        (is_pass a.status
          && (not (is_pass a.structural_scan.status)
              || not (eqb a.structural_scan.finding_count 0)
              || not (is_pass e.status)
              || eqb a.expected_sample_count 0
              || not (eqb a.expected_sample_count a.audited_sample_count)
              || not (eqb e.covered_sample_count a.audited_sample_count)))
        incomplete_audit tt h in
    let at : is_pass a.status ≡ true = ap is_pass p in
    let isolated : is_pass e.status ≡ true = ground arith in
    record {
      sampled = ground arith;
      expected = ground arith;
      covered = ground arith;
      no_findings = ground arith;
      attestation = some_of_is_none e.attestation_sha256 (ground arith);
    }
