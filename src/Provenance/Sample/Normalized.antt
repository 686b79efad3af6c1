-- ===== src/Provenance/Sample/Normalized.antt =====
-- What a sample that `normalize_sample` returns has in common with its row.
use nodelm.Base.{
  ℕ, ◌≡◌, refl, sym, ap, ◌∙◌, Bool, arith, true, false, not, List, [], ◌∷◌, Text, text, ok,
  >>=-eq-ok, passed, some,
}
use nodelm.Gates.License.{evaluate_license}
use nodelm.Provenance.Values.{Fields, Items, get_value}
use nodelm.Provenance.Normalize.{
  license_not_allowed, parse_resolved, required_string, required_identifier, trajectory_of,
}
use nodelm.Provenance.Sample.{
  NormalizedSample, SampleLabels, is_allowed, is_valid_sample, checked_sample, spdx_or, sample_of,
  normalize_sample,
}

abbrev pub license_keys : List Text
license_keys = text "license" ∷ text "repository_license" ∷ []

abbrev pub repository_keys : List Text
repository_keys = text "repo" ∷ text "repository" ∷ []

abbrev pub id_keys : List Text
id_keys = text "instance_id" ∷ text "issue_or_pr_id" ∷ text "pull_number" ∷ text "issue_id" ∷ []

pub record IsNormalized (row : Fields) (labels : SampleLabels) (s : NormalizedSample) : Type 0 where
  pub raw_license : Text
  pub stated : required_string license_keys row ≡ ok raw_license
  pub licensed : is_allowed (evaluate_license (some raw_license)).disposition ≡ true
  pub spdx :
      s.repository_license
      ≡ spdx_or raw_license (evaluate_license (some raw_license)).normalized_spdx
  pub in_repository : required_string repository_keys row ≡ ok s.repository
  pub at_commit : required_string (text "base_commit" ∷ []) row ≡ ok s.base_commit
  pub named : required_identifier id_keys row ≡ ok s.issue_or_pr_id
  pub in_language : required_string (text "language" ∷ []) row ≡ ok s.language
  pub labelled : parse_resolved (get_value (text "resolved") row) ≡ ok s.resolved
  pub checked : trajectory_of (get_value (text "trajectory") row) ≡ ok s.trajectory
  pub lineage : s.provenance_lineage ≡ labels.lineage
  pub valid : is_valid_sample s ≡ true

checked_sample-eq :
    (s t : NormalizedSample) → checked_sample s ≡ ok t → (s ≡ t) × (is_valid_sample s ≡ true)
unfolding checked_sample
checked_sample-eq s t h = ground arith

true_of_not : (b : Bool) → not b ≡ false → b ≡ true
true_of_not true h = refl
true_of_not false h = cc

module _ (sha256 : Text → List ℕ) (row : Fields) (labels : SampleLabels)
    (s : NormalizedSample) where
  IsNormalized-of :
      (raw repository commit id language rollout : Text) (resolved : Bool) (trajectory : Items)
      → required_string license_keys row ≡ ok raw
      → is_allowed (evaluate_license (some raw)).disposition ≡ true
      → required_string repository_keys row ≡ ok repository
      → required_string (text "base_commit" ∷ []) row ≡ ok commit
      → required_identifier id_keys row ≡ ok id
      → required_string (text "language" ∷ []) row ≡ ok language
      → parse_resolved (get_value (text "resolved") row) ≡ ok resolved
      → trajectory_of (get_value (text "trajectory") row) ≡ ok trajectory
      → checked_sample (
          sample_of sha256 row labels raw repository commit id language rollout resolved trajectory)
        ≡ ok s
      → IsNormalized row labels s
  unfolding sample_of
  IsNormalized-of raw repository commit id language rollout resolved trajectory e1 t e3 e4 e5 e6 e8
        e9 h =
      let (same, valid) =
        checked_sample-eq
          (sample_of sha256 row labels raw repository commit id language rollout resolved
            trajectory)
          s h in
      record {
        raw_license = raw;
        stated = e1;
        licensed = t;
        spdx = ap (λ x. x.repository_license) (sym same);
        in_repository = e3 ∙ ap (λ x. ok x.repository) same;
        at_commit = e4 ∙ ap (λ x. ok x.base_commit) same;
        named = e5 ∙ ap (λ x. ok x.issue_or_pr_id) same;
        in_language = e6 ∙ ap (λ x. ok x.language) same;
        labelled = e8 ∙ ap (λ x. ok x.resolved) same;
        checked = e9 ∙ ap (λ x. ok x.trajectory) same;
        lineage = ap (λ x. x.provenance_lineage) (sym same);
        valid = ap is_valid_sample (sym same) ∙ valid;
      }

  pub normalize_sample-IsNormalized :
      normalize_sample sha256 row labels ≡ ok s → IsNormalized row labels s
  unfolding normalize_sample
  normalize_sample-IsNormalized h =
      let (raw, e1, h1) = >>=-eq-ok (required_string license_keys row) _ h in
      let (t, h2) =
        passed (not (is_allowed (evaluate_license (some raw)).disposition))
          (license_not_allowed raw) _ h1 in
      let (repository, e3, h3) = >>=-eq-ok (required_string repository_keys row) _ h2 in
      let (commit, e4, h4) = >>=-eq-ok (required_string (text "base_commit" ∷ []) row) _ h3 in
      let (id, e5, h5) = >>=-eq-ok (required_identifier id_keys row) _ h4 in
      let (language, e6, h6) = >>=-eq-ok (required_string (text "language" ∷ []) row) _ h5 in
      let (rollout, e7, h7) =
        >>=-eq-ok (required_string (text "trajectory_id" ∷ text "rollout_id" ∷ []) row) _ h6 in
      let (resolved, e8, h8) = >>=-eq-ok (parse_resolved (get_value (text "resolved") row)) _ h7 in
      let (trajectory, e9, h9) =
        >>=-eq-ok (trajectory_of (get_value (text "trajectory") row)) _ h8 in
      IsNormalized-of raw repository commit id language rollout resolved trajectory e1
        (true_of_not _ t) e3 e4 e5 e6 e8 e9 h9
