-- ===== src/Provenance/Pipeline/Traced.antt =====
-- What `normalize_trace_sample` has gone through when it returns.
use nodelm.Base.{
  ℕ, ◌≡◌, ap, ◌∙◌, Bool, false, not, ◌&&◌, ◌||◌, List, [], ◌∷◌, Text, text, Result, ok, err, ◌>>=◌,
  ◌>>◌, >>=-eq-ok, passed, raise_if, ok-injective, Option, none, some, inl, inr, Option-cases,
}
use nodelm.Base.Methods.{strip, is_empty}
use nodelm.Gates.Status.{is_pass, is_none, any}
use nodelm.Provenance.Values.{Fields, boolean, get_value}
use nodelm.Provenance.Normalize.{
  NormalizationError, unverified_source, empty_label, empty_lineage, other_row_dataset,
  missing_task, parse_resolution_status, required_identifier,
}
use nodelm.Provenance.Sample.{NormalizedSample, SampleLabels, normalize_sample}
use nodelm.Provenance.Pipeline.{
  DatasetSource, set_field, fill_metadata, join_optional, TraceOptions, looked_up, is_other_dataset,
  lineage_of, require_resolution, normalize_trace_sample,
}

abbrev pub labels_of :
    (Text → List ℕ) → Fields → DatasetSource → TraceOptions → Text → Text → SampleLabels
labels_of sha256 row source o revision id = record {
  source_dataset = source.name;
  source_revision = revision;
  harness = strip o.harness;
  generating_model = strip o.generating_model;
  lineage = lineage_of sha256 row source revision id (looked_up o.task_lookup id) o.extra_lineage;
}

abbrev pub merged_of : Fields → Bool → Fields
merged_of row resolution =
    fill_metadata (get_value (text "metadata") row)
      (set_field (text "resolved") (boolean resolution) row)

pub record IsTraced (sha256 : Text → List ℕ) (row : Fields) (source : DatasetSource)
    (o : TraceOptions) (s : NormalizedSample) : Type 0 where
  pub revision : Text
  pub pinned : source.revision ≡ some revision
  pub verified : not (is_pass source.status) ≡ false
  pub id : Text
  pub named : required_identifier (text "instance_id" ∷ []) row ≡ ok id
  pub resolution : Bool
  pub labelled : parse_resolution_status (get_value (text "resolved") row) ≡ ok (some resolution)
  pub matched : (o.require_task_match && is_none (looked_up o.task_lookup id)) ≡ false
  pub joined : Fields
  pub joins : join_optional (looked_up o.task_lookup id) (merged_of row resolution) ≡ ok joined
  pub normalizes : normalize_sample sha256 joined (labels_of sha256 row source o revision id) ≡ ok s

err_ok :
    {e : NormalizationError} {s : NormalizedSample}
    → ◌≡◌ {A = Result NormalizationError NormalizedSample} (err e) (ok s)
    → ⊥
err_ok h = cc

module _ (sha256 : Text → List ℕ) (row : Fields) (source : DatasetSource) (o : TraceOptions)
    (s : NormalizedSample) where
  -- The part of `normalize_trace_sample` after its checks of the arguments.
  abbrev rest_of : Text → Result NormalizationError NormalizedSample
  rest_of revision = required_identifier (text "instance_id" ∷ []) row >>= λ id.
      parse_resolution_status (get_value (text "resolved") row) >>= λ status.
      require_resolution status >>= λ resolution.
      raise_if (o.require_task_match && is_none (looked_up o.task_lookup id)) missing_task
      >> (join_optional (looked_up o.task_lookup id) (merged_of row resolution) >>= λ joined.
          normalize_sample sha256 joined (labels_of sha256 row source o revision id))

  require_resolution-some :
      (status : Option Bool) (b : Bool) → require_resolution status ≡ ok b → status ≡ some b
  unfolding require_resolution
  require_resolution-some none b h = cc
  require_resolution-some (some c) b h = ap some (ok-injective h)

  rest-IsTraced :
      (revision : Text)
      → source.revision ≡ some revision
      → not (is_pass source.status) ≡ false
      → rest_of revision ≡ ok s
      → IsTraced sha256 row source o s
  rest-IsTraced revision pinned verified h =
      let (id, e1, h1) = >>=-eq-ok (required_identifier (text "instance_id" ∷ []) row) _ h in
      let (status, e2, h2) =
        >>=-eq-ok (parse_resolution_status (get_value (text "resolved") row)) _ h1 in
      let (resolution, e3, h3) = >>=-eq-ok (require_resolution status) _ h2 in
      let (m, h4) =
        passed (o.require_task_match && is_none (looked_up o.task_lookup id)) missing_task _ h3 in
      let (joined, e5, h5) =
        >>=-eq-ok (join_optional (looked_up o.task_lookup id) (merged_of row resolution)) _ h4 in
      record {
        revision = revision;
        pinned = pinned;
        verified = verified;
        id = id;
        named = e1;
        resolution = resolution;
        labelled = e2 ∙ ap ok (require_resolution-some status resolution e3);
        matched = m;
        joined = joined;
        joins = e5;
        normalizes = h5;
      }

  pub normalize_trace_sample-IsTraced :
      normalize_trace_sample sha256 row source o ≡ ok s → IsTraced sha256 row source o s
  unfolding normalize_trace_sample
  normalize_trace_sample-IsTraced h = elim (Option-cases source.revision) [
    | inl e ↦ absurd (err_ok (rw (e, normalize_trace_sample) at h))
    | inr (revision, e) ↦
        let (v, h1) =
          passed (not (is_pass source.status)) unverified_source _
            (rw (e, normalize_trace_sample) at h) in
        let (_, h2) =
          passed (is_empty (strip o.harness) || is_empty (strip o.generating_model)) empty_label _
            h1 in
        let (_, h3) = passed (any (λ x. is_empty (strip x)) o.extra_lineage) empty_lineage _ h2 in
        let (_, h4) =
          passed (is_other_dataset o.expected_row_dataset_name row) other_row_dataset _ h3 in
        rest-IsTraced revision e v h4
  ]
