-- ===== src/Provenance/Pipeline/Exact.antt =====
-- The verifier of lineage accepts what the producer writes.
use nodelm.Base.{
  ℕ, ◌≡◌, refl, sym, ap, ◌∙◌, subst, Bool, true, false, ◌&&◌, List, [], ◌∷◌, ◌++◌, map, Text, text,
  ◌==◌, ==-refl, arith, ok, Option, some,
}
use nodelm.Base.Methods.{strip}
use nodelm.Base.Urls.{after_prefix}
use nodelm.Base.Digests.{is_digest}
use nodelm.Gates.Status.{any, is_none, some_of_is_none}
use nodelm.Provenance.Values.{Fields, object, get_value, boolean}
use nodelm.Provenance.Json.{stable_model_id}
use nodelm.Provenance.Json.Digest.{IsSha256, stable_model_id-is_digest}
use nodelm.Provenance.Lineage.{
  EvidenceBinding, normalization_evidence_lineage, same_texts, is_raw_row,
  has_exact_normalized_sample_lineage,
}
use nodelm.Provenance.Normalize.{identifier_of, required_identifier}
use nodelm.Provenance.Sample.{NormalizedSample}
use nodelm.Provenance.Sample.Normalized.{id_keys, normalize_sample-IsNormalized}
use nodelm.Provenance.Pipeline.{
  TaskFields, DatasetSource, TraceOptions, looked_up, lineage_of, join_optional,
  normalize_trace_sample,
}
use nodelm.Provenance.Pipeline.Merged.{
  get_value-set_field_other, get_value-fill_metadata, with_task, join_task-with_task, first_found,
  found_first, identifier_found, get_value-with_task,
}
use nodelm.Provenance.Pipeline.Traced.{labels_of, merged_of, normalize_trace_sample-IsTraced}

-- The joined row, where a task is found.
pub joined_rows :
    (task : Option TaskFields) (t : TaskFields) (row joined : Fields)
    → task ≡ some t
    → join_optional task row ≡ ok joined
    → joined ≡ with_task t row
unfolding join_optional
joined_rows task t row joined e h =
    join_task-with_task t row joined (ap (λ x. join_optional x row) (sym e) ∙ h)

-- A field that neither the metadata nor the task sets.
pub kept_field :
    (name : Text) (t : TaskFields) (row : Fields) (resolution : Bool)
    → any
        (λ k. k == name)
        (text "resolved" ∷ text "language" ∷ text "license" ∷ text "base_commit" ∷ text "repo" ∷ [])
      ≡ false
    → get_value name (with_task t (merged_of row resolution)) ≡ get_value name row
unfolding any
kept_field name t row resolution h =
    get_value-with_task name t (merged_of row resolution) (ground arith)
    ∙ get_value-fill_metadata name (get_value (text "metadata") row) _ (ground arith)
    ∙ get_value-set_field_other name (text "resolved") (boolean resolution) row (ground arith)

same_texts_refl : (ts : List Text) → same_texts ts ts ≡ true
unfolding same_texts
same_texts_refl [] = refl
same_texts_refl (t ∷ ts) = rw (==-refl t) (same_texts_refl ts)

raw_row-is_raw_row :
    (digest : Text) → is_digest digest ≡ true → is_raw_row (text "raw-row:" ++ digest) ≡ true
unfolding is_raw_row after_prefix
raw_row-is_raw_row digest h = h

written_exact :
    (sha256 : Text → List ℕ) (row : Fields) (source : DatasetSource) (revision id : Text)
    (t : TaskFields) (evidence : List Text)
    → IsSha256 sha256
    → map strip evidence ≡ evidence
    → has_exact_normalized_sample_lineage
        (lineage_of sha256 row source revision id (some t) evidence)
        (record {
          source_repository_id = source.repository_id;
          source_revision = revision;
          instance_id = id;
          evidence_lineage = evidence;
        })
      ≡ true
unfolding lineage_of has_exact_normalized_sample_lineage
written_exact sha256 row source revision id t evidence sha h =
    let raw =
      raw_row-is_raw_row (stable_model_id sha256 (object row))
        (stable_model_id-is_digest sha256 (object row) sha) in
    let a = ==-refl (source.repository_id ++ (64 ∷ revision)) in
    let b = ==-refl id in let c = same_texts_refl evidence in rw h (ground arith)

pub some_eq : {a b : Text} → ◌≡◌ {A = Option Text} (some a) (some b) → a ≡ b
some_eq h = cc

pub required_found :
    (required : Bool) (task : Option TaskFields)
    → required ≡ true
    → (required && is_none task) ≡ false
    → is_none task ≡ false
required_found required task r h = ground arith

-- The identifier of the sample is that of the row.
pub ids_agree :
    (row joined : Fields) (t : TaskFields) (resolution : Bool) (id other : Text)
    → joined ≡ with_task t (merged_of row resolution)
    → required_identifier (text "instance_id" ∷ []) row ≡ ok id
    → required_identifier id_keys joined ≡ ok other
    → id ≡ other
unfolding any ◌==◌
ids_agree row joined t resolution id other e named found =
    let read =
      found_first identifier_of (text "instance_id") row id (identifier_found _ row id named) in
    let same =
      ap (get_value (text "instance_id")) e
      ∙ kept_field (text "instance_id") t row resolution refl in
    some_eq (
      sym
        (first_found identifier_of (text "instance_id") _ joined id (ap identifier_of same ∙ read))
      ∙ identifier_found id_keys joined other found)

-- What `normalize_trace_sample` writes as the lineage of a sample that it joins with its task, with the
-- evidence of the normalization, passes the verifier's test for the sample's own identifier, where a task
-- is required to match and no entry of the evidence has white space around it.
pub normalize_trace_sample-exact :
    (sha256 : Text → List ℕ) (row : Fields) (source : DatasetSource) (o : TraceOptions)
    (b : EvidenceBinding) (revision : Text) (s : NormalizedSample)
    → IsSha256 sha256
    → source.revision ≡ some revision
    → o.require_task_match ≡ true
    → o.extra_lineage ≡ normalization_evidence_lineage b
    → map strip (normalization_evidence_lineage b) ≡ normalization_evidence_lineage b
    → normalize_trace_sample sha256 row source o ≡ ok s
    → has_exact_normalized_sample_lineage s.provenance_lineage (record {
      source_repository_id = source.repository_id;
      source_revision = revision;
      instance_id = s.issue_or_pr_id;
      evidence_lineage = normalization_evidence_lineage b;
    })
      ≡ true
normalize_trace_sample-exact sha256 row source o b revision s sha pinned required extra stripped h =
    let t = normalize_trace_sample-IsTraced sha256 row source o s h in
    let n =
      normalize_sample-IsNormalized sha256 t.joined (labels_of sha256 row source o t.revision t.id)
        s t.normalizes in
    let (task, found) =
      some_of_is_none (looked_up o.task_lookup t.id)
        (required_found o.require_task_match _ required t.matched) in
    let revisions : t.revision ≡ revision = some_eq (sym t.pinned ∙ pinned) in
    let ids : t.id ≡ s.issue_or_pr_id =
      ids_agree row t.joined task t.resolution t.id s.issue_or_pr_id
        (joined_rows (looked_up o.task_lookup t.id) task (merged_of row t.resolution) t.joined found
          t.joins)
        t.named n.named in
    let lineages : s.provenance_lineage
        ≡ lineage_of sha256 row source revision s.issue_or_pr_id (some task)
            (normalization_evidence_lineage b) =
      n.lineage ∙ (λ i. lineage_of sha256 row source (revisions i) (ids i) (found i) (extra i)) in
    subst
      (λ x.
        has_exact_normalized_sample_lineage x (record {
          source_repository_id = source.repository_id;
          source_revision = revision;
          instance_id = s.issue_or_pr_id;
          evidence_lineage = normalization_evidence_lineage b;
        })
        ≡ true)
      (sym lineages)
      (written_exact sha256 row source revision s.issue_or_pr_id task
        (normalization_evidence_lineage b) sha stripped)
