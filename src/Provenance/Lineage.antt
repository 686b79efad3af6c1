-- ===== src/Provenance/Lineage.antt =====
-- The lineage that samples carry, of provenance/pipeline.py: what the producer writes and the verifier reads.
use nodelm.Base.{
  Bool, true, false, ◌&&◌, List, [], ◌∷◌, ◌++◌, Text, text, ◌==◌, eqb, length, select, none, some,
}
use nodelm.Base.Urls.{after_prefix, before}
use nodelm.Base.Digests.{is_digest}
use nodelm.Gates.Patches.{starts_with}

pub record EvidenceBinding : Type 0 where
  pub materialization_manifest_sha256 : Text
  pub partition_name : Text
  pub upstream_source : Text
  pub task_source_name : Text
  pub task_source_revision : Text
  pub task_provenance_sha256 : Text

unfoldable pub normalization_evidence_lineage : EvidenceBinding → List Text
normalization_evidence_lineage b =
    (text "materialization:" ++ b.materialization_manifest_sha256)
    ∷ (text "trace-partition:" ++ b.partition_name)
    ∷ (text "upstream-source:" ++ b.upstream_source)
    ∷ (text "task-provenance:" ++ (b.task_source_name ++ (64 ∷ b.task_source_revision)))
    ∷ (text "task-provenance-artifact:" ++ b.task_provenance_sha256)
    ∷ []

unfoldable pub same_texts : List Text → List Text → Bool
unfolding ◌==◌
same_texts [] [] = true
same_texts [] (t ∷ ts) = false
same_texts (s ∷ ss) [] = false
same_texts (s ∷ ss) (t ∷ ts) = s == t && same_texts ss ts

-- The items of the namespace of an expected value are that value alone.
unfoldable pub in_namespace : Text → List Text → List Text
unfolding before starts_with
in_namespace value = select (starts_with (before 58 value ++ 58 ∷ []))

unfoldable pub has_exact_normalization_evidence_lineage : List Text → List Text → Bool
unfolding same_texts in_namespace
has_exact_normalization_evidence_lineage lineage [] = true
has_exact_normalization_evidence_lineage lineage (value ∷ expected) =
    same_texts (in_namespace value lineage) (value ∷ [])
    && has_exact_normalization_evidence_lineage lineage expected

-- `re.fullmatch(r"raw-row:[0-9a-f]{64}", item)`
unfoldable pub is_raw_row : Text → Bool
unfolding after_prefix is_digest
is_raw_row item = elim (after_prefix (text "raw-row:") item) [
  | none ↦ false
  | some digest ↦ is_digest digest
]

-- The parts of a lineage that the verifier binds it to.
pub record LineageBinding : Type 0 where
  pub source_repository_id : Text
  pub source_revision : Text
  pub instance_id : Text
  pub evidence_lineage : List Text

unfoldable pub has_exact_normalized_sample_lineage : List Text → LineageBinding → Bool
unfolding ◌==◌ is_raw_row same_texts
has_exact_normalized_sample_lineage (source ∷ instance_item ∷ raw_row ∷ task ∷ evidence) b =
    eqb (length evidence) (length b.evidence_lineage)
    && source == (text "hf-dataset:" ++ (b.source_repository_id ++ (64 ∷ b.source_revision)))
    && instance_item == (text "instance:" ++ b.instance_id)
    && is_raw_row raw_row
    && task == (text "task-metadata:" ++ b.instance_id)
    && same_texts evidence b.evidence_lineage
has_exact_normalized_sample_lineage _ b = false
