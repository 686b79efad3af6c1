-- ===== src/Contamination/Benchmarks.antt =====
-- `_mark_value_samples`, `_mark_exact_benchmark_overlap` and `_mark_near_benchmark_overlap` of
-- decontamination/contamination.py.
pub mod Marked
pub mod Near
use nodelm.Base.{
  ℕ, zero, suc, Bool, true, false, not, ◌&&◌, List, [], ◌∷◌, map, Text, ◌==◌, leb, if◌then◌else◌,
  select, for_each, Result, ok, err, ◌>>=◌, Option, none, some,
}
use nodelm.Base.Fractions.{Fraction}
use nodelm.Contamination.Tables.{
  ContentKind, same_kind, ContentRow, SampleRow, ValueSampleRow, Database, IndexError,
}
use nodelm.Contamination.Ordering.{order_by, distinct}
use nodelm.Contamination.Forest.{contains}
use nodelm.Contamination.Content.{text_of}
use nodelm.Contamination.Linking.{
  candidate_length_bounds, bind_bounds, contents_of, compare_texts, NearState,
}

-- SELECT sample_id FROM value_samples WHERE kind = ? AND fingerprint = ?
unfoldable pub samples_of_value : ContentKind → Text → List ValueSampleRow → List Text
unfolding same_kind ◌==◌
samples_of_value kind fingerprint rows =
    map (λ r. r.sample_id)
      (select (λ r. same_kind r.kind kind && r.fingerprint == fingerprint) rows)

unfoldable pub mark_samples : List Text → List SampleRow → List SampleRow
unfolding contains
mark_samples ids [] = []
mark_samples ids (s ∷ rows) =
    (if contains s.sample_id ids then record s { benchmark_overlap = true } else s)
    ∷ mark_samples ids rows

unfoldable pub mark_value_samples : ContentKind → Text → Database → Database
unfolding samples_of_value mark_samples
mark_value_samples kind fingerprint db = record db {
  samples = mark_samples (samples_of_value kind fingerprint db.value_samples) db.samples;
}

unfoldable pub is_some : {A : Type 0} → Option A → Bool
is_some none = false
is_some (some a) = true

-- SELECT c.fingerprint … JOIN benchmark_values USING (kind, fingerprint) WHERE c.kind = ?
-- ORDER BY c.fingerprint
unfoldable pub benchmark_fingerprints : ContentKind → Database → List Text
unfolding contents_of text_of is_some
benchmark_fingerprints kind db =
    map (λ r. r.fingerprint)
      (select (λ r. is_some (text_of kind r.fingerprint db.benchmark_values))
        (contents_of kind db.content_values))

unfoldable pub mark_fingerprints : ContentKind → ℕ → Database → List Text → ℕ × Database
unfolding mark_value_samples
mark_fingerprints kind count db [] = (count, db)
mark_fingerprints kind count db (f ∷ fs) =
    mark_fingerprints kind (suc count) (mark_value_samples kind f db) fs

unfoldable pub mark_exact_benchmark_overlap : ContentKind → Database → ℕ × Database
unfolding benchmark_fingerprints mark_fingerprints
mark_exact_benchmark_overlap kind db = mark_fingerprints kind 0 db (benchmark_fingerprints kind db)

-- SELECT … FROM benchmark_values WHERE kind = ? AND fingerprint != ? AND length BETWEEN ? AND ?
-- ORDER BY fingerprint
unfoldable pub benchmark_candidates :
    ContentKind → ContentRow → ℕ × ℕ → List ContentRow → List ContentRow
unfolding same_kind ◌==◌ order_by
benchmark_candidates kind content (minimum, maximum) rows =
    order_by (λ r. r.fingerprint)
      (select
        (λ r.
          same_kind r.kind kind
          && not (r.fingerprint == content.fingerprint)
          && leb minimum r.length
          && leb r.length maximum)
        rows)

unfoldable pub compare_benchmark :
    ContentKind → Fraction → ContentRow → NearState → ContentRow → Result IndexError NearState
unfolding compare_texts mark_value_samples
compare_benchmark kind threshold content (comparisons, matches, db) benchmark =
    compare_texts content.text benchmark.text threshold >>= λ near. elim near [
      | false ↦ ok (suc comparisons, matches, db)
      | true ↦ ok (suc comparisons, suc matches, mark_value_samples kind content.fingerprint db)
    ]

unfoldable pub mark_near_row :
    ContentKind → Fraction → NearState → ContentRow → Result IndexError NearState
unfolding candidate_length_bounds bind_bounds benchmark_candidates compare_benchmark for_each
mark_near_row kind threshold (comparisons, matches, db) content =
    bind_bounds (candidate_length_bounds content.length threshold) >>= λ bounds.
    for_each (compare_benchmark kind threshold content) (comparisons, matches, db)
      (benchmark_candidates kind content bounds db.benchmark_values)

unfoldable pub mark_near_benchmark_overlap :
    ContentKind → Fraction → Database → Result IndexError NearState
unfolding contents_of mark_near_row for_each
mark_near_benchmark_overlap kind threshold db =
    for_each (mark_near_row kind threshold) (0, 0, db) (contents_of kind db.content_values)
