-- ===== src/Contamination/Ingest.antt =====
-- How `build_contamination_index` of decontamination/contamination.py reads its samples and benchmarks
-- into the tables.
pub mod Rows
pub mod Invariant
pub mod Kept
pub mod Recorded
pub mod Complete
use nodelm.Base.{
  ℕ, zero, suc, ◌+◌, Bool, true, false, not, ◌&&◌, ◌||◌, List, [], ◌∷◌, ◌++◌, map, Text, text, ◌==◌,
  ltb, if◌then◌else◌, length, select, for_each, Result, ok, err, ◌>>=◌, ◌>>◌, raise_if, Option,
  none, some,
}
use nodelm.Base.Methods.{is_empty}
use nodelm.Base.Fractions.{Fraction, ltb_fraction, leb_fraction, zero_fraction, one_fraction}
use nodelm.Base.Digests.{is_digest}
use nodelm.Fingerprint.Normalize.{exact_fingerprint}
use nodelm.Fingerprint.Repository.{canonical_repository}
use nodelm.Contamination.Tables.{
  ContentKind, task, patch, same_kind, SplitName, excluded, ContaminationSample, BenchmarkEntry,
  RepositoryRow, SampleRow, ContentRow, Database, initialize_database, IndexError,
  threshold_out_of_range, fraction_out_of_range, invalid_digest, invalid_repository,
  empty_sample_id, no_samples, empty_benchmark_id, no_benchmarks, duplicate_sample_id,
  no_patch_text, duplicate_benchmark_id,
}
use nodelm.Contamination.Ordering.{order_by, distinct}
use nodelm.Contamination.Forest.{row_of, contains}
use nodelm.Contamination.Content.{insert_content_value, insert_benchmark_value}

-- `aliases.get(repository, repository)`
unfoldable pub resolve_alias : List (Text × Text) → Text → Text
unfolding ◌==◌
resolve_alias [] repository = repository
resolve_alias ((alias, target) ∷ aliases) repository =
    let rest = resolve_alias aliases repository in if alias == repository then target else rest

-- INSERT OR IGNORE INTO repositories VALUES (?, ?, '')
unfoldable pub insert_repository : Text → List RepositoryRow → List RepositoryRow
unfolding row_of
insert_repository repository rows = elim (row_of repository rows) [
  | none ↦ rows ++ (record { repository = repository; parent = repository; split = none }) ∷ []
  | some r ↦ rows
]

-- Whether a sample has the identifier: an insertion would break the primary key.
unfoldable pub has_sample : Text → List SampleRow → Bool
unfolding ◌==◌
has_sample id [] = false
has_sample id (s ∷ samples) =
    let rest = has_sample id samples in if s.sample_id == id then true else rest

-- The repository that a sample belongs to.
unfoldable pub sample_repository : List (Text × Text) → ContaminationSample → Result IndexError Text
unfolding canonical_repository resolve_alias
sample_repository aliases sample = elim (canonical_repository sample.repository) [
  | err e ↦ err (invalid_repository sample.repository)
  | ok repository ↦ ok (resolve_alias aliases repository)
]

module _ (sha256 : Text → List ℕ) where
  -- The patches of a sample, without those whose fingerprint was seen.
  unfoldable pub insert_patches :
      (sample_id repository : Text) → List Text → Database → List Text → Result IndexError Database
  unfolding exact_fingerprint contains insert_content_value
  insert_patches sample_id repository seen db [] = ok db
  insert_patches sample_id repository seen db (value ∷ patches) =
      let fingerprint = exact_fingerprint sha256 value in
      let known = insert_patches sample_id repository seen db patches in
      let fresh = insert_content_value sha256 db patch value sample_id repository >>= λ db'.
      insert_patches sample_id repository (fingerprint ∷ seen) db' patches in
      if contains fingerprint seen then known else fresh

  unfoldable pub insert_sample :
      List (Text × Text) → Database → ContaminationSample → Result IndexError Database
  unfolding is_empty sample_repository insert_repository has_sample insert_content_value
      insert_patches
  insert_sample aliases db sample = do
    raise_if (is_empty sample.sample_id) empty_sample_id
    repository ← sample_repository aliases sample
    let rows = insert_repository repository db.repositories
    raise_if (has_sample sample.sample_id db.samples) (duplicate_sample_id sample.sample_id)
    let row : SampleRow = record {
      sample_id = sample.sample_id;
      repository = repository;
      benchmark_overlap = false;
    }
    let added = record db { repositories = rows; samples = db.samples ++ row ∷ [] }
    with_task ← insert_content_value sha256 added task sample.task_text sample.sample_id repository
    raise_if (is_empty sample.patch_texts) (no_patch_text sample.sample_id)
    insert_patches sample.sample_id repository [] with_task sample.patch_texts

  unfoldable pub insert_benchmark : Database → BenchmarkEntry → Result IndexError Database
  unfolding is_empty contains insert_benchmark_value
  insert_benchmark db entry = do
    raise_if (is_empty entry.benchmark_id) empty_benchmark_id
    raise_if (contains entry.benchmark_id db.benchmark_ids)
        (duplicate_benchmark_id entry.benchmark_id)
    let added = record db { benchmark_ids = db.benchmark_ids ++ entry.benchmark_id ∷ [] }
    with_task ← insert_benchmark_value sha256 added task entry.task_text
    insert_benchmark_value sha256 with_task patch entry.patch_text
