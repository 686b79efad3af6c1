-- ===== src/Contamination/Index.antt =====
-- `build_contamination_index` of decontamination/contamination.py and the reading of its result.
-- The temporary database file, the commit and the closing of the connection are not modelled; nor is
-- the digest of the configuration.
pub mod Samples
pub mod Ingested
pub mod Linked
pub mod Built
pub mod Groups
pub mod Evidence
pub mod Separation
pub mod Exclusion
pub mod Examples
use nodelm.Base.{
  ℕ, Bool, true, false, not, ◌&&◌, List, [], ◌∷◌, map, Text, ltb, leb, if◌then◌else◌, length,
  select, for_each, Result, ok, err, ◌>>=◌, ◌>>◌, raise_if, Option, none, some,
}
use nodelm.Base.Methods.{is_empty}
use nodelm.Base.Fractions.{Fraction, ltb_fraction, leb_fraction, zero_fraction, one_fraction}
use nodelm.Base.Digests.{is_digest}
use nodelm.Contamination.Tables.{
  ContentKind, task, patch, same_kind, SplitName, train, evaluation, excluded, ContaminationSample,
  BenchmarkEntry, RepositoryRow, SampleRow, ContentRow, Database, initialize_database, IndexError,
  threshold_out_of_range, fraction_out_of_range, invalid_digest, no_samples, no_benchmarks,
}
use nodelm.Contamination.Ordering.{order_by, distinct}
use nodelm.Contamination.Forest.{row_of}
use nodelm.Contamination.Linking.{union_exact_groups, union_near_groups}
use nodelm.Contamination.Benchmarks.{mark_exact_benchmark_overlap, mark_near_benchmark_overlap}
use nodelm.Contamination.Splits.{compress_repository_groups, assign_splits}
use nodelm.Contamination.Ingest.{insert_sample, insert_benchmark}

-- The keyword arguments. `aliases` is a mapping: the first entry of a key counts.
pub record IndexInput : Type 0 where
  pub samples : List ContaminationSample
  pub benchmarks : List BenchmarkEntry
  pub near_duplicate_threshold : Fraction
  pub aliases : List (Text × Text)
  pub task_metadata_sha256 : Text
  pub benchmark_sha256 : Text
  pub seed : ℕ
  pub evaluation_fraction : Fraction

-- What the loops count.
pub record LoopCounts : Type 0 where
  pub exact_task_groups : ℕ
  pub exact_patch_groups : ℕ
  pub task_comparisons : ℕ
  pub near_task_pairs : ℕ
  pub patch_comparisons : ℕ
  pub near_patch_pairs : ℕ
  pub benchmark_exact_tasks : ℕ
  pub benchmark_exact_patches : ℕ
  pub benchmark_task_comparisons : ℕ
  pub benchmark_near_tasks : ℕ
  pub benchmark_patch_comparisons : ℕ
  pub benchmark_near_patches : ℕ

-- `0.0 < near_duplicate_threshold <= 1.0` and `0.0 < evaluation_fraction < 1.0`
abbrev pub is_threshold : Fraction → Bool
is_threshold t = ltb_fraction zero_fraction t && leb_fraction t one_fraction

abbrev pub is_proper : Fraction → Bool
is_proper f = ltb_fraction zero_fraction f && ltb_fraction f one_fraction

-- The tests before the database is opened.
unfoldable pub validate : IndexInput → Result IndexError (Unit {0})
unfolding is_digest
validate i = do
  raise_if (not (is_threshold i.near_duplicate_threshold)) threshold_out_of_range
  raise_if (not (is_proper i.evaluation_fraction)) fraction_out_of_range
  raise_if (not (is_digest i.task_metadata_sha256)) (invalid_digest i.task_metadata_sha256)
  raise_if (not (is_digest i.benchmark_sha256)) (invalid_digest i.benchmark_sha256)

-- The samples, and then the benchmarks.
unfoldable pub ingest : (Text → List ℕ) → IndexInput → Result IndexError Database
unfolding insert_sample insert_benchmark for_each is_empty
ingest sha256 i = do
  sampled ← for_each (insert_sample sha256 i.aliases) initialize_database i.samples
  raise_if (is_empty sampled.samples) no_samples
  full ← for_each (insert_benchmark sha256) sampled i.benchmarks
  raise_if (is_empty i.benchmarks) no_benchmarks
  ok full

-- The groups, and the samples that overlap a benchmark.
unfoldable pub link : Fraction → Database → Result IndexError (LoopCounts × Database)
unfolding union_exact_groups union_near_groups mark_exact_benchmark_overlap
    mark_near_benchmark_overlap
link threshold db = do
  (exact_tasks, db) ← union_exact_groups task db
  (exact_patches, db) ← union_exact_groups patch db
  (task_comparisons, near_tasks, db) ← union_near_groups task threshold db
  (patch_comparisons, near_patches, db) ← union_near_groups patch threshold db
  let (benchmark_tasks, db) = mark_exact_benchmark_overlap task db
  let (benchmark_patches, db) = mark_exact_benchmark_overlap patch db
  (benchmark_task_comparisons, benchmark_near_tasks, db) ←
      mark_near_benchmark_overlap task threshold db
  (benchmark_patch_comparisons, benchmark_near_patches, db) ←
      mark_near_benchmark_overlap patch threshold db
  ok (
    record {
      exact_task_groups = exact_tasks;
      exact_patch_groups = exact_patches;
      task_comparisons = task_comparisons;
      near_task_pairs = near_tasks;
      patch_comparisons = patch_comparisons;
      near_patch_pairs = near_patches;
      benchmark_exact_tasks = benchmark_tasks;
      benchmark_exact_patches = benchmark_patches;
      benchmark_task_comparisons = benchmark_task_comparisons;
      benchmark_near_tasks = benchmark_near_tasks;
      benchmark_patch_comparisons = benchmark_patch_comparisons;
      benchmark_near_patches = benchmark_near_patches;
    },
    db,
  )

unfoldable pub build_database :
    (Text → List ℕ) → IndexInput → Result IndexError (LoopCounts × Database)
unfolding validate ingest link compress_repository_groups assign_splits
build_database sha256 i = do
  validate i
  full ← ingest sha256 i
  (counts, linked) ← link i.near_duplicate_threshold full
  compressed ← compress_repository_groups linked
  ok (counts, assign_splits sha256 i.seed i.evaluation_fraction compressed)

-- One row of `iter_assignments`: the group, the repository, the sample and the split.
pub record Assignment : Type 0 where
  pub contamination_group : Text
  pub repository : Text
  pub sample_id : Text
  pub split : Option SplitName

-- The join finds a sample's one row, since `repository` is the primary key.
unfoldable pub join_rows : List RepositoryRow → List SampleRow → List Assignment
unfolding row_of
join_rows rows [] = []
join_rows rows (s ∷ samples) =
    let rest = join_rows rows samples in
    elim (row_of s.repository rows) [
      | none ↦ rest
      | some r ↦
          (record {
            contamination_group = r.parent;
            repository = s.repository;
            sample_id = s.sample_id;
            split = r.split;
          })
          ∷ rest
    ]

unfoldable pub iter_assignments : Database → List Assignment
unfolding join_rows order_by
iter_assignments db = order_by (λ a. a.sample_id) (join_rows db.repositories db.samples)

abbrev pub same_split : SplitName → Option SplitName → Bool
same_split split none = false
same_split train (some train) = true
same_split evaluation (some evaluation) = true
same_split excluded (some excluded) = true
same_split _ (some _) = false

unfoldable pub iter_repositories : Database → SplitName → List Text
unfolding order_by
iter_repositories db split =
    map (λ r. r.repository)
      (order_by (λ r. r.repository) (select (λ r. same_split split r.split) db.repositories))
