-- ===== src/Contamination/Tables.antt =====
-- The rows and tables of `_initialize_database`, and the values that the index is built from.
use nodelm.Base.{ℕ, Bool, true, false, Option, List, [], Text}

pub data ContentKind : Type 0 where
  task patch : ContentKind

unfoldable pub same_kind : ContentKind → ContentKind → Bool
same_kind task task = true
same_kind patch patch = true
same_kind _ _ = false

pub data SplitName : Type 0 where
  train evaluation excluded : SplitName

pub record ContaminationSample : Type 0 where
  pub sample_id : Text
  pub repository : Text
  pub task_text : Text
  pub patch_texts : List Text

pub record BenchmarkEntry : Type 0 where
  pub benchmark_id : Text
  pub task_text : Text
  pub patch_text : Text

-- `split` is none for the empty string that a row is inserted with.
pub record RepositoryRow : Type 0 where
  pub repository : Text
  pub parent : Text
  pub split : Option SplitName

pub record SampleRow : Type 0 where
  pub sample_id : Text
  pub repository : Text
  pub benchmark_overlap : Bool

pub record ContentRow : Type 0 where
  pub kind : ContentKind
  pub fingerprint : Text
  pub text : Text
  pub length : ℕ

pub record ValueRepositoryRow : Type 0 where
  pub kind : ContentKind
  pub fingerprint : Text
  pub repository : Text

pub record ValueSampleRow : Type 0 where
  pub kind : ContentKind
  pub fingerprint : Text
  pub sample_id : Text

-- A table is its rows. Where the program reads rows in an order, the query sorts them.
pub record Database : Type 0 where
  pub repositories : List RepositoryRow
  pub samples : List SampleRow
  pub content_values : List ContentRow
  pub value_repositories : List ValueRepositoryRow
  pub value_samples : List ValueSampleRow
  pub benchmark_ids : List Text
  pub benchmark_values : List ContentRow
  pub excluded_roots : List Text

abbrev pub initialize_database : Database
initialize_database = record {
  repositories = [];
  samples = [];
  content_values = [];
  value_repositories = [];
  value_samples = [];
  benchmark_ids = [];
  benchmark_values = [];
  excluded_roots = [];
}

-- One constructor for each `raise` of the module.
pub data IndexError : Type 0 where
  threshold_out_of_range fraction_out_of_range : IndexError
  invalid_digest : Text → IndexError
  invalid_repository : Text → IndexError
  empty_sample_id no_samples empty_benchmark_id no_benchmarks : IndexError
  duplicate_sample_id no_patch_text : Text → IndexError
  duplicate_benchmark_id : Text → IndexError
  empty_text fingerprint_collision : ContentKind → IndexError
  empty_benchmark_text benchmark_collision : ContentKind → IndexError
  unknown_repository : Text → IndexError
  -- The OverflowError of a value that no INTEGER of SQLite holds.
  integer_overflow : IndexError
  -- The loop of `_find_root` would not end.
  no_root : Text → IndexError
