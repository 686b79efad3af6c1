-- ===== src/Contamination/Splits.antt =====
-- `_repository_bucket`, `_compress_repository_groups` and `_assign_splits` of
-- decontamination/contamination.py.
pub mod Compress
pub mod Assigned
pub mod Overlap
pub mod Grouped
use nodelm.Base.{
  ℕ, ◌-◌, ◌^◌, Bool, true, false, not, List, [], ◌∷◌, ◌++◌, map, Text, text, ◌==◌, if◌then◌else◌,
  select, for_each, Result, ok, err, ◌>>=◌, Option, none, some,
}
use nodelm.Base.Fractions.{Fraction, ltb_fraction}
use nodelm.Base.Digests.{from_bytes, first_bytes, decimal}
use nodelm.Contamination.Tables.{
  SplitName, train, evaluation, excluded, RepositoryRow, SampleRow, Database, IndexError,
}
use nodelm.Contamination.Ordering.{order_by, distinct}
use nodelm.Contamination.Forest.{
  map_option, row_of, parent_of, update, set_parent, find_root, contains,
}

module _ (sha256 : Text → List ℕ) where
  unfoldable pub repository_bucket : Text → ℕ → Fraction
  unfolding from_bytes first_bytes decimal
  repository_bucket group seed = record {
    numerator = from_bytes 0 (first_bytes 8 (sha256 (decimal seed ++ 58 ∷ group)));
    denominator = 2 ^ 64 - 1;
  }

  -- The split of a group that no benchmark excludes.
  unfoldable pub bucket_split : ℕ → Fraction → Text → SplitName
  unfolding repository_bucket
  bucket_split seed evaluation_fraction root =
      if ltb_fraction (repository_bucket root seed) evaluation_fraction then evaluation else train

-- SELECT repository FROM repositories ORDER BY repository
unfoldable pub repository_names : List RepositoryRow → List Text
unfolding order_by
repository_names rows = map (λ r. r.repository) (order_by (λ r. r.repository) rows)

unfoldable pub compress_repository :
    List RepositoryRow → Text → Result IndexError (List RepositoryRow)
unfolding find_root set_parent
compress_repository rows repository =
    find_root rows repository >>= λ (root, rows'). ok (set_parent repository root rows')

unfoldable pub compress_repository_groups : Database → Result IndexError Database
unfolding repository_names compress_repository for_each
compress_repository_groups db =
    for_each compress_repository db.repositories (repository_names db.repositories) >>= λ rows.
    ok (record db { repositories = rows })

-- A joined row counts if its sample overlaps a benchmark.
unfoldable pub overlap_root : Bool → Option Text → List Text → List Text
overlap_root true (some p) rest = p ∷ rest
overlap_root _ _ rest = rest

-- The parents of the repositories of the samples that overlap a benchmark.
unfoldable pub overlap_roots : List RepositoryRow → List SampleRow → List Text
unfolding overlap_root
overlap_roots rows [] = []
overlap_roots rows (s ∷ samples) =
    overlap_root s.benchmark_overlap (parent_of s.repository rows) (overlap_roots rows samples)

-- INSERT OR IGNORE
unfoldable pub insert_roots : List Text → List Text → List Text
unfolding contains
insert_roots [] roots = roots
insert_roots (p ∷ ps) roots = insert_roots ps (if contains p roots then roots else roots ++ p ∷ [])

-- UPDATE repositories SET split = ? WHERE parent …
unfoldable pub set_split : (Text → Bool) → SplitName → List RepositoryRow → List RepositoryRow
unfolding update
set_split test split = update (λ r. test r.parent) (λ r. record r { split = some split })

unfoldable pub set_bucket_splits :
    (Text → SplitName) → List Text → List RepositoryRow → List RepositoryRow
unfolding set_split ◌==◌
set_bucket_splits split_for [] rows = rows
set_bucket_splits split_for (root ∷ roots) rows =
    set_bucket_splits split_for roots (set_split (λ p. p == root) (split_for root) rows)

-- SELECT DISTINCT parent … WHERE parent NOT IN (SELECT root FROM excluded_roots) ORDER BY parent
unfoldable pub open_roots : List Text → List RepositoryRow → List Text
unfolding contains distinct
open_roots excluded_roots rows =
    distinct (map (λ r. r.parent) (select (λ r. not (contains r.parent excluded_roots)) rows))

unfoldable pub assign_splits : (Text → List ℕ) → ℕ → Fraction → Database → Database
unfolding overlap_roots parent_of insert_roots distinct set_split open_roots set_bucket_splits
    bucket_split
assign_splits sha256 seed evaluation_fraction db =
    let roots =
      insert_roots (distinct (overlap_roots db.repositories db.samples)) db.excluded_roots in
    let rows = set_split (λ p. contains p roots) excluded db.repositories in
    record db {
      excluded_roots = roots;
      repositories =
          set_bucket_splits (bucket_split sha256 seed evaluation_fraction) (open_roots roots rows)
            rows;
    }
