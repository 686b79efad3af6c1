-- ===== src/Split/Memory.antt =====
-- `build_repository_split` of decontamination/split.py. The digest of the configuration is not modelled.
pub mod Assigned
use nodelm.Base.{
  ℕ, suc, Bool, true, false, not, ◌&&◌, List, [], ◌∷◌, ◌++◌, map, Text, leb, if◌then◌else◌, length,
  select, for_each, Result, ok, err, ◌>>=◌, ◌>>◌, raise_if, Option, none, some,
}
use nodelm.Base.Fractions.{Fraction, ltb_fraction, zero_fraction, one_fraction}
use nodelm.Contamination.Ordering.{order_by, distinct}
use nodelm.Contamination.Forest.{contains}
use nodelm.Contamination.Tables.{SplitName, train, evaluation}
use nodelm.Contamination.Splits.{bucket_split}
use nodelm.Contamination.Index.{is_proper, same_split}
use nodelm.Split.Errors.{
  SplitError, fraction_out_of_range, max_samples_not_positive, sample_limit_exceeded,
  duplicate_sample_id, missing_repository,
}
use nodelm.Split.Maps.{get}
use nodelm.Split.Aliases.{Entries, canonical, get_or_self, resolved_aliases}

pub record SplitAssignment : Type 0 where
  pub sample_id : Text
  pub repository : Text
  pub split : SplitName

-- The lists of the manifest's `repositories`; there is none for `excluded`.
pub record RepositorySplitManifest : Type 0 where
  pub seed : ℕ
  pub evaluation_fraction : Fraction
  pub assignments : List SplitAssignment
  pub train_repositories : List Text
  pub evaluation_repositories : List Text

-- The samples read so far, with their repositories. Their identifiers are those seen.
unfoldable pub read_sample :
    Entries → ℕ → List (Text × Text) → Text × Text → Result SplitError (List (Text × Text))
unfolding canonical get_or_self contains
read_sample aliases max_samples read (sample_id, raw_repository) = do
  raise_if (leb max_samples (length read)) sample_limit_exceeded
  raise_if (contains sample_id (map (λ s. s.0) read)) (duplicate_sample_id sample_id)
  repository ← canonical raw_repository
  ok (read ++ (sample_id, get_or_self aliases repository) ∷ [])

-- `repository_splits[repository]`
unfoldable pub assign_all :
    List (Text × SplitName) → List (Text × Text) → Result SplitError (List SplitAssignment)
unfolding get
assign_all splits [] = ok []
assign_all splits ((sample_id, repository) ∷ samples) = elim (get repository splits) [
  | none ↦ err missing_repository
  | some split ↦ assign_all splits samples >>= λ rest.
      ok ((record { sample_id = sample_id; repository = repository; split = split }) ∷ rest)
]

unfoldable pub repositories_in : SplitName → List (Text × SplitName) → List Text
unfolding order_by
repositories_in split splits =
    map (λ e. e.0) (select (λ e. same_split split (some e.1)) (order_by (λ e. e.0) splits))

module _ (sha256 : Text → List ℕ) (seed : ℕ) (evaluation_fraction : Fraction) where
  unfoldable pub repository_splits : List (Text × Text) → List (Text × SplitName)
  unfolding bucket_split distinct
  repository_splits samples =
      map (λ r. (r, bucket_split sha256 seed evaluation_fraction r))
        (distinct (map (λ s. s.1) samples))

  unfoldable pub build_repository_split :
      Entries → ℕ → List (Text × Text) → Result SplitError RepositorySplitManifest
  unfolding resolved_aliases read_sample for_each assign_all repositories_in repository_splits
      order_by
  build_repository_split aliases max_samples samples = do
    raise_if (not (is_proper evaluation_fraction)) fraction_out_of_range
    raise_if (leb max_samples 0) max_samples_not_positive
    normalized_aliases ← resolved_aliases aliases
    normalized ← for_each (read_sample normalized_aliases max_samples) [] samples
    let splits = repository_splits normalized
    assignments ← assign_all splits normalized
    ok (record {
      seed = seed;
      evaluation_fraction = evaluation_fraction;
      assignments = order_by (λ a. a.sample_id) assignments;
      train_repositories = repositories_in train splits;
      evaluation_repositories = repositories_in evaluation splits;
    })
