-- ===== src/Contamination/Content.antt =====
-- `_insert_content_value` and `_insert_benchmark_value` of decontamination/contamination.py. A table
-- keeps its rows in the order of insertion.
pub mod Inserted
pub mod Found
use nodelm.Base.{
  ℕ, Bool, true, false, not, ◌&&◌, ◌||◌, Option, none, some, List, [], ◌∷◌, ◌++◌, Text, ◌==◌,
  if◌then◌else◌, length, Result, ok, err, ◌>>=◌, ◌>>◌, raise_if,
}
use nodelm.Base.Methods.{is_empty}
use nodelm.Fingerprint.Normalize.{normalize_fingerprint_text, exact_fingerprint}
use nodelm.Contamination.Tables.{
  ContentKind, same_kind, ContentRow, ValueRepositoryRow, ValueSampleRow, Database, IndexError,
  empty_text, fingerprint_collision, empty_benchmark_text, benchmark_collision,
}

-- SELECT text … WHERE kind = ? AND fingerprint = ?
unfoldable pub text_of : ContentKind → Text → List ContentRow → Option Text
unfolding same_kind ◌==◌
text_of kind fingerprint [] = none
text_of kind fingerprint (r ∷ rows) =
    let rest = text_of kind fingerprint rows in
    if same_kind r.kind kind && r.fingerprint == fingerprint then some r.text else rest

-- INSERT OR IGNORE: the row, unless its key is there.
unfoldable pub insert_content : ContentRow → List ContentRow → List ContentRow
unfolding text_of
insert_content row rows = elim (text_of row.kind row.fingerprint rows) [
  | none ↦ rows ++ row ∷ []
  | some _ ↦ rows
]

abbrev pub same_value_repository : ValueRepositoryRow → ValueRepositoryRow → Bool
same_value_repository a b =
    same_kind a.kind b.kind && a.fingerprint == b.fingerprint && a.repository == b.repository

abbrev pub same_value_sample : ValueSampleRow → ValueSampleRow → Bool
same_value_sample a b =
    same_kind a.kind b.kind && a.fingerprint == b.fingerprint && a.sample_id == b.sample_id

unfoldable pub insert_unless : {A : Type 0} → (A → A → Bool) → A → List A → List A
insert_unless same row [] = row ∷ []
insert_unless same row (r ∷ rows) =
    let rest = r ∷ insert_unless same row rows in if same r row then r ∷ rows else rest

-- `stored is None or str(stored[0]) != normalized`
unfoldable pub is_collision : Option Text → Text → Bool
unfolding ◌==◌
is_collision none normalized = true
is_collision (some stored) normalized = not (stored == normalized)

module _ (sha256 : Text → List ℕ) where
  abbrev pub content_row : ContentKind → Text → ContentRow
  content_row kind normalized = record {
    kind = kind;
    fingerprint = exact_fingerprint sha256 normalized;
    text = normalized;
    length = length normalized;
  }

  unfoldable pub insert_content_value :
      Database
      → (kind : ContentKind) (value sample_id repository : Text) → Result IndexError Database
  unfolding normalize_fingerprint_text exact_fingerprint insert_content insert_unless is_collision
      is_empty
  insert_content_value db kind value sample_id repository = do
    let normalized = normalize_fingerprint_text value
    raise_if (is_empty normalized) (empty_text kind)
    let row = content_row kind normalized
    let contents = insert_content row db.content_values
    raise_if (is_collision (text_of kind row.fingerprint contents) normalized)
        (fingerprint_collision kind)
    ok (record db {
      content_values = contents;
      value_repositories =
          insert_unless same_value_repository
            (record { kind = kind; fingerprint = row.fingerprint; repository = repository })
            db.value_repositories;
      value_samples =
          insert_unless same_value_sample
            (record { kind = kind; fingerprint = row.fingerprint; sample_id = sample_id })
            db.value_samples;
    })

  unfoldable pub insert_benchmark_value : Database → ContentKind → Text → Result IndexError Database
  unfolding normalize_fingerprint_text exact_fingerprint insert_content is_collision is_empty
  insert_benchmark_value db kind value = do
    let normalized = normalize_fingerprint_text value
    raise_if (is_empty normalized) (empty_benchmark_text kind)
    let row = content_row kind normalized
    let benchmarks = insert_content row db.benchmark_values
    raise_if (is_collision (text_of kind row.fingerprint benchmarks) normalized)
        (benchmark_collision kind)
    ok (record db { benchmark_values = benchmarks })
