-- ===== src/Contamination/Ingest/Complete.antt =====
-- The samples and benchmarks of the input, looked up in the tables.
use nodelm.Base.{
  ℕ, ◌≡◌, refl, sym, subst, List, [], ◌∷◌, ◌++◌, Text, In, In-append_left, In-append_right, Result,
  ok, ◌>>=◌, >>=-eq-ok, passed, ok-injective, some, inl, inr, for_each,
}
use nodelm.Base.Methods.{is_empty}
use nodelm.Fingerprint.Normalize.{normalize_fingerprint_text, exact_fingerprint}
use nodelm.Contamination.Tables.{
  ContentKind, task, patch, ContaminationSample, BenchmarkEntry, SampleRow, Database, IndexError,
  empty_benchmark_text, benchmark_collision, empty_benchmark_id, duplicate_benchmark_id,
}
use nodelm.Contamination.Forest.{contains}
use nodelm.Contamination.Content.{text_of, insert_content, is_collision, insert_benchmark_value}
use nodelm.Contamination.Content.Inserted.{row_for, with_benchmark, fingerprint_of}
use nodelm.Contamination.Content.Found.{text_of-insert_content, stored_of_collision}
use nodelm.Contamination.Ingest.Recorded.{
  Recorded, Grown, Grown-refl, Grown-trans, Recorded-Grown, Listed, Listed-Grown,
  insert_value-Recorded, insert_patches-Listed,
}
use nodelm.Contamination.Ingest.{insert_sample, insert_benchmark}
use nodelm.Contamination.Ingest.Kept.{sample_row, with_sample, insert_sample-ok}

module _ (sha256 : Text → List ℕ) where
  -- What the tables say of a sample that was read.
  pub record SampleRead (sample : ContaminationSample) (db : Database) : Type 0 where
    pub row : SampleRow
    pub listed : In row db.samples
    pub named : row.sample_id ≡ sample.sample_id
    pub task_recorded : Recorded sha256 task sample.task_text sample.sample_id db
    pub patch_listed :
        (value : Text)
        → In value sample.patch_texts
        → Listed sha256 patch (exact_fingerprint sha256 value) sample.sample_id db

  pub SampleRead-Grown :
      (sample : ContaminationSample) (db db' : Database)
      → Grown sha256 db db'
      → SampleRead sample db
      → SampleRead sample db'
  SampleRead-Grown sample db db' g r = record {
    row = r.row;
    listed = g.samples r.row r.listed;
    named = r.named;
    task_recorded =
        Recorded-Grown sha256 task sample.task_text sample.sample_id db db' g r.task_recorded;
    patch_listed = λ value i.
        Listed-Grown sha256 patch (exact_fingerprint sha256 value) sample.sample_id db db' g
          (r.patch_listed value i);
  }

  pub insert_sample-Read :
      (aliases : List (Text × Text)) (db : Database) (sample : ContaminationSample) (db' : Database)
      → insert_sample sha256 aliases db sample ≡ ok db'
      → Grown sha256 db db' × SampleRead sample db'
  insert_sample-Read aliases db sample db' h =
      let r = insert_sample-ok sha256 aliases db db' sample h in
      let id = sample.sample_id in
      let row = sample_row id r.repository in
      let added = with_sample id r.repository db in
      let start : Grown sha256 db added = record {
        value_samples = λ v i. i;
        samples = λ s i. In-append_left s db.samples (row ∷ []) i;
        contents = λ k f t e. e;
        benchmarks = λ k f t e. e;
      } in
      let (g, recorded) =
        insert_value-Recorded sha256 added task sample.task_text id r.repository r.with_task
          r.task_read in
      let (g', patches) =
        insert_patches-Listed sha256 id r.repository sample.patch_texts [] r.with_task db'
          r.patches_read (λ f i. absurd i) in
      let all = Grown-trans sha256 added r.with_task db' g g' in
      (
        Grown-trans sha256 db added db' start all,
        record {
          row = row;
          listed = all.samples row (In-append_right row db.samples (row ∷ []) (inl refl));
          named = refl;
          task_recorded =
              Recorded-Grown sha256 task sample.task_text id r.with_task db' g' recorded;
          patch_listed = patches;
        },
      )

  -- The text of a benchmark is found under its fingerprint.
  abbrev pub BenchmarkText : ContentKind → Text → Database → Type 0
  BenchmarkText kind value db =
      text_of kind (fingerprint_of sha256 value) db.benchmark_values
      ≡ some (normalize_fingerprint_text value)

  insert_benchmark_value-Text :
      (db : Database) (kind : ContentKind) (value : Text) (db' : Database)
      → insert_benchmark_value sha256 db kind value ≡ ok db'
      → Grown sha256 db db' × BenchmarkText kind value db'
  unfolding insert_benchmark_value
  insert_benchmark_value-Text db kind value db' h =
      let normalized = normalize_fingerprint_text value in
      let rows = insert_content (row_for sha256 db kind value) db.benchmark_values in
      let after = with_benchmark sha256 db kind value in
      let (_, h') = passed (is_empty normalized) (empty_benchmark_text kind) _ h in
      let (stored, h'') =
        passed (is_collision (text_of kind (fingerprint_of sha256 value) rows) normalized)
          (benchmark_collision kind) (ok after) h' in
      let same : after ≡ db' = ok-injective h'' in
      let grown : Grown sha256 db after = record {
        value_samples = λ v i. i;
        samples = λ s i. i;
        contents = λ k f t e. e;
        benchmarks = λ k f t e.
            text_of-insert_content k f db.benchmark_values (row_for sha256 db kind value) t e;
      } in
      (
        subst (Grown sha256 db) same grown,
        subst (BenchmarkText kind value) same (stored_of_collision _ normalized stored),
      )

  pub record BenchmarkRead (entry : BenchmarkEntry) (db : Database) : Type 0 where
    pub task_stored : BenchmarkText task entry.task_text db
    pub patch_stored : BenchmarkText patch entry.patch_text db

  pub BenchmarkRead-Grown :
      (entry : BenchmarkEntry) (db db' : Database)
      → Grown sha256 db db'
      → BenchmarkRead entry db
      → BenchmarkRead entry db'
  BenchmarkRead-Grown entry db db' g r = record {
    task_stored = g.benchmarks task _ _ r.task_stored;
    patch_stored = g.benchmarks patch _ _ r.patch_stored;
  }

  pub insert_benchmark-Read :
      (db : Database) (entry : BenchmarkEntry) (db' : Database)
      → insert_benchmark sha256 db entry ≡ ok db'
      → Grown sha256 db db' × BenchmarkRead entry db'
  unfolding insert_benchmark
  insert_benchmark-Read db entry db' h =
      let (_, h) = passed (is_empty entry.benchmark_id) empty_benchmark_id _ h in
      let added = record db { benchmark_ids = db.benchmark_ids ++ entry.benchmark_id ∷ [] } in
      let tasks = insert_benchmark_value sha256 added task entry.task_text in
      let patches = λ (d : Database). insert_benchmark_value sha256 d patch entry.patch_text in
      let (_, h) =
        passed (contains entry.benchmark_id db.benchmark_ids)
          (duplicate_benchmark_id entry.benchmark_id) (tasks >>= patches) h in
      let (with_task, read, h) = >>=-eq-ok tasks patches h in
      let (g, t) = insert_benchmark_value-Text added task entry.task_text with_task read in
      let (g', p) = insert_benchmark_value-Text with_task patch entry.patch_text db' h in
      let start : Grown sha256 db added = record {
        value_samples = λ v i. i;
        samples = λ s i. i;
        contents = λ k f t e. e;
        benchmarks = λ k f t e. e;
      } in
      (
        Grown-trans sha256 db added db' start (Grown-trans sha256 added with_task db' g g'),
        record { task_stored = g'.benchmarks task _ _ t; patch_stored = p },
      )

-- A loop whose steps each read an item and lose nothing has read every item.
module _ {A : Type 0} (sha256 : Text → List ℕ) (step : Database → A → Result IndexError Database)
    (Done : A → Database → Type 0)
    (grow : (x : A) (db db' : Database) → Grown sha256 db db' → Done x db → Done x db')
    (read : (db : Database) (x : A) (db' : Database)
      → step db x ≡ ok db'
      → Grown sha256 db db' × Done x db') where
  pub for_each-Read :
      (xs : List A) (db db' : Database)
      → for_each step db xs ≡ ok db'
      → Grown sha256 db db' × ((x : A) → In x xs → Done x db')
  unfolding for_each
  for_each-Read [] db db' h =
      (subst (Grown sha256 db) (ok-injective h) (Grown-refl sha256 db), λ x i. absurd i)
  for_each-Read (x ∷ xs) db db' h =
      let (m, e, rest) = >>=-eq-ok (step db x) (λ s. for_each step s xs) h in
      let (g, d) = read db x m e in
      let (g', all) = for_each-Read xs m db' rest in
      (
        Grown-trans sha256 db m db' g g',
        λ y i. elim i [
          | inl same ↦ subst (λ z. Done z db') (sym same) (grow x m db' g' d)
          | inr i' ↦ all y i'
        ],
      )
