-- ===== src/Contamination/Ingest/Kept.antt =====
-- The invariant of the tables over whole samples and benchmarks.
use nodelm.Base.{
  ℕ, ◌≡◌, refl, sym, ap, ◌∙◌, subst, true, false, List, [], ◌∷◌, ◌++◌, Text, In-append_right,
  In-append_cases, ok, ◌>>=◌, ◌>>◌, >>=-eq-ok, raise_if, passed, inl, inr,
}
use nodelm.Base.Methods.{is_empty}
use nodelm.Contamination.Tables.{
  ContentKind, task, patch, ContaminationSample, BenchmarkEntry, SampleRow, ValueSampleRow,
  Database, empty_sample_id, duplicate_sample_id, no_patch_text, empty_benchmark_id,
  duplicate_benchmark_id,
}
use nodelm.Contamination.Forest.{contains}
use nodelm.Contamination.Linking.Near.{IsStored}
use nodelm.Contamination.Content.{insert_content_value, insert_benchmark_value}
use nodelm.Contamination.Content.Inserted.{
  In_of_insert_content, row_for, row_for-IsStored, insert_content_value-ok,
  insert_benchmark_value-ok,
}
use nodelm.Contamination.Ingest.{
  insert_repository, has_sample, sample_repository, insert_patches, insert_sample, insert_benchmark,
}
use nodelm.Contamination.Ingest.Rows.{
  insert_repository-keeps, insert_repository-known, insert_repository-IsFlat,
  insert_repository-IsLeast, has_sample_of_In, has_sample-append,
}
use nodelm.Contamination.Ingest.Invariant.{
  IsIngested, HasRow, Ready, with_value-Ready, insert_patches-Ready,
}

abbrev pub sample_row : Text → Text → SampleRow
sample_row id repository = record {
  sample_id = id;
  repository = repository;
  benchmark_overlap = false;
}

abbrev pub with_sample : Text → Text → Database → Database
with_sample id repository db = record db {
  repositories = insert_repository repository db.repositories;
  samples = db.samples ++ sample_row id repository ∷ [];
}

with_sample-Ready :
    (id repository : Text) (db : Database)
    → has_sample id db.samples ≡ false
    → IsIngested db
    → Ready id repository (with_sample id repository db)
with_sample-Ready id repository db fresh i = record {
  ingested = record {
    linkable = record {
      flat = insert_repository-IsFlat repository db.repositories i.linkable.flat;
      least = insert_repository-IsLeast repository db.repositories i.linkable.least;
      values_known = λ v k.
          let (p, e) = i.linkable.values_known v k in
          (p, insert_repository-keeps repository db.repositories v.repository p e);
    };
    held = λ v s k l e. elim (In-append_cases s db.samples (sample_row id repository ∷ []) l) [
      | inl l' ↦ i.held v s k l' e
      | inr (inl e') ↦ absurd (
          clash v
            (ap (λ x. has_sample x db.samples) (sym e ∙ ap (λ (x : SampleRow). x.sample_id) e'))
            (i.owned v k))
      | inr (inr b) ↦ absurd b
    ];
    owned = λ v k. has_sample-append v.sample_id db.samples _ (i.owned v k);
    known = λ s l. elim (In-append_cases s db.samples (sample_row id repository ∷ []) l) [
      | inl l' ↦
          let (p, e) = i.known s l' in
          (p, insert_repository-keeps repository db.repositories s.repository p e)
      | inr (inl e') ↦
          subst (HasRow (insert_repository repository db.repositories))
            (ap (λ (x : SampleRow). x.repository) (sym e'))
            (insert_repository-known repository db.repositories)
      | inr (inr b) ↦ absurd b
    ];
    stored = i.stored;
    benchmark_stored = i.benchmark_stored;
    no_roots = i.no_roots;
  };
  current = λ s l e. elim (In-append_cases s db.samples (sample_row id repository ∷ []) l) [
    | inl l' ↦ absurd (differ (has_sample_of_In id db.samples s l' e))
    | inr (inl e') ↦ ap (λ (x : SampleRow). x.repository) e'
    | inr (inr b) ↦ absurd b
  ];
  sampled =
      has_sample_of_In id (db.samples ++ sample_row id repository ∷ []) (sample_row id repository)
        (In-append_right (sample_row id repository) db.samples (sample_row id repository ∷ [])
          (inl refl))
        refl;
  rowed = insert_repository-known repository db.repositories;
}
  where
    differ : has_sample id db.samples ≡ true → ⊥
    differ t = cc

    clash :
        (v : ValueSampleRow)
        → has_sample v.sample_id db.samples ≡ has_sample id db.samples
        → has_sample v.sample_id db.samples ≡ true
        → ⊥
    clash v same t = cc

-- What a sample that is read went through.
pub record Read (sha256 : Text → List ℕ) (aliases : List (Text × Text)) (db db' : Database)
    (sample : ContaminationSample) : Type 0 where
  pub repository : Text
  pub named : sample_repository aliases sample ≡ ok repository
  pub fresh : has_sample sample.sample_id db.samples ≡ false
  pub with_task : Database
  pub task_read :
      insert_content_value sha256
        (with_sample sample.sample_id repository db)
        task
        sample.task_text
        sample.sample_id
        repository
      ≡ ok with_task
  pub patches_read :
      insert_patches sha256 sample.sample_id repository [] with_task sample.patch_texts ≡ ok db'

module _ (sha256 : Text → List ℕ) where
  pub insert_sample-ok :
      (aliases : List (Text × Text)) (db db' : Database) (sample : ContaminationSample)
      → insert_sample sha256 aliases db sample ≡ ok db'
      → Read sha256 aliases db db' sample
  unfolding insert_sample
  insert_sample-ok aliases db db' sample h =
      let id = sample.sample_id in
      let (_, h) = passed (is_empty id) empty_sample_id _ h in
      let task_of = λ (repository : Text).
        insert_content_value sha256 (with_sample id repository db) task sample.task_text id
          repository in
      let patches_of = λ (repository : Text) (with_task : Database).
        raise_if (is_empty sample.patch_texts) (no_patch_text id)
        >> insert_patches sha256 id repository [] with_task sample.patch_texts in
      let (repository, named, h) =
        >>=-eq-ok (sample_repository aliases sample)
          (λ repository.
            raise_if (has_sample id db.samples) (duplicate_sample_id id)
            >> (task_of repository >>= patches_of repository))
          h in
      let (fresh, h) =
        passed (has_sample id db.samples) (duplicate_sample_id id)
          (task_of repository >>= patches_of repository) h in
      let (with_task, read, h) = >>=-eq-ok (task_of repository) (patches_of repository) h in
      let (_, h) =
        passed (is_empty sample.patch_texts) (no_patch_text id)
          (insert_patches sha256 id repository [] with_task sample.patch_texts) h in
      record {
        repository = repository;
        named = named;
        fresh = fresh;
        with_task = with_task;
        task_read = read;
        patches_read = h;
      }

  pub insert_sample-IsIngested :
      (aliases : List (Text × Text)) (db : Database) (sample : ContaminationSample) (db' : Database)
      → insert_sample sha256 aliases db sample ≡ ok db'
      → IsIngested db
      → IsIngested db'
  insert_sample-IsIngested aliases db sample db' h i =
      let r = insert_sample-ok aliases db db' sample h in
      let id = sample.sample_id in
      let added = with_sample id r.repository db in
      let ready =
        with_value-Ready sha256 added task sample.task_text id r.repository
          (with_sample-Ready id r.repository db r.fresh i) in
      (insert_patches-Ready sha256 id r.repository sample.patch_texts [] r.with_task db'
        r.patches_read
        (subst (Ready id r.repository)
          (sym (
            insert_content_value-ok sha256 added task sample.task_text id r.repository r.with_task
              r.task_read))
          ready)).ingested

  with_benchmark-IsIngested :
      (db : Database) (kind : ContentKind) (value : Text) (db' : Database)
      → insert_benchmark_value sha256 db kind value ≡ ok db'
      → IsIngested db
      → IsIngested db'
  with_benchmark-IsIngested db kind value db' h i =
      subst IsIngested (sym (insert_benchmark_value-ok sha256 db kind value db' h)) (record {
        linkable = record {
          flat = i.linkable.flat;
          least = i.linkable.least;
          values_known = i.linkable.values_known;
        };
        held = i.held;
        owned = i.owned;
        known = i.known;
        stored = i.stored;
        benchmark_stored = λ c k.
            elim (In_of_insert_content (row_for sha256 db kind value) c db.benchmark_values k) [
              | inl e ↦ subst IsStored (sym e) (row_for-IsStored sha256 db kind value)
              | inr k' ↦ i.benchmark_stored c k'
            ];
        no_roots = i.no_roots;
      })

  pub insert_benchmark-IsIngested :
      (db : Database) (entry : BenchmarkEntry) (db' : Database)
      → insert_benchmark sha256 db entry ≡ ok db'
      → IsIngested db
      → IsIngested db'
  unfolding insert_benchmark
  insert_benchmark-IsIngested db entry db' h i =
      let (_, h) = passed (is_empty entry.benchmark_id) empty_benchmark_id _ h in
      let added = record db { benchmark_ids = db.benchmark_ids ++ entry.benchmark_id ∷ [] } in
      let tasks = insert_benchmark_value sha256 added task entry.task_text in
      let patches = λ (d : Database). insert_benchmark_value sha256 d patch entry.patch_text in
      let (_, h) =
        passed (contains entry.benchmark_id db.benchmark_ids)
          (duplicate_benchmark_id entry.benchmark_id) (tasks >>= patches) h in
      let (with_task, read, h) = >>=-eq-ok tasks patches h in
      with_benchmark-IsIngested with_task patch entry.patch_text db' h (
        with_benchmark-IsIngested added task entry.task_text with_task read (record {
          linkable = record {
            flat = i.linkable.flat;
            least = i.linkable.least;
            values_known = i.linkable.values_known;
          };
          held = i.held;
          owned = i.owned;
          known = i.known;
          stored = i.stored;
          benchmark_stored = i.benchmark_stored;
          no_roots = i.no_roots;
        }))
