-- ===== src/Contamination/Index/Separation.antt =====
-- The groups of the assignments that an index of `build_contamination_index` yields, and the overlap with
-- benchmarks.
use nodelm.Base.{ℕ, ◌≡◌, refl, sym, ap, ◌∙◌, subst, true, List, Text, In, ok, some}
use nodelm.Fingerprint.Normalize.{normalize_fingerprint_text, exact_fingerprint}
use nodelm.Fingerprint.Normalize.Stable.{exact_fingerprint-normalize}
use nodelm.Fingerprint.Near.{is_near_duplicate}
use nodelm.Contamination.Tables.{
  ContentKind, task, patch, excluded, ContaminationSample, BenchmarkEntry, Database,
}
use nodelm.Contamination.Content.{text_of}
use nodelm.Contamination.Content.Inserted.{fingerprint_of}
use nodelm.Contamination.Ingest.Complete.{BenchmarkText}
use nodelm.Contamination.Ingest.Recorded.{Recorded, Listed}
use nodelm.Contamination.Index.{
  IndexInput, LoopCounts, Assignment, build_database, iter_assignments,
}
use nodelm.Contamination.Index.Ingested.{ingest-Read}
use nodelm.Contamination.Index.Built.{Built, build_database-ok}
use nodelm.Contamination.Index.Groups.{locate, before}
use nodelm.Contamination.Index.Evidence.{
  Holds, benchmark_text, listed_lem, shared_lem, near_lem, exact_benchmark_lem, near_benchmark_lem,
}
use nodelm.Contamination.Splits.Grouped.{value_samples-final, content_values-final}

-- Two assignments agree on the group and on the split.
abbrev pub SameSide : Assignment → Assignment → Type 0
SameSide x y = (x.contamination_group ≡ y.contamination_group) × (x.split ≡ y.split)

module _ (sha256 : Text → List ℕ) (i : IndexInput) (counts : LoopCounts) (db : Database)
    (h : build_database sha256 i ≡ ok (counts, db)) where
  abbrev b : Built sha256 i counts db
  b = build_database-ok sha256 i counts db h

  -- In an index that is built, two samples of the input that hold a value with one fingerprint, both
  -- as their task or both as a patch, are in one group and in one split.
  pub shared_value-SameSide :
      (kind : ContentKind) (s t : ContaminationSample) (u v : Text) (x y : Assignment)
      → In s i.samples
      → In t i.samples
      → Holds s kind u
      → Holds t kind v
      → exact_fingerprint sha256 u ≡ exact_fingerprint sha256 v
      → In x (iter_assignments db)
      → In y (iter_assignments db)
      → x.sample_id ≡ s.sample_id
      → y.sample_id ≡ t.sample_id
      → SameSide x y
  shared_value-SameSide kind s t u v x y s_in t_in s_holds t_holds f x_in y_in xs yt =
      shared_lem sha256 i counts db b kind (exact_fingerprint sha256 v) x y
        (subst (λ id. Listed sha256 kind (exact_fingerprint sha256 v) id b.full) (sym xs)
          (subst (λ g. Listed sha256 kind g s.sample_id b.full) f
            (listed_lem sha256 i counts db b s kind u s_in s_holds)))
        (subst (λ id. Listed sha256 kind (exact_fingerprint sha256 v) id b.full) (sym yt)
          (listed_lem sha256 i counts db b t kind v t_in t_holds))
        (locate sha256 i counts db b x x_in) (locate sha256 i counts db b y y_in)

  task-Recorded :
      (s : ContaminationSample) (id : Text)
      → In s i.samples
      → id ≡ s.sample_id
      → Recorded sha256 task s.task_text id b.full
  task-Recorded s id k e =
      subst (λ x. Recorded sha256 task s.task_text x b.full) (sym e)
        (((ingest-Read sha256 i b.full b.read).0 s k).task_recorded)

  -- In an index that is built, two samples of the input whose tasks are near duplicates under the
  -- threshold of the index are in one group and in one split.
  pub near_tasks-SameSide :
      (s t : ContaminationSample) (x y : Assignment)
      → In s i.samples
      → In t i.samples
      → is_near_duplicate s.task_text t.task_text i.near_duplicate_threshold ≡ ok true
      → In x (iter_assignments db)
      → In y (iter_assignments db)
      → x.sample_id ≡ s.sample_id
      → y.sample_id ≡ t.sample_id
      → SameSide x y
  near_tasks-SameSide s t x y s_in t_in near x_in y_in xs yt =
      near_lem sha256 i counts db b task s.task_text t.task_text x y
        (task-Recorded s x.sample_id s_in xs) (task-Recorded t y.sample_id t_in yt) near
        (locate sha256 i counts db b x x_in) (locate sha256 i counts db b y y_in)

  values_kept : db.value_samples ≡ b.full.value_samples
  values_kept =
      ap (λ (d : Database). d.value_samples) b.assigned
      ∙ value_samples-final sha256 i.seed i.evaluation_fraction (before sha256 i counts db b)
      ∙ ap (λ (d : Database). d.value_samples) b.links.marked.rest
      ∙ ap (λ (d : Database). d.value_samples) b.links.linked.rest

  contents_kept : db.content_values ≡ b.full.content_values
  contents_kept =
      ap (λ (d : Database). d.content_values) b.assigned
      ∙ content_values-final sha256 i.seed i.evaluation_fraction (before sha256 i counts db b)
      ∙ ap (λ (d : Database). d.content_values) b.links.marked.rest
      ∙ ap (λ (d : Database). d.content_values) b.links.linked.rest

  Recorded-before :
      (kind : ContentKind) (u id : Text)
      → Recorded sha256 kind u id db
      → Recorded sha256 kind u id b.full
  Recorded-before kind u id r = record {
    listed = subst (In _) values_kept r.listed;
    text =
        subst
          (λ rows.
            text_of kind (fingerprint_of sha256 u) rows ≡ some (normalize_fingerprint_text u))
          contents_kept r.text;
  }

  -- In an index that is built, the task of every sample of the input is recorded for the sample.
  pub task-Recorded-final :
      (s : ContaminationSample) → In s i.samples → Recorded sha256 task s.task_text s.sample_id db
  task-Recorded-final s k =
      let r = task-Recorded s s.sample_id k refl in
      record {
        listed = subst (In _) (sym values_kept) r.listed;
        text =
            subst
              (λ rows.
                text_of task (fingerprint_of sha256 s.task_text) rows
                ≡ some (normalize_fingerprint_text s.task_text))
              (sym contents_kept) r.text;
      }

  -- In an index that is built, two samples with near duplicates among their recorded values, both tasks or both patches, are in
  -- one group and in one split.
  pub near_values-SameSide :
      (kind : ContentKind) (u v : Text) (x y : Assignment)
      → Recorded sha256 kind u x.sample_id db
      → Recorded sha256 kind v y.sample_id db
      → is_near_duplicate u v i.near_duplicate_threshold ≡ ok true
      → In x (iter_assignments db)
      → In y (iter_assignments db)
      → SameSide x y
  near_values-SameSide kind u v x y r q near x_in y_in =
      near_lem sha256 i counts db b kind u v x y (Recorded-before kind u x.sample_id r)
        (Recorded-before kind v y.sample_id q) near (locate sha256 i counts db b x x_in)
        (locate sha256 i counts db b y y_in)

  benchmark_stored :
      (kind : ContentKind) (e : BenchmarkEntry)
      → In e i.benchmarks
      → BenchmarkText sha256 kind (benchmark_text kind e) b.full
  benchmark_stored task e k = ((ingest-Read sha256 i b.full b.read).1 e k).task_stored
  benchmark_stored patch e k = ((ingest-Read sha256 i b.full b.read).1 e k).patch_stored

  -- In an index that is built, a sample of the input that holds the task or the patch of a benchmark,
  -- by its fingerprint, is in the excluded split.
  pub shared_benchmark-excluded :
      (kind : ContentKind) (s : ContaminationSample) (u : Text) (e : BenchmarkEntry)
      (x : Assignment)
      → In s i.samples
      → Holds s kind u
      → In e i.benchmarks
      → exact_fingerprint sha256 u ≡ exact_fingerprint sha256 (benchmark_text kind e)
      → In x (iter_assignments db)
      → x.sample_id ≡ s.sample_id
      → x.split ≡ some excluded
  shared_benchmark-excluded kind s u e x s_in s_holds e_in f x_in xs =
      let v = benchmark_text kind e in
      exact_benchmark_lem sha256 i counts db b kind v x (locate sha256 i counts db b x x_in)
        (subst (λ id. Listed sha256 kind (fingerprint_of sha256 v) id b.full) (sym xs)
          (subst (λ g. Listed sha256 kind g s.sample_id b.full)
            (f ∙ sym (exact_fingerprint-normalize sha256 v))
            (listed_lem sha256 i counts db b s kind u s_in s_holds)))
        (benchmark_stored kind e e_in)

  -- In an index that is built, a sample of the input whose task is a near duplicate of the task of a
  -- benchmark is in the excluded split.
  pub near_benchmark_task-excluded :
      (s : ContaminationSample) (e : BenchmarkEntry) (x : Assignment)
      → In s i.samples
      → In e i.benchmarks
      → is_near_duplicate s.task_text e.task_text i.near_duplicate_threshold ≡ ok true
      → In x (iter_assignments db)
      → x.sample_id ≡ s.sample_id
      → x.split ≡ some excluded
  near_benchmark_task-excluded s e x s_in e_in near x_in xs =
      near_benchmark_lem sha256 i counts db b task s.task_text e.task_text x
        (locate sha256 i counts db b x x_in) (task-Recorded s x.sample_id s_in xs)
        (benchmark_stored task e e_in) near

  -- In an index that is built, a sample with a recorded value, a task or a patch, that is a near duplicate of the text of the
  -- same kind of a benchmark is in the excluded split.
  pub near_benchmark-excluded :
      (kind : ContentKind) (u : Text) (e : BenchmarkEntry) (x : Assignment)
      → Recorded sha256 kind u x.sample_id db
      → In e i.benchmarks
      → is_near_duplicate u (benchmark_text kind e) i.near_duplicate_threshold ≡ ok true
      → In x (iter_assignments db)
      → x.split ≡ some excluded
  near_benchmark-excluded kind u e x r e_in near x_in =
      near_benchmark_lem sha256 i counts db b kind u (benchmark_text kind e) x
        (locate sha256 i counts db b x x_in) (Recorded-before kind u x.sample_id r)
        (benchmark_stored kind e e_in) near
