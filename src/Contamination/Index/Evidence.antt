-- ===== src/Contamination/Index/Evidence.antt =====
-- From the tables of a built index to the assignments of its samples.
use nodelm.Base.{
  ℕ, ◌≡◌, refl, sym, ap, ◌∙◌, subst, Bool, true, false, List, Text, ◌==◌, eq_of_==, ==-refl, In, ok,
  some, inl, inr, Bool-cases,
}
use mathlib.Core.Path.{ap₂}
use nodelm.Base.Fractions.{Fraction}
use nodelm.Fingerprint.Normalize.{normalize_fingerprint_text, exact_fingerprint}
use nodelm.Fingerprint.Normalize.Stable.{normalize-normalize}
use nodelm.Fingerprint.Near.{is_near_duplicate}
use nodelm.Contamination.Tables.{
  ContentKind, task, patch, excluded, ContaminationSample, BenchmarkEntry, ValueSampleRow, Database,
}
use nodelm.Contamination.Content.{text_of}
use nodelm.Contamination.Content.Inserted.{fingerprint_of}
use nodelm.Contamination.Forest.{parent_of}
use nodelm.Contamination.Forest.Sets.{contains_of_In}
use nodelm.Contamination.Splits.Overlap.{In-insert_roots, In-overlap_roots}
use nodelm.Contamination.Ordering.{In-distinct}
use nodelm.Contamination.Benchmarks.Marked.{Flagged}
use nodelm.Contamination.Ingest.Invariant.{value_of}
use nodelm.Contamination.Ingest.Complete.{BenchmarkText}
use nodelm.Contamination.Content.Found.{row_of_text}
use nodelm.Contamination.Ingest.Recorded.{Recorded, Listed, Recorded-Listed}
use nodelm.Contamination.Index.{IndexInput, LoopCounts, Assignment}
use nodelm.Contamination.Index.Ingested.{ingest-Read}
use nodelm.Contamination.Index.Built.{Built}
use nodelm.Contamination.Index.Groups.{Located, same_group, before, same_parent}
use nodelm.Contamination.Splits.Grouped.{roots_of}

-- A sample holds a value: its task, or one of its patches.
abbrev pub Holds : ContaminationSample → ContentKind → Text → Type 0
Holds s task value = value ≡ s.task_text
Holds s patch value = In value s.patch_texts

-- The text of a benchmark.
abbrev pub benchmark_text : ContentKind → BenchmarkEntry → Text
benchmark_text task e = e.task_text
benchmark_text patch e = e.patch_text

near_of_normalized :
    (u v : Text) (t : Fraction)
    → is_near_duplicate (normalize_fingerprint_text u) (normalize_fingerprint_text v) t
      ≡ is_near_duplicate u v t
unfolding is_near_duplicate
near_of_normalized u v t = rw (normalize-normalize u, normalize-normalize v) refl

module _ (sha256 : Text → List ℕ) (i : IndexInput) (counts : LoopCounts) (db : Database)
    (b : Built sha256 i counts db) where
  pub value_samples-final : b.links.after.value_samples ≡ b.full.value_samples
  value_samples-final =
      ap (λ (d : Database). d.value_samples) b.links.marked.rest
      ∙ ap (λ (d : Database). d.value_samples) b.links.linked.rest

  pub samples-grouped : b.links.grouped.samples ≡ b.full.samples
  samples-grouped = ap (λ (d : Database). d.samples) b.links.linked.rest

  -- The repository of an assignment holds each value of its sample.
  held_value :
      (a : Assignment) (v : ValueSampleRow)
      → Located sha256 i counts db b a
      → In v b.full.value_samples
      → a.sample_id ≡ v.sample_id
      → In (value_of v a.repository) b.links.grouped.value_repositories
  held_value a v l k e =
      let o = b.links.marked.origin l.sample l.listed in
      let held =
        b.ingested.held v o.row k (subst (In o.row) samples-grouped o.listed)
          (sym o.same_id ∙ sym l.same_id ∙ e) in
      subst (In (value_of v a.repository))
        (sym (ap (λ (d : Database). d.value_repositories) b.links.linked.rest))
        (subst (λ x. In (value_of v x) b.full.value_repositories)
          (sym o.same_repository ∙ sym l.same_repository) held)

  pub shared_lem :
      (kind : ContentKind) (f : Text) (x y : Assignment)
      → Listed sha256 kind f x.sample_id b.full
      → Listed sha256 kind f y.sample_id b.full
      → Located sha256 i counts db b x
      → Located sha256 i counts db b y
      → (x.contamination_group ≡ y.contamination_group) × (x.split ≡ y.split)
  shared_lem kind f x y h k l m = same_group sha256 i counts db b x y l m (
      b.links.exact kind _ _ (held_value x _ l h.listed refl) (held_value y _ m k.listed refl) refl
        refl refl)

  pub listed_lem :
      (s : ContaminationSample) (kind : ContentKind) (value : Text)
      → In s i.samples
      → Holds s kind value
      → Listed sha256 kind (exact_fingerprint sha256 value) s.sample_id b.full
  listed_lem s task value k h =
      let r = (ingest-Read sha256 i b.full b.read).0 s k in
      subst (λ x. Listed sha256 task (exact_fingerprint sha256 x) s.sample_id b.full) (sym h)
        (Recorded-Listed sha256 task s.task_text s.sample_id b.full r.task_recorded)
  listed_lem s patch value k h = ((ingest-Read sha256 i b.full b.read).0 s k).patch_listed value h

  pub near_lem :
      (kind : ContentKind) (u v : Text) (x y : Assignment)
      → Recorded sha256 kind u x.sample_id b.full
      → Recorded sha256 kind v y.sample_id b.full
      → is_near_duplicate u v i.near_duplicate_threshold ≡ ok true
      → Located sha256 i counts db b x
      → Located sha256 i counts db b y
      → (x.contamination_group ≡ y.contamination_group) × (x.split ≡ y.split)
  near_lem kind u v x y h k near l m =
      elim (Bool-cases (fingerprint_of sha256 u == fingerprint_of sha256 v)) [
        | inl t ↦ same_group sha256 i counts db b x y l m (
            b.links.exact kind _ _ (held_value x _ l h.listed refl) (held_value y _ m k.listed refl)
              refl refl (eq_of_== _ _ t))
        | inr f ↦
            let (c, c_in, ck, cf, ct) = row_of_text kind _ b.full.content_values _ h.text in
            let (d, d_in, dk, df, dt) = row_of_text kind _ b.full.content_values _ k.text in
            let contents = ap (λ (d : Database). d.content_values) b.links.linked.rest in
            same_group sha256 i counts db b x y l m (
              b.links.near kind c d (subst (In c) (sym contents) c_in)
                (subst (In d) (sym contents) d_in) ck dk (b.ingested.stored c c_in)
                (b.ingested.stored d d_in) (λ e. other f (sym cf ∙ e ∙ df))
                (ap₂ (λ p q. is_near_duplicate p q i.near_duplicate_threshold) ct dt
                  ∙ near_of_normalized u v i.near_duplicate_threshold
                  ∙ near)
                _ _ (held_value x _ l h.listed refl) (held_value y _ m k.listed refl) refl refl
                (inl (sym cf)) (inr (inl (sym df))))
      ]
    where
      other :
          (fingerprint_of sha256 u == fingerprint_of sha256 v) ≡ false
          → fingerprint_of sha256 u ≡ fingerprint_of sha256 v
          → ⊥
      other f e =
          differ (ap (λ p. p == fingerprint_of sha256 v) e ∙ ==-refl (fingerprint_of sha256 v)) f
        where
          differ : {c : Bool} → c ≡ true → c ≡ false → ⊥
          differ p q = cc

  -- A sample that overlaps a benchmark excludes its group.
  pub overlap-excluded :
      (x : Assignment) (l : Located sha256 i counts db b x)
      → l.sample.benchmark_overlap ≡ true
      → x.split ≡ some excluded
  overlap-excluded x l o =
      let rows = (before sha256 i counts db b).repositories in
      let root : parent_of l.sample.repository rows ≡ some x.contamination_group =
        same_parent sha256 i counts db b l.sample.repository
        ∙ ap (λ k. parent_of k b.links.grouped.repositories) (sym l.same_repository)
        ∙ l.group in
      l.split
      ∙ ap some (
          rw
            (contains_of_In x.contamination_group (roots_of (before sha256 i counts db b)) (
              In-insert_roots x.contamination_group _ _ (
                inl (
                  In-distinct x.contamination_group _ (
                    In-overlap_roots rows b.links.after.samples l.sample x.contamination_group
                      l.listed o root)))))
            refl)

  Flagged-excluded :
      (kind : ContentKind) (f : Text) (x : Assignment)
      → Located sha256 i counts db b x
      → Flagged kind f b.links.after
      → Listed sha256 kind f x.sample_id b.full
      → x.split ≡ some excluded
  Flagged-excluded kind f x l flagged h = overlap-excluded x l (
      flagged _ l.sample (subst (In _) (sym value_samples-final) h.listed) l.listed refl refl
        (sym l.same_id))

  pub exact_benchmark_lem :
      (kind : ContentKind) (v : Text) (x : Assignment)
      → Located sha256 i counts db b x
      → Listed sha256 kind (fingerprint_of sha256 v) x.sample_id b.full
      → BenchmarkText sha256 kind v b.full
      → x.split ≡ some excluded
  exact_benchmark_lem kind v x l h stored =
      let (c, c_in, ck, cf, ct) = row_of_text kind _ b.full.content_values _ h.text.1 in
      Flagged-excluded kind (fingerprint_of sha256 v) x l
        (subst (λ f. Flagged kind f b.links.after) cf
          (subst (λ k. Flagged k c.fingerprint b.links.after) ck
            (b.links.exact_flagged c _ c_in
              (ap₂ (λ k f. text_of k f b.full.benchmark_values) ck cf ∙ stored))))
        h

  pub near_benchmark_lem :
      (kind : ContentKind) (u v : Text) (x : Assignment)
      → Located sha256 i counts db b x
      → Recorded sha256 kind u x.sample_id b.full
      → BenchmarkText sha256 kind v b.full
      → is_near_duplicate u v i.near_duplicate_threshold ≡ ok true
      → x.split ≡ some excluded
  near_benchmark_lem kind u v x l h stored near =
      elim (Bool-cases (fingerprint_of sha256 u == fingerprint_of sha256 v)) [
        | inl t ↦
            exact_benchmark_lem kind v x l
              (record {
                listed =
                    subst
                      (λ f.
                        In (record { kind = kind; fingerprint = f; sample_id = x.sample_id })
                          b.full.value_samples)
                      (eq_of_== _ _ t) h.listed;
                text = (
                  _,
                  ap (λ f. text_of kind f b.full.content_values) (sym (eq_of_== _ _ t)) ∙ h.text,
                );
              })
              stored
        | inr f ↦
            let (c, c_in, ck, cf, ct) = row_of_text kind _ b.full.content_values _ h.text in
            let (d, d_in, dk, df, dt) = row_of_text kind _ b.full.benchmark_values _ stored in
            Flagged-excluded kind (fingerprint_of sha256 u) x l
              (subst (λ g. Flagged kind g b.links.after) cf
                (subst (λ k. Flagged k c.fingerprint b.links.after) ck
                  (b.links.near_flagged c c_in b.ingested.benchmark_stored
                    (b.ingested.stored c c_in)
                    (record {
                      benchmark = d;
                      listed = d_in;
                      same_kind = dk ∙ sym ck;
                      other = λ e. other f (sym cf ∙ sym e ∙ df);
                      near =
                          ap₂ (λ p q. is_near_duplicate p q i.near_duplicate_threshold) ct dt
                          ∙ near_of_normalized u v i.near_duplicate_threshold
                          ∙ near;
                    }))))
              (record { listed = h.listed; text = (_, h.text) })
      ]
    where
      other :
          (fingerprint_of sha256 u == fingerprint_of sha256 v) ≡ false
          → fingerprint_of sha256 u ≡ fingerprint_of sha256 v
          → ⊥
      other f e =
          differ (ap (λ p. p == fingerprint_of sha256 v) e ∙ ==-refl (fingerprint_of sha256 v)) f
        where
          differ : {c : Bool} → c ≡ true → c ≡ false → ⊥
          differ p q = cc
