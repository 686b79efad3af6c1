-- ===== src/Contamination/Index/Exclusion.antt =====
-- The splits of the assignments that an index of `build_contamination_index` yields.
use nodelm.Base.{
  ℕ, ◌≡◌, refl, sym, ap, ◌∙◌, subst, Bool, true, false, List, [], Text, In, ok, some, inl, inr,
  Bool-cases, if◌then◌else◌,
}
use nodelm.Base.Fractions.{Fraction, ltb_fraction}
use nodelm.Contamination.Tables.{
  SplitName, train, evaluation, excluded, ContaminationSample, Database,
}
use nodelm.Contamination.Forest.{parent_of, contains}
use nodelm.Contamination.Forest.Sets.{contains_of_In, In_of_contains}
use nodelm.Contamination.Splits.{repository_bucket, bucket_split}
use nodelm.Contamination.Splits.Overlap.{
  In-insert_roots, In_of_insert_roots, In-overlap_roots, In_of_overlap_roots, Overlaps,
}
use nodelm.Contamination.Ordering.{In-distinct, In_of_distinct}
use nodelm.Contamination.Index.{
  IndexInput, LoopCounts, Assignment, build_database, iter_assignments,
}
use nodelm.Contamination.Index.Ingested.{ingest-Read}
use nodelm.Contamination.Index.Built.{Built, build_database-ok}
use nodelm.Contamination.Index.Groups.{locate, assignment_of, before, split_of}
use nodelm.Contamination.Index.Evidence.{samples-grouped}
use nodelm.Contamination.Splits.Grouped.{group_split, roots_of}
use nodelm.Contamination.Splits.Grouped.{parent_of-final, samples-final}

some_injective : {A : Type 0} {x y : A} → some x ≡ some y → x ≡ y
some_injective e = cc

contains_of_excluded :
    (sha256 : Text → List ℕ) (seed : ℕ) (fraction : Fraction) (roots : List Text) (g : Text)
    → group_split (bucket_split sha256 seed fraction) roots g ≡ excluded
    → contains g roots ≡ true
unfolding bucket_split
contains_of_excluded sha256 seed fraction roots g e = elim (Bool-cases (contains g roots)) [
  | inl t ↦ t
  | inr f ↦ absurd (kept (ltb_fraction (repository_bucket sha256 g seed) fraction) (rw f at e))
]
  where
    kept : (c : Bool) → (if c then evaluation else train) ≡ excluded → ⊥
    kept true e = cc
    kept false e = cc

module _ (sha256 : Text → List ℕ) (i : IndexInput) (counts : LoopCounts) (db : Database)
    (h : build_database sha256 i ≡ ok (counts, db)) where
  abbrev b : Built sha256 i counts db
  b = build_database-ok sha256 i counts db h

  -- In an index that is built, every sample of the input has an assignment, with a split.
  pub every_sample-assigned :
      (s : ContaminationSample)
      → In s i.samples
      → (x : Assignment) × In x (iter_assignments db)
        × (x.sample_id ≡ s.sample_id)
        × ((split : SplitName) × (x.split ≡ some split))
  every_sample-assigned s k =
      let r = (ingest-Read sha256 i b.full b.read).0 s k in
      let (p, e) = b.ingested.known r.row r.listed in
      let (q, e') = b.links.linked.known r.row.repository p e in
      let (m, m_in, same_id, same_repository) =
        b.links.marked.kept r.row
          (subst (In r.row) (sym (samples-grouped sha256 i counts db b)) r.listed) in
      let (x, x_in, xm) =
        assignment_of sha256 i counts db b m q m_in
          (ap (λ k. parent_of k b.links.grouped.repositories) same_repository ∙ e') in
      (
        x,
        x_in,
        xm ∙ same_id ∙ r.named,
        (
          split_of sha256 i counts db b x.contamination_group,
          (locate sha256 i counts db b x x_in).split,
        ),
      )

  -- In an index that is built, two assignments in one group have one split: no group is split between training and evaluation.
  pub one_group-one_split :
      (x y : Assignment)
      → In x (iter_assignments db)
      → In y (iter_assignments db)
      → x.contamination_group ≡ y.contamination_group
      → x.split ≡ y.split
  one_group-one_split x y x_in y_in g =
      (locate sha256 i counts db b x x_in).split
      ∙ ap (λ p. some (split_of sha256 i counts db b p)) g
      ∙ sym (locate sha256 i counts db b y y_in).split

  db_parent :
      (k : Text)
      → parent_of k db.repositories ≡ parent_of k (before sha256 i counts db b).repositories
  db_parent k =
      ap (λ (d : Database). parent_of k d.repositories) b.assigned
      ∙ parent_of-final sha256 i.seed i.evaluation_fraction (before sha256 i counts db b) k

  db_samples : db.samples ≡ (before sha256 i counts db b).samples
  db_samples =
      ap (λ (d : Database). d.samples) b.assigned
      ∙ samples-final sha256 i.seed i.evaluation_fraction (before sha256 i counts db b)

  no_roots_before : (before sha256 i counts db b).excluded_roots ≡ []
  no_roots_before =
      ap (λ (d : Database). d.excluded_roots) b.links.marked.rest
      ∙ ap (λ (d : Database). d.excluded_roots) b.links.linked.rest
      ∙ b.ingested.no_roots

  overlap_of_root :
      (g : Text)
      → In g (roots_of (before sha256 i counts db b))
      → Overlaps db.repositories db.samples g
  overlap_of_root g k = elim (In_of_insert_roots g _ _ k) [
    | inl listed ↦
        let o = In_of_overlap_roots _ _ g (In_of_distinct g _ listed) in
        record {
          sample = o.sample;
          listed = subst (In o.sample) (sym db_samples) o.listed;
          overlap = o.overlap;
          root = db_parent o.sample.repository ∙ o.root;
        }
    | inr old ↦ absurd (subst (In g) no_roots_before old)
  ]

  root_of_overlap :
      (g : Text)
      → Overlaps db.repositories db.samples g
      → In g (roots_of (before sha256 i counts db b))
  root_of_overlap g o = In-insert_roots g _ _ (
      inl (
        In-distinct g _ (
          In-overlap_roots (before sha256 i counts db b).repositories
            (before sha256 i counts db b).samples o.sample g
            (subst (In o.sample) db_samples o.listed) o.overlap
            (sym (db_parent o.sample.repository) ∙ o.root))))

  -- In an index that is built, an assignment is in the excluded split exactly if a sample of its group is marked as overlapping
  -- a benchmark.
  pub excluded_iff_overlap :
      (x : Assignment)
      → In x (iter_assignments db)
      → (x.split ≡ some excluded → Overlaps db.repositories db.samples x.contamination_group)
        × (Overlaps db.repositories db.samples x.contamination_group → x.split ≡ some excluded)
  excluded_iff_overlap x x_in =
      let l = locate sha256 i counts db b x x_in in
      let roots = roots_of (before sha256 i counts db b) in
      (
        λ e. overlap_of_root x.contamination_group (
            In_of_contains x.contamination_group roots (
              contains_of_excluded sha256 i.seed i.evaluation_fraction roots x.contamination_group
                (some_injective (sym l.split ∙ e)))),
        λ o.
            l.split
            ∙ ap some (
                rw
                  (contains_of_In x.contamination_group roots
                    (root_of_overlap x.contamination_group o))
                  refl),
      )
