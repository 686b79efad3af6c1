-- ===== src/Contamination/Index/Groups.antt =====
-- The rows that `iter_assignments` yields, and where in the tables they come from.
use nodelm.Base.{
  ℕ, ◌≡◌, refl, sym, ap, ◌∙◌, subst, List, [], ◌∷◌, Text, In, Option, none, some, inl, inr,
  Option-cases,
}
use nodelm.Contamination.Tables.{SplitName, RepositoryRow, SampleRow, Database}
use nodelm.Contamination.Ordering.{order_by, In-order_by, In_of_order_by}
use nodelm.Contamination.Forest.{map_option, row_of, parent_of}
use nodelm.Contamination.Forest.Groups.{SameGroup}
use nodelm.Contamination.Splits.{assign_splits, bucket_split}
use nodelm.Contamination.Index.{IndexInput, LoopCounts, Assignment, join_rows, iter_assignments}
use nodelm.Contamination.Index.Built.{Built}
use nodelm.Contamination.Splits.Grouped.{group_split, roots_of}
use nodelm.Contamination.Splits.Grouped.{assigned_row, assigned_only, samples-final}

abbrev joined : SampleRow → RepositoryRow → Assignment
joined s r = record {
  contamination_group = r.parent;
  repository = s.repository;
  sample_id = s.sample_id;
  split = r.split;
}

record Joins (rows : List RepositoryRow) (samples : List SampleRow) (a : Assignment) : Type 0 where
  sample : SampleRow
  listed : In sample samples
  row : RepositoryRow
  found : row_of sample.repository rows ≡ some row
  same : a ≡ joined sample row

In_of_join_rows :
    (rows : List RepositoryRow) (samples : List SampleRow) (a : Assignment)
    → In a (join_rows rows samples)
    → Joins rows samples a
unfolding join_rows
In_of_join_rows rows [] a i = absurd i
In_of_join_rows rows (s ∷ samples) a i = elim (Option-cases (row_of s.repository rows)) [
  | inl n ↦ later (In_of_join_rows rows samples a (rw (n, join_rows) at i))
  | inr (r, e) ↦
      elim (let k : In a (joined s r ∷ join_rows rows samples) = rw (e, join_rows) at i in k) [
        | inl same ↦ record { sample = s; listed = inl refl; row = r; found = e; same = same }
        | inr k ↦ later (In_of_join_rows rows samples a k)
      ]
]
  where
    later : Joins rows samples a → Joins rows (s ∷ samples) a
    later j = record {
      sample = j.sample;
      listed = inr j.listed;
      row = j.row;
      found = j.found;
      same = j.same;
    }

In-join_rows :
    (rows : List RepositoryRow) (samples : List SampleRow) (s : SampleRow) (r : RepositoryRow)
    → In s samples
    → row_of s.repository rows ≡ some r
    → In (joined s r) (join_rows rows samples)
unfolding join_rows
In-join_rows rows [] s r i e = absurd i
In-join_rows rows (q ∷ samples) s r (inl same) e =
    rw (ap (λ (x : SampleRow). row_of x.repository rows) (sym same) ∙ e, join_rows)
      (inl (ap (λ x. joined x r) same))
In-join_rows rows (q ∷ samples) s r (inr i) e = elim (Option-cases (row_of q.repository rows)) [
  | inl n ↦ rw (n, join_rows) (In-join_rows rows samples s r i e)
  | inr (p, f) ↦ rw (f, join_rows) (inr (In-join_rows rows samples s r i e))
]

some_injective : {A : Type 0} {x y : A} → some x ≡ some y → x ≡ y
some_injective e = cc

module _ (sha256 : Text → List ℕ) (i : IndexInput) (counts : LoopCounts) (db : Database)
    (b : Built sha256 i counts db) where
  -- The tables before the splits are assigned.
  abbrev pub before : Database
  before = record b.links.after { repositories = b.compressed.rows }

  -- The split of a group.
  abbrev pub split_of : Text → SplitName
  split_of = group_split (bucket_split sha256 i.seed i.evaluation_fraction) (roots_of before)

  pub same_parent :
      (k : Text) → parent_of k before.repositories ≡ parent_of k b.links.grouped.repositories
  same_parent k =
      b.compressed.same k ∙ ap (λ (d : Database). parent_of k d.repositories) b.links.marked.rest

  -- Where an assignment comes from.
  pub record Located (a : Assignment) : Type 0 where
    pub sample : SampleRow
    pub listed : In sample b.links.after.samples
    pub same_id : a.sample_id ≡ sample.sample_id
    pub same_repository : a.repository ≡ sample.repository
    pub group : parent_of a.repository b.links.grouped.repositories ≡ some a.contamination_group
    pub split : a.split ≡ some (split_of a.contamination_group)

  pub locate : (a : Assignment) → In a (iter_assignments db) → Located a
  unfolding iter_assignments parent_of
  locate a k =
      let after = assign_splits sha256 i.seed i.evaluation_fraction before in
      let k' : In a (join_rows after.repositories after.samples) =
        In_of_order_by (λ x. x.sample_id) a _
          (subst
            (λ (d : Database).
              In a (order_by (λ x. x.sample_id) (join_rows d.repositories d.samples)))
            b.assigned k) in
      let j = In_of_join_rows after.repositories after.samples a k' in
      let (r, e, f) =
        assigned_only sha256 i.seed i.evaluation_fraction before j.sample.repository j.row
          j.found in
      let at : a.repository ≡ j.sample.repository = ap (λ (x : Assignment). x.repository) j.same in
      let parent : r.parent ≡ a.contamination_group = sym (
        ap (λ (x : Assignment). x.contamination_group) j.same
        ∙ ap (λ (x : RepositoryRow). x.parent) f) in
      let found : parent_of j.sample.repository before.repositories ≡ some r.parent =
        ap (map_option (λ r. r.parent)) e in
      record {
        sample = j.sample;
        listed =
            subst (In j.sample) (samples-final sha256 i.seed i.evaluation_fraction before) j.listed;
        same_id = ap (λ (x : Assignment). x.sample_id) j.same;
        same_repository = at;
        group =
            ap (λ x. parent_of x b.links.grouped.repositories) at
            ∙ sym (same_parent j.sample.repository)
            ∙ found
            ∙ ap some parent;
        split =
            ap (λ (x : Assignment). x.split) j.same
            ∙ ap (λ (x : RepositoryRow). x.split) f
            ∙ ap (λ p. some (split_of p)) parent;
      }

  -- A sample of the tables whose repository has a parent is assigned.
  pub assignment_of :
      (s : SampleRow) (p : Text)
      → In s b.links.after.samples
      → parent_of s.repository b.links.grouped.repositories ≡ some p
      → (a : Assignment) × In a (iter_assignments db) × (a.sample_id ≡ s.sample_id)
  unfolding iter_assignments parent_of
  assignment_of s p k e = elim (Option-cases (row_of s.repository before.repositories)) [
    | inl n ↦
        absurd (none_of (ap (map_option (λ r. r.parent)) (sym n) ∙ same_parent s.repository ∙ e))
    | inr (r, f) ↦
        let after = assign_splits sha256 i.seed i.evaluation_fraction before in
        let r' = record r { split = some (split_of r.parent) } in
        (
          joined s r',
          subst
              (λ (d : Database).
                In (joined s r') (order_by (λ x. x.sample_id) (join_rows d.repositories d.samples)))
              (sym b.assigned)
              (In-order_by (λ x. x.sample_id) (joined s r') _
                (In-join_rows after.repositories after.samples s r'
                  (subst (In s) (sym (samples-final sha256 i.seed i.evaluation_fraction before)) k)
                  (assigned_row sha256 i.seed i.evaluation_fraction before s.repository r f))),
          refl,
        )
  ]
    where
      none_of : ◌≡◌ {A = Option Text} none (some p) → ⊥
      none_of e = cc

  -- Two assignments whose repositories are in one group.
  pub same_group :
      (x y : Assignment)
      → Located x
      → Located y
      → SameGroup b.links.grouped.repositories x.repository y.repository
      → (x.contamination_group ≡ y.contamination_group) × (x.split ≡ y.split)
  same_group x y l m h =
      let g : x.contamination_group ≡ y.contamination_group =
        some_injective (sym l.group ∙ h ∙ m.group) in
      (g, l.split ∙ ap (λ p. some (split_of p)) g ∙ sym m.split)
