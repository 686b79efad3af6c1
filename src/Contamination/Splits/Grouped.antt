-- ===== src/Contamination/Splits/Grouped.antt =====
-- The splits of whole groups after `_assign_splits`.
use nodelm.Base.{
  ℕ, ◌≡◌, refl, sym, ap, ◌∙◌, List, Text, Option, none, some, inl, inr, Bool-cases, Option-cases,
  if◌then◌else◌,
}
use nodelm.Base.Fractions.{Fraction}
use nodelm.Contamination.Tables.{SplitName, excluded, RepositoryRow, Database}
use nodelm.Contamination.Ordering.{distinct}
use nodelm.Contamination.Forest.{map_option, row_of, parent_of, contains}
use nodelm.Contamination.Forest.Lookup.{row_of-update, changed}
use nodelm.Contamination.Splits.{
  bucket_split, overlap_roots, insert_roots, set_split, open_roots, assign_splits,
}
use nodelm.Contamination.Splits.Assigned.{
  bucketed_lem, row_of-set_bucket_splits, row_of-set_bucket_splits-none, In-open_roots,
  In_of_row_of, excluded-not-open,
}

-- The split of a group: excluded, or the one of its bucket.
abbrev pub group_split : (Text → SplitName) → List Text → Text → SplitName
group_split split_for excluded_roots root =
    if contains root excluded_roots then excluded else split_for root

abbrev pub roots_of : Database → List Text
roots_of db = insert_roots (distinct (overlap_roots db.repositories db.samples)) db.excluded_roots

module _ (sha256 : Text → List ℕ) (seed : ℕ) (fraction : Fraction) (db : Database) where
  abbrev final : Database
  final = assign_splits sha256 seed fraction db

  marked_row :
      (k : Text) (r : RepositoryRow)
      → row_of k db.repositories ≡ some r
      → row_of k (set_split (λ p. contains p (roots_of db)) excluded db.repositories)
        ≡ some (if contains r.parent (roots_of db) then record r { split = some excluded } else r)
  unfolding set_split
  marked_row k r h =
      row_of-update (λ r. contains r.parent (roots_of db)) (λ r. record r { split = some excluded })
        (λ r. refl) k db.repositories
      ∙ ap
          (map_option (
            changed (λ r. contains r.parent (roots_of db))
              (λ r. record r { split = some excluded })))
          h

  -- Every row gets the split of its group.
  pub assigned_row :
      (k : Text) (r : RepositoryRow)
      → row_of k db.repositories ≡ some r
      → row_of k final.repositories
        ≡ some (record r {
          split = some (group_split (bucket_split sha256 seed fraction) (roots_of db) r.parent);
        })
  unfolding assign_splits
  assigned_row k r h =
      let f = bucket_split sha256 seed fraction in
      let roots = roots_of db in
      let rows = set_split (λ p. contains p roots) excluded db.repositories in
      let opened = open_roots roots rows in
      elim (Bool-cases (contains r.parent roots)) [
        | inl t ↦
            let row = record r { split = some excluded } in
            let found : row_of k rows ≡ some row = marked_row k r h ∙ rw t in
            row_of-set_bucket_splits f opened k rows row found
            ∙ ap some (bucketed_lem f opened row)
            ∙ rw (t, excluded-not-open roots rows r.parent t)
        | inr absent ↦
            let found : row_of k rows ≡ some r = marked_row k r h ∙ rw absent in
            row_of-set_bucket_splits f opened k rows r found
            ∙ ap some (bucketed_lem f opened r)
            ∙ rw (absent, In-open_roots roots rows r (In_of_row_of k rows r found) absent)
      ]

  pub assigned_none :
      (k : Text) → row_of k db.repositories ≡ none → row_of k final.repositories ≡ none
  unfolding assign_splits set_split
  assigned_none k h =
      row_of-set_bucket_splits-none (bucket_split sha256 seed fraction)
        (open_roots (roots_of db)
          (set_split (λ p. contains p (roots_of db)) excluded db.repositories))
        k _
        (row_of-update (λ r. contains r.parent (roots_of db))
            (λ r. record r { split = some excluded }) (λ r. refl) k db.repositories
          ∙ ap
              (map_option (
                changed (λ r. contains r.parent (roots_of db))
                  (λ r. record r { split = some excluded })))
              h)

  -- A row of the result comes from a row with the same parent.
  pub assigned_only :
      (k : Text) (q : RepositoryRow)
      → row_of k final.repositories ≡ some q
      → (r : RepositoryRow) × (row_of k db.repositories ≡ some r)
        × (q ≡ record r {
          split = some (group_split (bucket_split sha256 seed fraction) (roots_of db) r.parent);
        })
  assigned_only k q h = elim (Option-cases (row_of k db.repositories)) [
    | inl e ↦ absurd (none_of (sym (assigned_none k e) ∙ h))
    | inr (r, e) ↦ (r, e, some_injective (sym h ∙ assigned_row k r e))
  ]
    where
      none_of : ◌≡◌ {A = Option RepositoryRow} none (some q) → ⊥
      none_of e = cc

      some_injective : {x : RepositoryRow} → some q ≡ some x → q ≡ x
      some_injective e = cc

  pub excluded_roots-final : final.excluded_roots ≡ roots_of db
  unfolding assign_splits
  excluded_roots-final = refl

  pub samples-final : final.samples ≡ db.samples
  unfolding assign_splits
  samples-final = refl

  pub value_samples-final : final.value_samples ≡ db.value_samples
  unfolding assign_splits
  value_samples-final = refl

  pub content_values-final : final.content_values ≡ db.content_values
  unfolding assign_splits
  content_values-final = refl

  -- Assigning the splits moves no repository to another group.
  pub parent_of-final : (k : Text) → parent_of k final.repositories ≡ parent_of k db.repositories
  unfolding parent_of
  parent_of-final k = elim (Option-cases (row_of k db.repositories)) [
    | inl e ↦ ap (map_option (λ r. r.parent)) (assigned_none k e ∙ sym e)
    | inr (r, e) ↦
        ap (map_option (λ r. r.parent)) (assigned_row k r e)
        ∙ ap (map_option (λ r. r.parent)) (sym e)
  ]
