-- ===== src/Contamination/Splits/Assigned.antt =====
-- The rows after `_assign_splits`.
use nodelm.Base.{
  ◌≡◌, refl, sym, ap, ◌∙◌, Bool, true, false, not, List, [], ◌∷◌, Text, arith, ◌==◌, ==_iff,
  ==-refl, eq_of_==, In, In-map, In-select, In_of_map, In_of_select, select, Option, none, some,
  inl, inr, Bool-cases, if◌then◌else◌,
}
use nodelm.Contamination.Tables.{SplitName, RepositoryRow}
use nodelm.Contamination.Ordering.{In-distinct, In_of_distinct}
use nodelm.Contamination.Forest.{map_option, row_of, contains}
use nodelm.Contamination.Forest.Lookup.{row_of-update, changed}
use nodelm.Contamination.Forest.Sets.{contains_of_In, In_of_contains}
use nodelm.Contamination.Splits.{set_split, set_bucket_splits, open_roots}

pub In_of_row_of :
    (k : Text) (rows : List RepositoryRow) (r : RepositoryRow) → row_of k rows ≡ some r → In r rows
unfolding row_of
In_of_row_of k [] r h = absurd (none_of h)
  where
    none_of : ◌≡◌ {A = Option RepositoryRow} none (some r) → ⊥
    none_of e = cc
In_of_row_of k (q ∷ rows) r h = elim (Bool-cases (q.repository == k)) [
  | inl t ↦ inl (some_injective (rw t at h))
  | inr f ↦ inr (In_of_row_of k rows r (rw f at h))
]
  where
    some_injective : some q ≡ some r → r ≡ q
    some_injective e = cc

module _ (split_for : Text → SplitName) where
  -- What the loop over the open roots does to a row.
  pub bucketed : List Text → RepositoryRow → RepositoryRow
  bucketed [] r = r
  bucketed (root ∷ roots) r =
      bucketed roots (if r.parent == root then record r { split = some (split_for root) } else r)

  pub row_of-set_bucket_splits :
      (roots : List Text) (k : Text) (rows : List RepositoryRow) (r : RepositoryRow)
      → row_of k rows ≡ some r
      → row_of k (set_bucket_splits split_for roots rows) ≡ some (bucketed roots r)
  unfolding set_bucket_splits bucketed set_split
  row_of-set_bucket_splits [] k rows r h = h
  row_of-set_bucket_splits (root ∷ roots) k rows r h = row_of-set_bucket_splits roots k _ _ (
      row_of-update (λ r. r.parent == root) (λ r. record r { split = some (split_for root) })
        (λ r. refl) k rows
      ∙ ap
          (map_option
            (changed (λ r. r.parent == root) (λ r. record r { split = some (split_for root) })))
          h)

  pub row_of-set_bucket_splits-none :
      (roots : List Text) (k : Text) (rows : List RepositoryRow)
      → row_of k rows ≡ none
      → row_of k (set_bucket_splits split_for roots rows) ≡ none
  unfolding set_bucket_splits set_split
  row_of-set_bucket_splits-none [] k rows h = h
  row_of-set_bucket_splits-none (root ∷ roots) k rows h = row_of-set_bucket_splits-none roots k _ (
      row_of-update (λ r. r.parent == root) (λ r. record r { split = some (split_for root) })
        (λ r. refl) k rows
      ∙ ap
          (map_option
            (changed (λ r. r.parent == root) (λ r. record r { split = some (split_for root) })))
          h)

  collapse :
      (c : Bool) (p root : Text) (old : Option SplitName)
      → (p == root) ≡ true
      → (if c then some (split_for p) else some (split_for root))
        ≡ (if (if root == p then true else c) then some (split_for p) else old)
  collapse c p root old t =
      let e : root ≡ p = sym (eq_of_== p root t) in rw e (rw (==-refl p) (same c))
    where
      same :
          (c : Bool) → (if c then some (split_for p) else some (split_for p)) ≡ some (split_for p)
      same true = refl
      same false = refl

  keep :
      (c : Bool) (p root : Text) (old : Option SplitName)
      → (p == root) ≡ false
      → (if c then some (split_for p) else old)
        ≡ (if (if root == p then true else c) then some (split_for p) else old)
  keep c p root old f = ground (arith, ==_iff p root, ==_iff root p)

  pub bucketed_lem :
      (roots : List Text) (r : RepositoryRow)
      → bucketed roots r ≡ record r {
        split = if contains r.parent roots then some (split_for r.parent) else r.split;
      }
  unfolding bucketed contains
  bucketed_lem [] r = refl
  bucketed_lem (root ∷ roots) r = elim (Bool-cases (r.parent == root)) [
    | inl t ↦
        ap (λ b. bucketed roots (if b then record r { split = some (split_for root) } else r)) t
        ∙ bucketed_lem roots (record r { split = some (split_for root) })
        ∙ ap (λ s. record r { split = s })
            (collapse (contains r.parent roots) r.parent root r.split t)
    | inr f ↦
        ap (λ b. bucketed roots (if b then record r { split = some (split_for root) } else r)) f
        ∙ bucketed_lem roots r
        ∙ ap (λ s. record r { split = s }) (keep (contains r.parent roots) r.parent root r.split f)
  ]

pub In-open_roots :
    (roots : List Text) (rows : List RepositoryRow) (r : RepositoryRow)
    → In r rows
    → contains r.parent roots ≡ false
    → contains r.parent (open_roots roots rows) ≡ true
unfolding open_roots
In-open_roots roots rows r i absent = contains_of_In r.parent _ (
    In-distinct r.parent _ (
      In-map (λ r. r.parent) r _
        (In-select (λ r. not (contains r.parent roots)) r rows i (rw absent))))

pub excluded-not-open :
    (roots : List Text) (rows : List RepositoryRow) (p : Text)
    → contains p roots ≡ true
    → contains p (open_roots roots rows) ≡ false
unfolding open_roots
excluded-not-open roots rows p t = elim (Bool-cases (contains p (open_roots roots rows))) [
  | inr f ↦ f
  | inl u ↦
      let test : RepositoryRow → Bool = λ r. not (contains r.parent roots) in
      let (r, i, e) =
        In_of_map (λ (r : RepositoryRow). r.parent) p (select test rows)
          (In_of_distinct p _ (In_of_contains p (open_roots roots rows) u)) in
      let (_, kept) = In_of_select test r rows i in absurd (clash r e kept)
]
  where
    clash : (r : RepositoryRow) → p ≡ r.parent → not (contains r.parent roots) ≡ true → ⊥
    clash r e o = ground (arith, ap (λ s. contains s roots) e)
