-- ===== src/Contamination/Forest/Flat.antt =====
-- `_find_root` in a table where every parent is a root.
use nodelm.Base.{
  ℕ, zero, suc, ◌++◌, ◌≤◌, ◌≡◌, refl, sym, ◌∙◌, false, some, List, [], ◌∷◌, Text, arith, ◌==◌,
  ==-refl, eq_of_==, if◌then◌else◌, Bool-cases, inl, inr, length, ok,
}
use nodelm.Contamination.Tables.{RepositoryRow}
use nodelm.Contamination.Forest.{
  map_option, row_of, parent_of, set_parent, find_path, set_parents, find_root,
}
use nodelm.Contamination.Forest.Lookup.{parent_of-set_parent}

-- Each parent is its own parent.
pub record IsFlat (rows : List RepositoryRow) : Type 0 where
  pub at_parent : (k p : Text) → parent_of k rows ≡ some p → parent_of p rows ≡ some p

abbrev pub SameParents : List RepositoryRow → List RepositoryRow → Type 0
SameParents rows rows' = (k : Text) → parent_of k rows' ≡ parent_of k rows

pub IsFlat-SameParents :
    {rows rows' : List RepositoryRow} → SameParents rows rows' → IsFlat rows → IsFlat rows'
IsFlat-SameParents same flat = record {
  at_parent = λ k p h. same p ∙ flat.at_parent k p (sym (same k) ∙ h);
}

-- A row that is found is one of the rows.
length_of_parent :
    (k p : Text) (rows : List RepositoryRow) → parent_of k rows ≡ some p → 1 ≤ length rows
unfolding parent_of row_of
length_of_parent k p [] h = cc
length_of_parent k p (r ∷ rows) h = omega arith

pub set_parent-SameParents :
    (k p : Text) (rows : List RepositoryRow)
    → parent_of k rows ≡ some p
    → SameParents rows (set_parent k p rows)
set_parent-SameParents k p rows h j = parent_of-set_parent k p j rows ∙ here
  where
    here :
        (if j == k then map_option (λ _. p) (parent_of j rows) else parent_of j rows)
        ≡ parent_of j rows
    here = elim (Bool-cases (j == k)) [ inl t ↦ rw (t, eq_of_== j k t, h) | inr f ↦ rw f ]

find_path_root :
    (fuel : ℕ) (rows : List RepositoryRow) (path : List Text) (k : Text)
    → parent_of k rows ≡ some k
    → find_path (suc fuel) rows path k ≡ ok (path, k)
unfolding find_path
find_path_root fuel rows path k h = rw (h, find_path) (rw (==-refl k, find_path))

find_path_step :
    (fuel : ℕ) (rows : List RepositoryRow) (path : List Text) (k p : Text)
    → parent_of k rows ≡ some p
    → (p == k) ≡ false
    → find_path (suc fuel) rows path k ≡ find_path fuel rows (path ++ k ∷ []) p
unfolding find_path
find_path_step fuel rows path k p h f = rw (h, find_path) (rw (f, find_path))

suc_of_pos : (n : ℕ) → 1 ≤ n → (m : ℕ) × (n ≡ suc m)
suc_of_pos zero h = absurd (omega arith)
suc_of_pos (suc m) h = (m, refl)

pub record RootSearch (rows : List RepositoryRow) (k p : Text) : Type 0 where
  pub after : List RepositoryRow
  pub result : find_root rows k ≡ ok (p, after)
  pub same : SameParents rows after

-- In a flat table the search ends at the parent, and no parent changes.
pub find_root_flat :
    (rows : List RepositoryRow) (k p : Text)
    → IsFlat rows
    → parent_of k rows ≡ some p
    → RootSearch rows k p
unfolding find_root set_parents
find_root_flat rows k p flat h = elim (Bool-cases (p == k)) [
  | inl t ↦
      let e : p ≡ k = eq_of_== p k t in
      record {
        after = rows;
        result = rw e (rw (find_path_root (length rows) rows [] k (rw e at h)));
        same = λ j. refl;
      }
  | inr f ↦
      let (n, e) = suc_of_pos (length rows) (length_of_parent k p rows h) in
      record {
        after = set_parent k p rows;
        result =
            rw (find_path_step (length rows) rows [] k p h f)
              (rw e (rw (find_path_root n rows (k ∷ []) p (flat.at_parent k p h))));
        same = set_parent-SameParents k p rows h;
      }
]
