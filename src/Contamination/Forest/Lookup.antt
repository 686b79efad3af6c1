-- ===== src/Contamination/Forest/Lookup.antt =====
-- What the updates of the repositories table do to a lookup.
use nodelm.Base.{
  ◌≡◌, refl, ap, Bool, Option, none, some, List, [], ◌∷◌, Text, arith, ◌==◌, eq_of_==,
  if◌then◌else◌, Bool-cases, inl, inr,
}
use nodelm.Contamination.Tables.{RepositoryRow}
use nodelm.Contamination.Forest.{map_option, row_of, parent_of, update, set_parent, reparent}

pub repository-row_of :
    (k : Text) (rows : List RepositoryRow) (r : RepositoryRow)
    → row_of k rows ≡ some r
    → r.repository ≡ k
unfolding row_of
repository-row_of k [] r h = cc
repository-row_of k (q ∷ rows) r h =
    ground (arith, eq_of_== q.repository k, repository-row_of k rows r)

abbrev pub changed :
    (RepositoryRow → Bool) → (RepositoryRow → RepositoryRow) → RepositoryRow → RepositoryRow
changed test change r = if test r then change r else r

-- An update that keeps the key changes the row that is found, where the row passes its test.
pub row_of-update :
    (test : RepositoryRow → Bool) (change : RepositoryRow → RepositoryRow)
    → ((r : RepositoryRow) → (change r).repository ≡ r.repository)
    → (k : Text) (rows : List RepositoryRow)
    → row_of k (update test change rows) ≡ map_option (changed test change) (row_of k rows)
unfolding row_of update
row_of-update test change keep k [] = refl
row_of-update test change keep k (q ∷ rows) =
    let ih = row_of-update test change keep k rows in
    elim (Bool-cases (test q)) [
      | inl t ↦ elim (Bool-cases (q.repository == k)) [
        | inl u ↦ rw (t, ap (λ s. s == k) (keep q), u) (rw t)
        | inr u ↦ rw (t, ap (λ s. s == k) (keep q), u) ih
      ]
      | inr f ↦ elim (Bool-cases (q.repository == k)) [
        | inl u ↦ rw (f, u) (rw f)
        | inr u ↦ rw (f, u) ih
      ]
    ]

pub parent_of-reparent :
    (child root k : Text) (rows : List RepositoryRow)
    → parent_of k (reparent child root rows)
      ≡ map_option (λ p. if p == child then root else p) (parent_of k rows)
unfolding parent_of reparent
parent_of-reparent child root k rows =
    rw (row_of-update (λ r. r.parent == child) (λ r. record r { parent = root }) (λ r. refl) k rows)
      (at_row (row_of k rows))
  where
    at_row :
        (o : Option RepositoryRow)
        → map_option
            (λ r. r.parent)
            (map_option (changed (λ r. r.parent == child) (λ r. record r { parent = root })) o)
          ≡ map_option (λ p. if p == child then root else p) (map_option (λ r. r.parent) o)
    at_row none = refl
    at_row (some r) = elim (Bool-cases (r.parent == child)) [ inl t ↦ rw t | inr f ↦ rw f ]

pub parent_of-set_parent :
    (item root k : Text) (rows : List RepositoryRow)
    → parent_of k (set_parent item root rows)
      ≡ (if k == item then map_option (λ _. root) (parent_of k rows) else parent_of k rows)
unfolding parent_of set_parent
parent_of-set_parent item root k rows =
    rw
      (row_of-update (λ r. r.repository == item) (λ r. record r { parent = root }) (λ r. refl) k
        rows)
      (at_row (row_of k rows) (repository-row_of k rows))
  where
    at_row :
        (o : Option RepositoryRow)
        → ((r : RepositoryRow) → o ≡ some r → r.repository ≡ k)
        → map_option
            (λ r. r.parent)
            (map_option (changed (λ r. r.repository == item) (λ r. record r { parent = root })) o)
          ≡ (if k == item
              then map_option (λ _. root) (map_option (λ r. r.parent) o)
              else map_option (λ r. r.parent) o)
    at_row none h = elim (Bool-cases (k == item)) [ inl t ↦ rw t | inr f ↦ rw f ]
    at_row (some r) h =
        rw (h r refl) (elim (Bool-cases (k == item)) [ inl t ↦ rw t | inr f ↦ rw f ])
