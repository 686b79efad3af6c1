-- ===== src/Contamination/Splits/Compress.antt =====
-- `_compress_repository_groups` in a flat table.
use nodelm.Base.{
  ◌≡◌, refl, ap, ◌∙◌, false, List, [], ◌∷◌, Text, ◌==◌, ==-refl, In, In_of_map, for_each, ok, some,
  inl, inr, Bool-cases,
}
use nodelm.Contamination.Tables.{RepositoryRow, Database}
use nodelm.Contamination.Ordering.{order_by, In_of_order_by}
use nodelm.Contamination.Forest.{map_option, row_of, parent_of, set_parent}
use nodelm.Contamination.Forest.Flat.{
  IsFlat, SameParents, IsFlat-SameParents, find_root_flat, set_parent-SameParents,
}
use nodelm.Contamination.Forest.Union.{Known, Known-SameParents}
use nodelm.Contamination.Linking.Joins.{Known-of_In}
use nodelm.Contamination.Splits.{repository_names, compress_repository, compress_repository_groups}

-- A row's key is found.
pub row_of_In :
    (r : RepositoryRow) (rows : List RepositoryRow)
    → In r rows
    → (q : RepositoryRow) × (row_of r.repository rows ≡ some q)
unfolding row_of
row_of_In r [] i = absurd i
row_of_In r (q ∷ rows) i = elim (Bool-cases (q.repository == r.repository)) [
  | inl t ↦ (q, rw t)
  | inr f ↦ elim i [
    | inl e ↦ absurd (differs e f)
    | inr k ↦ let (s, e) = row_of_In r rows k in (s, rw f e)
  ]
]
  where
    differs : r ≡ q → (q.repository == r.repository) ≡ false → ⊥
    differs e f =
        cc (ap (λ (x : RepositoryRow). x.repository == r.repository) e, ==-refl r.repository)

name_known :
    (rows : List RepositoryRow) (k : Text)
    → In k (repository_names rows)
    → (p : Text) × (parent_of k rows ≡ some p)
unfolding repository_names parent_of
name_known rows k i =
    let (r, i', e) =
      In_of_map (λ (r : RepositoryRow). r.repository) k (order_by (λ r. r.repository) rows) i in
    let (q, e') = row_of_In r rows (In_of_order_by (λ r. r.repository) r rows i') in
    (q.parent, ap (map_option (λ (r : RepositoryRow). r.parent)) (ap (λ s. row_of s rows) e ∙ e'))

record Compressed (rows : List RepositoryRow) (names : List Text) : Type 0 where
  after : List RepositoryRow
  result : for_each compress_repository rows names ≡ ok after
  same : SameParents rows after

compress_names :
    (names : List Text) (rows : List RepositoryRow)
    → IsFlat rows
    → Known rows names
    → Compressed rows names
unfolding for_each compress_repository
compress_names [] rows flat known = record { after = rows; result = refl; same = λ k. refl }
compress_names (k ∷ names) rows flat ((p, e), known) =
    let r = find_root_flat rows k p flat e in
    let next = set_parent k p r.after in
    let same : SameParents rows next =
      λ j. set_parent-SameParents k p r.after (r.same k ∙ e) j ∙ r.same j in
    let rest =
      compress_names names next (IsFlat-SameParents same flat)
        (Known-SameParents rows next names same known) in
    record {
      after = rest.after;
      result = rw r.result rest.result;
      same = λ j. rest.same j ∙ same j;
    }

pub record CompressedGroups (db : Database) : Type 0 where
  pub rows : List RepositoryRow
  pub result : compress_repository_groups db ≡ ok (record db { repositories = rows })
  pub same : SameParents db.repositories rows

pub compress_repository_groups_lem : (db : Database) → IsFlat db.repositories → CompressedGroups db
unfolding compress_repository_groups
compress_repository_groups_lem db flat =
    let names = repository_names db.repositories in
    let c =
      compress_names names db.repositories flat
        (Known-of_In db.repositories names (name_known db.repositories)) in
    record { rows = c.after; result = rw c.result; same = c.same }
