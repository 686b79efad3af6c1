-- ===== src/Contamination/Linking.antt =====
-- `_union_value_repositories`, `_union_exact_groups`, `_candidate_length_bounds` and
-- `_union_near_groups` of decontamination/contamination.py: repositories that share a value, or hold
-- near duplicates, are joined.
pub mod Joins
pub mod Exact
pub mod Bounds
pub mod Near
pub mod NearGroups
use nodelm.Base.{
  ℕ, zero, suc, ◌+◌, ◌-◌, ◌*◌, ◌/◌, ◌^◌, Bool, true, false, ◌&&◌, ◌||◌, List, [], ◌∷◌, map, Text,
  ltb_text, ◌==◌, ltb, leb, eqb, if◌then◌else◌, length, select, for_each, Result, ok, err, ◌>>=◌,
  ◌>>◌, raise_if, not, Option, none, some,
}
use nodelm.Base.Fractions.{Fraction}
use nodelm.Fingerprint.Near.{is_near_duplicate}
use nodelm.Contamination.Tables.{
  ContentKind, same_kind, ContentRow, RepositoryRow, ValueRepositoryRow, Database, IndexError,
  threshold_out_of_range, integer_overflow,
}
use nodelm.Contamination.Ordering.{order_by, distinct}
use nodelm.Contamination.Forest.{contains, union_repositories}

-- SELECT DISTINCT repository … WHERE kind = ? AND fingerprint IN (…) ORDER BY repository
unfoldable pub value_repositories_of : ContentKind → List Text → List ValueRepositoryRow → List Text
unfolding same_kind contains distinct
value_repositories_of kind fingerprints rows = distinct (
    map (λ r. r.repository)
      (select (λ r. same_kind r.kind kind && contains r.fingerprint fingerprints) rows))

unfoldable pub union_value_repositories :
    ContentKind → List Text → Database → Result IndexError Database
unfolding value_repositories_of union_repositories
union_value_repositories kind fingerprints db =
    union_repositories db.repositories
      (value_repositories_of kind fingerprints db.value_repositories)
    >>= λ rows. ok (record db { repositories = rows })

-- The rows of one value.
unfoldable pub rows_of_value :
    ContentKind → Text → List ValueRepositoryRow → List ValueRepositoryRow
unfolding same_kind ◌==◌
rows_of_value kind fingerprint = select (λ r. same_kind r.kind kind && r.fingerprint == fingerprint)

-- SELECT fingerprint … GROUP BY fingerprint HAVING COUNT(*) > 1 ORDER BY fingerprint
unfoldable pub shared_fingerprints : ContentKind → List ValueRepositoryRow → List Text
unfolding rows_of_value distinct
shared_fingerprints kind rows =
    select (λ f. ltb 1 (length (rows_of_value kind f rows)))
      (distinct (map (λ r. r.fingerprint) (select (λ r. same_kind r.kind kind) rows)))

-- One round of the loop, with its count.
unfoldable pub union_exact_value :
    ContentKind → ℕ × Database → Text → Result IndexError (ℕ × Database)
unfolding union_value_repositories
union_exact_value kind (count, db) f =
    union_value_repositories kind (f ∷ []) db >>= λ db'. ok (suc count, db')

unfoldable pub union_exact_groups : ContentKind → Database → Result IndexError (ℕ × Database)
unfolding shared_fingerprints union_exact_value for_each
union_exact_groups kind db =
    for_each (union_exact_value kind) (0, db) (shared_fingerprints kind db.value_repositories)

-- The threshold is positive. `math.floor` and `math.ceil` round exact quotients.
unfoldable pub candidate_length_bounds : ℕ → Fraction → ℕ × ℕ
candidate_length_bounds length t =
    let other = 2 * t.denominator - t.numerator in
    if eqb t.numerator 0
    then (0, 2 ^ 63 - 1)
    else (length * t.numerator / other, (length * other + (t.numerator - 1)) / t.numerator)

-- An INTEGER has 64 bits. An infinite quotient, for a threshold next to zero, overflows as well.
unfoldable pub fits_integer : ℕ × ℕ → Bool
fits_integer (minimum, maximum) = leb minimum (2 ^ 63 - 1) && leb maximum (2 ^ 63 - 1)

-- The bounds as parameters of a query.
unfoldable pub bind_bounds : ℕ × ℕ → Result IndexError (ℕ × ℕ)
unfolding fits_integer
bind_bounds bounds = raise_if (not (fits_integer bounds)) integer_overflow >> ok bounds

-- SELECT … WHERE kind = ? AND fingerprint > ? AND length BETWEEN ? AND ? ORDER BY fingerprint
unfoldable pub near_candidates :
    ContentKind → ContentRow → ℕ × ℕ → List ContentRow → List ContentRow
unfolding same_kind ltb_text order_by
near_candidates kind left (minimum, maximum) rows =
    order_by (λ r. r.fingerprint)
      (select
        (λ r.
          same_kind r.kind kind
          && ltb_text left.fingerprint r.fingerprint
          && leb minimum r.length
          && leb r.length maximum)
        rows)

-- The comparisons, the matches and the tables.
abbrev pub NearState : Type 0
NearState = ℕ × ℕ × Database

-- `is_near_duplicate` raises only for a threshold outside of the unit interval.
unfoldable pub compare_texts : Text → Text → Fraction → Result IndexError Bool
unfolding is_near_duplicate
compare_texts left right threshold = elim (is_near_duplicate left right threshold) [
  | ok answer ↦ ok answer
  | err e ↦ err threshold_out_of_range
]

unfoldable pub compare_candidate :
    ContentKind → Fraction → ContentRow → NearState → ContentRow → Result IndexError NearState
unfolding compare_texts union_value_repositories
compare_candidate kind threshold left (comparisons, matches, db) right =
    compare_texts left.text right.text threshold >>= λ near. elim near [
      | false ↦ ok (suc comparisons, matches, db)
      | true ↦
          union_value_repositories kind (left.fingerprint ∷ right.fingerprint ∷ []) db >>= λ db'.
          ok (suc comparisons, suc matches, db')
    ]

-- SELECT … FROM content_values WHERE kind = ? ORDER BY fingerprint
unfoldable pub contents_of : ContentKind → List ContentRow → List ContentRow
unfolding same_kind order_by
contents_of kind rows = order_by (λ r. r.fingerprint) (select (λ r. same_kind r.kind kind) rows)

unfoldable pub union_near_row :
    ContentKind → Fraction → NearState → ContentRow → Result IndexError NearState
unfolding candidate_length_bounds bind_bounds near_candidates compare_candidate for_each
union_near_row kind threshold (comparisons, matches, db) left =
    bind_bounds (candidate_length_bounds left.length threshold) >>= λ bounds.
    for_each (compare_candidate kind threshold left) (comparisons, matches, db)
      (near_candidates kind left bounds db.content_values)

unfoldable pub union_near_groups : ContentKind → Fraction → Database → Result IndexError NearState
unfolding contents_of union_near_row for_each
union_near_groups kind threshold db =
    for_each (union_near_row kind threshold) (0, 0, db) (contents_of kind db.content_values)
