-- ===== src/Contamination/Examples.antt =====
-- The theorems on the groups and on the tables at concrete rows.
use nodelm.Base.{
  ◌≤◌, ◌≡◌, refl, sym, ap, ◌∙◌, true, ok, List, [], ◌∷◌, Text, text, arith, Option, none, some, inl,
  inr, ◌==◌, Bool-cases,
}
use nodelm.Base.Fractions.{Fraction}
use nodelm.Fingerprint.Normalize.{normalize_fingerprint_text}
use nodelm.Fingerprint.Near.{is_near_duplicate}
use nodelm.Contamination.Tables.{RepositoryRow, Database, initialize_database}
use nodelm.Contamination.Forest.{parent_of, row_of}
use nodelm.Contamination.Forest.Flat.{IsFlat}
use nodelm.Contamination.Forest.Union.{Joined, union_joins}
use nodelm.Contamination.Linking.{candidate_length_bounds}
use nodelm.Contamination.Linking.Bounds.{IsThreshold, near_in_bounds}

abbrev row : Text → Text → RepositoryRow
row repository parent = record { repository = repository; parent = parent; split = none }

-- `b` belongs to the group of `a`, and `c` is a group of its own.
abbrev rows : List RepositoryRow
rows = row (text "a") (text "a") ∷ row (text "b") (text "a") ∷ row (text "c") (text "c") ∷ []

parent_of_root : (p : Text) → (p ≡ text "a") → parent_of p rows ≡ some p
unfolding parent_of row_of
parent_of_root p e = ap (λ x. parent_of x rows) e ∙ ap some (sym e)

parent_of_other : (p : Text) → (p ≡ text "c") → parent_of p rows ≡ some p
unfolding parent_of row_of
parent_of_other p e = ap (λ x. parent_of x rows) e ∙ ap some (sym e)

flat : IsFlat rows
unfolding parent_of row_of
flat = record { at_parent = at }
  where
    taken : (q p : Text) → some q ≡ some p → p ≡ q
    taken q p e = cc

    missing : (p : Text) → ◌≡◌ {A = Option Text} none (some p) → ⊥
    missing p e = cc

    at : (k p : Text) → parent_of k rows ≡ some p → parent_of p rows ≡ some p
    at k p e = elim (Bool-cases (text "a" == k)) [
      | inl t ↦ parent_of_root p (taken (text "a") p (rw t at e))
      | inr f ↦ elim (Bool-cases (text "b" == k)) [
        | inl t ↦ parent_of_root p (taken (text "a") p (rw t at (rw f at e)))
        | inr g ↦ elim (Bool-cases (text "c" == k)) [
          | inl t ↦ parent_of_other p (taken (text "c") p (rw t at (rw g at (rw f at e))))
          | inr h ↦ absurd (missing p (rw h at (rw g at (rw f at e))))
        ]
      ]
    ]

found_b : parent_of (text "b") rows ≡ some (text "a")
unfolding parent_of row_of
found_b = refl

found_c : parent_of (text "c") rows ≡ some (text "c")
unfolding parent_of row_of
found_c = refl

union_joins_example : Joined rows (text "c" ∷ text "b" ∷ [])
union_joins_example =
    union_joins rows (text "c" ∷ text "b" ∷ []) flat
      ((text "c", found_c), ((text "a", found_b), tt))

abbrev small_database : Database
small_database = record initialize_database { repositories = rows }

abbrev nine_tenths : Fraction
nine_tenths = record { numerator = 9; denominator = 10 }

accepted : IsThreshold nine_tenths
accepted = record { positive = omega arith; at_most_one = omega arith }

normal_left : normalize_fingerprint_text (text "abcdefghij") ≡ text "abcdefghij"
unfolding normalize_fingerprint_text
normal_left = refl

normal_right : normalize_fingerprint_text (text "abcdefghijk") ≡ text "abcdefghijk"
unfolding normalize_fingerprint_text
normal_right = refl

near : is_near_duplicate (text "abcdefghij") (text "abcdefghijk") nine_tenths ≡ ok true
unfolding is_near_duplicate
near = refl

near_in_bounds_example :
    ((candidate_length_bounds 10 nine_tenths).0 ≤ 11)
    × (11 ≤ (candidate_length_bounds 10 nine_tenths).1)
near_in_bounds_example =
    near_in_bounds nine_tenths (text "abcdefghij") (text "abcdefghijk") accepted normal_left
      normal_right near
