-- ===== src/Contamination/Splits/Overlap.antt =====
-- The excluded roots of `_assign_splits`.
use nodelm.Base.{
  ◌≡◌, refl, sym, ap, ◌∙◌, Bool, true, false, List, [], ◌∷◌, ◌++◌, Text, In, In-append_left,
  In-append_right, In-append_cases, Option, none, some, inl, inr, ◌⊎◌, Bool-cases, if◌then◌else◌,
}
use nodelm.Contamination.Tables.{RepositoryRow, SampleRow}
use nodelm.Contamination.Forest.{parent_of, contains}
use nodelm.Contamination.Forest.Sets.{In_of_contains}
use nodelm.Contamination.Splits.{overlap_root, overlap_roots, insert_roots}

pub In-insert_roots :
    (p : Text) (ps roots : List Text) → In p ps ⊎ In p roots → In p (insert_roots ps roots)
unfolding insert_roots
In-insert_roots p [] roots (inl b) = absurd b
In-insert_roots p [] roots (inr i) = i
In-insert_roots p (q ∷ ps) roots h = In-insert_roots p ps _ (next h (Bool-cases (contains q roots)))
  where
    grown : (b : Bool) → List Text
    grown b = if b then roots else roots ++ q ∷ []

    next :
        In p (q ∷ ps) ⊎ In p roots
        → (contains q roots ≡ true) ⊎ (contains q roots ≡ false)
        → In p ps ⊎ In p (grown (contains q roots))
    next (inl (inr i)) c = inl i
    next (inl (inl e)) (inl t) = inr (rw t (rw e (In_of_contains q roots t)))
    next (inl (inl e)) (inr f) = inr (rw f (In-append_right p roots (q ∷ []) (inl e)))
    next (inr i) (inl t) = inr (rw t i)
    next (inr i) (inr f) = inr (rw f (In-append_left p roots (q ∷ []) i))

pub In_of_insert_roots :
    (p : Text) (ps roots : List Text) → In p (insert_roots ps roots) → In p ps ⊎ In p roots
unfolding insert_roots
In_of_insert_roots p [] roots i = inr i
In_of_insert_roots p (q ∷ ps) roots i =
    next (In_of_insert_roots p ps _ i) (Bool-cases (contains q roots))
  where
    grown : (b : Bool) → List Text
    grown b = if b then roots else roots ++ q ∷ []

    next :
        In p ps ⊎ In p (grown (contains q roots))
        → (contains q roots ≡ true) ⊎ (contains q roots ≡ false)
        → In p (q ∷ ps) ⊎ In p roots
    next (inl i) c = inl (inr i)
    next (inr i) (inl t) = inr (rw t at i)
    next (inr i) (inr f) = elim (In-append_cases p roots (q ∷ []) (rw f at i)) [
      | inl k ↦ inr k
      | inr (inl e) ↦ inl (inl e)
      | inr (inr b) ↦ absurd b
    ]

pub In-overlap_roots :
    (rows : List RepositoryRow) (samples : List SampleRow) (s : SampleRow) (p : Text)
    → In s samples
    → s.benchmark_overlap ≡ true
    → parent_of s.repository rows ≡ some p
    → In p (overlap_roots rows samples)
unfolding overlap_roots
In-overlap_roots rows [] s p i o e = absurd i
In-overlap_roots rows (q ∷ samples) s p (inl same) o e =
    rw
      (
        ap (λ (x : SampleRow). x.benchmark_overlap) (sym same) ∙ o,
        ap (λ (x : SampleRow). parent_of x.repository rows) (sym same) ∙ e,
      )
      (inl refl)
In-overlap_roots rows (q ∷ samples) s p (inr i) o e =
    later q.benchmark_overlap (parent_of q.repository rows) (overlap_roots rows samples)
      (In-overlap_roots rows samples s p i o e)
  where
    later :
        (b : Bool) (found : Option Text) (rest : List Text)
        → In p rest
        → In p (overlap_root b found rest)
    later true (some r) rest k = inr k
    later true none rest k = k
    later false (some r) rest k = k
    later false none rest k = k

-- A sample that overlaps a benchmark, with the root `p`.
pub record Overlaps (rows : List RepositoryRow) (samples : List SampleRow) (p : Text) : Type 0 where
  pub sample : SampleRow
  pub listed : In sample samples
  pub overlap : sample.benchmark_overlap ≡ true
  pub root : parent_of sample.repository rows ≡ some p

overlap_root_cases :
    (p : Text) (b : Bool) (found : Option Text) (rest : List Text)
    → In p (overlap_root b found rest)
    → ((b ≡ true) × (found ≡ some p)) ⊎ In p rest
unfolding overlap_root
overlap_root_cases p true (some r) rest (inl e) = inl (refl, ap some (sym e))
overlap_root_cases p true (some r) rest (inr k) = inr k
overlap_root_cases p true none rest k = inr k
overlap_root_cases p false (some r) rest k = inr k
overlap_root_cases p false none rest k = inr k

pub In_of_overlap_roots :
    (rows : List RepositoryRow) (samples : List SampleRow) (p : Text)
    → In p (overlap_roots rows samples)
    → Overlaps rows samples p
unfolding overlap_roots
In_of_overlap_roots rows [] p i = absurd i
In_of_overlap_roots rows (q ∷ samples) p i =
    elim (overlap_root_cases p q.benchmark_overlap (parent_of q.repository rows)
      (overlap_roots rows samples) i) [
        | inl (o, e) ↦ record { sample = q; listed = inl refl; overlap = o; root = e }
        | inr k ↦
            let r = In_of_overlap_roots rows samples p k in
            record { sample = r.sample; listed = inr r.listed; overlap = r.overlap; root = r.root }
      ]
