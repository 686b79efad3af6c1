-- ===== src/Provenance/Trace/Added.antt =====
-- What `add_row` of provenance/trace_projection.py leaves, for a list of rows.
use mathlib.Core.List.{append-nil, append_assoc, map-append}
use nodelm.Base.{
  ◌≡◌, refl, sym, ap, ◌∙◌, subst, inl, inr, Bool, false, not, ◌&&◌, ◌||◌, List, [], ◌∷◌, ◌++◌, map,
  arith, eqb, In, In-map, In-append_cases, for_each, Result, ok, >>=-eq-ok, ok-injective,
  Bool-cases,
}
use nodelm.Gates.Status.{any, any-false, is_none}
use nodelm.Provenance.Trace.{
  TraceRow, StoredRow, Projection, ProjectionError, new_projection, new_row, add_row,
}
use nodelm.Provenance.Trace.Decided.{IsKeyed}

abbrev pub add_rows : Projection → List TraceRow → Result ProjectionError Projection
add_rows = for_each (λ p r. add_row r p)

-- A row has a sample or a reason, and not both.
abbrev pub IsExact : TraceRow → Type 0
IsExact r = is_none r.reason_code ≡ not (is_none r.sample_id)

-- What is added and not yet classified.
pub record IsOpen (rows : List TraceRow) (p : Projection) : Type 0 where
  pub stored : p.rows ≡ map new_row rows
  pub open_still : p.finalized ≡ false
  pub keyed : IsKeyed rows
  pub exact : (r : TraceRow) → In r rows → IsExact r

abbrev is_inexact : TraceRow → Bool
is_inexact r =
    is_none r.sample_id && is_none r.reason_code
    || not (is_none r.sample_id) && not (is_none r.reason_code)

IsExact-of : (r : TraceRow) → is_inexact r ≡ false → IsExact r
IsExact-of r h = elim (Bool-cases (is_none r.sample_id)) [
  | inl t ↦ elim (Bool-cases (is_none r.reason_code)) [
    | inl u ↦ ground arith
    | inr u ↦ ground arith
  ]
  | inr f ↦ elim (Bool-cases (is_none r.reason_code)) [
    | inl u ↦ ground arith
    | inr u ↦ ground arith
  ]
]

record Adds (r : TraceRow) (p q : Projection) : Type 0 where
  added : q.rows ≡ p.rows ++ new_row r ∷ []
  open_after : q.finalized ≡ false
  exact_row : is_inexact r ≡ false
  fresh : any (λ (s : StoredRow). eqb s.trace.row_index r.row_index) p.rows ≡ false

add_row-Adds : (r : TraceRow) (p q : Projection) → add_row r p ≡ ok q → Adds r p q
unfolding add_row
add_row-Adds r p q h = ground arith

add_row-IsOpen :
    (r : TraceRow) (rows : List TraceRow) (p q : Projection)
    → IsOpen rows p
    → add_row r p ≡ ok q
    → IsOpen (rows ++ r ∷ []) q
add_row-IsOpen r rows p q o h =
    let a = add_row-Adds r p q h in
    let other : (s : TraceRow) → In s rows → eqb s.row_index r.row_index ≡ false = λ s i.
      any-false (λ (x : StoredRow). eqb x.trace.row_index r.row_index) (new_row s) p.rows a.fresh
        (subst (In (new_row s)) (sym o.stored) (In-map new_row s rows i)) in
    record {
      stored =
          a.added ∙ ap (λ x. x ++ new_row r ∷ []) o.stored ∙ sym (map-append new_row rows (r ∷ []));
      open_still = a.open_after;
      keyed = λ s t i j e. elim (In-append_cases s rows (r ∷ []) i) [
        | inl k ↦ elim (In-append_cases t rows (r ∷ []) j) [
          | inl l ↦ o.keyed s t k l e
          | inr l ↦ elim l [
            | inl m ↦
                let f = other s k in
                let g = ap (λ (x : TraceRow). x.row_index) m in absurd (ground arith)
            | inr m ↦ absurd m
          ]
        ]
        | inr k ↦ elim (In-append_cases t rows (r ∷ []) j) [
          | inl l ↦ elim k [
            | inl m ↦
                let f = other t l in
                let g = ap (λ (x : TraceRow). x.row_index) m in absurd (ground arith)
            | inr m ↦ absurd m
          ]
          | inr l ↦ elim k [
            | inl m ↦ elim l [ inl n ↦ m ∙ sym n | inr n ↦ absurd n ]
            | inr m ↦ absurd m
          ]
        ]
      ];
      exact = λ s i. elim (In-append_cases s rows (r ∷ []) i) [
        | inl k ↦ o.exact s k
        | inr k ↦ elim k [
          | inl m ↦ subst IsExact (sym m) (IsExact-of r a.exact_row)
          | inr m ↦ absurd m
        ]
      ];
    }

add_rows-IsOpen :
    (rest rows : List TraceRow) (p q : Projection)
    → IsOpen rows p
    → add_rows p rest ≡ ok q
    → IsOpen (rows ++ rest) q
unfolding for_each
add_rows-IsOpen [] rows p q o h =
    subst (λ x. IsOpen x q) (sym (append-nil rows)) (subst (IsOpen rows) (ok-injective h) o)
add_rows-IsOpen (r ∷ rest) rows p q o h =
    let (m, e, e') = >>=-eq-ok (add_row r p) _ h in
    subst (λ x. IsOpen x q) (append_assoc rows (r ∷ []) rest)
      (add_rows-IsOpen rest (rows ++ r ∷ []) m q (add_row-IsOpen r rows p m o e) e')

pub added-IsOpen :
    (rows : List TraceRow) (p : Projection) → add_rows new_projection rows ≡ ok p → IsOpen rows p
added-IsOpen rows p h =
    add_rows-IsOpen rows [] new_projection p
      (record {
        stored = refl;
        open_still = refl;
        keyed = λ r s i. absurd i;
        exact = λ r i. absurd i;
      })
      h
