-- ===== src/Provenance/Trace/Total.antt =====
-- The checks of `finalize` of provenance/trace_projection.py after its loop over the rollouts.
use nodelm.Base.{
  ◌≡◌, refl, sym, subst, ◌⊎◌, inl, inr, false, ◌&&◌, List, length, arith, eqb, In, In_of_map,
  select, In-select, for_each, Result, err, ok, Bool-cases, Option-cases,
}
use nodelm.Base.Counts.{none_selected}
use nodelm.Gates.Status.{any-false, any_of_none, is_none}
use nodelm.Provenance.Trace.{
  TraceRow, StoredRow, Projection, new_row, has_key, has_sample, is_conflicting, min_row_index,
  decide_group,
}
use nodelm.Provenance.Trace.Finalize.{
  is_keyless, rollout_keys, is_reject, reject_keyless, check_classified,
}
use nodelm.Provenance.Trace.Decided.{decided}
use nodelm.Provenance.Trace.Added.{IsExact, IsOpen}
use nodelm.Provenance.Trace.Admitted.{has_key_of_key}
use nodelm.Provenance.Trace.Classified.{classify, classify_keyless, classify_keyed}
use nodelm.Provenance.Trace.Finalized.{finalized_rows}

pub Result-cases :
    {E A : Type 0} (r : Result E A) → ((e : E) × (r ≡ err e)) ⊎ ((a : A) × (r ≡ ok a))
Result-cases (err e) = inl (e, refl)
Result-cases (ok a) = inr (a, refl)

-- A row that is decided: a rejected one has a reason.
record IsDecided (s : StoredRow) : Type 0 where
  classified : is_none s.decision ≡ false
  reasoned : (is_reject s.decision && is_none s.reason_code) ≡ false

reason_of : (r : TraceRow) → IsExact r → has_sample r ≡ false → is_none r.reason_code ≡ false
reason_of r exact h = ground arith

decided-IsDecided :
    (group : List TraceRow) (r : TraceRow)
    → In r group
    → IsExact r
    → IsDecided (decided group (new_row r))
unfolding decided is_none is_reject
decided-IsDecided group r i exact = elim (Bool-cases (is_conflicting group)) [
  | inl c ↦ rw c (record { classified = refl; reasoned = refl })
  | inr c ↦ elim (Bool-cases (eqb (length (select has_sample group)) 0)) [
    | inl n ↦
        let none_in = none_selected has_sample r group (ground arith) i in
        rw (c, n) (record { classified = refl; reasoned = reason_of r exact none_in })
    | inr n ↦ elim (Bool-cases (eqb r.row_index (min_row_index group))) [
      | inl m ↦ rw (c, n, m) (record { classified = refl; reasoned = refl })
      | inr m ↦ rw (c, n, m) (record { classified = refl; reasoned = refl })
    ]
  ]
]

classify-IsDecided :
    (rows : List TraceRow) (r : TraceRow)
    → In r rows
    → IsExact r
    → is_keyless rows ≡ false
    → IsDecided (classify rows r)
unfolding is_keyless is_reject is_none
classify-IsDecided rows r i exact h = elim (Option-cases r.rollout_key) [
  | inl e ↦
      let f = any-false (λ (x : TraceRow). has_sample x && is_none x.rollout_key) r rows h i in
      subst IsDecided (sym (classify_keyless rows r e))
        (record { classified = refl; reasoned = reason_of r exact (ground arith) })
  | inr (key, e) ↦ subst IsDecided (sym (classify_keyed rows key r e)) (
      decided-IsDecided (select (has_key key) rows) r
        (In-select (has_key key) r rows i (has_key_of_key key r e)) exact)
]

check_classified_total :
    (rows : List StoredRow)
    → ((s : StoredRow) → In s rows → IsDecided s)
    → check_classified rows ≡ ok tt
unfolding check_classified
check_classified_total rows h =
    rw (any_of_none (λ s. is_none s.decision) rows (λ s i. (h s i).classified)) (
      rw
        (any_of_none (λ s. is_reject s.decision && is_none s.reason_code) rows
          (λ s i. (h s i).reasoned))
        refl)

-- What the loop over the rollouts leaves passes the checks after it.
pub loop_ends :
    (rows : List TraceRow) (p m : Projection)
    → IsOpen rows p
    → is_keyless rows ≡ false
    → for_each decide_group (reject_keyless p) (rollout_keys rows) ≡ ok m
    → check_classified m.rows ≡ ok tt
loop_ends rows p m o keyless e = check_classified_total m.rows (λ s i.
    let (r, j, f) =
      In_of_map (classify rows) s rows (subst (In s) (finalized_rows rows p m o e) i) in
    subst IsDecided (sym f) (classify-IsDecided rows r j (o.exact r j) keyless))
