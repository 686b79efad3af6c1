-- ===== src/Provenance/Trace/Finalized.antt =====
-- What `finalize` of provenance/trace_projection.py returns.
use nodelm.Base.{
  ◌≡◌, sym, ap, ◌∙◌, true, List, map, arith, for_each, ok, >>=-eq-ok, passed, ok-injective,
}
use nodelm.Provenance.Trace.{
  TraceRow, Projection, already_finalized, lacks_rollout_key, several_rollout_keys, new_projection,
  new_row, traces, decide_group,
}
use nodelm.Provenance.Trace.Finalize.{
  is_keyless, has_collision, rollout_keys, reject_keyless, check_classified, finalize,
}
use nodelm.Provenance.Trace.Added.{add_rows, IsOpen, added-IsOpen}
use mathlib.Core.List.{map-id}
use nodelm.Provenance.Trace.Decided.{map_cong, map-map}
use nodelm.Provenance.Trace.Classified.{
  classify, groups-turns, keyless_rejected, row-classify, turns,
}

pub traces_open : (rows : List TraceRow) (p : Projection) → IsOpen rows p → traces p.rows ≡ rows
traces_open rows p o = ap traces o.stored ∙ map-map (λ s. s.trace) new_row rows ∙ map-id rows

keyless_rows :
    (rows : List TraceRow) (p : Projection)
    → IsOpen rows p
    → (reject_keyless p).rows ≡ map (λ r. keyless_rejected (new_row r)) rows
unfolding reject_keyless
keyless_rows rows p o = ap (map keyless_rejected) o.stored ∙ map-map keyless_rejected new_row rows

pub traces-reject_keyless :
    (rows : List TraceRow) (p : Projection) → IsOpen rows p → traces (reject_keyless p).rows ≡ rows
traces-reject_keyless rows p o =
    ap traces (keyless_rows rows p o)
    ∙ map-map (λ s. s.trace) (λ r. keyless_rejected (new_row r)) rows
    ∙ map_cong (λ r. (keyless_rejected (new_row r)).trace) (λ r. r) rows (λ r i. ground arith)
    ∙ map-id rows

-- The loop over the groups, from the rows that were added.
pub finalized_rows :
    (rows : List TraceRow) (p m : Projection)
    → IsOpen rows p
    → for_each decide_group (reject_keyless p) (rollout_keys rows) ≡ ok m
    → m.rows ≡ map (classify rows) rows
finalized_rows rows p m o h =
    let turned =
      groups-turns rows (rollout_keys rows) (reject_keyless p) m (traces-reject_keyless rows p o)
        o.keyed h in
    turned.0
    ∙ ap (map (turns rows (rollout_keys rows))) (keyless_rows rows p o)
    ∙ map-map (turns rows (rollout_keys rows)) (λ r. keyless_rejected (new_row r)) rows
    ∙ map_cong _ _ rows (row-classify rows)

-- What `finalize` has gone through when it returns.
pub record Finalized (rows : List TraceRow) (p q : Projection) : Type 0 where
  pub open_before : IsOpen rows p
  pub after : Projection
  pub looped : for_each decide_group (reject_keyless p) (rollout_keys rows) ≡ ok after
  pub result : record after { finalized = true } ≡ q

pub finalize-Finalized :
    (rows : List TraceRow) (p q : Projection)
    → add_rows new_projection rows ≡ ok p
    → finalize p ≡ ok q
    → Finalized rows p q
unfolding finalize
finalize-Finalized rows p q h k =
    let o = added-IsOpen rows p h in
    let (_, k1) = passed p.finalized already_finalized _ k in
    let (_, k2) = passed (is_keyless (traces p.rows)) lacks_rollout_key _ k1 in
    let (_, k3) = passed (has_collision (traces p.rows)) several_rollout_keys _ k2 in
    let (m, e, k4) =
      >>=-eq-ok (for_each decide_group (reject_keyless p) (rollout_keys (traces p.rows))) _ k3 in
    let (u, _, k5) = >>=-eq-ok (check_classified m.rows) _ k4 in
    record {
      open_before = o;
      after = m;
      looped =
          ap (λ x. for_each decide_group (reject_keyless p) (rollout_keys x))
            (sym (traces_open rows p o))
          ∙ e;
      result = ok-injective k5;
    }

-- In a trace that is finalized each row is decided by the rows that share its rollout key, whatever the
-- order of the groups.
pub finalize-classify :
    (rows : List TraceRow) (p q : Projection)
    → add_rows new_projection rows ≡ ok p
    → finalize p ≡ ok q
    → (q.rows ≡ map (classify rows) rows) × (q.finalized ≡ true)
finalize-classify rows p q h k =
    let f = finalize-Finalized rows p q h k in
    (
      ap (λ x. x.rows) (sym f.result) ∙ finalized_rows rows p f.after f.open_before f.looped,
      ap (λ x. x.finalized) (sym f.result),
    )
