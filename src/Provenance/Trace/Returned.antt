-- ===== src/Provenance/Trace/Returned.antt =====
-- When `finalize` of provenance/trace_projection.py returns.
use nodelm.Base.{◌≡◌, ◌↔◌, sym, ap, ◌∙◌, inl, inr, Bool, true, false, List, Text, ok, passed}
use nodelm.Provenance.Trace.{
  TraceRow, Projection, ProjectionError, already_finalized, lacks_rollout_key, several_rollout_keys,
  several_sample_ids, not_classified, lacks_reason, not_finalized, added_after_finalization,
  not_exactly_one, repeated_row_index, new_projection, traces,
}
use nodelm.Provenance.Trace.Finalize.{is_keyless, has_collision, rollout_keys, finalize}
use nodelm.Provenance.Trace.Added.{add_rows, added-IsOpen}
use nodelm.Provenance.Trace.Classified.{In-rollout_keys}
use nodelm.Provenance.Trace.Finalized.{traces_open, traces-reject_keyless, finalize-Finalized}
use nodelm.Provenance.Trace.Admitted.{groups_single}
use nodelm.Provenance.Trace.Total.{Result-cases}
use nodelm.Provenance.Trace.Refused.{IsRefused, finalize-IsRefused}
use nodelm.Provenance.Trace.Refused.Rows.{IsAmbiguous}
use nodelm.Provenance.Trace.Refused.Converse.{
  keyless_of-IsKeyless, collision_of-IsCollision, several_of-IsAmbiguous,
}

true_not_false : {b : Bool} → b ≡ true → b ≡ false → ⊥
true_not_false t f = cc

-- The checks that a projection has passed which is finalized.
finalized_passed :
    (p q : Projection)
    → finalize p ≡ ok q
    → (is_keyless (traces p.rows) ≡ false) × (has_collision (traces p.rows) ≡ false)
unfolding finalize
finalized_passed p q h =
    let (_, h) = passed p.finalized already_finalized _ h in
    let (keyless, h) = passed (is_keyless (traces p.rows)) lacks_rollout_key _ h in
    let (collision, _) = passed (has_collision (traces p.rows)) several_rollout_keys _ h in
    (keyless, collision)

module _ (rows : List TraceRow) (p q : Projection) (h : add_rows new_projection rows ≡ ok p)
    (k : finalize p ≡ ok q) where
  unambiguous : (key : Text) → IsAmbiguous rows key → ⊥
  unambiguous key a =
      let fin = finalize-Finalized rows p q h k in
      true_not_false (several_of-IsAmbiguous rows key a) (
        groups_single rows key (rollout_keys rows) _ fin.after
          (traces-reject_keyless rows p fin.open_before) fin.open_before.keyed fin.looped
          (In-rollout_keys rows a.first key a.are_rows.0 a.keyed.0))

  not_refused : (e : ProjectionError) → IsRefused rows e → ⊥
  not_refused lacks_rollout_key r = true_not_false (keyless_of-IsKeyless rows r) (
      ap is_keyless (sym (traces_open rows p (added-IsOpen rows p h))) ∙ (finalized_passed p q k).0)
  not_refused several_rollout_keys r = true_not_false (collision_of-IsCollision rows r) (
      ap has_collision (sym (traces_open rows p (added-IsOpen rows p h)))
      ∙ (finalized_passed p q k).1)
  not_refused (several_sample_ids key) r = unambiguous key r
  not_refused added_after_finalization r = r
  not_refused not_exactly_one r = r
  not_refused already_finalized r = r
  not_refused not_classified r = r
  not_refused lacks_reason r = r
  not_refused not_finalized r = r
  not_refused (repeated_row_index i) r = r

-- Once its rows are added a trace is finalized exactly if none of them is a normalized row without a
-- rollout key, no two of them hold one sample under two keys, and no rollout holds two samples while its
-- rows are all normalized and have one digest.
pub finalize_iff_not-IsRefused :
    (rows : List TraceRow) (p : Projection)
    → add_rows new_projection rows ≡ ok p
    → ((q : Projection) × (finalize p ≡ ok q)) ↔ ((e : ProjectionError) → ¬ IsRefused rows e)
finalize_iff_not-IsRefused rows p h = (
  λ f. not_refused rows p f.0 h f.1,
  λ n. elim (Result-cases (finalize p)) [
    | inl (e, f) ↦ absurd (n e (finalize-IsRefused rows p e h f))
    | inr r ↦ r
  ],
)
