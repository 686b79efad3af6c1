-- ===== src/Provenance/Trace/Refused.antt =====
-- Why `finalize` of provenance/trace_projection.py refuses a trace.
pub mod Rows
pub mod Converse
use nodelm.Base.{
  suc, ok-injective, ℕ, ◌+◌, ◌≤◌, ◌<◌, ◌≡◌, ◌≢◌, refl, sym, ap, ◌∙◌, subst, ◌⊎◌, inl, inr, Bool,
  true, false, not, ◌&&◌, List, [], ◌∷◌, map, length, Text, ◌==◌, ==-refl, eq_of_==, ltb, arith,
  eqb, In, In-map, In_of_map, select, In-select, In_of_select, for_each, Result, err, ok, ◌>>=◌,
  ◌>>◌, raise_if, >>=-eq-ok, passed, Option, none, some, Bool-cases, Option-cases,
}
use nodelm.Base.Counts.{none_selected, all_selected}
use nodelm.Gates.Status.{any, any-false, is_none, some_of_is_none}
use nodelm.Contamination.Ordering.{distinct, In_of_distinct}
use nodelm.Provenance.Trace.{
  TraceRow, StoredRow, Projection, ProjectionError, already_finalized, lacks_rollout_key,
  several_rollout_keys, several_sample_ids, not_classified, lacks_reason, not_finalized,
  added_after_finalization, not_exactly_one, repeated_row_index, new_projection, is_text, texts_of,
  count_distinct, has_key, has_sample, traces, has_several_samples, decide_group,
}
use nodelm.Provenance.Trace.Finalize.{
  is_keyless, keys_of_sample, has_collision, rollout_keys, reject_keyless, check_classified,
  finalize,
}
use nodelm.Provenance.Trace.Decided.{IsKeyed, traces-turn, decide_group-turn}
use nodelm.Provenance.Trace.Added.{add_rows, added-IsOpen, IsOpen}
use nodelm.Provenance.Trace.Settled.{false_of_not, count_of_eq, count_some, eq_of_count}
use nodelm.Provenance.Trace.Admitted.{key_of_has_key, has_key_of_key}
use nodelm.Provenance.Trace.Classified.{In-texts_of}
use nodelm.Provenance.Trace.Total.{Result-cases, loop_ends}
use nodelm.Provenance.Trace.Refused.Rows.{
  IsKeyless, IsCollision, IsAmbiguous, IsKeyless-row, IsCollision-rows, IsAmbiguous-rows,
}
use nodelm.Provenance.Trace.Finalized.{traces_open, traces-reject_keyless}

abbrev pub IsRefused : List TraceRow → ProjectionError → Type 0
IsRefused rows lacks_rollout_key = IsKeyless rows
IsRefused rows several_rollout_keys = IsCollision rows
IsRefused rows (several_sample_ids key) = IsAmbiguous rows key
IsRefused rows _ = ⊥

err_eq :
    {A : Type 0} {a b : ProjectionError}
    → ◌≡◌ {A = Result ProjectionError A} (err a) (err b)
    → a ≡ b
err_eq h = cc

not_err :
    {A : Type 0} {a : A} {e : ProjectionError}
    → ◌≡◌ {A = Result ProjectionError A} (ok a) (err e)
    → ⊥
not_err h = cc

-- A check that fails, or what follows it.
failed :
    {A : Type 0} (test : Bool) (e f : ProjectionError) (next : Result ProjectionError A)
    → (raise_if test e >> next) ≡ err f
    → ((test ≡ true) × (f ≡ e)) ⊎ ((test ≡ false) × (next ≡ err f))
failed true e f next h = inl (refl, sym (err_eq h))
failed false e f next h = inr (refl, h)

decide_group_refused :
    (p : Projection) (key : Text) (e : ProjectionError)
    → decide_group p key ≡ err e
    → (e ≡ several_sample_ids key)
      × (has_several_samples (select (has_key key) (traces p.rows)) ≡ true)
unfolding decide_group
decide_group_refused p key e h = ground arith

-- A loop over the groups that fails has met a rollout with several samples.
groups_refused :
    (T : List TraceRow) (keys : List Text) (p : Projection) (e : ProjectionError)
    → traces p.rows ≡ T
    → IsKeyed T
    → for_each decide_group p keys ≡ err e
    → (key : Text) × (e ≡ several_sample_ids key)
      × (has_several_samples (select (has_key key) T) ≡ true)
unfolding for_each
groups_refused T [] p e t keyed h = cc
groups_refused T (key ∷ keys) p e t keyed h = elim (Result-cases (decide_group p key)) [
  | inl (e', f) ↦
      let (g, several) = decide_group_refused p key e' f in
      (
        key,
        sym (err_eq (rw f at h)) ∙ g,
        subst (λ x. has_several_samples (select (has_key key) x) ≡ true) t several,
      )
  | inr (m, f) ↦
      let (first, _) = decide_group-turn p m key (rw t keyed) f in
      groups_refused T keys m e (ap traces first ∙ traces-turn (traces p.rows) key p.rows ∙ t) keyed
        (rw f at h)
]

-- What follows the first two checks.
IsRefused-later :
    (rows : List TraceRow) (p : Projection) (e : ProjectionError)
    → IsOpen rows p
    → is_keyless rows ≡ false
    → (for_each decide_group (reject_keyless p) (rollout_keys rows) >>= λ q.
        check_classified q.rows >> ok (record q { finalized = true }))
      ≡ err e
    → IsRefused rows e
IsRefused-later rows p e o keyless h =
    elim (Result-cases (for_each decide_group (reject_keyless p) (rollout_keys rows))) [
      | inl (e', f) ↦
          let (key, g, several) =
            groups_refused rows (rollout_keys rows) (reject_keyless p) e'
              (traces-reject_keyless rows p o) o.keyed f in
          subst (IsRefused rows) (sym (sym (err_eq (rw f at h)) ∙ g))
            (IsAmbiguous-rows rows key several)
      | inr (m, f) ↦ absurd (not_err (rw (loop_ends rows p m o keyless f) at (rw f at h)))
    ]

-- A trace is refused for a normalized row without a rollout key, or else for a sample with two keys, or
-- else for a rollout whose rows agree and yet have two samples: never for a row that was left without a
-- decision or a reason.
pub finalize-IsRefused :
    (rows : List TraceRow) (p : Projection) (e : ProjectionError)
    → add_rows new_projection rows ≡ ok p
    → finalize p ≡ err e
    → IsRefused rows e
unfolding finalize
finalize-IsRefused rows p e h k =
    let o = added-IsOpen rows p h in
    let t = traces_open rows p o in
    elim (failed p.finalized already_finalized e _ k) [
      | inl (f, _) ↦ absurd (let g = o.open_still in cc)
      | inr (_, k1) ↦ elim (failed (is_keyless (traces p.rows)) lacks_rollout_key e _ k1) [
        | inl (f, g) ↦
            subst (IsRefused rows) (sym g) (IsKeyless-row rows (ap is_keyless (sym t) ∙ f))
        | inr (keyless, k2) ↦
            elim (failed (has_collision (traces p.rows)) several_rollout_keys e _ k2) [
              | inl (f, g) ↦
                  subst (IsRefused rows) (sym g)
                    (IsCollision-rows rows (ap has_collision (sym t) ∙ f))
              | inr (_, k3) ↦
                  IsRefused-later rows p e o (ap is_keyless (sym t) ∙ keyless) (rw t at k3)
            ]
      ]
    ]
