-- ===== src/Provenance/Trace/Counted.antt =====
-- The counts of a trace that is finalized, of provenance/trace_projection.py.
use nodelm.Base.{
  ok-injective, ℕ, ◌+◌, ◌≡◌, refl, ap, ◌∙◌, subst, Bool, false, not, List, [], ◌∷◌, length, arith,
  select, for_each, ok, >>=-eq-ok, passed, Option, none, some,
}
use nodelm.Base.Counts.{length-map}
use nodelm.Gates.Status.{any, is_none}
use nodelm.Provenance.Trace.{
  TraceRow, Decision, admit, reject, StoredRow, Projection, already_finalized, lacks_rollout_key,
  several_rollout_keys, not_classified, new_projection, traces, decide_group,
}
use nodelm.Provenance.Trace.Finalize.{
  is_keyless, has_collision, rollout_keys, is_admit, is_reject, reject_keyless, check_classified,
  finalize, admitted_count, rejected_count, require_finalized,
}
use nodelm.Provenance.Trace.Added.{add_rows}
use nodelm.Provenance.Trace.Classified.{classify}
use nodelm.Provenance.Trace.Finalized.{finalize-classify}

any-cons :
    {A : Type 0} (test : A → Bool) (x : A) (xs : List A)
    → any test (x ∷ xs) ≡ false
    → (test x ≡ false) × (any test xs ≡ false)
unfolding any
any-cons test x xs h = ground arith

is_reject-not : (d : Option Decision) → is_none d ≡ false → is_reject d ≡ not (is_admit d)
unfolding is_none is_admit is_reject
is_reject-not none h = cc
is_reject-not (some admit) h = refl
is_reject-not (some reject) h = refl

length_of_decisions :
    (rows : List StoredRow)
    → any (λ (s : StoredRow). is_none s.decision) rows ≡ false
    → length (select (λ (s : StoredRow). is_admit s.decision) rows)
        + length (select (λ (s : StoredRow). is_reject s.decision) rows)
      ≡ length rows
unfolding any
length_of_decisions [] h = omega arith
length_of_decisions (s ∷ rows) h =
    let (f, g) = any-cons (λ (s : StoredRow). is_none s.decision) s rows h in
    ground (arith, is_reject-not s.decision f, length_of_decisions rows g)

-- In a trace that is finalized every row that was added counts as admitted or as rejected, and as one
-- of them only.
pub finalize-counts :
    (rows : List TraceRow) (p q : Projection)
    → add_rows new_projection rows ≡ ok p
    → finalize p ≡ ok q
    → (admitted rejected : ℕ) × (admitted_count q ≡ ok admitted)
      × (rejected_count q ≡ ok rejected)
      × (admitted + rejected ≡ length rows)
unfolding admitted_count rejected_count require_finalized finalize check_classified
finalize-counts rows p q h k =
    let (e, f) = finalize-classify rows p q h k in
    let (_, k1) = passed p.finalized already_finalized _ k in
    let (_, k2) = passed (is_keyless (traces p.rows)) lacks_rollout_key _ k1 in
    let (_, k3) = passed (has_collision (traces p.rows)) several_rollout_keys _ k2 in
    let (m, g, k4) =
      >>=-eq-ok (for_each decide_group (reject_keyless p) (rollout_keys (traces p.rows))) _ k3 in
    let (u, k5, k6) = >>=-eq-ok (check_classified m.rows) _ k4 in
    let (n, _) = passed (any (λ (s : StoredRow). is_none s.decision) m.rows) not_classified _ k5 in
    let same : m.rows ≡ q.rows = ap (λ x. x.rows) (ok-injective k6) in
    (
      length (select (λ (s : StoredRow). is_admit s.decision) q.rows),
      length (select (λ (s : StoredRow). is_reject s.decision) q.rows),
      rw f refl,
      rw f refl,
      length_of_decisions q.rows
            (subst (λ x. any (λ (s : StoredRow). is_none s.decision) x ≡ false) same n)
          ∙ ap length e
          ∙ length-map (classify rows) rows,
    )
