-- ===== src/Provenance/Trace/Admitted.antt =====
-- Which rows of a trace are admitted.
use nodelm.Base.{
  ◌≤◌, ◌≡◌, ◌↔◌, sym, ap, ◌∙◌, subst, inl, inr, true, false, not, List, [], ◌∷◌, Text, ==-refl,
  eq_of_==, In, In_of_map, select, In-select, In_of_select, for_each, ok, >>=-eq-ok, passed, Option,
  some, Option-cases,
}
use nodelm.Gates.Status.{is_none}
use nodelm.Provenance.Trace.{
  TraceRow, Decision, admit, reject, StoredRow, Projection, new_projection, new_row, is_text,
  has_key, traces, has_several_samples, several_sample_ids, decide_group,
}
use nodelm.Provenance.Trace.Finalize.{rollout_keys, finalize}
use nodelm.Provenance.Trace.Decided.{decided, traces-turn, decide_group-turn, IsKeyed}
use nodelm.Provenance.Trace.Settled.{
  false_of_not, Admits-of, IsSettled-of, admitted_of, single_sample,
}
use nodelm.Provenance.Trace.Added.{add_rows}
use nodelm.Provenance.Trace.Classified.{
  classify, classify_keyless, classify_keyed, classify-trace, In-rollout_keys,
}
use nodelm.Provenance.Trace.Finalized.{traces-reject_keyless, finalize-Finalized, finalize-classify}

-- The row that a trace's projection admits: it is normalized, the first row of its rollout, and every
-- other row of the rollout has its digest and its sample.
pub record IsAdmitted (rows : List TraceRow) (r : TraceRow) : Type 0 where
  pub key : Text
  pub keyed : r.rollout_key ≡ some key
  pub sampled : is_none r.sample_id ≡ false
  pub digests :
      (s : TraceRow) → In s rows → s.rollout_key ≡ some key → s.raw_row_sha256 ≡ r.raw_row_sha256
  pub samples : (s : TraceRow) → In s rows → s.rollout_key ≡ some key → s.sample_id ≡ r.sample_id
  pub least : (s : TraceRow) → In s rows → s.rollout_key ≡ some key → r.row_index ≤ s.row_index

decide_group_single :
    (p q : Projection) (key : Text)
    → decide_group p key ≡ ok q
    → has_several_samples (select (has_key key) (traces p.rows)) ≡ false
unfolding decide_group
decide_group_single p q key h =
    (passed (has_several_samples (select (has_key key) (traces p.rows))) (several_sample_ids key) _
      h).0

-- A loop over the groups that returns has met no rollout with several samples.
pub groups_single :
    (T : List TraceRow) (key : Text) (keys : List Text) (p q : Projection)
    → traces p.rows ≡ T
    → IsKeyed T
    → for_each decide_group p keys ≡ ok q
    → In key keys
    → has_several_samples (select (has_key key) T) ≡ false
unfolding for_each
groups_single T key [] p q e keyed h i = absurd i
groups_single T key (k ∷ keys) p q e keyed h i =
    let (m, f, g) = >>=-eq-ok (decide_group p k) _ h in
    let (first, _) = decide_group-turn p m k (rw e keyed) f in
    let again : traces m.rows ≡ T = ap traces first ∙ traces-turn (traces p.rows) k p.rows ∙ e in
    elim i [
      | inl n ↦
          subst (λ x. has_several_samples (select (has_key key) x) ≡ false) e
            (subst (λ x. has_several_samples (select (has_key x) (traces p.rows)) ≡ false) (sym n)
              (decide_group_single p m k f))
      | inr j ↦ groups_single T key keys m q again keyed g j
    ]

pub key_of_has_key : (key : Text) (r : TraceRow) → has_key key r ≡ true → r.rollout_key ≡ some key
unfolding is_text
key_of_has_key key r h = elim (Option-cases r.rollout_key) [
  | inl e ↦ let f = ap (is_text key) e in cc
  | inr (k, e) ↦ e ∙ ap some (eq_of_== k key (ap (is_text key) (sym e) ∙ h))
]

pub has_key_of_key : (key : Text) (r : TraceRow) → r.rollout_key ≡ some key → has_key key r ≡ true
unfolding is_text
has_key_of_key key r e = ap (is_text key) e ∙ ==-refl key

module _ (rows : List TraceRow) (r : TraceRow) (i : In r rows) where
  abbrev group_of : Text → List TraceRow
  group_of key = select (has_key key) rows

  In-group_of :
      (key : Text) (s : TraceRow) → In s rows → s.rollout_key ≡ some key → In s (group_of key)
  In-group_of key s j e = In-select (has_key key) s rows j (has_key_of_key key s e)

  IsAdmitted-row :
      (key : Text)
      → r.rollout_key ≡ some key
      → has_several_samples (group_of key) ≡ false
      → (decided (group_of key) (new_row r)).decision ≡ some admit
      → IsAdmitted rows r
  IsAdmitted-row key e single h =
      let a = Admits-of (group_of key) r h in
      let k = In-group_of key r i e in
      let settled = IsSettled-of (group_of key) r k a in
      record {
        key = key;
        keyed = e;
        sampled = false_of_not _ settled.sampled;
        digests = λ s j f. settled.digests s (In-group_of key s j f);
        samples = λ s j f. single_sample (group_of key) r s k (In-group_of key s j f) a single;
        least = λ s j f. settled.least s (In-group_of key s j f);
      }

  row_admitted :
      (a : IsAdmitted rows r) → (decided (group_of a.key) (new_row r)).decision ≡ some admit
  row_admitted a =
      let of_key : (s : TraceRow)
          → In s (group_of a.key)
          → In s rows × (s.rollout_key ≡ some a.key) =
        λ s j.
          let (k, t) = In_of_select (has_key a.key) s rows j in (k, key_of_has_key a.key s t) in
      admitted_of (group_of a.key) r (In-group_of a.key r i a.keyed) (record {
        sampled = ap not a.sampled;
        digests = λ s j. let (k, e) = of_key s j in a.digests s k e;
        samples = λ s j.
            let (k, e) = of_key s j in
            ap (λ x. not (is_none x)) (a.samples s k e) ∙ ap not a.sampled;
        least = λ s j. let (k, e) = of_key s j in a.least s k e;
      })

rejected_first : ◌≡◌ {A = Option Decision} (some reject) (some admit) → ⊥
rejected_first h = cc

classify-IsAdmitted :
    (rows : List TraceRow) (r : TraceRow)
    → In r rows
    → ((key : Text)
        → r.rollout_key ≡ some key
        → has_several_samples (select (has_key key) rows) ≡ false)
    → ((classify rows r).decision ≡ some admit) ↔ IsAdmitted rows r
classify-IsAdmitted rows r i single = elim (Option-cases r.rollout_key) [
  | inl e ↦ (
    λ h.
        absurd
          (rejected_first (subst (λ x. x.decision ≡ some admit) (classify_keyless rows r e) h)),
    λ a. absurd (let f = e in let g = a.keyed in cc),
  )
  | inr (key, e) ↦ (
    λ h.
        IsAdmitted-row rows r i key e (single key e)
          (subst (λ x. x.decision ≡ some admit) (classify_keyed rows key r e) h),
    λ a.
        subst (λ x. x.decision ≡ some admit) (sym (classify_keyed rows a.key r a.keyed))
          (row_admitted rows r i a),
  )
]

-- In a trace that is finalized a row is admitted exactly if it is normalized and is the first row of its
-- rollout, and all rows of the rollout have its digest and its sample.
pub finalize-IsAdmitted :
    (rows : List TraceRow) (p q : Projection) (s : StoredRow)
    → add_rows new_projection rows ≡ ok p
    → finalize p ≡ ok q
    → In s q.rows
    → (s.decision ≡ some admit) ↔ IsAdmitted rows s.trace
finalize-IsAdmitted rows p q s h k i =
    let (e, _) = finalize-classify rows p q h k in
    let (r, j, f) = In_of_map (classify rows) s rows (subst (In s) e i) in
    let fin = finalize-Finalized rows p q h k in
    let single = λ (key : Text) (g : r.rollout_key ≡ some key).
      groups_single rows key (rollout_keys rows) _ fin.after
        (traces-reject_keyless rows p fin.open_before) fin.open_before.keyed fin.looped
        (In-rollout_keys rows r key j g) in
    subst (λ x. (x.decision ≡ some admit) ↔ IsAdmitted rows x.trace) (sym f)
      (subst (λ x. ((classify rows r).decision ≡ some admit) ↔ IsAdmitted rows x)
        (sym (classify-trace rows r)) (classify-IsAdmitted rows r j single))
