-- ===== src/Contamination/Linking/Near.antt =====
-- The inner loop of `_union_near_groups`.
use nodelm.Base.{
  suc, ◌≤◌, ◌≡◌, sym, ap, ◌∙◌, subst, Bool, true, false, List, [], ◌∷◌, Text, ltb_text, le→leb, In,
  In-select, length, Result, ok,
}
use nodelm.Base.Loops.{Step, loop_done}
use nodelm.Base.Fractions.{Fraction}
use nodelm.Fingerprint.Normalize.{normalize_fingerprint_text}
use nodelm.Fingerprint.Near.{ThresholdError, is_near_duplicate}
use nodelm.Fingerprint.Near.Symmetry.{is_near_duplicate-ok}
use nodelm.Contamination.Tables.{ContentKind, ContentRow, Database}
use nodelm.Contamination.Ordering.{In-order_by}
use nodelm.Contamination.Linking.{
  candidate_length_bounds, fits_integer, bind_bounds, near_candidates, NearState, compare_texts,
  compare_candidate, union_near_row,
}
use nodelm.Contamination.Linking.Bounds.{IsThreshold, near_in_bounds}
use nodelm.Contamination.Linking.Joins.{
  IsLinkable, Linked, Linked-refl, Linked-trans, Together, Together-Linked, union_value_lem,
  same_kind_refl,
}

-- A stored text is in normal form, and its length is stored with it.
pub record IsStored (r : ContentRow) : Type 0 where
  pub normal : normalize_fingerprint_text r.text ≡ r.text
  pub measured : r.length ≡ length r.text

-- With a threshold in range the comparison answers.
pub compare_texts_lem :
    (t : Fraction) (a b : Text)
    → IsThreshold t
    → (answer : Bool) × (is_near_duplicate a b t ≡ ok answer) × (compare_texts a b t ≡ ok answer)
unfolding compare_texts
compare_texts_lem t a b h =
    let (answer, e) = is_near_duplicate-ok a b t h.at_most_one in (answer, e, rw (e, compare_texts))

module _ (kind : ContentKind) (t : Fraction) (h : IsThreshold t) where
  -- Two contents that are near duplicates: their repositories are in one group.
  abbrev pub NearTogether : ContentRow → ContentRow → NearState → Type 0
  NearTogether left right s =
      is_near_duplicate left.text right.text t ≡ ok true
      → Together kind (left.fingerprint ∷ right.fingerprint ∷ []) s.2

  compare_candidate_lem :
      (left : ContentRow) (s : NearState) (right : ContentRow)
      → IsLinkable s.2
      → Step
          (λ u. IsLinkable u.2)
          (λ s u. Linked s.2 u.2)
          (NearTogether left right)
          s
          (compare_candidate kind t left s right)
  unfolding compare_candidate
  compare_candidate_lem left s right l =
      let (answer, near, compared) = compare_texts_lem t left.text right.text h in
      go answer near compared
    where
      go :
          (answer : Bool)
          → is_near_duplicate left.text right.text t ≡ ok answer
          → compare_texts left.text right.text t ≡ ok answer
          → Step
              (λ u. IsLinkable u.2)
              (λ s u. Linked s.2 u.2)
              (NearTogether left right)
              s
              (compare_candidate kind t left s right)
      go false near compared = record {
        after = (suc s.0, s.1, s.2);
        result = rw compared;
        keeps = l;
        related = Linked-refl s.2;
        done = λ e. absurd (false_of (sym near ∙ e));
      }
        where
          false_of : ◌≡◌ {A = Result ThresholdError Bool} (ok false) (ok true) → ⊥
          false_of e = cc
      go true near compared =
          let u = union_value_lem kind (left.fingerprint ∷ right.fingerprint ∷ []) s.2 l in
          record {
            after = (suc s.0, suc s.1, u.after);
            result = rw compared (rw u.result);
            keeps = u.linkable;
            related = u.linked;
            done = λ e. u.together;
          }

  NearTogether-Linked :
      (left right : ContentRow) (s u : NearState)
      → Linked s.2 u.2
      → NearTogether left right s
      → NearTogether left right u
  NearTogether-Linked left right s u l n e =
      Together-Linked kind (left.fingerprint ∷ right.fingerprint ∷ []) s.2 u.2 l (n e)

  module _ (contents : List ContentRow) where
    pub record Running (s : NearState) : Type 0 where
      pub linkable : IsLinkable s.2
      pub same : s.2.content_values ≡ contents

    -- The row is compared with all later rows of its kind.
    abbrev pub RowDone : ContentRow → NearState → Type 0
    RowDone left s =
        (right : ContentRow)
        → In right contents
        → right.kind ≡ kind
        → ltb_text left.fingerprint right.fingerprint ≡ true
        → IsStored left
        → IsStored right
        → NearTogether left right s

    In-near_candidates :
        (left right : ContentRow)
        → In right contents
        → right.kind ≡ kind
        → ltb_text left.fingerprint right.fingerprint ≡ true
        → IsStored left
        → IsStored right
        → is_near_duplicate left.text right.text t ≡ ok true
        → In right (near_candidates kind left (candidate_length_bounds left.length t) contents)
    unfolding near_candidates
    In-near_candidates left right i e later a b near =
        let bounds = candidate_length_bounds left.length t in
        let (low, high) = near_in_bounds t left.text right.text h a.normal b.normal near in
        let low' : bounds.0 ≤ right.length =
          subst (λ n. (candidate_length_bounds n t).0 ≤ right.length) (sym a.measured)
            (subst (λ n. (candidate_length_bounds (length left.text) t).0 ≤ n) (sym b.measured)
              low) in
        let high' : right.length ≤ bounds.1 =
          subst (λ n. right.length ≤ (candidate_length_bounds n t).1) (sym a.measured)
            (subst (λ n. n ≤ (candidate_length_bounds (length left.text) t).1) (sym b.measured)
              high) in
        In-order_by (λ r. r.fingerprint) right _
          (In-select _ right contents i
            (rw (e, same_kind_refl kind, later, le→leb _ _ low', le→leb _ _ high')))

    pub union_near_row_lem :
        (s : NearState) (left : ContentRow)
        → fits_integer (candidate_length_bounds left.length t) ≡ true
        → Running s
        → Step Running (λ s u. Linked s.2 u.2) (RowDone left) s (union_near_row kind t s left)
    unfolding union_near_row bind_bounds
    union_near_row_lem s left fits r =
        let candidates =
          near_candidates kind left (candidate_length_bounds left.length t) s.2.content_values in
        let loop =
          loop_done (compare_candidate kind t left) (λ u. IsLinkable u.2) (λ s u. Linked s.2 u.2)
            (NearTogether left) (λ s. Linked-refl s.2) (λ s u v. Linked-trans s.2 u.2 v.2)
            (NearTogether-Linked left) (compare_candidate_lem left) candidates s r.linkable in
        record {
          after = loop.after;
          result = rw fits (loop.result);
          keeps = record {
            linkable = loop.keeps;
            same = ap (λ (d : Database). d.content_values) loop.related.rest ∙ r.same;
          };
          related = loop.related;
          done = λ right i e later a b near.
              loop.done right
                (subst
                  (λ rows.
                    In right
                      (near_candidates kind left (candidate_length_bounds left.length t) rows))
                  (sym r.same) (In-near_candidates left right i e later a b near))
                near;
        }

    pub RowDone-Linked :
        (left : ContentRow) (s u : NearState) → Linked s.2 u.2 → RowDone left s → RowDone left u
    RowDone-Linked left s u l d right i e later a b =
        NearTogether-Linked left right s u l (d right i e later a b)
