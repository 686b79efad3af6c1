-- ===== src/Contamination/Benchmarks/Near.antt =====
-- The loops of `_mark_near_benchmark_overlap`.
use nodelm.Base.{
  ℕ, suc, ◌≤◌, ◌≡◌, ◌≢◌, refl, sym, ap, ◌∙◌, subst, Bool, true, false, List, arith, ◌==◌, ==_iff,
  le→leb, In, In-select, length, Result, ok,
}
use nodelm.Base.Loops.{Step, loop_done, loop_done_in}
use nodelm.Base.Fractions.{Fraction}
use nodelm.Fingerprint.Near.{ThresholdError, is_near_duplicate}
use nodelm.Contamination.Tables.{ContentKind, ContentRow, Database}
use nodelm.Contamination.Ordering.{In-order_by}
use nodelm.Contamination.Linking.{
  candidate_length_bounds, fits_integer, bind_bounds, NearState, compare_texts, contents_of,
}
use nodelm.Contamination.Linking.Bounds.{IsThreshold, near_in_bounds}
use nodelm.Contamination.Linking.NearGroups.{KindFits}
use nodelm.Contamination.Linking.Joins.{same_kind_refl, In-contents_of}
use nodelm.Contamination.Linking.Near.{IsStored, compare_texts_lem}
use nodelm.Contamination.Benchmarks.{
  benchmark_candidates, compare_benchmark, mark_value_samples, mark_near_row,
  mark_near_benchmark_overlap,
}
use nodelm.Contamination.Benchmarks.Marked.{
  Marked, Marked-refl, Marked-trans, Flagged, Flagged-Marked, mark_value_samples-Marked,
  mark_value_samples-Flagged,
}

module _ (kind : ContentKind) (t : Fraction) (h : IsThreshold t) where
  abbrev NearFlagged : ContentRow → ContentRow → NearState → Type 0
  NearFlagged c b s = is_near_duplicate c.text b.text t ≡ ok true → Flagged kind c.fingerprint s.2

  NearFlagged-Marked :
      (c b : ContentRow) (s u : NearState) → Marked s.2 u.2 → NearFlagged c b s → NearFlagged c b u
  NearFlagged-Marked c b s u m n e = Flagged-Marked kind c.fingerprint s.2 u.2 m (n e)

  compare_benchmark_lem :
      (c : ContentRow) (s : NearState) (b : ContentRow)
      → Unit {0}
      → Step
          (λ u. Unit {0})
          (λ s u. Marked s.2 u.2)
          (NearFlagged c b)
          s
          (compare_benchmark kind t c s b)
  unfolding compare_benchmark
  compare_benchmark_lem c s b _ =
      let (answer, near, compared) = compare_texts_lem t c.text b.text h in go answer near compared
    where
      go :
          (answer : Bool)
          → is_near_duplicate c.text b.text t ≡ ok answer
          → compare_texts c.text b.text t ≡ ok answer
          → Step
              (λ u. Unit {0})
              (λ s u. Marked s.2 u.2)
              (NearFlagged c b)
              s
              (compare_benchmark kind t c s b)
      go false near compared = record {
        after = (suc s.0, s.1, s.2);
        result = rw compared;
        keeps = tt;
        related = Marked-refl s.2;
        done = λ e. absurd (false_of (sym near ∙ e));
      }
        where
          false_of : ◌≡◌ {A = Result ThresholdError Bool} (ok false) (ok true) → ⊥
          false_of e = cc
      go true near compared = record {
        after = (suc s.0, suc s.1, mark_value_samples kind c.fingerprint s.2);
        result = rw compared;
        keeps = tt;
        related = mark_value_samples-Marked kind c.fingerprint s.2;
        done = λ e. mark_value_samples-Flagged kind c.fingerprint s.2;
      }

  module _ (benchmarks : List ContentRow) where
    abbrev Same : NearState → Type 0
    Same s = s.2.benchmark_values ≡ benchmarks

    -- The content is compared with all other benchmark texts of its kind.
    abbrev RowDone : ContentRow → NearState → Type 0
    RowDone c s =
        (b : ContentRow)
        → In b benchmarks
        → b.kind ≡ kind
        → b.fingerprint ≢ c.fingerprint
        → IsStored c
        → IsStored b
        → NearFlagged c b s

    In-benchmark_candidates :
        (c b : ContentRow)
        → In b benchmarks
        → b.kind ≡ kind
        → b.fingerprint ≢ c.fingerprint
        → IsStored c
        → IsStored b
        → is_near_duplicate c.text b.text t ≡ ok true
        → In b (benchmark_candidates kind c (candidate_length_bounds c.length t) benchmarks)
    unfolding benchmark_candidates
    In-benchmark_candidates c b i e ne sc sb near =
        let bounds = candidate_length_bounds c.length t in
        let (low, high) = near_in_bounds t c.text b.text h sc.normal sb.normal near in
        let low' : bounds.0 ≤ b.length =
          subst (λ n. (candidate_length_bounds n t).0 ≤ b.length) (sym sc.measured)
            (subst (λ n. (candidate_length_bounds (length c.text) t).0 ≤ n) (sym sb.measured)
              low) in
        let high' : b.length ≤ bounds.1 =
          subst (λ n. b.length ≤ (candidate_length_bounds n t).1) (sym sc.measured)
            (subst (λ n. n ≤ (candidate_length_bounds (length c.text) t).1) (sym sb.measured)
              high) in
        let other : (b.fingerprint == c.fingerprint) ≡ false =
          ground (arith, ==_iff b.fingerprint c.fingerprint) in
        In-order_by (λ r. r.fingerprint) b _
          (In-select _ b benchmarks i
            (rw (e, same_kind_refl kind, other, le→leb _ _ low', le→leb _ _ high')))

    RowDone-Marked : (c : ContentRow) (s u : NearState) → Marked s.2 u.2 → RowDone c s → RowDone c u
    RowDone-Marked c s u m d b i e ne sc sb = NearFlagged-Marked c b s u m (d b i e ne sc sb)

    mark_near_row_lem :
        (s : NearState) (c : ContentRow)
        → fits_integer (candidate_length_bounds c.length t) ≡ true
        → Same s
        → Step Same (λ s u. Marked s.2 u.2) (RowDone c) s (mark_near_row kind t s c)
    unfolding mark_near_row bind_bounds
    mark_near_row_lem s c fits same =
        let loop =
          loop_done (compare_benchmark kind t c) (λ u. Unit {0}) (λ s u. Marked s.2 u.2)
            (NearFlagged c) (λ s. Marked-refl s.2) (λ s u v. Marked-trans s.2 u.2 v.2)
            (NearFlagged-Marked c) (compare_benchmark_lem c)
            (benchmark_candidates kind c (candidate_length_bounds c.length t) s.2.benchmark_values)
            s tt in
        record {
          after = loop.after;
          result = rw fits (loop.result);
          keeps = ap (λ (d : Database). d.benchmark_values) loop.related.rest ∙ same;
          related = loop.related;
          done = λ b i e ne sc sb near.
              loop.done b
                (subst
                  (λ rows.
                    In b (benchmark_candidates kind c (candidate_length_bounds c.length t) rows))
                  (sym same) (In-benchmark_candidates c b i e ne sc sb near))
                near;
        }

  pub record NearMarked (db : Database) : Type 0 where
    pub comparisons : ℕ
    pub matches : ℕ
    pub after : Database
    pub result : mark_near_benchmark_overlap kind t db ≡ ok (comparisons, matches, after)
    pub marked : Marked db after
    pub flagged :
        (c b : ContentRow)
        → In c db.content_values
        → In b db.benchmark_values
        → c.kind ≡ kind
        → b.kind ≡ kind
        → b.fingerprint ≢ c.fingerprint
        → IsStored c
        → IsStored b
        → is_near_duplicate c.text b.text t ≡ ok true
        → Flagged kind c.fingerprint after

  pub mark_near_lem : (db : Database) → KindFits kind t db → NearMarked db
  unfolding mark_near_benchmark_overlap
  mark_near_lem db fits =
      let loop =
        loop_done_in (mark_near_row kind t) (Same db.benchmark_values) (λ s u. Marked s.2 u.2)
          (RowDone db.benchmark_values) (λ s. Marked-refl s.2) (λ s u v. Marked-trans s.2 u.2 v.2)
          (RowDone-Marked db.benchmark_values) (contents_of kind db.content_values)
          (λ s c i same. mark_near_row_lem db.benchmark_values s c (fits c i) same) (0, 0, db)
          refl in
      record {
        comparisons = loop.after.0;
        matches = loop.after.1;
        after = loop.after.2;
        result = loop.result;
        marked = loop.related;
        flagged = λ c b i k e f ne sc sb near.
            loop.done c (In-contents_of kind db.content_values c i e) b k f ne sc sb near;
      }
