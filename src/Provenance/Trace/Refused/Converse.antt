-- ===== src/Provenance/Trace/Refused/Converse.antt =====
-- The rows for which `finalize` of provenance/trace_projection.py must refuse a trace.
use nodelm.Base.{
  ◌≡◌, ◌≢◌, sym, ap, ◌∙◌, inl, inr, Bool, true, false, ◌&&◌, List, map, Text, ==-refl, ltb, arith,
  In, In-map, In_of_map, select, In-select, In_of_select, some, Bool-cases,
}
use nodelm.Base.Counts.{length-select_all}
use nodelm.Gates.Status.{any, any-false, is_none}
use nodelm.Contamination.Ordering.{distinct, In-distinct}
use nodelm.Provenance.Trace.{
  TraceRow, is_text, texts_of, count_distinct, has_key, has_sample, has_several_samples,
}
use nodelm.Provenance.Trace.Finalize.{is_keyless, keys_of_sample, has_collision}
use nodelm.Provenance.Trace.Settled.{count_of_eq, count_some, eq_of_count}
use nodelm.Provenance.Trace.Admitted.{key_of_has_key, has_key_of_key}
use nodelm.Provenance.Trace.Classified.{In-texts_of}
use nodelm.Provenance.Trace.Refused.Rows.{IsKeyless, IsCollision, IsAmbiguous}

any-true :
    {A : Type 0} (test : A → Bool) (x : A) (xs : List A)
    → In x xs
    → test x ≡ true
    → any test xs ≡ true
any-true test x xs i t = elim (Bool-cases (any test xs)) [
  | inl h ↦ h
  | inr f ↦ absurd (clash (sym t ∙ any-false test x xs f i))
]
  where
    clash : true ≡ false → ⊥
    clash e = cc

-- Two different texts are counted as more than one.
count_of_two :
    (xs : List Text) (x y : Text) → In x xs → In y xs → x ≢ y → ltb 1 (count_distinct xs) ≡ true
count_of_two xs x y i j n = elim (Bool-cases (ltb 1 (count_distinct xs))) [
  | inl t ↦ t
  | inr f ↦ absurd (n (eq_of_count xs x y (ground arith) i j))
]

pub keyless_of-IsKeyless : (rows : List TraceRow) → IsKeyless rows → is_keyless rows ≡ true
unfolding is_keyless is_none
keyless_of-IsKeyless rows k =
    any-true (λ (r : TraceRow). has_sample r && is_none r.rollout_key) k.row rows k.is_row
      (let s = k.sampled in rw (k.without_key) (ground arith))

pub collision_of-IsCollision : (rows : List TraceRow) → IsCollision rows → has_collision rows ≡ true
unfolding has_collision keys_of_sample is_text
collision_of-IsCollision rows c =
    let (id, e, f) = c.same_sample in
    let (a, b, ka, kb, n) = c.keys in
    let (i, j) = c.are_rows in
    let held : (r : TraceRow)
        → In r rows
        → r.sample_id ≡ some id
        → In r (select (λ (s : TraceRow). is_text id s.sample_id) rows) =
      λ r k g.
        In-select (λ (s : TraceRow). is_text id s.sample_id) r rows k
          (ap (is_text id) g ∙ ==-refl id) in
    any-true (λ t. ltb 1 (count_distinct (keys_of_sample rows t))) id
      (distinct (texts_of (λ (r : TraceRow). r.sample_id) rows))
      (In-distinct id _ (In-texts_of (λ (r : TraceRow). r.sample_id) c.first id rows i e))
      (count_of_two (keys_of_sample rows id) a b
        (In-texts_of (λ (r : TraceRow). r.rollout_key) c.first a _ (held c.first i e) ka)
        (In-texts_of (λ (r : TraceRow). r.rollout_key) c.second b _ (held c.second j f) kb) n)

pub several_of-IsAmbiguous :
    (rows : List TraceRow) (key : Text)
    → IsAmbiguous rows key
    → has_several_samples (select (has_key key) rows) ≡ true
unfolding has_several_samples
several_of-IsAmbiguous rows key a =
    let group = select (has_key key) rows in
    let (i, j) = a.are_rows in
    let (ka, kb) = a.keyed in
    let (x, y, sx, sy, n) = a.samples in
    let in_first = In-select (has_key key) a.first rows i (has_key_of_key key a.first ka) in
    let in_second = In-select (has_key key) a.second rows j (has_key_of_key key a.second kb) in
    let agrees : (s : TraceRow)
        → In s group
        → (has_sample s ≡ true) × (s.raw_row_sha256 ≡ a.first.raw_row_sha256) =
      λ s k.
        let (l, t) = In_of_select (has_key key) s rows k in
        a.agreeing s l (key_of_has_key key s t) in
    let valid = length-select_all has_sample group (λ s k. (agrees s k).0) in
    let digests = map (λ (r : TraceRow). r.raw_row_sha256) group in
    let few = count_of_eq a.first.raw_row_sha256 digests (λ d k.
      let (s, l, e) = In_of_map (λ (r : TraceRow). r.raw_row_sha256) d group k in
      e ∙ (agrees s l).1) in
    let some_digest =
      count_some a.first.raw_row_sha256 digests
        (In-map (λ (r : TraceRow). r.raw_row_sha256) a.first group in_first) in
    let many =
      count_of_two (texts_of (λ (r : TraceRow). r.sample_id) group) x y
        (In-texts_of (λ (r : TraceRow). r.sample_id) a.first x group in_first sx)
        (In-texts_of (λ (r : TraceRow). r.sample_id) a.second y group in_second sy) n in
    ground arith
