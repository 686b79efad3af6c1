-- ===== src/Provenance/Trace/Refused/Rows.antt =====
-- The rows for which `finalize` of provenance/trace_projection.py refuses a trace.
use nodelm.Base.{
  ◌<◌, ◌≡◌, ◌≢◌, refl, sym, ap, ◌∙◌, ◌⊎◌, inl, inr, Bool, true, false, ◌&&◌, List, [], ◌∷◌, map,
  length, Text, ◌==◌, ==-refl, eq_of_==, ltb, arith, In, In-map, In_of_map, select, In-select,
  In_of_select, Option, none, some, Bool-cases, Option-cases,
}
use nodelm.Base.Counts.{all_selected}
use nodelm.Gates.Status.{any, is_none, some_of_is_none}
use nodelm.Contamination.Ordering.{distinct}
use nodelm.Provenance.Trace.{
  TraceRow, is_text, texts_of, count_distinct, has_key, has_sample, has_several_samples,
}
use nodelm.Provenance.Trace.Finalize.{is_keyless, keys_of_sample, has_collision}
use nodelm.Provenance.Trace.Settled.{false_of_not, count_of_eq, count_some, eq_of_count}
use nodelm.Provenance.Trace.Admitted.{key_of_has_key, has_key_of_key}
use nodelm.Provenance.Trace.Classified.{In-texts_of}

-- What is wrong with a trace that is refused with an error.
pub record IsKeyless (rows : List TraceRow) : Type 0 where
  pub row : TraceRow
  pub is_row : In row rows
  pub sampled : has_sample row ≡ true
  pub without_key : row.rollout_key ≡ none

-- One sample under two rollout keys.
pub record IsCollision (rows : List TraceRow) : Type 0 where
  pub first : TraceRow
  pub second : TraceRow
  pub are_rows : In first rows × In second rows
  pub same_sample : (id : Text) × (first.sample_id ≡ some id) × (second.sample_id ≡ some id)
  pub keys : (a b : Text) × (first.rollout_key ≡ some a) × (second.rollout_key ≡ some b) × (a ≢ b)

-- One rollout, whose rows have one digest and are all normalized, under two samples.
pub record IsAmbiguous (rows : List TraceRow) (key : Text) : Type 0 where
  pub first : TraceRow
  pub second : TraceRow
  pub are_rows : In first rows × In second rows
  pub keyed : (first.rollout_key ≡ some key) × (second.rollout_key ≡ some key)
  pub samples : (a b : Text) × (first.sample_id ≡ some a) × (second.sample_id ≡ some b) × (a ≢ b)
  pub agreeing :
      (s : TraceRow)
      → In s rows
      → s.rollout_key ≡ some key
      → (has_sample s ≡ true) × (s.raw_row_sha256 ≡ first.raw_row_sha256)

-- An item that passes the test.
found :
    {A : Type 0} (test : A → Bool) (xs : List A)
    → any test xs ≡ true
    → (x : A) × In x xs × (test x ≡ true)
unfolding any
found test [] h = cc
found test (x ∷ xs) h = elim (Bool-cases (test x)) [
  | inl t ↦ (x, inl refl, t)
  | inr f ↦ let (y, i, t) = found test xs (ground arith) in (y, inr i, t)
]

different : (x y : Text) → (y == x) ≡ false → x ≢ y
different x y h = λ e. let same = ==-refl y in let f = ap (λ z. y == z) e in cc

-- Another text than one that is there, or none.
other_or_same :
    (x : Text) (xs : List Text) → ((y : Text) × In y xs × (x ≢ y)) ⊎ ((y : Text) → In y xs → y ≡ x)
other_or_same x [] = inr (λ y i. absurd i)
other_or_same x (z ∷ xs) = elim (Bool-cases (z == x)) [
  | inr f ↦ inl (z, inl refl, different x z f)
  | inl t ↦ elim (other_or_same x xs) [
    | inl (y, i, e) ↦ inl (y, inr i, e)
    | inr h ↦ inr (λ y i. elim i [ inl e ↦ e ∙ eq_of_== z x t | inr j ↦ h y j ])
  ]
]

two_texts : (xs : List Text) → 1 < count_distinct xs → (x y : Text) × In x xs × In y xs × (x ≢ y)
unfolding count_distinct distinct
two_texts [] h = absurd (omega arith)
two_texts (x ∷ xs) h = elim (other_or_same x (x ∷ xs)) [
  | inl (y, i, e) ↦ (x, y, inl refl, i, e)
  | inr same ↦ absurd (let few = count_of_eq x (x ∷ xs) same in omega arith)
]

In_of_texts_of :
    (column : TraceRow → Option Text) (t : Text) (rows : List TraceRow)
    → In t (texts_of column rows)
    → (r : TraceRow) × In r rows × (column r ≡ some t)
unfolding texts_of
In_of_texts_of column t [] i = absurd i
In_of_texts_of column t (r ∷ rows) i = elim (Option-cases (column r)) [
  | inl n ↦ let (s, j, e) = In_of_texts_of column t rows (rw (n, texts_of) at i) in (s, inr j, e)
  | inr (u, n) ↦ elim (rw (n, texts_of) at i) [
    | inl m ↦ (r, inl refl, n ∙ ap some (sym m))
    | inr k ↦ let (s, j, e) = In_of_texts_of column t rows k in (s, inr j, e)
  ]
]

is_text_of : (t : Text) (o : Option Text) → is_text t o ≡ true → o ≡ some t
unfolding is_text
is_text_of t none h = cc
is_text_of t (some s) h = ap some (eq_of_== s t h)

pub IsKeyless-row : (rows : List TraceRow) → is_keyless rows ≡ true → IsKeyless rows
unfolding is_keyless
IsKeyless-row rows h =
    let (r, i, t) = found (λ (x : TraceRow). has_sample x && is_none x.rollout_key) rows h in
    elim (Option-cases r.rollout_key) [
      | inl e ↦ record { row = r; is_row = i; sampled = ground arith; without_key = e }
      | inr (key, e) ↦ absurd (ground arith)
    ]

pub IsCollision-rows : (rows : List TraceRow) → has_collision rows ≡ true → IsCollision rows
unfolding has_collision keys_of_sample
IsCollision-rows rows h =
    let (id, _, t) =
      found (λ id. ltb 1 (count_distinct (keys_of_sample rows id)))
        (distinct (texts_of (λ (r : TraceRow). r.sample_id) rows)) h in
    let (a, b, i, j, n) = two_texts (keys_of_sample rows id) (ground arith) in
    let of_sample = select (λ (r : TraceRow). is_text id r.sample_id) rows in
    let (r, k, e) = In_of_texts_of (λ (r : TraceRow). r.rollout_key) a of_sample i in
    let (s, l, f) = In_of_texts_of (λ (r : TraceRow). r.rollout_key) b of_sample j in
    let (in_r, t_r) = In_of_select (λ (r : TraceRow). is_text id r.sample_id) r rows k in
    let (in_s, t_s) = In_of_select (λ (r : TraceRow). is_text id r.sample_id) s rows l in
    record {
      first = r;
      second = s;
      are_rows = (in_r, in_s);
      same_sample = (id, is_text_of id r.sample_id t_r, is_text_of id s.sample_id t_s);
      keys = (a, b, e, f, n);
    }

one_text : (xs : List Text) → count_distinct xs ≡ 1 → (x : Text) × In x xs
unfolding count_distinct distinct
one_text [] h = absurd (omega arith)
one_text (x ∷ xs) h = (x, inl refl)

-- What `has_several_samples` counts.
record HasSeveral (group : List TraceRow) : Type 0 where
  valid : length (select has_sample group) ≡ length group
  one_digest : count_distinct (map (λ r. r.raw_row_sha256) group) ≡ 1
  many : count_distinct (texts_of (λ r. r.sample_id) group) ≢ 1

several_of : (group : List TraceRow) → has_several_samples group ≡ true → HasSeveral group
unfolding has_several_samples
several_of group h = record { valid = ground arith; one_digest = ground arith; many = ground arith }

sample_of_row : (r : TraceRow) → has_sample r ≡ true → (id : Text) × (r.sample_id ≡ some id)
sample_of_row r h = some_of_is_none r.sample_id (false_of_not (is_none r.sample_id) h)

-- A group of several samples has more than one.
several_ids :
    (group : List TraceRow)
    → HasSeveral group
    → 1 < count_distinct (texts_of (λ r. r.sample_id) group)
several_ids group h =
    let (digest, i) = one_text (map (λ r. r.raw_row_sha256) group) h.one_digest in
    let (r, j, _) = In_of_map (λ (r : TraceRow). r.raw_row_sha256) digest group i in
    let (id, e) = sample_of_row r (all_selected has_sample r group h.valid j) in
    let some_id =
      count_some id (texts_of (λ r. r.sample_id) group)
        (In-texts_of (λ r. r.sample_id) r id group j e) in
    let many = h.many in ground arith

pub IsAmbiguous-rows :
    (rows : List TraceRow) (key : Text)
    → has_several_samples (select (has_key key) rows) ≡ true
    → IsAmbiguous rows key
IsAmbiguous-rows rows key h =
    let group = select (has_key key) rows in
    let several = several_of group h in
    let (a, b, i, j, n) =
      two_texts (texts_of (λ (r : TraceRow). r.sample_id) group) (several_ids group several) in
    let (r, k, e) = In_of_texts_of (λ (r : TraceRow). r.sample_id) a group i in
    let (s, l, f) = In_of_texts_of (λ (r : TraceRow). r.sample_id) b group j in
    let (in_r, t_r) = In_of_select (has_key key) r rows k in
    let (in_s, t_s) = In_of_select (has_key key) s rows l in
    record {
      first = r;
      second = s;
      are_rows = (in_r, in_s);
      keyed = (key_of_has_key key r t_r, key_of_has_key key s t_s);
      samples = (a, b, e, f, n);
      agreeing = λ x m g.
          let in_group = In-select (has_key key) x rows m (has_key_of_key key x g) in
          (
            all_selected has_sample x group several.valid in_group,
            eq_of_count (map (λ (r : TraceRow). r.raw_row_sha256) group) x.raw_row_sha256
                r.raw_row_sha256 (let one = several.one_digest in omega arith)
                (In-map (λ (r : TraceRow). r.raw_row_sha256) x group in_group)
                (In-map (λ (r : TraceRow). r.raw_row_sha256) r group k),
          );
    }
