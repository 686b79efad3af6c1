-- ===== src/Provenance/Trace/Settled.antt =====
-- The rows of one rollout, where one of them is admitted.
use nodelm.Base.{
  ◌≤◌, ◌≡◌, ◌≢◌, refl, sym, ap, ◌∙◌, inl, inr, Bool, true, false, not, List, [], ◌∷◌, map, length,
  Text, arith, eqb, In, In-map, In_of_map, select, some, Bool-cases,
}
use nodelm.Base.Counts.{all_selected, length-select_all, none_selected}
use nodelm.Gates.Status.{some_of_is_none}
use nodelm.Contamination.Ordering.{distinct, In-distinct, distinct_single}
use nodelm.Provenance.Trace.{
  TraceRow, admit, new_row, texts_of, count_distinct, has_sample, min_row_index, is_conflicting,
  has_several_samples,
}
use nodelm.Provenance.Trace.Decided.{decided, In-min_row_index}
use nodelm.Provenance.Trace.Classified.{In-texts_of}

eq_of_single : {A : Type 0} (xs : List A) (x y : A) → length xs ≤ 1 → In x xs → In y xs → x ≡ y
eq_of_single [] x y h i j = absurd i
eq_of_single (z ∷ []) x y h i j = elim i [
  | inl e ↦ elim j [ inl f ↦ e ∙ sym f | inr k ↦ absurd k ]
  | inr k ↦ absurd k
]
eq_of_single (z ∷ w ∷ xs) x y h i j = absurd (omega arith)

pub eq_of_count : (xs : List Text) (x y : Text) → count_distinct xs ≤ 1 → In x xs → In y xs → x ≡ y
unfolding count_distinct
eq_of_count xs x y h i j =
    eq_of_single (distinct xs) x y h (In-distinct x xs i) (In-distinct y xs j)

pub count_of_eq :
    (x : Text) (xs : List Text) → ((y : Text) → In y xs → y ≡ x) → count_distinct xs ≤ 1
unfolding count_distinct
count_of_eq x xs h = elim (distinct_single x xs h) [
  | inl e ↦ rw e (omega arith)
  | inr e ↦ rw e (omega arith)
]

min_row_index-le :
    (r : TraceRow) (rows : List TraceRow) → In r rows → min_row_index rows ≤ r.row_index
unfolding min_row_index
min_row_index-le r [] i = absurd i
min_row_index-le r (s ∷ []) (inl e) = let f = ap (λ (x : TraceRow). x.row_index) e in omega arith
min_row_index-le r (s ∷ []) (inr i) = absurd i
min_row_index-le r (s ∷ t ∷ rows) (inl e) =
    let f = ap (λ (x : TraceRow). x.row_index) e in ground arith
min_row_index-le r (s ∷ t ∷ rows) (inr i) = ground (arith, min_row_index-le r (t ∷ rows) i)

nonempty-In : {A : Type 0} (x : A) (xs : List A) → In x xs → length xs ≢ 0
nonempty-In x [] i = absurd i
nonempty-In x (y ∷ xs) i = λ e. absurd (omega arith)

pub count_some : (x : Text) (xs : List Text) → In x xs → count_distinct xs ≢ 0
unfolding count_distinct
count_some x xs i = nonempty-In x (distinct xs) (In-distinct x xs i)

pub false_of_not : (b : Bool) → not b ≡ true → b ≡ false
false_of_not true h = cc
false_of_not false h = refl

-- The rows of one rollout agree: one digest, and all are normalized.
pub record IsSettled (group : List TraceRow) (r : TraceRow) : Type 0 where
  pub sampled : has_sample r ≡ true
  pub digests : (s : TraceRow) → In s group → s.raw_row_sha256 ≡ r.raw_row_sha256
  pub samples : (s : TraceRow) → In s group → has_sample s ≡ true
  pub least : (s : TraceRow) → In s group → r.row_index ≤ s.row_index

abbrev digests_of : List TraceRow → List Text
digests_of = map (λ r. r.raw_row_sha256)

not_conflicting :
    (group : List TraceRow) (r : TraceRow)
    → In r group
    → ((s : TraceRow) → In s group → s.raw_row_sha256 ≡ r.raw_row_sha256)
    → ((s : TraceRow) → In s group → has_sample s ≡ true)
    → is_conflicting group ≡ false
unfolding is_conflicting
not_conflicting group r i digests samples =
    let one = count_of_eq r.raw_row_sha256 (digests_of group) (λ y j.
      let (s, k, e) = In_of_map (λ (x : TraceRow). x.raw_row_sha256) y group j in
      e ∙ digests s k) in
    let all = length-select_all has_sample group samples in ground arith

pub record Admits (group : List TraceRow) (r : TraceRow) : Type 0 where
  pub agreeing : is_conflicting group ≡ false
  pub some_valid : eqb (length (select has_sample group)) 0 ≡ false
  pub first : eqb r.row_index (min_row_index group) ≡ true

pub Admits-of :
    (group : List TraceRow) (r : TraceRow)
    → (decided group (new_row r)).decision ≡ some admit
    → Admits group r
unfolding decided
Admits-of group r h = ground arith

pub IsSettled-of :
    (group : List TraceRow) (r : TraceRow) → In r group → Admits group r → IsSettled group r
unfolding is_conflicting
IsSettled-of group r i a =
    let c = a.agreeing in
    let n = a.some_valid in
    let m = a.first in
    let all : length (select has_sample group) ≡ length group = ground arith in
    let one : count_distinct (digests_of group) ≤ 1 = ground arith in
    let index : r.row_index ≡ min_row_index group = ground arith in
    record {
      sampled = all_selected has_sample r group all i;
      digests = λ s j.
          eq_of_count (digests_of group) s.raw_row_sha256 r.raw_row_sha256 one
            (In-map (λ x. x.raw_row_sha256) s group j) (In-map (λ x. x.raw_row_sha256) r group i);
      samples = λ s j. all_selected has_sample s group all j;
      least = λ s j. omega (arith, min_row_index-le s group j);
    }

pub admitted_of :
    (group : List TraceRow) (r : TraceRow)
    → In r group
    → IsSettled group r
    → (decided group (new_row r)).decision ≡ some admit
unfolding decided
admitted_of group r i settled =
    let c = not_conflicting group r i settled.digests settled.samples in
    let all = length-select_all has_sample group settled.samples in
    let n : eqb (length (select has_sample group)) 0 ≡ false =
      elim (Bool-cases (eqb (length (select has_sample group)) 0)) [
        | inl t ↦
            let none_in = none_selected has_sample r group (ground arith) i in
            let s = settled.sampled in cc
        | inr f ↦ f
      ] in
    let (t, j, e) = In-min_row_index group (nonempty-In r group i) in
    let m : eqb r.row_index (min_row_index group) ≡ true =
      ground (arith, settled.least t j, min_row_index-le r group i) in
    rw (c, n, m) refl

pub single_sample :
    (group : List TraceRow) (r s : TraceRow)
    → In r group
    → In s group
    → Admits group r
    → has_several_samples group ≡ false
    → s.sample_id ≡ r.sample_id
unfolding has_several_samples is_conflicting
single_sample group r s i j a h =
    let settled = IsSettled-of group r i a in
    let c = a.agreeing in
    let n = a.some_valid in
    let all = length-select_all has_sample group settled.samples in
    let some_digest : count_distinct (digests_of group) ≢ 0 =
      count_some r.raw_row_sha256 (digests_of group) (In-map (λ x. x.raw_row_sha256) r group i) in
    let one : count_distinct (texts_of (λ x. x.sample_id) group) ≤ 1 = ground arith in
    let (a, e) = some_of_is_none s.sample_id (false_of_not _ (settled.samples s j)) in
    let (b, f) = some_of_is_none r.sample_id (false_of_not _ settled.sampled) in
    e
    ∙ ap some (
        eq_of_count (texts_of (λ x. x.sample_id) group) a b one
          (In-texts_of (λ x. x.sample_id) s a group j e)
          (In-texts_of (λ x. x.sample_id) r b group i f))
    ∙ sym f
