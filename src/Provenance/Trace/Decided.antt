-- ===== src/Provenance/Trace/Decided.antt =====
-- What one turn of the loop of `finalize` does to each row.
use nodelm.Base.{
  ℕ, ◌≡◌, ◌≢◌, refl, ap, ◌∙◌, subst, inl, inr, Bool, true, false, not, ◌&&◌, List, [], ◌∷◌, map,
  length, Text, arith, eqb, ltb, if◌then◌else◌, In, select, In-map, In_of_select, ok, passed,
  Bool-cases,
}
use nodelm.Provenance.Trace.{
  TraceRow, StoredRow, Projection, several_sample_ids, has_key, has_sample, traces, min_row_index,
  is_conflicting, has_several_samples, update, reject_original, reject_conflict, reject_duplicate,
  admit_row, decide_group,
}

pub map_cong :
    {A B : Type 0} (f g : A → B) (xs : List A)
    → ((x : A) → In x xs → f x ≡ g x)
    → map f xs ≡ map g xs
map_cong f g [] h = refl
map_cong f g (x ∷ xs) h =
    let rest = map_cong f g xs (λ y i. h y (inr i)) in let first = h x (inl refl) in cc

pub map-map :
    {A B C : Type 0} (g : B → C) (f : A → B) (xs : List A)
    → map g (map f xs) ≡ map (λ x. g (f x)) xs
map-map g f [] = refl
map-map g f (x ∷ xs) = ap (λ ys. g (f x) ∷ ys) (map-map g f xs)

-- Rows with one index are one row: `row_index` is the primary key.
abbrev pub IsKeyed : List TraceRow → Type 0
IsKeyed rows = (r s : TraceRow) → In r rows → In s rows → r.row_index ≡ s.row_index → r ≡ s

-- The decision on a row of a rollout, by the rows of the rollout.
unfoldable pub decided : List TraceRow → StoredRow → StoredRow
decided group s =
    if is_conflicting group
    then reject_conflict s
    else if eqb (length (select has_sample group)) 0
    then reject_original s
    else if eqb s.trace.row_index (min_row_index group)
    then admit_row s
    else reject_duplicate s

unfoldable pub turn : List TraceRow → Text → StoredRow → StoredRow
unfolding decided
turn rows key s = if has_key key s.trace then decided (select (has_key key) rows) s else s

pub turn-trace :
    (rows : List TraceRow) (key : Text) (s : StoredRow) → (turn rows key s).trace ≡ s.trace
unfolding turn
turn-trace rows key s = ground arith

pub traces-turn :
    (T : List TraceRow) (key : Text) (rows : List StoredRow)
    → traces (map (turn T key) rows) ≡ traces rows
traces-turn T key rows =
    map-map (λ s. s.trace) (turn T key) rows
    ∙ map_cong (λ s. (turn T key s).trace) (λ s. s.trace) rows (λ s i. turn-trace T key s)

-- The least index is that of a row.
pub In-min_row_index :
    (rows : List TraceRow)
    → length rows ≢ 0
    → (r : TraceRow) × In r rows × (min_row_index rows ≡ r.row_index)
unfolding min_row_index
In-min_row_index [] h = absurd (h refl)
In-min_row_index (r ∷ []) h = (r, inl refl, refl)
In-min_row_index (r ∷ s ∷ rows) h = elim (Bool-cases (ltb r.row_index (min_row_index (s ∷ rows)))) [
  | inl t ↦ (r, inl refl, rw t)
  | inr f ↦ let (x, i, e) = In-min_row_index (s ∷ rows) (omega arith) in (x, inr i, rw f e)
]

select_nonempty :
    (p q : TraceRow → Bool) (rows : List TraceRow)
    → eqb (length (select p rows)) 0 ≡ false
    → length rows ≢ 0
select_nonempty p q [] h = cc
select_nonempty p q (r ∷ rows) h = omega arith

-- A row with the least index of a rollout is of that rollout.
of_least :
    (rows : List StoredRow) (key : Text) (s : StoredRow)
    → IsKeyed (traces rows)
    → eqb (length (select has_sample (select (has_key key) (traces rows)))) 0 ≡ false
    → In s rows
    → eqb s.trace.row_index (min_row_index (select (has_key key) (traces rows))) ≡ true
    → has_key key s.trace ≡ true
of_least rows key s keyed h i e =
    let group = select (has_key key) (traces rows) in
    let (r, j, m) = In-min_row_index group (select_nonempty has_sample has_sample group h) in
    let (k, t) = In_of_select (has_key key) r (traces rows) j in
    let same : r ≡ s.trace = keyed r s.trace k (In-map (λ x. x.trace) s rows i) (ground arith) in
    subst (λ x. has_key key x ≡ true) same t

-- The two updates of an admitted rollout, on one row.
IsAdmitted-row :
    (key : Text) (least : ℕ) (s : StoredRow)
    → (eqb s.trace.row_index least ≡ true → has_key key s.trace ≡ true)
    → (let t = if eqb s.trace.row_index least then admit_row s else s in
        if has_key key t.trace && not (eqb t.trace.row_index least) then reject_duplicate t else t)
      ≡ (if has_key key s.trace
          then if eqb s.trace.row_index least then admit_row s else reject_duplicate s
          else s)
IsAdmitted-row key least s h = elim (Bool-cases (eqb s.trace.row_index least)) [
  | inl t ↦ let k = h t in ground arith
  | inr f ↦ rw f (ground arith)
]

-- The rows after a group, whichever way it is decided.
group_rows : Text → List StoredRow → List StoredRow
group_rows key rows =
    let group = select (has_key key) (traces rows) in
    let of_key = λ (s : StoredRow). has_key key s.trace in
    let least = min_row_index group in
    if is_conflicting group
    then update of_key reject_conflict rows
    else if eqb (length (select has_sample group)) 0
    then update of_key reject_original rows
    else update (λ s. of_key s && not (eqb s.trace.row_index least)) reject_duplicate
        (update (λ s. eqb s.trace.row_index least) admit_row rows)

group_rows-turn :
    (key : Text) (rows : List StoredRow)
    → IsKeyed (traces rows)
    → group_rows key rows ≡ map (turn (traces rows) key) rows
unfolding group_rows turn decided
group_rows-turn key rows keyed =
    let group = select (has_key key) (traces rows) in
    elim (Bool-cases (is_conflicting group)) [
      | inl c ↦ rw c (map_cong _ _ rows (λ s i. rw c refl))
      | inr c ↦ elim (Bool-cases (eqb (length (select has_sample group)) 0)) [
        | inl n ↦ rw (c, n) (map_cong _ _ rows (λ s i. rw (c, n) refl))
        | inr n ↦
            rw (c, n)
              (map-map _ _ rows
                ∙ map_cong _ _ rows (λ s i.
                  IsAdmitted-row key (min_row_index group) s (of_least rows key s keyed n i)
                  ∙ rw (c, n) refl))
      ]
    ]

decide_group-rows :
    (p q : Projection) (key : Text)
    → decide_group p key ≡ ok q
    → (q.rows ≡ group_rows key p.rows) × (q.finalized ≡ p.finalized)
unfolding decide_group group_rows
decide_group-rows p q key h =
    let (t, e) =
      passed (has_several_samples (select (has_key key) (traces p.rows))) (several_sample_ids key) _
        h in
    ground arith

pub decide_group-turn :
    (p q : Projection) (key : Text)
    → IsKeyed (traces p.rows)
    → decide_group p key ≡ ok q
    → (q.rows ≡ map (turn (traces p.rows) key) p.rows) × (q.finalized ≡ p.finalized)
decide_group-turn p q key keyed h =
    let (e, f) = decide_group-rows p q key h in (e ∙ group_rows-turn key p.rows keyed, f)
