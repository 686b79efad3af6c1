-- ===== src/Provenance/Trace/Classified.antt =====
-- The turns of the loop of `finalize` as one decision on each row, whatever the order of the groups.
use nodelm.Base.{
  ◌≡◌, refl, sym, ap, ◌∙◌, subst, inl, inr, true, false, List, [], ◌∷◌, map, Text, arith, ◌==◌,
  ==-refl, eq_of_==, if◌then◌else◌, In, select, for_each, ok, >>=-eq-ok, ok-injective, Option, none,
  some, Bool-cases, Option-cases,
}
use nodelm.Gates.Status.{is_none}
use nodelm.Contamination.Ordering.{In-distinct}
use nodelm.Provenance.Trace.{
  TraceRow, StoredRow, Projection, new_row, is_text, texts_of, has_key, traces, reject_original,
  decide_group,
}
use nodelm.Provenance.Trace.Finalize.{rollout_keys}
use mathlib.Core.List.{map-id}
use nodelm.Provenance.Trace.Decided.{
  map-map, IsKeyed, decided, turn, traces-turn, decide_group-turn,
}

-- The turns of the loop, on one row.
pub turns : List TraceRow → List Text → StoredRow → StoredRow
turns rows [] s = s
turns rows (key ∷ keys) s = turns rows keys (turn rows key s)

pub groups-turns :
    (T : List TraceRow) (keys : List Text) (p q : Projection)
    → traces p.rows ≡ T
    → IsKeyed T
    → for_each decide_group p keys ≡ ok q
    → (q.rows ≡ map (turns T keys) p.rows) × (q.finalized ≡ p.finalized)
unfolding for_each turns
groups-turns T [] p q e keyed h =
    let same = ok-injective h in
    (ap (λ x. x.rows) (sym same) ∙ sym (map-id p.rows), ap (λ x. x.finalized) (sym same))
groups-turns T (key ∷ keys) p q e keyed h =
    let (m, f, g) = >>=-eq-ok (decide_group p key) _ h in
    let (first, first_open) = decide_group-turn p m key (rw e keyed) f in
    let first' : m.rows ≡ map (turn T key) p.rows = first ∙ ap (λ x. map (turn x key) p.rows) e in
    let (rest, rest_open) =
      groups-turns T keys m q (ap traces first' ∙ traces-turn T key p.rows ∙ e) keyed g in
    (
      rest ∙ ap (map (turns T keys)) first' ∙ map-map (turns T keys) (turn T key) p.rows,
      rest_open ∙ first_open,
    )

-- The decision on a row, in terms of all rows that were added.
unfoldable pub classify : List TraceRow → TraceRow → StoredRow
unfolding decided
classify rows r = elim r.rollout_key [
  | none ↦ reject_original (new_row r)
  | some key ↦ decided (select (has_key key) rows) (new_row r)
]

decided-decided :
    (group : List TraceRow) (s : StoredRow) → decided group (decided group s) ≡ decided group s
unfolding decided
decided-decided group s = ground arith

decided-trace : (group : List TraceRow) (s : StoredRow) → (decided group s).trace ≡ s.trace
unfolding decided
decided-trace group s = ground arith

turn_hit :
    (T : List TraceRow) (key : Text) (s : StoredRow)
    → has_key key s.trace ≡ true
    → turn T key s ≡ decided (select (has_key key) T) s
unfolding turn
turn_hit T key s h = rw h refl

turn_miss :
    (T : List TraceRow) (key : Text) (s : StoredRow)
    → has_key key s.trace ≡ false
    → turn T key s ≡ s
unfolding turn
turn_miss T key s h = rw h refl

has_key-some : (key k : Text) (r : TraceRow) → r.rollout_key ≡ some key → has_key k r ≡ (key == k)
unfolding is_text
has_key-some key k r e = ap (is_text k) e

module _ (T : List TraceRow) (key : Text) where
  abbrev of_rollout : StoredRow → StoredRow
  of_rollout = decided (select (has_key key) T)

  turn_self : (s : StoredRow) → s.trace.rollout_key ≡ some key → turn T key s ≡ of_rollout s
  turn_self s e = turn_hit T key s (has_key-some key key s.trace e ∙ ==-refl key)

  turn-again :
      (k : Text) (s : StoredRow)
      → s.trace.rollout_key ≡ some key
      → turn T k (of_rollout s) ≡ of_rollout s
  turn-again k s e =
      let e' : (of_rollout s).trace.rollout_key ≡ some key =
        ap (λ x. x.rollout_key) (decided-trace (select (has_key key) T) s) ∙ e in
      elim (Bool-cases (key == k)) [
        | inl t ↦
            subst (λ x. turn T x (of_rollout s) ≡ of_rollout s) (eq_of_== key k t)
              (turn_self (of_rollout s) e' ∙ decided-decided (select (has_key key) T) s)
        | inr f ↦ turn_miss T k (of_rollout s) (has_key-some key k (of_rollout s).trace e' ∙ f)
      ]

  turns-again :
      (keys : List Text) (s : StoredRow)
      → s.trace.rollout_key ≡ some key
      → turns T keys (of_rollout s) ≡ of_rollout s
  unfolding turns
  turns-again [] s e = refl
  turns-again (k ∷ keys) s e = ap (turns T keys) (turn-again k s e) ∙ turns-again keys s e

  -- The turn of its key decides a row, and no other turn changes it.
  turns-decided :
      (keys : List Text) (s : StoredRow)
      → s.trace.rollout_key ≡ some key
      → In key keys
      → turns T keys s ≡ of_rollout s
  unfolding turns
  turns-decided [] s e i = absurd i
  turns-decided (k ∷ keys) s e i = elim (Bool-cases (key == k)) [
    | inl t ↦
        subst (λ x. turns T keys (turn T x s) ≡ of_rollout s) (eq_of_== key k t)
          (ap (turns T keys) (turn_self s e) ∙ turns-again keys s e)
    | inr f ↦ elim i [
      | inl m ↦ let g = subst (λ x. (key == x) ≡ true) m (==-refl key) in cc
      | inr m ↦
          ap (turns T keys) (turn_miss T k s (has_key-some key k s.trace e ∙ f))
          ∙ turns-decided keys s e m
    ]
  ]

turns_keyless :
    (T : List TraceRow) (keys : List Text) (s : StoredRow)
    → s.trace.rollout_key ≡ none
    → turns T keys s ≡ s
unfolding turns is_text
turns_keyless T [] s e = refl
turns_keyless T (k ∷ keys) s e =
    ap (turns T keys) (turn_miss T k s (ap (is_text k) e)) ∙ turns_keyless T keys s e

pub In-texts_of :
    (column : TraceRow → Option Text) (r : TraceRow) (t : Text) (rows : List TraceRow)
    → In r rows
    → column r ≡ some t
    → In t (texts_of column rows)
unfolding texts_of
In-texts_of column r t [] i e = absurd i
In-texts_of column r t (s ∷ rows) (inl m) e =
    let f = ap column (sym m) ∙ e in rw (f, texts_of) (inl refl)
In-texts_of column r t (s ∷ rows) (inr i) e = elim (Option-cases (column s)) [
  | inl n ↦ rw (n, texts_of) (In-texts_of column r t rows i e)
  | inr (u, n) ↦ rw (n, texts_of) (inr (In-texts_of column r t rows i e))
]

abbrev pub keyless_rejected : StoredRow → StoredRow
keyless_rejected s = if is_none s.trace.rollout_key then reject_original s else s

pub classify_keyless :
    (T : List TraceRow) (r : TraceRow)
    → r.rollout_key ≡ none
    → classify T r ≡ reject_original (new_row r)
unfolding classify
classify_keyless T r e = rw e refl

pub classify_keyed :
    (T : List TraceRow) (key : Text) (r : TraceRow)
    → r.rollout_key ≡ some key
    → classify T r ≡ decided (select (has_key key) T) (new_row r)
unfolding classify
classify_keyed T key r e = rw e refl

pub In-rollout_keys :
    (T : List TraceRow) (r : TraceRow) (key : Text)
    → In r T
    → r.rollout_key ≡ some key
    → In key (rollout_keys T)
unfolding rollout_keys
In-rollout_keys T r key i e = In-distinct key _ (In-texts_of (λ x. x.rollout_key) r key T i e)

pub classify-trace : (T : List TraceRow) (r : TraceRow) → (classify T r).trace ≡ r
classify-trace T r = elim (Option-cases r.rollout_key) [
  | inl e ↦ ap (λ x. x.trace) (classify_keyless T r e)
  | inr (key, e) ↦
      ap (λ x. x.trace) (classify_keyed T key r e)
      ∙ decided-trace (select (has_key key) T) (new_row r)
]

pub row-classify :
    (T : List TraceRow) (r : TraceRow)
    → In r T
    → turns T (rollout_keys T) (keyless_rejected (new_row r)) ≡ classify T r
unfolding is_none
row-classify T r i = elim (Option-cases r.rollout_key) [
  | inl e ↦
      let f : keyless_rejected (new_row r) ≡ reject_original (new_row r) =
        ap (λ x. if is_none x then reject_original (new_row r) else new_row r) e in
      ap (turns T (rollout_keys T)) f
      ∙ turns_keyless T (rollout_keys T) (reject_original (new_row r)) e
      ∙ sym (classify_keyless T r e)
  | inr (key, e) ↦
      let f : keyless_rejected (new_row r) ≡ new_row r =
        ap (λ x. if is_none x then reject_original (new_row r) else new_row r) e in
      ap (turns T (rollout_keys T)) f
      ∙ turns-decided T key (rollout_keys T) (new_row r) e (In-rollout_keys T r key i e)
      ∙ sym (classify_keyed T key r e)
]
