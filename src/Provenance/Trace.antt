-- ===== src/Provenance/Trace.antt =====
-- `TraceNormalizationProjection` of provenance/trace_projection.py. The tables of its database are lists of
-- rows; an UPDATE is a map over the rows.
pub mod Finalize
pub mod Added
pub mod Decided
pub mod Classified
pub mod Settled
pub mod Admitted
pub mod Total
pub mod Counted
pub mod Refused
pub mod Returned
pub mod Finalized
use nodelm.Base.{
  ℕ, Bool, true, false, not, ◌&&◌, ◌||◌, List, [], ◌∷◌, ◌++◌, map, length, Text, text, ◌==◌, eqb,
  ltb, if◌then◌else◌, select, for_each, Result, ok, err, ◌>>=◌, ◌>>◌, raise_if, Option, none, some,
}
use nodelm.Gates.Status.{any, is_none}
use nodelm.Contamination.Ordering.{distinct}

-- The arguments of `add_row`. A rejected row has a reason, and no sample.
pub record TraceRow : Type 0 where
  pub row_index : ℕ
  pub rollout_key : Option Text
  pub raw_row_sha256 : Text
  pub sample_id : Option Text
  pub reason_code : Option Text
  pub reason : Option Text
  pub instance_id : Option Text
  pub repository : Option Text
  pub rollout_id : Option Text

pub data Decision : Type 0 where
  admit reject : Decision

-- A row of the table: the values inserted, and the columns that `finalize` sets.
pub record StoredRow : Type 0 where
  pub trace : TraceRow
  pub decision : Option Decision
  pub reason_code : Option Text
  pub cause_code : Option Text
  pub reason : Option Text

pub record Projection : Type 0 where
  pub rows : List StoredRow
  pub conflicting_rollouts : List Text
  pub finalized : Bool

abbrev pub new_projection : Projection
new_projection = record { rows = []; conflicting_rollouts = []; finalized = false }

-- One constructor for each `raise`. A query with LIMIT 1 names some row, which is left out here.
pub data ProjectionError : Type 0 where
  added_after_finalization not_exactly_one already_finalized : ProjectionError
  lacks_rollout_key several_rollout_keys not_classified lacks_reason : ProjectionError
  several_sample_ids : Text → ProjectionError
  not_finalized : ProjectionError
  -- sqlite3.IntegrityError of the primary key.
  repeated_row_index : ℕ → ProjectionError

abbrev pub new_row : TraceRow → StoredRow
new_row r = record {
  trace = r;
  decision = none;
  reason_code = none;
  cause_code = none;
  reason = none;
}

unfoldable pub add_row : TraceRow → Projection → Result ProjectionError Projection
unfolding any is_none
add_row r p =
    if p.finalized
    then err added_after_finalization
    else if is_none r.sample_id && is_none r.reason_code
        || not (is_none r.sample_id) && not (is_none r.reason_code)
    then err not_exactly_one
    else if any (λ s. eqb s.trace.row_index r.row_index) p.rows
    then err (repeated_row_index r.row_index)
    else ok (record p { rows = p.rows ++ new_row r ∷ [] })

-- `column = ?`, which is not true of NULL.
unfoldable pub is_text : Text → Option Text → Bool
unfolding ◌==◌
is_text t none = false
is_text t (some s) = s == t

-- A column without its NULLs.
unfoldable pub texts_of : (TraceRow → Option Text) → List TraceRow → List Text
texts_of column [] = []
texts_of column (r ∷ rows) =
    let rest = texts_of column rows in elim (column r) [ none ↦ rest | some t ↦ t ∷ rest ]

unfoldable pub count_distinct : List Text → ℕ
unfolding distinct
count_distinct texts = length (distinct texts)

abbrev pub traces : List StoredRow → List TraceRow
traces = map (λ s. s.trace)

abbrev pub has_key : Text → TraceRow → Bool
has_key key r = is_text key r.rollout_key

abbrev pub has_sample : TraceRow → Bool
has_sample r = not (is_none r.sample_id)

-- SELECT MIN(row_index)
unfoldable pub min_row_index : List TraceRow → ℕ
min_row_index [] = 0
min_row_index (r ∷ []) = r.row_index
min_row_index (r ∷ s ∷ rows) =
    let least = min_row_index (s ∷ rows) in if ltb r.row_index least then r.row_index else least

-- The rows of a rollout with several digests, or of which some but not all are normalized.
unfoldable pub is_conflicting : List TraceRow → Bool
unfolding count_distinct is_none
is_conflicting group =
    let valid = length (select has_sample group) in
    ltb 1 (count_distinct (map (λ r. r.raw_row_sha256) group))
    || not (eqb valid 0) && not (eqb valid (length group))

unfoldable pub has_several_samples : List TraceRow → Bool
unfolding count_distinct texts_of is_none
has_several_samples group =
    eqb (length (select has_sample group)) (length group)
    && eqb (count_distinct (map (λ r. r.raw_row_sha256) group)) 1
    && not (eqb (count_distinct (texts_of (λ r. r.sample_id) group)) 1)

-- UPDATE rows SET … WHERE …
abbrev pub update : (StoredRow → Bool) → (StoredRow → StoredRow) → List StoredRow → List StoredRow
update test change = map (λ s. if test s then change s else s)

abbrev pub reject_original : StoredRow → StoredRow
reject_original s = record s {
  decision = some reject;
  reason_code = s.trace.reason_code;
  reason = s.trace.reason;
}

abbrev pub reject_conflict : StoredRow → StoredRow
reject_conflict s = record s {
  decision = some reject;
  cause_code = s.trace.reason_code;
  reason_code = some (text "conflicting_rollout_identity");
  reason = some (text "rollout key maps to conflicting raw trace rows");
}

abbrev pub reject_duplicate : StoredRow → StoredRow
reject_duplicate s = record s {
  decision = some reject;
  reason_code = some (text "duplicate_trace_row");
  reason = some (text "exact trace row repeats an already admitted rollout");
}

abbrev pub admit_row : StoredRow → StoredRow
admit_row s = record s { decision = some admit }

-- One turn of the loop over the groups.
unfoldable pub decide_group : Projection → Text → Result ProjectionError Projection
unfolding is_text has_several_samples is_conflicting min_row_index
decide_group p key =
    let group = select (has_key key) (traces p.rows) in
    let of_key = λ (s : StoredRow). has_key key s.trace in
    let least = min_row_index group in
    raise_if (has_several_samples group) (several_sample_ids key)
    >> (if is_conflicting group
        then ok (record p {
          conflicting_rollouts = p.conflicting_rollouts ++ key ∷ [];
          rows = update of_key reject_conflict p.rows;
        })
        else if eqb (length (select has_sample group)) 0
        then ok (record p { rows = update of_key reject_original p.rows })
        else ok (record p {
          rows =
              update (λ s. of_key s && not (eqb s.trace.row_index least)) reject_duplicate
                (update (λ s. eqb s.trace.row_index least) admit_row p.rows);
        }))
