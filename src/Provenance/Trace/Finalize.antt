-- ===== src/Provenance/Trace/Finalize.antt =====
-- `finalize` of provenance/trace_projection.py, and what is read of a projection.
use nodelm.Base.{
  ℕ, Bool, true, false, ◌&&◌, List, [], ◌∷◌, map, length, Text, text, ltb, if◌then◌else◌, select,
  for_each, Result, ok, err, ◌>>=◌, ◌>>◌, raise_if, Option, none, some,
}
use nodelm.Gates.Status.{any, is_none}
use nodelm.Contamination.Ordering.{distinct}
use nodelm.Provenance.Trace.{
  TraceRow, Decision, admit, reject, StoredRow, Projection, ProjectionError, already_finalized,
  lacks_rollout_key, several_rollout_keys, not_classified, lacks_reason, not_finalized, is_text,
  texts_of, count_distinct, traces, has_sample, update, reject_original, decide_group,
}

-- A normalized row without a rollout key.
unfoldable pub is_keyless : List TraceRow → Bool
unfolding any is_none
is_keyless = any (λ r. has_sample r && is_none r.rollout_key)

unfoldable pub keys_of_sample : List TraceRow → Text → List Text
unfolding texts_of is_text
keys_of_sample rows id = texts_of (λ r. r.rollout_key) (select (λ r. is_text id r.sample_id) rows)

-- A sample with several rollout keys.
unfoldable pub has_collision : List TraceRow → Bool
unfolding any count_distinct keys_of_sample texts_of
has_collision rows =
    any (λ id. ltb 1 (count_distinct (keys_of_sample rows id)))
      (distinct (texts_of (λ r. r.sample_id) rows))

unfoldable pub rollout_keys : List TraceRow → List Text
unfolding texts_of distinct
rollout_keys rows = distinct (texts_of (λ r. r.rollout_key) rows)

unfoldable pub is_admit : Option Decision → Bool
is_admit (some admit) = true
is_admit _ = false

unfoldable pub is_reject : Option Decision → Bool
is_reject (some reject) = true
is_reject _ = false

unfoldable pub reject_keyless : Projection → Projection
unfolding is_none
reject_keyless p = record p {
  rows = update (λ s. is_none s.trace.rollout_key) reject_original p.rows;
}

-- The two checks on the table before it is committed.
unfoldable pub check_classified : List StoredRow → Result ProjectionError (Unit {0})
unfolding any is_none is_reject
check_classified rows =
    raise_if (any (λ s. is_none s.decision) rows) not_classified
    >> raise_if (any (λ s. is_reject s.decision && is_none s.reason_code) rows) lacks_reason

unfoldable pub finalize : Projection → Result ProjectionError Projection
finalize p = do
  raise_if p.finalized already_finalized
  raise_if (is_keyless (traces p.rows)) lacks_rollout_key
  raise_if (has_collision (traces p.rows)) several_rollout_keys
  q ← for_each decide_group (reject_keyless p) (rollout_keys (traces p.rows))
  check_classified q.rows
  ok (record q { finalized = true })

unfoldable pub require_finalized : {A : Type 0} → Projection → A → Result ProjectionError A
require_finalized p a = if p.finalized then ok a else err not_finalized

pub record TraceRowDecision : Type 0 where
  pub trace : TraceRow
  pub admitted : Bool
  pub reason_code : Option Text
  pub cause_code : Option Text
  pub reason : Option Text

unfoldable pub decision_of : StoredRow → TraceRowDecision
unfolding is_admit
decision_of s = record {
  trace = s.trace;
  admitted = is_admit s.decision;
  reason_code = s.reason_code;
  cause_code = s.cause_code;
  reason = s.reason;
}

-- ORDER BY row_index
unfoldable pub place_row : StoredRow → List StoredRow → List StoredRow
place_row s [] = s ∷ []
place_row s (t ∷ rows) =
    let later = t ∷ place_row s rows in
    if ltb s.trace.row_index t.trace.row_index then s ∷ t ∷ rows else later

unfoldable pub by_row_index : List StoredRow → List StoredRow
unfolding place_row
by_row_index [] = []
by_row_index (s ∷ rows) = place_row s (by_row_index rows)

unfoldable pub iter_decisions : Projection → Result ProjectionError (List TraceRowDecision)
unfolding require_finalized by_row_index decision_of
iter_decisions p = require_finalized p (map decision_of (by_row_index p.rows))

unfoldable pub input_row_count : Projection → ℕ
input_row_count p = length p.rows

unfoldable pub admitted_count : Projection → Result ProjectionError ℕ
unfolding require_finalized is_admit
admitted_count p = require_finalized p (length (select (λ s. is_admit s.decision) p.rows))

unfoldable pub rejected_count : Projection → Result ProjectionError ℕ
unfolding require_finalized is_reject
rejected_count p = require_finalized p (length (select (λ s. is_reject s.decision) p.rows))

unfoldable pub unique_rollout_key_count : Projection → ℕ
unfolding rollout_keys
unique_rollout_key_count p = length (rollout_keys (traces p.rows))

unfoldable pub rows_with_reason : Text → List StoredRow → ℕ
unfolding is_text
rows_with_reason code rows = length (select (λ s. is_text code s.reason_code) rows)

unfoldable pub duplicate_trace_row_count : Projection → Result ProjectionError ℕ
unfolding require_finalized rows_with_reason
duplicate_trace_row_count p =
    require_finalized p (rows_with_reason (text "duplicate_trace_row") p.rows)

unfoldable pub conflicting_rollout_identity_count : Projection → Result ProjectionError ℕ
unfolding require_finalized
conflicting_rollout_identity_count p = require_finalized p (length p.conflicting_rollouts)

unfoldable pub conflicting_rollout_row_count : Projection → Result ProjectionError ℕ
unfolding require_finalized rows_with_reason
conflicting_rollout_row_count p =
    require_finalized p (rows_with_reason (text "conflicting_rollout_identity") p.rows)

unfoldable pub reason_codes_of : List StoredRow → List Text
reason_codes_of [] = []
reason_codes_of (s ∷ rows) =
    let rest = reason_codes_of rows in elim s.reason_code [ none ↦ rest | some code ↦ code ∷ rest ]

unfoldable pub rejection_counts_by_code : Projection → Result ProjectionError (List (Text × ℕ))
unfolding require_finalized is_reject rows_with_reason reason_codes_of distinct
rejection_counts_by_code p =
    let rejected = select (λ s. is_reject s.decision) p.rows in
    require_finalized p
      (map (λ code. (code, rows_with_reason code rejected)) (distinct (reason_codes_of rejected)))
