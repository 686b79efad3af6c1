-- ===== src/Provenance/Examples.antt =====
-- The theorems on the projection of traces at concrete rows.
pub mod Tasks
pub mod Samples
use nodelm.Base.{
  ℕ, ◌+◌, ◌≡◌, ◌↔◌, refl, inl, inr, true, false, List, [], ◌∷◌, map, length, Text, text, ok, err,
  Option, none, some, for_each,
}
use nodelm.Provenance.Trace.{
  several_sample_ids, ProjectionError, TraceRow, admit, Projection, new_projection, new_row,
  add_row, admit_row, reject_original, reject_conflict, reject_duplicate, decide_group,
  has_several_samples, is_text,
}
use nodelm.Provenance.Trace.Finalize.{
  finalize, is_keyless, has_collision, rollout_keys, reject_keyless, check_classified,
  admitted_count, rejected_count, rejection_counts_by_code,
}
use nodelm.Provenance.Trace.Added.{add_rows}
use nodelm.Provenance.Trace.Classified.{classify}
use nodelm.Provenance.Trace.Admitted.{IsAdmitted, finalize-IsAdmitted}
use nodelm.Provenance.Trace.Returned.{finalize_iff_not-IsRefused}
use nodelm.Provenance.Trace.Refused.{IsRefused, finalize-IsRefused}
use nodelm.Provenance.Trace.Counted.{finalize-counts}
use nodelm.Provenance.Trace.Finalized.{finalize-classify}

abbrev normalized : ℕ → Text → Text → Text → TraceRow
normalized index key digest sample = record {
  row_index = index;
  rollout_key = some key;
  raw_row_sha256 = digest;
  sample_id = some sample;
  reason_code = none;
  reason = none;
  instance_id = none;
  repository = none;
  rollout_id = none;
}

abbrev rejected : ℕ → Option Text → Text → TraceRow
rejected index key digest = record {
  row_index = index;
  rollout_key = key;
  raw_row_sha256 = digest;
  sample_id = none;
  reason_code = some (text "invalid");
  reason = some (text "a reason");
  instance_id = none;
  repository = none;
  rollout_id = none;
}

-- A rollout that is repeated, one that is rejected, one that conflicts, and a row without a key.
abbrev trace : List TraceRow
trace =
    normalized 0 (text "a") (text "1") (text "s")
    ∷ rejected 1 (some (text "b")) (text "2")
    ∷ normalized 2 (text "a") (text "1") (text "s")
    ∷ normalized 3 (text "c") (text "3") (text "t")
    ∷ rejected 4 (some (text "c")) (text "4")
    ∷ rejected 5 none (text "5")
    ∷ []

abbrev added : Projection
added = record { rows = map new_row trace; conflicting_rollouts = []; finalized = false }

abbrev classified : Projection
classified = record {
  rows =
      admit_row (new_row (normalized 0 (text "a") (text "1") (text "s")))
      ∷ reject_original (new_row (rejected 1 (some (text "b")) (text "2")))
      ∷ reject_duplicate (new_row (normalized 2 (text "a") (text "1") (text "s")))
      ∷ reject_conflict (new_row (normalized 3 (text "c") (text "3") (text "t")))
      ∷ reject_conflict (new_row (rejected 4 (some (text "c")) (text "4")))
      ∷ reject_original (new_row (rejected 5 none (text "5")))
      ∷ [];
  conflicting_rollouts = text "c" ∷ [];
  finalized = true;
}

adds : add_rows new_projection trace ≡ ok added
unfolding for_each add_row
adds = refl

finalizes : finalize added ≡ ok classified
unfolding finalize is_keyless has_collision rollout_keys reject_keyless for_each decide_group
    check_classified
finalizes = refl

counts_by_code :
    rejection_counts_by_code classified
    ≡ ok (
        (text "conflicting_rollout_identity", 2)
        ∷ (text "duplicate_trace_row", 1)
        ∷ (text "invalid", 2)
        ∷ [])
unfolding rejection_counts_by_code
counts_by_code = refl

finalize-IsAdmitted_example :
    ((admit_row (new_row (normalized 0 (text "a") (text "1") (text "s")))).decision ≡ some admit)
    ↔ IsAdmitted trace (normalized 0 (text "a") (text "1") (text "s"))
finalize-IsAdmitted_example =
    finalize-IsAdmitted trace added classified
      (admit_row (new_row (normalized 0 (text "a") (text "1") (text "s")))) adds finalizes
      (inl refl)

finalize-counts_example :
    (admitted rejected : ℕ) × (admitted_count classified ≡ ok admitted)
    × (rejected_count classified ≡ ok rejected)
    × (admitted + rejected ≡ length trace)
finalize-counts_example = finalize-counts trace added classified adds finalizes

finalize_iff_not-IsRefused_example :
    ((q : Projection) × (finalize added ≡ ok q)) ↔ ((e : ProjectionError) → ¬ IsRefused trace e)
finalize_iff_not-IsRefused_example = finalize_iff_not-IsRefused trace added adds

-- One rollout under two samples.
abbrev ambiguous : List TraceRow
ambiguous =
    normalized 0 (text "a") (text "1") (text "s")
    ∷ normalized 1 (text "a") (text "1") (text "t")
    ∷ []

abbrev ambiguous_added : Projection
ambiguous_added = record {
  rows = map new_row ambiguous;
  conflicting_rollouts = [];
  finalized = false;
}

adds_ambiguous : add_rows new_projection ambiguous ≡ ok ambiguous_added
unfolding for_each add_row
adds_ambiguous = refl

refuses : finalize ambiguous_added ≡ err (several_sample_ids (text "a"))
unfolding finalize is_keyless has_collision rollout_keys reject_keyless for_each decide_group
    check_classified
refuses = refl

finalize-IsRefused_example : IsRefused ambiguous (several_sample_ids (text "a"))
finalize-IsRefused_example =
    finalize-IsRefused ambiguous ambiguous_added (several_sample_ids (text "a")) adds_ambiguous
      refuses
