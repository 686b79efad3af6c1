-- ===== src/Provenance/Normalize.antt =====
-- `normalize_sample` of provenance/normalize.py, with `NormalizedSample` of models.py.
use nodelm.Base.{
  ℕ, ◌+◌, Bool, true, false, not, ◌&&◌, List, [], ◌∷◌, Text, text, eqb, length, select,
  if◌then◌else◌, Result, ok, err, ◌>>=◌, Option, none, some,
}
use nodelm.Base.Methods.{strip, is_empty, replace_crlf, replace_char}
use nodelm.Base.Digests.{hexdigest, decimal}
use nodelm.Gates.Patches.{starts_with, splitlines, encoded_length}
use nodelm.Provenance.Values.{
  Value, Items, Fields, null, boolean, integer, negative, string, array, object, nil, cons,
  get_value,
}
use nodelm.Provenance.GoldFree.{validate_gold_free_trajectory}

-- The reasons of normalize.py and of pipeline.py.
pub data NormalizationError : Type 0 where
  forbidden_gold_patch invalid_resolved unknown_resolution invalid_trajectory : NormalizationError
  missing_field missing_identifier : List Text → NormalizationError
  license_not_allowed : Text → NormalizationError
  invalid_sample unverified_source empty_label empty_lineage : NormalizationError
  other_row_dataset missing_task invalid_repository missing_language : NormalizationError
  task_mismatch : Text → NormalizationError
  other_task_source other_task_revision : NormalizationError
  conflicting_task_metadata : Text → NormalizationError

unfoldable pub parse_resolved : Option Value → Result NormalizationError Bool
parse_resolved (some (boolean b)) = ok b
parse_resolved (some (integer n)) =
    if eqb n 0 then ok false else if eqb n 1 then ok true else err invalid_resolved
parse_resolved _ = err invalid_resolved

-- `none` for a label that is unknown.
unfoldable pub parse_resolution_status : Option Value → Result NormalizationError (Option Bool)
unfolding parse_resolved
parse_resolution_status none = ok none
parse_resolution_status (some null) = ok none
parse_resolution_status (some (negative n)) = if eqb n 0 then ok none else err invalid_resolved
parse_resolution_status (some value) = parse_resolved (some value) >>= λ b. ok (some b)

-- The stripped text of a value that is a string with more than white space.
unfoldable pub string_of : Option Value → Option Text
unfolding strip is_empty
string_of (some (string s)) = if is_empty (strip s) then none else some (strip s)
string_of _ = none

-- As `string_of`, or the decimal text of an integer.
unfoldable pub identifier_of : Option Value → Option Text
unfolding string_of decimal
identifier_of (some (integer n)) = some (decimal n)
identifier_of (some (negative n)) = some (45 ∷ decimal (n + 1))
identifier_of value = string_of value

unfoldable pub first_of : (Option Value → Option Text) → List Text → Fields → Option Text
unfolding get_value
first_of read [] row = none
first_of read (key ∷ keys) row =
    let rest = first_of read keys row in
    elim (read (get_value key row)) [ none ↦ rest | some s ↦ some s ]

unfoldable pub required_string : List Text → Fields → Result NormalizationError Text
unfolding first_of string_of
required_string keys row = elim (first_of string_of keys row) [
  | none ↦ err (missing_field keys)
  | some s ↦ ok s
]

unfoldable pub required_identifier : List Text → Fields → Result NormalizationError Text
unfolding first_of identifier_of
required_identifier keys row = elim (first_of identifier_of keys row) [
  | none ↦ err (missing_identifier keys)
  | some s ↦ ok s
]

unfoldable pub nested_patch : Option Value → Text × Text
unfolding get_value
nested_patch (some (object metadata)) = elim (get_value (text "model_patch") metadata) [
  | some (object patch) ↦ elim (get_value (text "patch") patch) [
    | some (string s) ↦ (s, text "metadata.model_patch.patch")
    | _ ↦ ([], text "absent")
  ]
  | _ ↦ ([], text "absent")
]
nested_patch _ = ([], text "absent")

unfoldable pub patch_in : List Text → Fields → Text × Text
unfolding get_value nested_patch
patch_in [] row = nested_patch (get_value (text "metadata") row)
patch_in (key ∷ keys) row =
    let rest = patch_in keys row in
    elim (get_value key row) [ some (string s) ↦ (s, key) | _ ↦ rest ]

unfoldable pub extract_model_patch : Fields → Text × Text
unfolding patch_in
extract_model_patch =
    patch_in (text "model_patch" ∷ text "pred_patch" ∷ text "generated_patch" ∷ [])

unfoldable pub are_mappings : Items → Bool
are_mappings nil = true
are_mappings (cons (object fields) items) = are_mappings items
are_mappings (cons _ items) = false

unfoldable pub check_trajectory : Items → Result NormalizationError Items
unfolding are_mappings
check_trajectory items =
    if are_mappings items
    then elim (validate_gold_free_trajectory (array items)) [
      | err e ↦ err forbidden_gold_patch
      | ok u ↦ ok items
    ]
    else err invalid_trajectory

unfoldable pub trajectory_of : Option Value → Result NormalizationError Items
unfolding check_trajectory
trajectory_of none = ok nil
trajectory_of (some null) = ok nil
trajectory_of (some (array items)) = check_trajectory items
trajectory_of _ = err invalid_trajectory

pub record PatchMetadata : Type 0 where
  pub sha256 : Text
  pub bytes : ℕ
  pub added_lines : ℕ
  pub removed_lines : ℕ
  pub source_field : Text

-- Lines that start with a sign, and not with three of them.
unfoldable pub signed_lines : ℕ → List Text → ℕ
unfolding starts_with
signed_lines sign lines =
    length (
      select (λ l. starts_with (sign ∷ []) l && not (starts_with (sign ∷ sign ∷ sign ∷ []) l))
        lines)

unfoldable pub model_patch_metadata : (Text → List ℕ) → Text → Text → PatchMetadata
unfolding hexdigest encoded_length splitlines replace_char replace_crlf signed_lines
model_patch_metadata sha256 patch source_field =
    let lines = splitlines (replace_char 13 10 (replace_crlf patch)) in
    record {
      sha256 = hexdigest (sha256 patch);
      bytes = encoded_length patch;
      added_lines = signed_lines b'+' lines;
      removed_lines = signed_lines b'-' lines;
      source_field = source_field;
    }
