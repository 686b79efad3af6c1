-- ===== src/Provenance/Pipeline.antt =====
-- `normalize_trace_sample` and the lineage of samples of provenance/pipeline.py, with
-- `canonical_language` of provenance/task_provenance.py.
pub mod Merged
pub mod Traced
pub mod Exact
pub mod Joined
use nodelm.Base.{
  ℕ, ◌+◌, Bool, true, false, not, ◌&&◌, ◌||◌, List, [], ◌∷◌, ◌++◌, map, Text, text, ◌==◌, eqb,
  length, select, if◌then◌else◌, Result, ok, err, ◌>>=◌, ◌>>◌, raise_if, Option, none, some,
}
use nodelm.Base.Methods.{strip, is_empty}
use nodelm.Base.Urls.{after_prefix, before}
use nodelm.Base.Digests.{is_digest}
use nodelm.Split.Maps as Maps
use nodelm.Fingerprint.Repository.{canonical_repository}
use nodelm.Gates.License.{evaluate_license}
use nodelm.Gates.Patches.{starts_with}
use nodelm.Gates.Status.{VerificationStatus, is_pass, is_none, any}
use nodelm.Provenance.Values.{
  Value, Items, Fields, null, boolean, integer, string, array, object, nil, cons, end, field,
  get_value,
}
use nodelm.Provenance.Json.{stable_model_id}
use nodelm.Provenance.GoldFree.{casefold}
use nodelm.Provenance.Normalize.{
  NormalizationError, license_not_allowed, unknown_resolution, unverified_source, empty_label,
  empty_lineage, other_row_dataset, missing_task, invalid_repository, missing_language,
  task_mismatch, parse_resolution_status, string_of, required_string, required_identifier, first_of,
}
use nodelm.Provenance.Sample.{NormalizedSample, SampleLabels, is_allowed, normalize_sample}

pub record TaskFields : Type 0 where
  pub repo : Text
  pub base_commit : Text
  pub license : Text
  pub language : Text

pub record DatasetSource : Type 0 where
  pub name : Text
  pub repository_id : Text
  pub revision : Option Text
  pub status : VerificationStatus

abbrev pub language_aliases : List (Text × Text)
language_aliases =
    (text "js", text "JavaScript")
    ∷ (text "javascript", text "JavaScript")
    ∷ (text "ts", text "TypeScript")
    ∷ (text "typescript", text "TypeScript")
    ∷ []

-- The language of a text with more than white space.
unfoldable pub canonical_language : Text → Option Text
unfolding strip is_empty casefold Maps.get
canonical_language value =
    let candidate = strip value in
    if is_empty candidate then none else elim (Maps.get (casefold candidate) language_aliases) [
      | none ↦ some (casefold candidate)
      | some language ↦ some language
    ]

unfoldable pub language_of : Text → Result NormalizationError Text
unfolding canonical_language
language_of value = elim (canonical_language value) [ none ↦ err missing_language | some l ↦ ok l ]

unfoldable pub canonical_license : Text → Result NormalizationError Text
unfolding is_allowed
canonical_license value =
    let decision = evaluate_license (some value) in
    if is_allowed decision.disposition
    then elim decision.normalized_spdx [
      | none ↦ err (license_not_allowed value)
      | some spdx ↦ ok spdx
    ]
    else err (license_not_allowed value)

unfoldable pub repository_of : Text → Result NormalizationError Text
unfolding canonical_repository
repository_of value = elim (canonical_repository value) [
  | err e ↦ err invalid_repository
  | ok r ↦ ok r
]

-- `merged[key] = value`: a key that is there keeps its place.
unfoldable pub set_field : Text → Value → Fields → Fields
unfolding ◌==◌
set_field key value end = field key value end
set_field key value (field k v fields) =
    let rest = field k v (set_field key value fields) in
    if k == key then field k value fields else rest

unfoldable pub optional_string : Text → Fields → Option Text
unfolding string_of get_value
optional_string key row = string_of (get_value key row)

-- A field of the metadata stands in for one that the row has not.
unfoldable pub fill_with : Option Text → Option Text → Text → Fields → Fields
unfolding set_field
fill_with (some own) nested key merged = merged
fill_with none none key merged = merged
fill_with none (some nested) key merged = set_field key (string nested) merged

unfoldable pub fill_from : Fields → List Text → Fields → Fields
unfolding optional_string fill_with
fill_from metadata [] merged = merged
fill_from metadata (key ∷ keys) merged =
    fill_from metadata keys
      (fill_with (optional_string key merged) (optional_string key metadata) key merged)

unfoldable pub fill_metadata : Option Value → Fields → Fields
unfolding fill_from
fill_metadata (some (object metadata)) merged =
    fill_from metadata (text "base_commit" ∷ text "license" ∷ text "language" ∷ []) merged
fill_metadata _ merged = merged

-- How a field of a trace is compared with the field of its task.
pub data Join : Type 0 where
  by_repository by_commit by_license by_language : Join

unfoldable pub values_match : Join → Text → Text → Result NormalizationError Bool
unfolding repository_of canonical_license language_of casefold ◌==◌
values_match by_repository trace task = do
  a ← repository_of trace
  b ← repository_of task
  ok (a == b)
values_match by_commit trace task = ok (casefold trace == casefold task)
values_match by_license trace task = canonical_license trace >>= λ a. ok (a == task)
values_match by_language trace task = language_of trace >>= λ a. ok (a == task)

-- One turn of the loop over the joined fields.
unfoldable pub join_field :
    Join → Text → List Text → Text → Text → Fields → Result NormalizationError Fields
join_field how key trace_keys label value merged = elim (first_of string_of trace_keys merged) [
  | none ↦ ok (set_field key (string value) merged)
  | some trace ↦ values_match how trace value >>= λ matched.
      raise_if (not matched) (task_mismatch label) >> ok (set_field key (string value) merged)
]

unfoldable pub join_task : TaskFields → Fields → Result NormalizationError Fields
join_task task merged = do
  a ←
      join_field by_repository (text "repo") (text "repo" ∷ text "repository" ∷ [])
        (text "repository") task.repo merged
  b ←
      join_field by_commit (text "base_commit") (text "base_commit" ∷ []) (text "base_commit")
        task.base_commit a
  c ←
      join_field by_license (text "license") (text "license" ∷ text "repository_license" ∷ [])
        (text "license") task.license b
  join_field by_language (text "language") (text "language" ∷ []) (text "language") task.language c

unfoldable pub join_optional : Option TaskFields → Fields → Result NormalizationError Fields
unfolding join_task
join_optional none merged = ok merged
join_optional (some task) merged = join_task task merged

-- The arguments of `normalize_trace_sample` beside the row and the source. `task_lookup` is none
-- where no lookup is given.
pub record TraceOptions : Type 0 where
  pub harness : Text
  pub generating_model : Text
  pub task_lookup : Option (Text → Option TaskFields)
  pub require_task_match : Bool
  pub expected_row_dataset_name : Option Text
  pub extra_lineage : List Text

unfoldable pub looked_up : Option (Text → Option TaskFields) → Text → Option TaskFields
looked_up none id = none
looked_up (some lookup) id = lookup id

unfoldable pub same_text : Option Text → Text → Bool
unfolding ◌==◌
same_text none t = false
same_text (some s) t = s == t

unfoldable pub is_other_dataset : Option Text → Fields → Bool
unfolding same_text optional_string
is_other_dataset none row = false
is_other_dataset (some expected) row =
    not (same_text (optional_string (text "hf_dataset_name") row) expected)

unfoldable pub lineage_of :
    (Text → List ℕ)
    → Fields
    → DatasetSource
    → Text
    → Text
    → Option TaskFields
    → List Text
    → List Text
unfolding stable_model_id strip
lineage_of sha256 row source revision id task extra =
    (text "hf-dataset:" ++ (source.repository_id ++ (64 ∷ revision)))
    ∷ (text "instance:" ++ id)
    ∷ (text "raw-row:" ++ stable_model_id sha256 (object row))
    ∷ elim task [
      | none ↦ map strip extra
      | some t ↦ (text "task-metadata:" ++ id) ∷ map strip extra
    ]

unfoldable pub require_resolution : Option Bool → Result NormalizationError Bool
require_resolution none = err unknown_resolution
require_resolution (some b) = ok b

unfoldable pub normalize_trace_sample :
    (Text → List ℕ)
    → Fields
    → DatasetSource
    → TraceOptions
    → Result NormalizationError NormalizedSample
normalize_trace_sample sha256 row source o = elim source.revision [
  | none ↦ err unverified_source
  | some revision ↦ do
    raise_if (not (is_pass source.status)) unverified_source
    raise_if (is_empty (strip o.harness) || is_empty (strip o.generating_model)) empty_label
    raise_if (any (λ s. is_empty (strip s)) o.extra_lineage) empty_lineage
    raise_if (is_other_dataset o.expected_row_dataset_name row) other_row_dataset
    id ← required_identifier (text "instance_id" ∷ []) row
    status ← parse_resolution_status (get_value (text "resolved") row)
    resolution ← require_resolution status
    let merged =
        fill_metadata (get_value (text "metadata") row)
          (set_field (text "resolved") (boolean resolution) row)
    let task = looked_up o.task_lookup id
    raise_if (o.require_task_match && is_none task) missing_task
    joined ← join_optional task merged
    normalize_sample sha256 joined (record {
      source_dataset = source.name;
      source_revision = revision;
      harness = strip o.harness;
      generating_model = strip o.generating_model;
      lineage = lineage_of sha256 row source revision id task o.extra_lineage;
    })
]
