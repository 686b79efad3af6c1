-- ===== src/Split/Evidence.antt =====
-- `read_repository_split_evidence` of decontamination/split.py, from the events that YAML's parser yields. The
-- file and the parser are not modelled, and `int` reads ASCII digits.
pub mod Disjoint
use nodelm.Base.{
  ℕ, zero, suc, ◌+◌, ◌*◌, ◌-◌, Bool, true, false, not, ◌&&◌, ◌||◌, List, [], ◌∷◌, ◌++◌, map, Text,
  text, ◌==◌, eqb, leb, if◌then◌else◌, length, select, Result, ok, err, ◌>>=◌, ◌>>◌, raise_if,
  Option, none, some,
}
use nodelm.Base.Methods.{strip, is_empty}
use nodelm.Contamination.Ordering.{distinct}
use nodelm.Contamination.Forest.{contains}
use nodelm.Split.Errors.{
  SplitError, ended_early, no_stream_start, no_document_start, root_not_a_mapping, key_not_a_string,
  duplicate_key, schema_not_a_string, digest_not_a_string, not_an_integer, negative_integer,
  invalid_document_end, more_documents, unsupported_schema, no_repositories, lists_overlap,
}
use nodelm.Split.Aliases.{canonical}
use nodelm.Split.Events.{
  Event, stream_start, document_start, mapping_start, scalar, mapping_end, document_end, stream_end,
  next_yaml_event, skip_yaml_value, RepositoryLists, read_repository_mapping,
}

-- Digits, with single underscores between them.
unfoldable pub digits : Bool → ℕ → Text → Option ℕ
digits after_digit value [] = if after_digit then some value else none
digits after_digit value (c ∷ s) =
    let next = digits true (10 * value + (c - 48)) s in
    let gap = digits false value s in
    if leb 48 c && leb c 57 then next else if eqb c 95 && after_digit then gap else none

unfoldable pub with_sign : Bool → Option ℕ → Option (Bool × ℕ)
with_sign negative none = none
with_sign negative (some n) = some (negative, n)

-- `int(value)`: whether there is a minus sign, and the number.
unfoldable pub parse_signed : Text → Option (Bool × ℕ)
unfolding digits with_sign
parse_signed [] = none
parse_signed (c ∷ s) =
    let unsigned = digits false 0 s in
    if eqb c 45
    then with_sign true unsigned
    else if eqb c 43
    then with_sign false unsigned
    else with_sign false (digits false 0 (c ∷ s))

unfoldable pub natural : Option (Bool × ℕ) → Result SplitError ℕ
natural none = err not_an_integer
natural (some (negative, n)) = raise_if (negative && not (eqb n 0)) negative_integer >> ok n

unfoldable pub parse_natural : Text → Result SplitError ℕ
unfolding natural parse_signed strip
parse_natural value = natural (parse_signed (strip value))

-- What the loop over the keys of the root has read.
pub record Fields : Type 0 where
  pub schema_version : Option Text
  pub repositories : Option RepositoryLists
  pub input_sha256 : Option Text
  pub input_bytes : Option ℕ
  pub sample_count : Option ℕ

abbrev pub no_fields : Fields
no_fields = record {
  schema_version = none;
  repositories = none;
  input_sha256 = none;
  input_bytes = none;
  sample_count = none;
}

pub data Field : Type 0 where
  schema_field repositories_field digest_field bytes_field count_field other_field : Field

unfoldable pub field_of : Text → Field
unfolding ◌==◌
field_of key =
    if key == text "schema_version"
    then schema_field
    else if key == text "repositories"
    then repositories_field
    else if key == text "input_sha256"
    then digest_field
    else if key == text "input_bytes"
    then bytes_field
    else if key == text "sample_count"
    then count_field
    else other_field

unfoldable pub read_natural : Event → Result SplitError ℕ
unfolding parse_natural
read_natural (scalar value) = parse_natural value
read_natural _ = err not_an_integer

unfoldable pub read_text : SplitError → Event → Result SplitError Text
read_text error (scalar value) = ok value
read_text error _ = err error

-- The value of a key, and the events after it.
unfoldable pub read_field :
    Field → Event → List Event → Fields → Result SplitError (Fields × List Event)
unfolding read_text read_natural read_repository_mapping skip_yaml_value
read_field schema_field value events fields = read_text schema_not_a_string value >>= λ t.
    ok (record fields { schema_version = some t }, events)
read_field repositories_field value events fields =
    read_repository_mapping value events >>= λ (lists, rest).
    ok (record fields { repositories = some lists }, rest)
read_field digest_field value events fields = read_text digest_not_a_string value >>= λ t.
    ok (record fields { input_sha256 = some t }, events)
read_field bytes_field value events fields =
    read_natural value >>= λ n. ok (record fields { input_bytes = some n }, events)
read_field count_field value events fields =
    read_natural value >>= λ n. ok (record fields { sample_count = some n }, events)
read_field other_field value events fields =
    skip_yaml_value value events >>= λ rest. ok (fields, rest)

-- The loop over the keys of the root. A turn takes an event or more, so that fuel above the number of
-- events is enough.
unfoldable pub read_root :
    ℕ → List Text → Fields → List Event → Result SplitError (Fields × List Event)
unfolding next_yaml_event read_field field_of contains
read_root zero seen fields events = err ended_early
read_root (suc fuel) seen fields [] = err ended_early
read_root (suc fuel) seen fields (mapping_end ∷ events) = ok (fields, events)
read_root (suc fuel) seen fields (scalar key ∷ events) = do
  raise_if (contains key seen) (duplicate_key key)
  (value, after_key) ← next_yaml_event events
  (fields', rest) ← read_field (field_of key) value after_key fields
  read_root fuel (key ∷ seen) fields' rest
read_root (suc fuel) seen fields (_ ∷ events) = err key_not_a_string

unfoldable pub is_event : Event → Event → Bool
is_event stream_start stream_start = true
is_event document_start document_start = true
is_event mapping_start mapping_start = true
is_event document_end document_end = true
is_event stream_end stream_end = true
is_event _ _ = false

-- `if not isinstance(_next_yaml_event(events), …): raise ValueError(…)`
unfoldable pub expect : Event → SplitError → List Event → Result SplitError (List Event)
unfolding next_yaml_event is_event
expect event error events = do
  (found, rest) ← next_yaml_event events
  raise_if (not (is_event event found)) error
  ok rest

unfoldable pub read_document : List Event → Result SplitError Fields
unfolding expect read_root
read_document events = do
  events ← expect stream_start no_stream_start events
  events ← expect document_start no_document_start events
  events ← expect mapping_start root_not_a_mapping events
  (fields, events) ← read_root (suc (length events)) [] no_fields events
  events ← expect document_end invalid_document_end events
  rest ← expect stream_end more_documents events
  ok fields

-- `tuple(sorted({canonical_repository(item) for item in items}))`
unfoldable pub canonical_items : List Text → Result SplitError (List Text)
unfolding canonical
canonical_items [] = ok []
canonical_items (item ∷ items) = do
  repository ← canonical item
  rest ← canonical_items items
  ok (repository ∷ rest)

unfoldable pub canonical_set : List Text → Result SplitError (List Text)
unfolding canonical_items distinct
canonical_set items = canonical_items items >>= λ all. ok (distinct all)

-- `set(a) & set(b)` is not empty.
unfoldable pub intersects : List Text → List Text → Bool
unfolding contains
intersects [] b = false
intersects (x ∷ a) b = contains x b || intersects a b

pub record RepositorySplitEvidence : Type 0 where
  pub train_repositories : List Text
  pub evaluation_repositories : List Text
  pub excluded_repositories : List Text
  pub input_sha256 : Option Text
  pub input_bytes : Option ℕ
  pub sample_count : Option ℕ

-- `schema_version != "nodelm.repository-split/v1"`
unfoldable pub is_supported : Option Text → Bool
unfolding ◌==◌
is_supported none = false
is_supported (some version) = version == text "nodelm.repository-split/v1"

unfoldable pub required_lists : Option RepositoryLists → Result SplitError RepositoryLists
required_lists none = err no_repositories
required_lists (some lists) = ok lists

unfoldable pub evidence_of : Fields → Result SplitError RepositorySplitEvidence
unfolding is_supported required_lists canonical_set intersects
evidence_of fields = do
  raise_if (not (is_supported fields.schema_version)) unsupported_schema
  lists ← required_lists fields.repositories
  train ← canonical_set lists.train_items
  evaluation ← canonical_set lists.evaluation_items
  excluded ← canonical_set lists.excluded_items
  raise_if
      (intersects train evaluation || intersects train excluded || intersects evaluation excluded)
      lists_overlap
  ok (record {
    train_repositories = train;
    evaluation_repositories = evaluation;
    excluded_repositories = excluded;
    input_sha256 = fields.input_sha256;
    input_bytes = fields.input_bytes;
    sample_count = fields.sample_count;
  })

unfoldable pub read_repository_split_evidence :
    List Event → Result SplitError RepositorySplitEvidence
unfolding read_document evidence_of
read_repository_split_evidence events = read_document events >>= evidence_of

unfoldable pub read_repository_split_repositories :
    List Event → Result SplitError (List Text × List Text)
unfolding read_repository_split_evidence
read_repository_split_repositories events = read_repository_split_evidence events >>= λ e.
    ok (e.train_repositories, e.evaluation_repositories)
