-- ===== src/Split/Events.antt =====
-- The events of a YAML document, `_next_yaml_event`, `_skip_yaml_value` and `_read_repository_mapping` of
-- decontamination/split.py. An iterator over events is the list of the events that are left.
pub mod Skipped
use nodelm.Base.{
  ℕ, zero, suc, Bool, true, false, not, ◌&&◌, List, [], ◌∷◌, ◌++◌, Text, text, ◌==◌, if◌then◌else◌,
  length, Result, ok, err, ◌>>=◌, ◌>>◌, raise_if, Option, none, some,
}
use nodelm.Contamination.Forest.{contains}
use nodelm.Contamination.Tables.{SplitName, train, evaluation, excluded}
use nodelm.Split.Errors.{
  SplitError, ended_early, invalid_value, key_not_a_string, repositories_not_a_mapping,
  repositories_not_a_list, identity_not_a_string, missing_repository_lists, duplicate_key,
}

pub data Event : Type 0 where
  stream_start document_start mapping_start sequence_start : Event
  scalar : Text → Event
  alias_event mapping_end sequence_end document_end stream_end : Event

unfoldable pub next_yaml_event : List Event → Result SplitError (Event × List Event)
next_yaml_event [] = err ended_early
next_yaml_event (event ∷ events) = ok (event, events)

-- The loop of `_skip_yaml_value`, at a depth.
unfoldable pub skip_depth : ℕ → List Event → Result SplitError (List Event)
skip_depth zero events = ok events
skip_depth (suc depth) [] = err ended_early
skip_depth (suc depth) (mapping_start ∷ events) = skip_depth (suc (suc depth)) events
skip_depth (suc depth) (sequence_start ∷ events) = skip_depth (suc (suc depth)) events
skip_depth (suc depth) (mapping_end ∷ events) = skip_depth depth events
skip_depth (suc depth) (sequence_end ∷ events) = skip_depth depth events
skip_depth (suc depth) (_ ∷ events) = skip_depth (suc depth) events

unfoldable pub skip_yaml_value : Event → List Event → Result SplitError (List Event)
unfolding skip_depth
skip_yaml_value (scalar value) events = ok events
skip_yaml_value alias_event events = ok events
skip_yaml_value mapping_start events = skip_depth 1 events
skip_yaml_value sequence_start events = skip_depth 1 events
skip_yaml_value _ events = err invalid_value

pub record RepositoryLists : Type 0 where
  pub train_items : List Text
  pub evaluation_items : List Text
  pub excluded_items : List Text

abbrev pub no_items : RepositoryLists
no_items = record { train_items = []; evaluation_items = []; excluded_items = [] }

-- `key in repositories`
unfoldable pub split_of_key : Text → Option SplitName
unfolding ◌==◌
split_of_key key =
    if key == text "train"
    then some train
    else if key == text "evaluation"
    then some evaluation
    else if key == text "excluded"
    then some excluded
    else none

unfoldable pub add_items : SplitName → List Text → RepositoryLists → RepositoryLists
add_items train items lists = record lists { train_items = lists.train_items ++ items }
add_items evaluation items lists = record lists {
  evaluation_items = lists.evaluation_items ++ items;
}
add_items excluded items lists = record lists { excluded_items = lists.excluded_items ++ items }

-- The items of a list, and the events after its end.
unfoldable pub read_items : List Event → Result SplitError (List Text × List Event)
read_items [] = err ended_early
read_items (sequence_end ∷ events) = ok ([], events)
read_items (scalar value ∷ events) = read_items events >>= λ (items, rest). ok (value ∷ items, rest)
read_items (_ ∷ events) = err identity_not_a_string

unfoldable pub read_value :
    Option SplitName
    → Event
    → List Event
    → RepositoryLists
    → Result SplitError (RepositoryLists × List Event)
unfolding skip_yaml_value read_items add_items
read_value none value events lists = skip_yaml_value value events >>= λ rest. ok (lists, rest)
read_value (some split) sequence_start events lists =
    read_items events >>= λ (items, rest). ok (add_items split items lists, rest)
read_value (some split) _ events lists = err repositories_not_a_list

-- The loop of `_read_repository_mapping`. A turn takes an event or more, so that fuel above the number
-- of events is enough.
unfoldable pub read_entries :
    ℕ → List Text → RepositoryLists → List Event → Result SplitError (RepositoryLists × List Event)
unfolding next_yaml_event split_of_key read_value contains
read_entries zero seen lists events = err ended_early
read_entries (suc fuel) seen lists [] = err ended_early
read_entries (suc fuel) seen lists (mapping_end ∷ events) =
    raise_if (not (contains (text "train") seen && contains (text "evaluation") seen))
      missing_repository_lists
    >> ok (lists, events)
read_entries (suc fuel) seen lists (scalar key ∷ events) = do
  raise_if (contains key seen) (duplicate_key key)
  (value, after_key) ← next_yaml_event events
  (lists', rest) ← read_value (split_of_key key) value after_key lists
  read_entries fuel (key ∷ seen) lists' rest
read_entries (suc fuel) seen lists (_ ∷ events) = err key_not_a_string

unfoldable pub read_repository_mapping :
    Event → List Event → Result SplitError (RepositoryLists × List Event)
unfolding read_entries
read_repository_mapping mapping_start events = read_entries (suc (length events)) [] no_items events
read_repository_mapping _ events = err repositories_not_a_mapping
