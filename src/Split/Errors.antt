-- ===== src/Split/Errors.antt =====
-- The exceptions of decontamination/split.py.
use nodelm.Base.{Text, List}

pub data SplitError : Type 0 where
  conflicting_alias : Text → SplitError
  alias_cycle : List Text → SplitError
  invalid_identity : Text → SplitError
  -- The walk along the aliases would not end.
  endless_walk : Text → SplitError
  fraction_out_of_range max_samples_not_positive sample_limit_exceeded missing_repository :
      SplitError
  duplicate_sample_id : Text → SplitError
  no_reviewed_split wrong_split_digest : SplitError
  ended_early invalid_value no_stream_start no_document_start root_not_a_mapping : SplitError
  key_not_a_string repositories_not_a_mapping repositories_not_a_list identity_not_a_string :
      SplitError
  missing_repository_lists schema_not_a_string digest_not_a_string not_an_integer negative_integer :
      SplitError
  invalid_document_end more_documents unsupported_schema no_repositories lists_overlap : SplitError
  duplicate_key : Text → SplitError
