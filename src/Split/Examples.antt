-- ===== src/Split/Examples.antt =====
-- The theorems on splits at concrete values.
use nodelm.Base.{ℕ, ◌≡◌, ◌≢◌, refl, In, inl, inr, ok, err, List, [], ◌∷◌, Text, text, some, none}
use nodelm.Base.Fractions.{Fraction}
use nodelm.Contamination.Tables.{train, evaluation}
use nodelm.Contamination.Splits.{bucket_split}
use nodelm.Split.Errors.{endless_walk, alias_cycle}
use nodelm.Split.Aliases.Fuel.{resolve_origin_ends}
use nodelm.Split.Aliases.{resolve_origin, Entries, resolved_aliases}
use nodelm.Split.Aliases.Resolved.{resolved_aliases-final}
use nodelm.Split.Memory.{SplitAssignment, RepositorySplitManifest, build_repository_split}
use nodelm.Split.Memory.Assigned.{
  build_repository_split-bucket, build_repository_split-disjoint, listed_in,
}
use nodelm.Split.Authorization.{require_split}
use nodelm.Split.Events.{
  Event, stream_start, document_start, mapping_start, sequence_start, scalar, mapping_end,
  sequence_end, document_end, stream_end, skip_yaml_value,
}
use nodelm.Split.Events.Skipped.{
  Value, text_value, sequence, mapping, no_values, and_value, first_event, other_events,
  skip_yaml_value-other_events,
}
use nodelm.Split.Evidence.{RepositorySplitEvidence, read_repository_split_evidence}
use nodelm.Split.Evidence.Disjoint.{IsPartition, read_repository_split_evidence-IsPartition}

abbrev aliases : Entries
aliases = (text "o/a", text "o/b") ∷ (text "o/b", text "o/c") ∷ []

abbrev resolved : Entries
resolved =
    (text "github.com/o/a", text "github.com/o/c")
    ∷ (text "github.com/o/b", text "github.com/o/c")
    ∷ []

resolved_lem : resolved_aliases aliases ≡ ok resolved
unfolding resolved_aliases
resolved_lem = refl

resolved_aliases-final_example : text "github.com/o/c" ≢ text "github.com/o/b"
resolved_aliases-final_example =
    resolved_aliases-final aliases resolved (text "github.com/o/a", text "github.com/o/c")
      (text "github.com/o/b", text "github.com/o/c") resolved_lem (inl refl) (inr (inl refl))

-- A cycle is reported with its first member at both ends.
cycle_lem :
    resolved_aliases ((text "o/a", text "o/b") ∷ (text "o/b", text "o/a") ∷ [])
    ≡ err (alias_cycle (text "github.com/o/a" ∷ text "github.com/o/b" ∷ text "github.com/o/a" ∷ []))
unfolding resolved_aliases
cycle_lem = refl

-- A stand-in for SHA-256: the text itself.
abbrev itself : Text → List ℕ
itself s = s

abbrev half : Fraction
half = record { numerator = 1; denominator = 2 }

abbrev samples : List (Text × Text)
samples = (text "s2", text "o/a") ∷ (text "s1", text "o/c") ∷ []

abbrev manifest : RepositorySplitManifest
manifest = record {
  seed = 7;
  evaluation_fraction = half;
  assignments =
      (record { sample_id = text "s1"; repository = text "github.com/o/c"; split = evaluation })
      ∷ (record { sample_id = text "s2"; repository = text "github.com/o/c"; split = evaluation })
      ∷ [];
  train_repositories = [];
  evaluation_repositories = text "github.com/o/c" ∷ [];
}

manifest_lem : build_repository_split itself 7 half aliases 10 samples ≡ ok manifest
unfolding build_repository_split
manifest_lem = refl

abbrev assignment : SplitAssignment
assignment = record {
  sample_id = text "s2";
  repository = text "github.com/o/c";
  split = evaluation;
}

build_repository_split-bucket_example :
    (evaluation ≡ bucket_split itself 7 half (text "github.com/o/c"))
    × In (text "github.com/o/c") (listed_in evaluation manifest)
build_repository_split-bucket_example =
    build_repository_split-bucket itself 7 half aliases 10 samples manifest assignment manifest_lem
      (inr (inl refl))

abbrev tenth : Fraction
tenth = record { numerator = 1; denominator = 10 }

abbrev training : RepositorySplitManifest
training = record {
  seed = 7;
  evaluation_fraction = tenth;
  assignments =
      (record { sample_id = text "s1"; repository = text "github.com/o/c"; split = train })
      ∷ (record { sample_id = text "s2"; repository = text "github.com/o/c"; split = train })
      ∷ [];
  train_repositories = text "github.com/o/c" ∷ [];
  evaluation_repositories = [];
}

training_lem : build_repository_split itself 7 tenth aliases 10 samples ≡ ok training
unfolding build_repository_split
training_lem = refl

build_repository_split-disjoint_example :
    ¬ In (text "github.com/o/c") training.evaluation_repositories
build_repository_split-disjoint_example =
    build_repository_split-disjoint itself 7 tenth aliases 10 samples training
      (text "github.com/o/c") training_lem (inl refl)

abbrev reviewed : List (Text × Text)
reviewed = (text "n1", text "d1") ∷ (text "n2", text "d2") ∷ []

passes : require_split reviewed (text "n2") (text "d2") ≡ ok tt
unfolding require_split
passes = refl

abbrev nested : Value
nested = mapping (
    and_value (text_value (text "k"))
      (and_value (sequence (and_value (text_value (text "v")) no_values)) no_values))

skip_yaml_value-other_events_example :
    skip_yaml_value (first_event nested) (other_events nested (stream_end ∷ []))
    ≡ ok (stream_end ∷ [])
skip_yaml_value-other_events_example = skip_yaml_value-other_events nested (stream_end ∷ [])

abbrev events : List Event
events =
    stream_start
    ∷ document_start
    ∷ mapping_start
    ∷ scalar (text "schema_version")
    ∷ scalar (text "nodelm.repository-split/v1")
    ∷ scalar (text "seed")
    ∷ sequence_start
    ∷ scalar (text "1")
    ∷ sequence_end
    ∷ scalar (text "sample_count")
    ∷ scalar (text "12")
    ∷ scalar (text "repositories")
    ∷ mapping_start
    ∷ scalar (text "train")
    ∷ sequence_start
    ∷ scalar (text "o/a")
    ∷ sequence_end
    ∷ scalar (text "evaluation")
    ∷ sequence_start
    ∷ scalar (text "o/b")
    ∷ sequence_end
    ∷ mapping_end
    ∷ mapping_end
    ∷ document_end
    ∷ stream_end
    ∷ []

abbrev evidence : RepositorySplitEvidence
evidence = record {
  train_repositories = text "github.com/o/a" ∷ [];
  evaluation_repositories = text "github.com/o/b" ∷ [];
  excluded_repositories = [];
  input_sha256 = none;
  input_bytes = none;
  sample_count = some 12;
}

evidence_lem : read_repository_split_evidence events ≡ ok evidence
unfolding read_repository_split_evidence
evidence_lem = refl

read_repository_split_evidence-IsPartition_example : IsPartition evidence
read_repository_split_evidence-IsPartition_example =
    read_repository_split_evidence-IsPartition events evidence evidence_lem

-- Two aliases in a cycle: the walk from either ends with the cycle.
abbrev circular : Entries
circular =
    (text "github.com/o/a", text "github.com/o/b")
    ∷ (text "github.com/o/b", text "github.com/o/a")
    ∷ []

resolve_origin_ends_example :
    resolve_origin circular [] (text "github.com/o/a") ≢ err (endless_walk (text "github.com/o/a"))
resolve_origin_ends_example =
    resolve_origin_ends circular [] (text "github.com/o/a") (text "github.com/o/a")
