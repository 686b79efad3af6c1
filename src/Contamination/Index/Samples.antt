-- ===== src/Contamination/Index/Samples.antt =====
-- A small input for the contamination index.
use nodelm.Base.{ℕ, List, [], ◌∷◌, Text, text}
use nodelm.Contamination.Tables.{ContaminationSample, BenchmarkEntry}
use nodelm.Contamination.Index.{IndexInput}

-- A stand-in for SHA-256: the text itself.
abbrev pub itself : Text → List ℕ
itself s = s

abbrev sample : Text → Text → Text → Text → ContaminationSample
sample id repository task patch = record {
  sample_id = id;
  repository = repository;
  task_text = task;
  patch_texts = patch ∷ [];
}

abbrev pub first : ContaminationSample
first = sample (text "s1") (text "z/one") (text "fix a") (text "p1")

abbrev pub second : ContaminationSample
second = sample (text "s2") (text "b/two") (text "fix a ") (text "p2")

abbrev pub third : ContaminationSample
third = sample (text "s3") (text "c/three") (text "abcdefghij") (text "p3")

abbrev pub fourth : ContaminationSample
fourth = sample (text "s4") (text "d/four") (text "abcdefghijk") (text "p4")

abbrev pub fifth : ContaminationSample
fifth = sample (text "s5") (text "e/five") (text "zyxwvutsrq") (text "p5")

abbrev pub bench : BenchmarkEntry
bench = record { benchmark_id = text "b1"; task_text = text "zyxwvutsrqp"; patch_text = text "p2" }

abbrev pub digest : Text
digest = text "0123456789abcdef0123456789abcdef0123456789abcdef0123456789abcdef"

abbrev pub small_input : IndexInput
small_input = record {
  samples = first ∷ second ∷ third ∷ fourth ∷ fifth ∷ [];
  benchmarks = bench ∷ [];
  near_duplicate_threshold = record { numerator = 9; denominator = 10 };
  aliases = [];
  task_metadata_sha256 = digest;
  benchmark_sha256 = digest;
  seed = 42;
  evaluation_fraction = record { numerator = 1; denominator = 2 };
}
