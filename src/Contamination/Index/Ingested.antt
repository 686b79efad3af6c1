-- ===== src/Contamination/Index/Ingested.antt =====
-- What the loops of `build_contamination_index` over the samples and the benchmarks leave behind.
use nodelm.Base.{
  ◌≡◌, List, Text, ok, ◌>>=◌, ◌>>◌, >>=-eq-ok, raise_if, passed, ok-injective, subst, In, for_each,
  for_each_keeps, ℕ,
}
use nodelm.Base.Methods.{is_empty}
use nodelm.Contamination.Tables.{
  ContaminationSample, BenchmarkEntry, Database, initialize_database, no_samples, no_benchmarks,
}
use nodelm.Contamination.Ingest.{insert_sample, insert_benchmark}
use nodelm.Contamination.Ingest.Invariant.{IsIngested, empty-IsIngested}
use nodelm.Contamination.Ingest.Kept.{insert_sample-IsIngested, insert_benchmark-IsIngested}
use nodelm.Contamination.Ingest.Complete.{
  SampleRead, SampleRead-Grown, BenchmarkRead, BenchmarkRead-Grown, insert_sample-Read,
  insert_benchmark-Read, for_each-Read,
}
use nodelm.Contamination.Index.{IndexInput, ingest}

-- The two loops that an index goes through.
pub record Loops (sha256 : Text → List ℕ) (i : IndexInput) (db : Database) : Type 0 where
  pub sampled : Database
  pub samples_read :
      for_each (insert_sample sha256 i.aliases) initialize_database i.samples ≡ ok sampled
  pub benchmarks_read : for_each (insert_benchmark sha256) sampled i.benchmarks ≡ ok db

module _ (sha256 : Text → List ℕ) (i : IndexInput) where
  pub ingest-ok : (db : Database) → ingest sha256 i ≡ ok db → Loops sha256 i db
  unfolding ingest
  ingest-ok db h =
      let full_of = λ (sampled : Database).
        for_each (insert_benchmark sha256) sampled i.benchmarks >>= λ full.
        raise_if (is_empty i.benchmarks) no_benchmarks >> ok full in
      let (sampled, read, h) =
        >>=-eq-ok (for_each (insert_sample sha256 i.aliases) initialize_database i.samples)
          (λ sampled. raise_if (is_empty sampled.samples) no_samples >> full_of sampled) h in
      let (_, h) = passed (is_empty sampled.samples) no_samples (full_of sampled) h in
      let (full, read', h) =
        >>=-eq-ok (for_each (insert_benchmark sha256) sampled i.benchmarks)
          (λ full. raise_if (is_empty i.benchmarks) no_benchmarks >> ok full) h in
      let (_, h) = passed (is_empty i.benchmarks) no_benchmarks (ok full) h in
      record {
        sampled = sampled;
        samples_read = read;
        benchmarks_read =
            subst (λ d. for_each (insert_benchmark sha256) sampled i.benchmarks ≡ ok d)
              (ok-injective h) read';
      }

  -- What is read leaves flat groups under their least members, every value of a sample in the
  -- repository of the sample, and texts in normal form.
  pub ingest-IsIngested : (db : Database) → ingest sha256 i ≡ ok db → IsIngested db
  ingest-IsIngested db h =
      let l = ingest-ok db h in
      for_each_keeps (insert_benchmark sha256) IsIngested (insert_benchmark-IsIngested sha256)
        i.benchmarks l.sampled db l.benchmarks_read
        (for_each_keeps (insert_sample sha256 i.aliases) IsIngested
          (insert_sample-IsIngested sha256 i.aliases) i.samples initialize_database l.sampled
          l.samples_read empty-IsIngested)

  -- Every sample and every benchmark is in the tables.
  pub ingest-Read :
      (db : Database)
      → ingest sha256 i ≡ ok db
      → ((s : ContaminationSample) → In s i.samples → SampleRead sha256 s db)
        × ((e : BenchmarkEntry) → In e i.benchmarks → BenchmarkRead sha256 e db)
  ingest-Read db h =
      let l = ingest-ok db h in
      let (_, samples) =
        for_each-Read sha256 (insert_sample sha256 i.aliases) (SampleRead sha256)
          (SampleRead-Grown sha256) (insert_sample-Read sha256 i.aliases) i.samples
          initialize_database l.sampled l.samples_read in
      let (grown, benchmarks) =
        for_each-Read sha256 (insert_benchmark sha256) (BenchmarkRead sha256)
          (BenchmarkRead-Grown sha256) (insert_benchmark-Read sha256) i.benchmarks l.sampled db
          l.benchmarks_read in
      (λ s k. SampleRead-Grown sha256 s l.sampled db grown (samples s k), benchmarks)
