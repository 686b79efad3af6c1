-- ===== src/Lib.antt =====
-- nodelm: the separation of evaluation from training, and the gates around it.
--
-- A dataset's samples belong to repositories. `build_contamination_index` groups the repositories
-- that share a task or a patch, exactly or nearly, excludes the groups that overlap a benchmark,
-- and puts every other group into one split by a hash. A split is also built in memory, and read
-- from a manifest. Around it stand gates on licenses, audits, candidates, patches and commands.
--
-- Base: texts, lists, results, loops that may raise, fractions and digests; the methods of
--   Python's strings that the code calls, and its `urlsplit`.
-- Fingerprint: src/nodelm/decontamination/fingerprints.py. A text is a list of code points.
--   SHA-256 of the UTF-8 bytes of a text is the parameter `sha256`, which gives a list of bytes.
--   Matcher writes out the ratio of difflib's `SequenceMatcher` with its cache and its junk left
--   out; its recursion has as fuel one more than the length of the first text, and each
--   turn splits that text into shorter ones.
-- Contamination: src/nodelm/decontamination/contamination.py. A table of the temporary database is
--   the list of its rows in Tables, and a query is a function on it. Forest has `_find_root` and
--   `_union_repositories`, Content the insertion of values, Linking `_union_exact_groups` and
--   `_union_near_groups`, Benchmarks the marking of samples, Splits `_compress_repository_groups`
--   and `_assign_splits`, Ingest the loops over samples and benchmarks, Index the whole building
--   and the reading of its assignments. `_find_root` has as fuel one more than the number of rows,
--   so that every path that meets no row twice is followed to its end. The bounds of the lengths of
--   near duplicates are bound as INTEGERs of SQLite: above 2 ^ 63 - 1, which a threshold next to zero
--   gives, the building raises an OverflowError, and so it does in the model.
-- Split: src/nodelm/decontamination/split.py. Maps has dictionaries as their entries, Aliases
--   `_resolved_aliases`, Memory `build_repository_split`, Events and Evidence the reading of a
--   manifest from the events of a YAML document, Authorization the table of reviewed splits. The
--   walk along the aliases has as fuel two more than their number; the reading loops have one more
--   than the number of events, and each turn takes an event or more.
-- Gates: the decisions of src/nodelm/licenses/gate.py, the validators of
--   src/nodelm/provenance/gold.py and src/nodelm/evaluation/registry.py,
--   src/nodelm/harness/patches.py, and the run of stages of src/nodelm/training/lifecycle.py,
--   whose backend is a parameter.
-- Harness: src/nodelm/harness/models.py in Command and src/nodelm/harness/policy.py in Arguments
--   and Policy, the commands that the policy makes for each request. The file system is a
--   parameter: what a path means, and which paths are directories; `os.path.relpath` is written out.
-- Provenance: what becomes of the rows of a dataset. Values has JSON values, whose floats are
--   their JSON text, Json `stable_model_id` of src/nodelm/models.py, Sample its
--   `NormalizedSample`. GoldFree and Normalize are src/nodelm/provenance/normalize.py, Pipeline
--   and Lineage the lineage and `normalize_trace_sample` of src/nodelm/provenance/pipeline.py,
--   TaskIndex its `task_metadata_index` and `trace_rollout_key`, TaskRecord the record of a row
--   and Tasks the projection of all rows of src/nodelm/provenance/task_provenance.py, Trace
--   src/nodelm/provenance/trace_projection.py with Trace.Finalize its `finalize` and its queries.
--   The tables of the temporary databases are lists of rows. An error of `finalize` leaves no
--   tables behind: the database is deleted. Case folding is exact for the characters that fold to
--   ASCII letters. The code of a rejection stands for its reason too, and two records are equal as
--   records where the code compares their JSON text. A sample is normalized with any lookup of
--   tasks, and the index of tasks is one. SHA-256 is a parameter that gives 32 bytes.
--
-- Floats are exact fractions: the threshold and the fraction of the evaluation split are
-- fractions, and the ratios are compared exactly. The bucket of a group is an integer
-- over the greatest of 64 bits. Texts have no lone surrogates, for which `str.encode` raises; the
-- patches may have them. Where no other rule is named, lower case is that of ASCII.
--
-- Not modelled: files and the database as I/O, the digest of the configuration, the counts of
-- groups by split, the writing of a split manifest, and the other parts of the program: the
-- command line, the datasets, the running of commands, the teacher, most of evaluation, and of
-- provenance the cohort, the manifests, the isolation of oracle data and the resolution.
pub mod Base
pub mod Contamination
pub mod Fingerprint
pub mod Gates
pub mod Harness
pub mod Provenance
pub mod Split
