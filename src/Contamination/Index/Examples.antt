-- ===== src/Contamination/Index/Examples.antt =====
-- The index of a small input, and what its theorems say of it.
use nodelm.Contamination.Linking.Bounds.{IsThreshold}
use nodelm.Base.{
  subst, sym, arith, ◌≡◌, ◌↔◌, refl, Bool, true, false, text, In, inl, inr, Result, ok, err, some,
}
use nodelm.Fingerprint.Normalize.{exact_fingerprint}
use nodelm.Fingerprint.Near.{is_near_duplicate}
use nodelm.Contamination.Tables.{task, patch, SplitName, excluded, ContaminationSample, Database}
use nodelm.Contamination.Ingest.Recorded.{Recorded}
use nodelm.Contamination.Index.{
  LoopCounts, Assignment, validate, ingest, build_database, iter_assignments,
}
use nodelm.Contamination.Index.Samples.{
  itself, first, second, third, fourth, fifth, bench, small_input,
}
use nodelm.Contamination.Index.Linked.{Fits}
use nodelm.Contamination.Index.Built.{build_database-Total, Total}
use nodelm.Contamination.Splits.Overlap.{Overlaps}
use nodelm.Contamination.Index.Separation.{
  SameSide, shared_value-SameSide, near_tasks-SameSide, shared_benchmark-excluded,
  near_benchmark_task-excluded, task-Recorded-final, near_values-SameSide, near_benchmark-excluded,
}
use nodelm.Contamination.Index.Exclusion.{
  every_sample-assigned, one_group-one_split, excluded_iff_overlap,
}

abbrev is_ok : {E A : Type 0} → Result E A → Bool
is_ok (ok a) = true
is_ok (err e) = false

value_of_ok : {E A : Type 0} (m : Result E A) → is_ok m ≡ true → (a : A) × (m ≡ ok a)
value_of_ok (ok a) h = (a, refl)
value_of_ok (err e) h = absurd (no h)
  where
    no : false ≡ true → ⊥
    no e = cc

valid : validate small_input ≡ ok tt
unfolding validate
valid = refl

read : (full : Database) × (ingest itself small_input ≡ ok full)
unfolding ingest
read = value_of_ok (ingest itself small_input) refl

build_database-Total_example :
    Total itself small_input read.0 ↔ Fits small_input.near_duplicate_threshold read.0
build_database-Total_example = build_database-Total itself small_input read.0 valid read.1

built :
    (counts : LoopCounts) × (db : Database) × (build_database itself small_input ≡ ok (counts, db))
unfolding build_database
built = let (r, e) = value_of_ok (build_database itself small_input) refl in (r.0, r.1, e)

row :
    (s : ContaminationSample)
    → In s small_input.samples
    → (x : Assignment) × In x (iter_assignments built.1) × (x.sample_id ≡ s.sample_id)
row s k =
    let (x, x_in, e, _) = every_sample-assigned itself small_input built.0 built.1 built.2 s k in
    (x, x_in, e)

in_1 : In first small_input.samples
in_1 = inl refl

in_2 : In second small_input.samples
in_2 = inr (inl refl)

in_3 : In third small_input.samples
in_3 = inr (inr (inl refl))

in_4 : In fourth small_input.samples
in_4 = inr (inr (inr (inl refl)))

in_5 : In fifth small_input.samples
in_5 = inr (inr (inr (inr (inl refl))))

same_task : exact_fingerprint itself first.task_text ≡ exact_fingerprint itself second.task_text
unfolding exact_fingerprint
same_task = refl

near_task :
    is_near_duplicate third.task_text fourth.task_text small_input.near_duplicate_threshold
    ≡ ok true
unfolding is_near_duplicate
near_task = refl

near_bench :
    is_near_duplicate fifth.task_text bench.task_text small_input.near_duplicate_threshold ≡ ok true
unfolding is_near_duplicate
near_bench = refl

same_side : SameSide (row first in_1).0 (row second in_2).0
same_side =
    shared_value-SameSide itself small_input built.0 built.1 built.2 task first second
      first.task_text second.task_text (row first in_1).0 (row second in_2).0 in_1 in_2 refl refl
      same_task (row first in_1).1 (row second in_2).1 (row first in_1).2 (row second in_2).2

shared_value-SameSide_example : SameSide (row first in_1).0 (row second in_2).0
shared_value-SameSide_example =
    shared_value-SameSide itself small_input built.0 built.1 built.2 task first second
      first.task_text second.task_text (row first in_1).0 (row second in_2).0 in_1 in_2 refl refl
      same_task (row first in_1).1 (row second in_2).1 (row first in_1).2 (row second in_2).2

near_tasks-SameSide_example : SameSide (row third in_3).0 (row fourth in_4).0
near_tasks-SameSide_example =
    near_tasks-SameSide itself small_input built.0 built.1 built.2 third fourth (row third in_3).0
      (row fourth in_4).0 in_3 in_4 near_task (row third in_3).1 (row fourth in_4).1
      (row third in_3).2 (row fourth in_4).2

shared_benchmark-excluded_example : (row second in_2).0.split ≡ some excluded
shared_benchmark-excluded_example =
    shared_benchmark-excluded itself small_input built.0 built.1 built.2 patch second (text "p2")
      bench (row second in_2).0 in_2 (inl refl) (inl refl) refl (row second in_2).1
      (row second in_2).2

near_benchmark_task-excluded_example : (row fifth in_5).0.split ≡ some excluded
near_benchmark_task-excluded_example =
    near_benchmark_task-excluded itself small_input built.0 built.1 built.2 fifth bench
      (row fifth in_5).0 in_5 (inl refl) near_bench (row fifth in_5).1 (row fifth in_5).2

recorded :
    (s : ContaminationSample) (k : In s small_input.samples)
    → Recorded itself task s.task_text (row s k).0.sample_id built.1
recorded s k =
    subst (λ id. Recorded itself task s.task_text id built.1) (sym (row s k).2)
      (task-Recorded-final itself small_input built.0 built.1 built.2 s k)

near_values-SameSide_example : SameSide (row third in_3).0 (row fourth in_4).0
near_values-SameSide_example =
    near_values-SameSide itself small_input built.0 built.1 built.2 task third.task_text
      fourth.task_text (row third in_3).0 (row fourth in_4).0 (recorded third in_3)
      (recorded fourth in_4) near_task (row third in_3).1 (row fourth in_4).1

near_benchmark-excluded_example : (row fifth in_5).0.split ≡ some excluded
near_benchmark-excluded_example =
    near_benchmark-excluded itself small_input built.0 built.1 built.2 task fifth.task_text bench
      (row fifth in_5).0 (recorded fifth in_5) (inl refl) near_bench (row fifth in_5).1

every_sample-assigned_example :
    (x : Assignment) × In x (iter_assignments built.1)
    × (x.sample_id ≡ first.sample_id)
    × ((split : SplitName) × (x.split ≡ some split))
every_sample-assigned_example =
    every_sample-assigned itself small_input built.0 built.1 built.2 first in_1

one_group-one_split_example : (row first in_1).0.split ≡ (row second in_2).0.split
one_group-one_split_example =
    one_group-one_split itself small_input built.0 built.1 built.2 (row first in_1).0
      (row second in_2).0 (row first in_1).1 (row second in_2).1 same_side.0

excluded_iff_overlap_example :
    ((row second in_2).0.split ≡ some excluded
      → Overlaps built.1.repositories built.1.samples (row second in_2).0.contamination_group)
    × (Overlaps built.1.repositories built.1.samples (row second in_2).0.contamination_group
        → (row second in_2).0.split ≡ some excluded)
excluded_iff_overlap_example =
    excluded_iff_overlap itself small_input built.0 built.1 built.2 (row second in_2).0
      (row second in_2).1

in_range : IsThreshold small_input.near_duplicate_threshold
in_range = record { positive = omega arith; at_most_one = omega arith }
