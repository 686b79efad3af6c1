-- ===== src/Provenance/Tasks/Counted.antt =====
-- Every row stands in one place of the tables of provenance/task_provenance.py.
use nodelm.Base.{
  ℕ, suc, ◌+◌, ◌≡◌, refl, sym, ap, ◌∙◌, subst, inl, inr, List, [], ◌∷◌, length, Text, arith,
  if◌then◌else◌, Result, ok, err, Option, none, some, Bool-cases, Option-cases,
}
use nodelm.Contamination.Forest.{contains}
use nodelm.Provenance.Values.{Fields}
use nodelm.Provenance.Pipeline.{DatasetSource}
use nodelm.Provenance.Tasks.{
  safe_rejection, Rejection, TaskRow, TaskTables, insert_rejection, is_id, as_conflict,
  reclassify_rejections_as_conflict, mark_instance_conflict, reject_admitted, find_task,
  has_rejection, mark_if_admitted, reject_row, admit_beside, admit_record, project_row,
  project_rows, same_record, no_tasks, task_provenance_projection, admitted_tasks, rejected_tasks,
}
use nodelm.Provenance.Tasks.Standing.{IsFresh, insert_rejection-fresh, marked}
use nodelm.Provenance.Tasks.Indexed.{
  IsIndexed, IsIndexed-suc, IsFresh-index, IsApart-index, insert_rejection-IsIndexed, find_task-In,
  marked-IsFresh,
}
use nodelm.Provenance.Tasks.Followed.{mark-Follows, tasks-insert_rejection}
use nodelm.Provenance.Tasks.Admitted.{project_task_provenance-id, no_tasks-IsIndexed}
use nodelm.Base.Counts.{length-append_one, length-map}
use nodelm.Provenance.Tasks.Distinct.{
  AreDistinct, removed, select-AreDistinct, length-select_kept, append-AreDistinct,
}
use nodelm.Provenance.Tasks.Moved.{project_row-IsMoved}
use nodelm.Provenance.TaskRecord.{
  TaskProjectionError, TaskProvenanceRecord, row_id, project_task_provenance,
}
use nodelm.Provenance.TaskRecord.{conflicting_task_provenance, duplicate_task_provenance}

-- The rows that stand in the tables.
abbrev total : TaskTables → ℕ
total t = admitted_tasks t + rejected_tasks t

record IsAfter (n : ℕ) (t : TaskTables) : Type 0 where
  counted : total t ≡ n
  distinct : AreDistinct t.tasks

insert-IsAfter :
    (n : ℕ) (r : Rejection) (t : TaskTables)
    → IsFresh r.row_index t.rejections
    → IsAfter n t
    → IsAfter (suc n) (insert_rejection r t)
insert-IsAfter n r t fresh h =
    subst (IsAfter (suc n)) (sym (insert_rejection-fresh r t fresh)) (record {
      counted = let c = h.counted in let l = length-append_one r t.rejections in omega arith;
      distinct = h.distinct;
    })

total-marked :
    (k : Text) (t : TaskTables)
    → AreDistinct t.tasks
    → total (marked k t) + removed (find_task k t.tasks) ≡ total t
unfolding reclassify_rejections_as_conflict
total-marked k t h =
    let left = length-select_kept k t.tasks h in
    let same =
      length-map (λ (r : Rejection). if is_id k r.instance_id then as_conflict r else r)
        t.rejections in
    omega arith

mark-IsAfter :
    (n m : ℕ) (k : Text) (a : Option TaskRow) (t : TaskTables)
    → IsIndexed m t
    → IsAfter n t
    → find_task k t.tasks ≡ a
    → IsAfter n (mark_instance_conflict k a t)
unfolding mark_instance_conflict reject_admitted
mark-IsAfter n m k none t i h e = record {
  counted =
      let d = total-marked k t h.distinct in
      let z = ap removed e in let c = h.counted in omega arith;
  distinct = select-AreDistinct k t.tasks h.distinct;
}
mark-IsAfter n m k (some u) t i h e =
    let (j, _) = find_task-In k t.tasks u e in
    let d = total-marked k t h.distinct in
    let one = ap removed e in
    let c = h.counted in
    subst (λ x. IsAfter x (reject_admitted k (some u) (marked k t))) (omega arith)
      (insert-IsAfter (total (marked k t)) _ (marked k t) (marked-IsFresh m k u t i j)
        (record { counted = refl; distinct = select-AreDistinct k t.tasks h.distinct }))

module _ (n m : ℕ) (row : Fields) (t : TaskTables) (i : IsIndexed n t) (h : IsAfter m t) where
  rejects-IsAfter :
      (code : TaskProjectionError) (cause : Option TaskProjectionError)
      → IsAfter (suc m) (insert_rejection (safe_rejection n row code cause) t)
  unfolding safe_rejection
  rejects-IsAfter code cause =
      insert-IsAfter m (safe_rejection n row code cause) t (IsFresh-index n t i) h

  rejected-IsIndexed :
      (code : TaskProjectionError) (cause : Option TaskProjectionError)
      → IsIndexed (suc n) (insert_rejection (safe_rejection n row code cause) t)
  unfolding safe_rejection
  rejected-IsIndexed code cause =
      insert_rejection-IsIndexed (suc n) (safe_rejection n row code cause) t (IsIndexed-suc n t i)
        (omega arith) (IsFresh-index n t i) (IsApart-index n t i)

  mark_if_admitted-IsAfter :
      (k : Text) (e : TaskProjectionError) (a : Option TaskRow)
      → find_task k t.tasks ≡ a
      → IsAfter (suc m) (mark_if_admitted k a (insert_rejection (safe_rejection n row e none) t))
  unfolding mark_if_admitted
  mark_if_admitted-IsAfter k e none f = rejects-IsAfter e none
  mark_if_admitted-IsAfter k e (some u) f =
      mark-IsAfter (suc m) (suc n) k (some u) _ (rejected-IsIndexed e none) (rejects-IsAfter e none)
        (tasks-insert_rejection (safe_rejection n row e none) t k ∙ f)

  reject_row-IsAfter : (e : TaskProjectionError) → IsAfter (suc m) (reject_row n row e t)
  unfolding reject_row
  reject_row-IsAfter e = elim (Option-cases (row_id row)) [
    | inl f ↦ rw (f, reject_row) (rejects-IsAfter e none)
    | inr (k, f) ↦ elim (Bool-cases (contains k t.conflicts)) [
      | inl c ↦ rw (f, reject_row) (rw c (rejects-IsAfter conflicting_task_provenance (some e)))
      | inr c ↦ rw (f, reject_row) (rw c (mark_if_admitted-IsAfter k e (find_task k t.tasks) refl))
    ]
  ]

  -- A rejection of the row after its instance is marked.
  mark_reject-IsAfter :
      (k : Text) (a : Option TaskRow)
      → find_task k t.tasks ≡ a
      → IsAfter (suc m) (
          insert_rejection
            (safe_rejection n row conflicting_task_provenance none)
            (mark_instance_conflict k a t))
  unfolding safe_rejection
  mark_reject-IsAfter k a f =
      insert-IsAfter m _ (mark_instance_conflict k a t)
        (IsFresh-index n _ (mark-Follows n k a t i f).indexed) (mark-IsAfter m n k a t i h f)

  abbrev task_row : TaskProvenanceRecord → TaskRow
  task_row r = record {
    instance_id = r.instance_id;
    row_index = n;
    repository = r.repository;
    payload = r;
  }

  admit_beside-IsAfter :
      (r : TaskProvenanceRecord) (a : Option TaskRow)
      → find_task r.instance_id t.tasks ≡ a
      → IsAfter (suc m) (admit_beside n row r a t)
  unfolding admit_beside
  admit_beside-IsAfter r none f = elim (Bool-cases (has_rejection r.instance_id t.rejections)) [
    | inl x ↦ rw x (mark_reject-IsAfter r.instance_id none f)
    | inr x ↦ rw x (record {
      counted = let c = h.counted in let l = length-append_one (task_row r) t.tasks in omega arith;
      distinct = append-AreDistinct _ t.tasks h.distinct f;
    })
  ]
  admit_beside-IsAfter r (some u) f = elim (Bool-cases (same_record u.payload r)) [
    | inl x ↦ rw x (rejects-IsAfter duplicate_task_provenance none)
    | inr x ↦ rw x (mark_reject-IsAfter r.instance_id (some u) f)
  ]

  project_row-IsAfter : (source : DatasetSource) → IsAfter (suc m) (project_row source n row t)
  unfolding project_row admit_record
  project_row-IsAfter source = by_result (project_task_provenance source row)
    where
      by_result :
          (result : Result TaskProjectionError TaskProvenanceRecord)
          → IsAfter
              (suc m)
              (elim result [ err e ↦ reject_row n row e t | ok r ↦ admit_record n row r t ])
      by_result (err e) = reject_row-IsAfter e
      by_result (ok r) = elim (Bool-cases (contains r.instance_id t.conflicts)) [
        | inl c ↦ rw c (rejects-IsAfter conflicting_task_provenance none)
        | inr c ↦ rw c (admit_beside-IsAfter r (find_task r.instance_id t.tasks) refl)
      ]

project_rows-IsAfter :
    (source : DatasetSource) (rows : List Fields) (n : ℕ) (t : TaskTables)
    → IsIndexed n t
    → IsAfter n t
    → IsAfter (n + length rows) (project_rows source n rows t)
unfolding project_rows
project_rows-IsAfter source [] n t i h = subst (λ x. IsAfter x t) (omega arith) h
project_rows-IsAfter source (row ∷ rows) n t i h =
    let moved = project_row-IsMoved n row t i source (project_task_provenance-id source row) in
    subst (λ x. IsAfter x (project_rows source (suc n) rows (project_row source n row t)))
      (omega arith)
      (project_rows-IsAfter source rows (suc n) (project_row source n row t) moved.indexed
        (project_row-IsAfter n n row t i h source))

-- Every row counts as a task or as a rejection, and as one of them only: a rejection that replaces a task
-- takes its place.
pub task_provenance_projection-counts :
    (source : DatasetSource) (rows : List Fields)
    → admitted_tasks (task_provenance_projection source rows)
        + rejected_tasks (task_provenance_projection source rows)
      ≡ length rows
unfolding task_provenance_projection
task_provenance_projection-counts source rows =
    let after =
      project_rows-IsAfter source rows 0 no_tasks no_tasks-IsIndexed
        (record { counted = refl; distinct = tt }) in
    let c = after.counted in omega arith
