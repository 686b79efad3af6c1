-- ===== src/Provenance/Tasks/Admitted.antt =====
-- Which tasks are admitted.
use nodelm.Base.{
  ℕ, suc, ◌≡◌, ◌↔◌, refl, sym, ap, ◌∙◌, subst, inl, inr, Bool, true, false, not, List, [], ◌∷◌,
  Text, Result, ok, err, >>=-eq-ok, passed, ok-injective, Option, none, some, Option-cases,
}
use nodelm.Contamination.Forest.{contains}
use nodelm.Gates.Status.{is_pass}
use nodelm.Provenance.Values.{Fields}
use nodelm.Provenance.Pipeline.{DatasetSource}
use nodelm.Provenance.Tasks.{
  TaskRow, TaskTables, no_tasks, find_task, has_rejection, project_row, project_rows,
  task_provenance_projection,
}
use nodelm.Provenance.Tasks.Standing.{unseen, admitted, standing, standing_of}
use nodelm.Provenance.Tasks.Agreed.{follow, IsAgreed, follow-IsAgreed, IsAgreed-follow}
use nodelm.Provenance.Tasks.Indexed.{IsIndexed, find_task-In}
use nodelm.Provenance.Tasks.Followed.{Follows}
use nodelm.Provenance.Tasks.Moved.{project_row-IsMoved}
use nodelm.Provenance.Tasks.Same.{admitted_eq}
use nodelm.Provenance.TaskRecord.{
  TaskProjectionError, TaskProvenanceRecord, row_id, row_language, some_or, required_license,
  required_repository, required_base_commit, project_task_provenance,
}
use nodelm.Provenance.TaskRecord.{unverified_source, missing_language}
use nodelm.Provenance.TaskRecord.{missing_instance_id}

err_ok :
    {e : TaskProjectionError} {r : TaskProvenanceRecord}
    → ◌≡◌ {A = Result TaskProjectionError TaskProvenanceRecord} (err e) (ok r)
    → ⊥
err_ok h = cc

some_or-eq :
    {A : Type 0} (e : TaskProjectionError) (o : Option A) (a : A) → some_or e o ≡ ok a → o ≡ some a
unfolding some_or
some_or-eq e none a h = cc
some_or-eq e (some b) a h = ap some (ok-injective h)

-- A record has the identifier of its row.
pub project_task_provenance-id :
    (source : DatasetSource) (row : Fields) (r : TaskProvenanceRecord)
    → project_task_provenance source row ≡ ok r
    → row_id row ≡ some r.instance_id
unfolding project_task_provenance
project_task_provenance-id source row r h = elim (Option-cases source.revision) [
  | inl e ↦ absurd (err_ok (rw (e, project_task_provenance) at h))
  | inr (revision, e) ↦
      let (_, h1) =
        passed (not (is_pass source.status)) unverified_source _
          (rw (e, project_task_provenance) at h) in
      let (spdx, _, h2) = >>=-eq-ok (required_license row) _ h1 in
      let (id, f, h3) = >>=-eq-ok (some_or missing_instance_id (row_id row)) _ h2 in
      let (repository, _, h4) = >>=-eq-ok (required_repository row) _ h3 in
      let (commit, _, h5) = >>=-eq-ok (required_base_commit row) _ h4 in
      let (language, _, h6) = >>=-eq-ok (some_or missing_language (row_language row)) _ h5 in
      some_or-eq missing_instance_id (row_id row) id f
      ∙ ap (λ x. some x.instance_id) (ok-injective h6)
]

-- The loop moves every instance by its own rows.
project_rows-Follows :
    (source : DatasetSource) (rows : List Fields) (n : ℕ) (t : TaskTables)
    → IsIndexed n t
    → (m : ℕ) × Follows m
        (project_rows source n rows t)
        (λ id. follow source id rows (standing id t))
unfolding project_rows follow
project_rows-Follows source [] n t h = (n, record { indexed = h; follows = λ id. refl })
project_rows-Follows source (row ∷ rows) n t h =
    let first = project_row-IsMoved n row t h source (project_task_provenance-id source row) in
    let (m, rest) =
      project_rows-Follows source rows (suc n) (project_row source n row t) first.indexed in
    (
      m,
      record {
        indexed = rest.indexed;
        follows = λ id. rest.follows id ∙ ap (follow source id rows) (first.follows id);
      },
    )

pub no_tasks-IsIndexed : IsIndexed 0 no_tasks
no_tasks-IsIndexed = record {
  rejections_below = λ q i. absurd i;
  tasks_below = λ u i. absurd i;
  apart = λ q u i j. absurd i;
  unique = λ u v i. absurd i;
  unconflicted = λ u i. absurd i;
}

standing-no_tasks : (id : Text) → standing id no_tasks ≡ unseen
unfolding standing
standing-no_tasks id = refl

module _ (source : DatasetSource) (rows : List Fields) (id : Text) where
  abbrev final : TaskTables
  final = task_provenance_projection source rows

  projected : (m : ℕ) × Follows m final (λ k. follow source k rows (standing k no_tasks))
  unfolding task_provenance_projection
  projected = project_rows-Follows source rows 0 no_tasks no_tasks-IsIndexed

  final-standing : standing id final ≡ follow source id rows unseen
  final-standing = projected.1.follows id ∙ ap (follow source id rows) (standing-no_tasks id)

  found_standing :
      (u : TaskRow) → find_task id final.tasks ≡ some u → standing id final ≡ admitted u.payload
  unfolding standing
  found_standing u h =
      let (i, e) = find_task-In id final.tasks u h in
      let c = ap (λ x. contains x final.conflicts) (sym e) ∙ projected.1.indexed.unconflicted u i in
      rw (c, h) refl

  standing_found :
      (r : TaskProvenanceRecord)
      → standing id final ≡ admitted r
      → (u : TaskRow) × (find_task id final.tasks ≡ some u) × (u.payload ≡ r)
  unfolding standing
  standing_found r h =
      found (contains id final.conflicts) (find_task id final.tasks)
        (has_rejection id final.rejections) h
    where
      found :
          (c : Bool) (o : Option TaskRow) (b : Bool)
          → standing_of c o b ≡ admitted r
          → (u : TaskRow) × (o ≡ some u) × (u.payload ≡ r)
      found true o b g = cc
      found false (some u) b g = (u, refl, admitted_eq g)
      found false none true g = cc
      found false none false g = cc

-- A task is in the projection exactly if its instance has rows and all of them have its record: rows of
-- one instance that differ, or of which one is rejected, leave the instance out, in whatever order.
pub task_provenance_projection-IsAgreed :
    (source : DatasetSource) (rows : List Fields) (id : Text) (r : TaskProvenanceRecord)
    → ((u : TaskRow) × (find_task id (task_provenance_projection source rows).tasks ≡ some u)
        × (u.payload ≡ r))
      ↔ IsAgreed source id rows r
task_provenance_projection-IsAgreed source rows id r = (
  λ (u, h, e). subst (IsAgreed source id rows) e (
      follow-IsAgreed source id u.payload rows
        (sym (final-standing source rows id) ∙ found_standing source rows id u h)),
  λ a.
      standing_found source rows id r
        (final-standing source rows id ∙ IsAgreed-follow source id r rows a),
)
