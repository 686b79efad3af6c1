-- ===== src/Contamination/TaskMetadata/Looked.antt =====
-- Lookups in the index of task metadata.
use nodelm.Base.{
  ◌≡◌, refl, sym, ap, ◌∙◌, subst, true, not, List, [], ◌∷◌, ◌++◌, Text, arith, ◌==◌, ==-refl,
  eq_of_==, In, for_each, ok, ◌>>=◌, >>=-eq-ok, passed, ok-injective, Option, none, some, inl, inr,
  Bool-cases, Option-cases,
}
use nodelm.Contamination.TaskMetadata.{
  conflicting_metadata, Row, required_text, id_fields, TaskMetadata, same_metadata, lookup,
  metadata_of, insert_task, read_row, task_metadata_index,
}

abbrev Tasks : Type 0
Tasks = List (Text × TaskMetadata)

eq_of_same_metadata : (a b : TaskMetadata) → same_metadata a b ≡ true → a ≡ b
unfolding same_metadata
eq_of_same_metadata a b h =
    let r : a.repository ≡ b.repository = eq_of_== a.repository b.repository (ground arith) in
    let t : a.task_text ≡ b.task_text = eq_of_== a.task_text b.task_text (ground arith) in
    let p : a.reference_patch ≡ b.reference_patch =
      eq_of_== a.reference_patch b.reference_patch (ground arith) in
    λ i. record { repository = r i; task_text = t i; reference_patch = p i }

none_of : {A : Type 0} {a : A} → ◌≡◌ {A = Option A} none (some a) → ⊥
none_of e = cc

lookup-append_some :
    (id : Text) (tasks rest : Tasks) (t : TaskMetadata)
    → lookup id tasks ≡ some t
    → lookup id (tasks ++ rest) ≡ some t
unfolding lookup
lookup-append_some id [] rest t h = absurd (none_of h)
lookup-append_some id ((key, task) ∷ tasks) rest t h = elim (Bool-cases (key == id)) [
  | inl e ↦ rw e (rw e at h)
  | inr e ↦ rw e (lookup-append_some id tasks rest t (rw e at h))
]

lookup-append_none :
    (id : Text) (tasks : Tasks) (t : TaskMetadata)
    → lookup id tasks ≡ none
    → lookup id (tasks ++ (id, t) ∷ []) ≡ some t
unfolding lookup
lookup-append_none id [] t h = rw (==-refl id) refl
lookup-append_none id ((key, task) ∷ tasks) t h = elim (Bool-cases (key == id)) [
  | inl e ↦ absurd (none_of (sym (rw e at h)))
  | inr e ↦ rw e (lookup-append_none id tasks t (rw e at h))
]

-- What an insertion leaves: the task under its identifier, and every other task where it was.
record Inserted (tasks tasks' : Tasks) (id : Text) (task : TaskMetadata) : Type 0 where
  here : lookup id tasks' ≡ some task
  kept : (k : Text) (t : TaskMetadata) → lookup k tasks ≡ some t → lookup k tasks' ≡ some t

insert_task-Inserted :
    (tasks : Tasks) (id : Text) (task : TaskMetadata) (tasks' : Tasks)
    → insert_task tasks id task ≡ ok tasks'
    → Inserted tasks tasks' id task
unfolding insert_task
insert_task-Inserted tasks id task tasks' h = elim (Option-cases (lookup id tasks)) [
  | inl e ↦
      subst (λ x. Inserted tasks x id task) (ok-injective (rw (e, insert_task) at h))
        (record {
          here = lookup-append_none id tasks task e;
          kept = λ k t f. lookup-append_some k tasks ((id, task) ∷ []) t f;
        })
  | inr (existing, e) ↦
      let (agree, end) =
        passed (not (same_metadata existing task)) (conflicting_metadata id) (ok tasks)
          (rw (e, insert_task) at h) in
      let same : existing ≡ task = eq_of_same_metadata existing task (ground arith) in
      subst (λ x. Inserted tasks x id task) (ok-injective end)
        (record { here = e ∙ ap some same; kept = λ k t f. f })
]

-- The row is found under its identifier, with its own metadata.
pub record IsLooked (tasks : List (Text × TaskMetadata)) (row : Row) : Type 0 where
  pub id : Text
  pub task : TaskMetadata
  pub named : required_text id_fields row ≡ ok id
  pub described : metadata_of row ≡ ok task
  pub found : lookup id tasks ≡ some task

read_row-IsLooked :
    (tasks : Tasks) (row : Row) (tasks' : Tasks)
    → read_row tasks row ≡ ok tasks'
    → ((k : Text) (t : TaskMetadata) → lookup k tasks ≡ some t → lookup k tasks' ≡ some t)
      × IsLooked tasks' row
unfolding read_row
read_row-IsLooked tasks row tasks' h =
    let described = λ (id : Text). metadata_of row >>= λ task. insert_task tasks id task in
    let (id, named, h) = >>=-eq-ok (required_text id_fields row) described h in
    let (task, m, h) = >>=-eq-ok (metadata_of row) (λ task. insert_task tasks id task) h in
    let i = insert_task-Inserted tasks id task tasks' h in
    (i.kept, record { id = id; task = task; named = named; described = m; found = i.here })

-- Where the index of task metadata is built, every row that it read is found under its identifier with
-- the row's own metadata: no later row replaced it.
pub task_metadata_index-IsLooked :
    (rows : List Row) (tasks : List (Text × TaskMetadata)) (row : Row)
    → task_metadata_index rows ≡ ok tasks
    → In row rows
    → IsLooked tasks row
unfolding task_metadata_index for_each
task_metadata_index-IsLooked rows tasks row h i = (go rows [] h).1 row i
  where
    go :
        (rows : List Row) (start : Tasks)
        → for_each read_row start rows ≡ ok tasks
        → ((k : Text) (t : TaskMetadata) → lookup k start ≡ some t → lookup k tasks ≡ some t)
          × ((row : Row) → In row rows → IsLooked tasks row)
    go [] start h = (
      subst (λ x. (k : Text) (t : TaskMetadata) → lookup k start ≡ some t → lookup k x ≡ some t)
          (ok-injective h) (λ k t e. e),
      λ row i. absurd i,
    )
    go (r ∷ rows) start h =
        let (m, step, rest) = >>=-eq-ok (read_row start r) (λ s. for_each read_row s rows) h in
        let (kept, here) = read_row-IsLooked start r m step in
        let (kept', others) = go rows m rest in
        (
          λ k t e. kept' k t (kept k t e),
          λ row i. elim i [
            | inl same ↦ subst (IsLooked tasks) (sym same) (record {
              id = here.id;
              task = here.task;
              named = here.named;
              described = here.described;
              found = kept' here.id here.task here.found;
            })
            | inr i' ↦ others row i'
          ],
        )
