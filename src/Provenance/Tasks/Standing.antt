-- ===== src/Provenance/Tasks/Standing.antt =====
-- The standing of one instance in the tables of provenance/task_provenance.py, and what each statement
-- on the tables does to it.
use nodelm.Base.{
  ℕ, ◌≡◌, refl, ap, ◌∙◌, subst, inl, inr, Bool, true, false, not, ◌||◌, List, [], ◌∷◌, ◌++◌, Text,
  ◌==◌, ==_iff, eq_of_==, eqb, arith, if◌then◌else◌, In, select, Result, ok, err, Option, none,
  some, Bool-cases,
}
use nodelm.Contamination.Forest.{contains}
use nodelm.Gates.Status.{any}
use nodelm.Provenance.Tasks.{
  Rejection, TaskRow, TaskTables, insert_rejection, is_id, as_conflict,
  reclassify_rejections_as_conflict, add_conflict, find_task, has_rejection, same_record,
}
use nodelm.Provenance.TaskRecord.{TaskProjectionError, TaskProvenanceRecord}

pub data Standing : Type 0 where
  unseen failing conflicting : Standing
  admitted : TaskProvenanceRecord → Standing

-- What a row of an instance makes of its standing.
unfoldable pub next : Result TaskProjectionError TaskProvenanceRecord → Standing → Standing
unfolding same_record
next (ok r) unseen = admitted r
next (err e) unseen = failing
next (ok r) failing = conflicting
next (err e) failing = failing
next (ok r) (admitted s) = if same_record s r then admitted s else conflicting
next (err e) (admitted s) = conflicting
next row conflicting = conflicting

unfoldable pub standing_of : Bool → Option TaskRow → Bool → Standing
standing_of true task rejected = conflicting
standing_of false (some task) rejected = admitted task.payload
standing_of false none true = failing
standing_of false none false = unseen

unfoldable pub standing : Text → TaskTables → Standing
unfolding standing_of contains find_task has_rejection
standing id t =
    standing_of (contains id t.conflicts) (find_task id t.tasks) (has_rejection id t.rejections)

-- No rejection has the index.
abbrev pub IsFresh : ℕ → List Rejection → Type 0
IsFresh index rejections = (q : Rejection) → In q rejections → eqb q.row_index index ≡ false

select_fresh :
    (index : ℕ) (rejections : List Rejection)
    → IsFresh index rejections
    → select (λ (q : Rejection). not (eqb q.row_index index)) rejections ≡ rejections
select_fresh index [] h = refl
select_fresh index (q ∷ rejections) h =
    rw (h q (inl refl)) (ap (λ x. q ∷ x) (select_fresh index rejections (λ r i. h r (inr i))))

pub insert_rejection-fresh :
    (r : Rejection) (t : TaskTables)
    → IsFresh r.row_index t.rejections
    → insert_rejection r t ≡ record t { rejections = t.rejections ++ r ∷ [] }
unfolding insert_rejection
insert_rejection-fresh r t h =
    ap (λ x. record t { rejections = x ++ r ∷ [] }) (select_fresh r.row_index t.rejections h)

has_rejection-append :
    (id : Text) (rejections : List Rejection) (r : Rejection)
    → has_rejection id (rejections ++ r ∷ [])
      ≡ (is_id id r.instance_id || has_rejection id rejections)
unfolding has_rejection any
has_rejection-append id [] r = ground arith
has_rejection-append id (q ∷ rejections) r = ground (arith, has_rejection-append id rejections r)

has_rejection-reclassify :
    (id k : Text) (rejections : List Rejection)
    → has_rejection id (reclassify_rejections_as_conflict k rejections)
      ≡ has_rejection id rejections
unfolding has_rejection any reclassify_rejections_as_conflict as_conflict
has_rejection-reclassify id k [] = refl
has_rejection-reclassify id k (q ∷ rejections) =
    ground (arith, has_rejection-reclassify id k rejections)

find_task-delete :
    (id k : Text) (tasks : List TaskRow)
    → find_task id (select (λ (u : TaskRow). not (u.instance_id == k)) tasks)
      ≡ (if k == id then none else find_task id tasks)
unfolding find_task
find_task-delete id k [] = ground arith
find_task-delete id k (u ∷ tasks) = ground (
  arith,
  ==_iff u.instance_id k,
  ==_iff u.instance_id id,
  ==_iff k id,
  find_task-delete id k tasks,
)

contains-append :
    (id k : Text) (texts : List Text)
    → contains id (texts ++ k ∷ []) ≡ (k == id || contains id texts)
unfolding contains
contains-append id k [] = ground arith
contains-append id k (s ∷ texts) = ground (arith, contains-append id k texts)

pub contains-add_conflict :
    (id k : Text) (conflicts : List Text)
    → contains id (add_conflict k conflicts) ≡ (k == id || contains id conflicts)
unfolding add_conflict
contains-add_conflict id k conflicts = elim (Bool-cases (contains k conflicts)) [
  | inl t ↦ rw t (elim (Bool-cases (k == id)) [
    | inl e ↦ let same = eq_of_== k id e in rw e (subst (λ x. contains x conflicts ≡ true) same t)
    | inr f ↦ rw f refl
  ])
  | inr f ↦ rw f (contains-append id k conflicts)
]

-- A rejection that is inserted is one of its instance, and changes no other part.
pub standing-insert_rejection :
    (id : Text) (r : Rejection) (t : TaskTables)
    → IsFresh r.row_index t.rejections
    → standing id (insert_rejection r t)
      ≡ standing_of
          (contains id t.conflicts)
          (find_task id t.tasks)
          (is_id id r.instance_id || has_rejection id t.rejections)
unfolding standing
standing-insert_rejection id r t h =
    ap (standing id) (insert_rejection-fresh r t h)
    ∙ ap (standing_of (contains id t.conflicts) (find_task id t.tasks))
        (has_rejection-append id t.rejections r)

-- The standing after the statements of `_mark_instance_conflict` before its insertion.
abbrev pub marked : Text → TaskTables → TaskTables
marked k t = record {
  tasks = select (λ row. not (row.instance_id == k)) t.tasks;
  conflicts = add_conflict k t.conflicts;
  rejections = reclassify_rejections_as_conflict k t.rejections;
}

pub standing-marked :
    (id k : Text) (t : TaskTables)
    → standing id (marked k t) ≡ (if k == id then conflicting else standing id t)
unfolding standing
standing-marked id k t =
    ap
      (λ c.
        standing_of c (find_task id (marked k t).tasks) (has_rejection id (marked k t).rejections))
      (contains-add_conflict id k t.conflicts)
    ∙ ap
        (λ f.
          standing_of (k == id || contains id t.conflicts) f
            (has_rejection id (marked k t).rejections))
        (find_task-delete id k t.tasks)
    ∙ ap
        (standing_of (k == id || contains id t.conflicts)
          (if k == id then none else find_task id t.tasks))
        (has_rejection-reclassify id k t.rejections)
    ∙ by_test (k == id)
  where
    by_test :
        (b : Bool)
        → standing_of
            (b || contains id t.conflicts)
            (if b then none else find_task id t.tasks)
            (has_rejection id t.rejections)
          ≡ (if b
              then conflicting
              else standing_of
                  (contains id t.conflicts)
                  (find_task id t.tasks)
                  (has_rejection id t.rejections))
    by_test true = refl
    by_test false = refl

-- A task that is inserted, where its instance has none.
pub find_task-append :
    (id : Text) (tasks : List TaskRow) (u : TaskRow)
    → find_task id (tasks ++ u ∷ []) ≡ elim (find_task id tasks) [
      | some v ↦ some v
      | none ↦ if u.instance_id == id then some u else none
    ]
unfolding find_task
find_task-append id [] u = refl
find_task-append id (v ∷ tasks) u = elim (Bool-cases (v.instance_id == id)) [
  | inl t ↦ rw t refl
  | inr f ↦ rw f (find_task-append id tasks u)
]
