-- ===== src/Provenance/Tasks/Followed.antt =====
-- What a rejection, a conflict and a new task of provenance/task_provenance.py do to the standing of each
-- instance.
use nodelm.Base.{
  ℕ, ◌<◌, ◌≡◌, refl, ap, ◌∙◌, subst, inl, inr, Bool, true, false, ◌||◌, [], ◌∷◌, ◌++◌, Text, ◌==◌,
  ==-refl, eq_of_==, if◌then◌else◌, Option, none, some, Bool-cases,
}
use nodelm.Contamination.Forest.{contains}
use nodelm.Provenance.Tasks.{
  Rejection, TaskRow, TaskTables, insert_rejection, is_id, mark_instance_conflict, reject_admitted,
  find_task, has_rejection,
}
use nodelm.Provenance.Tasks.Standing.{
  Standing, unseen, failing, conflicting, admitted, standing, standing_of, IsFresh,
  standing-insert_rejection, marked, standing-marked, find_task-append,
}
use nodelm.Provenance.Tasks.Indexed.{
  IsIndexed, IsApart, insert_rejection-IsIndexed, marked-IsIndexed, find_task-In, marked-IsFresh,
  marked-IsApart,
}

-- A rejection of an instance that has no other place makes it failing.
unfoldable pub rejected : Standing → Standing
rejected unseen = failing
rejected failing = failing
rejected conflicting = conflicting
rejected (admitted r) = admitted r

rejected_of :
    (b c : Bool) (f : Option TaskRow) (h : Bool)
    → standing_of c f (b || h) ≡ (if b then rejected (standing_of c f h) else standing_of c f h)
unfolding standing_of rejected
rejected_of false c f h = refl
rejected_of true true f h = refl
rejected_of true false (some u) h = refl
rejected_of true false none true = refl
rejected_of true false none false = refl

standing-insert :
    (id : Text) (r : Rejection) (t : TaskTables)
    → IsFresh r.row_index t.rejections
    → standing id (insert_rejection r t)
      ≡ (if is_id id r.instance_id then rejected (standing id t) else standing id t)
unfolding standing
standing-insert id r t h =
    standing-insert_rejection id r t h
    ∙ rejected_of (is_id id r.instance_id) (contains id t.conflicts) (find_task id t.tasks)
        (has_rejection id t.rejections)

-- The tables at an index, and the standing of each instance in them.
pub record Follows (n : ℕ) (t : TaskTables) (after : Text → Standing) : Type 0 where
  pub indexed : IsIndexed n t
  pub follows : (id : Text) → standing id t ≡ after id

pub insert-Follows :
    (n : ℕ) (r : Rejection) (t : TaskTables)
    → IsIndexed n t
    → r.row_index < n
    → IsFresh r.row_index t.rejections
    → IsApart r.row_index t
    → Follows n
        (insert_rejection r t)
        (λ id. if is_id id r.instance_id then rejected (standing id t) else standing id t)
insert-Follows n r t h below fresh apart = record {
  indexed = insert_rejection-IsIndexed n r t h below fresh apart;
  follows = λ id. standing-insert id r t fresh;
}

pub still_conflicting :
    (b : Bool) (s s' : Standing)
    → s' ≡ (if b then conflicting else s)
    → (if b then rejected s' else s') ≡ (if b then conflicting else s)
unfolding rejected
still_conflicting true s s' e = ap rejected e
still_conflicting false s s' e = e

-- `_mark_instance_conflict` with the task that the tables have for the instance.
pub mark-Follows :
    (n : ℕ) (k : Text) (a : Option TaskRow) (t : TaskTables)
    → IsIndexed n t
    → find_task k t.tasks ≡ a
    → Follows n
        (mark_instance_conflict k a t)
        (λ id. if k == id then conflicting else standing id t)
unfolding mark_instance_conflict reject_admitted
mark-Follows n k none t h e = record {
  indexed = marked-IsIndexed n k t h;
  follows = λ id. standing-marked id k t;
}
mark-Follows n k (some u) t h e =
    let (i, f) = find_task-In k t.tasks u e in
    let inserted =
      insert-Follows n _ (marked k t) (marked-IsIndexed n k t h) (h.tasks_below u i)
        (marked-IsFresh n k u t h i) (marked-IsApart n k u t h i f) in
    record {
      indexed = inserted.indexed;
      follows = λ id.
          inserted.follows id
          ∙ still_conflicting (k == id) (standing id t) (standing id (marked k t))
              (standing-marked id k t);
    }

-- The standing of the instance, and the rest as before: `is_id id (some k)` is whether `k` is `id`.
pub by_instance :
    (k id : Text) (s : Text → Standing) (f : Standing → Standing) (after : Standing)
    → after ≡ f (s k)
    → (if k == id then after else s id) ≡ (if k == id then f (s id) else s id)
by_instance k id s f after e = elim (Bool-cases (k == id)) [
  | inl t ↦ rw t (e ∙ ap (λ x. f (s x)) (eq_of_== k id t))
  | inr g ↦ rw g refl
]

pub same_instance :
    (k id : Text) (s : Text → Standing) (f g : Standing → Standing)
    → f (s k) ≡ g (s k)
    → (if k == id then f (s id) else s id) ≡ (if k == id then g (s id) else s id)
same_instance k id s f g e = elim (Bool-cases (k == id)) [
  | inl t ↦ rw t (subst (λ x. f (s x) ≡ g (s x)) (eq_of_== k id t) e)
  | inr h ↦ rw h refl
]

-- Outside the instance, what was done to it does not show.
pub unless :
    (b : Bool) (s s' : Standing) (f : Standing → Standing) (old : Standing)
    → s' ≡ (if b then f old else old)
    → (if b then s else s') ≡ (if b then s else old)
unless true s s' f old e = refl
unless false s s' f old e = e

pub tasks-insert_rejection :
    (r : Rejection) (t : TaskTables) (k : Text)
    → find_task k (insert_rejection r t).tasks ≡ find_task k t.tasks
unfolding insert_rejection
tasks-insert_rejection r t k = refl

picks :
    (u : TaskRow) (o : Option TaskRow) (b : Bool)
    → o ≡ none
    → b ≡ true
    → (elim o [ some v ↦ some v | none ↦ if b then some u else none ]) ≡ some u
picks u none b e f = rw f refl
picks u (some v) b e f = absurd (some_none e)
  where
    some_none : ◌≡◌ {A = Option TaskRow} (some v) none → ⊥
    some_none g = cc

pub standing-insert_task :
    (id k : Text) (u : TaskRow) (t : TaskTables)
    → u.instance_id ≡ k
    → contains k t.conflicts ≡ false
    → find_task k t.tasks ≡ none
    → standing id (record t { tasks = t.tasks ++ u ∷ [] })
      ≡ (if k == id then admitted u.payload else standing id t)
unfolding standing
standing-insert_task id k u t e c g = elim (Bool-cases (k == id)) [
  | inl b ↦ rw b (
      subst (λ x. standing x (record t { tasks = t.tasks ++ u ∷ [] }) ≡ admitted u.payload)
        (eq_of_== k id b) here)
  | inr b ↦ rw b (
      ap (λ x. standing_of (contains id t.conflicts) x (has_rejection id t.rejections))
        (elsewhere b))
]
  where
    here : standing k (record t { tasks = t.tasks ++ u ∷ [] }) ≡ admitted u.payload
    here =
        ap (λ x. standing_of x (find_task k (t.tasks ++ u ∷ [])) (has_rejection k t.rejections)) c
        ∙ ap (λ x. standing_of false x (has_rejection k t.rejections))
            (find_task-append k t.tasks u
              ∙ picks u (find_task k t.tasks) (u.instance_id == k) g
                  (ap (λ x. x == k) e ∙ ==-refl k))

    elsewhere : (k == id) ≡ false → find_task id (t.tasks ++ u ∷ []) ≡ find_task id t.tasks
    elsewhere b =
        find_task-append id t.tasks u ∙ same (find_task id t.tasks) (ap (λ x. x == id) e ∙ b)
      where
        same :
            (o : Option TaskRow)
            → (u.instance_id == id) ≡ false
            → (elim o [ some v ↦ some v | none ↦ if u.instance_id == id then some u else none ]) ≡ o
        same none x = rw x refl
        same (some v) x = refl
