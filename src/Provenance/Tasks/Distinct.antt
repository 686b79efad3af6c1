-- ===== src/Provenance/Tasks/Distinct.antt =====
-- The table of tasks of provenance/task_provenance.py has one task of an instance at most.
use nodelm.Base.{
  ℕ, ◌+◌, ◌≡◌, refl, sym, ap, ◌∙◌, inl, inr, Bool, false, not, List, [], ◌∷◌, ◌++◌, length, Text,
  ◌==◌, ==_iff, eq_of_==, arith, select, Option, none, some, Bool-cases,
}
use nodelm.Provenance.Tasks.{TaskRow, find_task}
use nodelm.Provenance.Tasks.Standing.{find_task-append}
use nodelm.Provenance.Tasks.Indexed.{none-some}

-- No instance has two tasks: `instance_id` is the primary key.
abbrev pub AreDistinct : List TaskRow → Type 0
AreDistinct [] = Unit {0}
AreDistinct (u ∷ tasks) = (find_task u.instance_id tasks ≡ none) × AreDistinct tasks

abbrev pub kept : Text → TaskRow → Bool
kept k u = not (u.instance_id == k)

missed :
    (id : Text) (u : TaskRow) (tasks : List TaskRow)
    → find_task id (u ∷ tasks) ≡ none
    → ((u.instance_id == id) ≡ false) × (find_task id tasks ≡ none)
unfolding find_task
missed id u tasks h = elim (Bool-cases (u.instance_id == id)) [
  | inl t ↦ absurd (none-some (sym (rw t at h)))
  | inr f ↦ (f, rw f at h)
]

find_task-select :
    (k id : Text) (tasks : List TaskRow)
    → find_task id tasks ≡ none
    → find_task id (select (kept k) tasks) ≡ none
unfolding find_task
find_task-select k id [] h = refl
find_task-select k id (u ∷ tasks) h = elim (Bool-cases (u.instance_id == k)) [
  | inl t ↦ rw t (find_task-select k id tasks (missed id u tasks h).1)
  | inr f ↦ let (g, rest) = missed id u tasks h in rw f (rw g (find_task-select k id tasks rest))
]

pub select-AreDistinct :
    (k : Text) (tasks : List TaskRow) → AreDistinct tasks → AreDistinct (select (kept k) tasks)
select-AreDistinct k [] h = tt
select-AreDistinct k (u ∷ tasks) (h, rest) = elim (Bool-cases (u.instance_id == k)) [
  | inl t ↦ rw t (select-AreDistinct k tasks rest)
  | inr f ↦ rw f (find_task-select k u.instance_id tasks h, select-AreDistinct k tasks rest)
]

-- The tasks that are left when that of an instance is deleted.
abbrev pub removed : Option TaskRow → ℕ
removed none = 0
removed (some u) = 1

pub length-select_kept :
    (k : Text) (tasks : List TaskRow)
    → AreDistinct tasks
    → length (select (kept k) tasks) + removed (find_task k tasks) ≡ length tasks
unfolding find_task
length-select_kept k [] h = omega arith
length-select_kept k (u ∷ tasks) (h, rest) =
    let shorter = length-select_kept k tasks rest in
    elim (Bool-cases (u.instance_id == k)) [
      | inl t ↦
          let none_left =
            ap removed (ap (λ x. find_task x tasks) (sym (eq_of_== u.instance_id k t)) ∙ h) in
          rw t (omega arith)
      | inr f ↦ rw f (omega arith)
    ]

==-comm : (s t : Text) → (s == t) ≡ (t == s)
==-comm s t = ground (arith, ==_iff s t, ==_iff t s)

pub append-AreDistinct :
    (u : TaskRow) (tasks : List TaskRow)
    → AreDistinct tasks
    → find_task u.instance_id tasks ≡ none
    → AreDistinct (tasks ++ u ∷ [])
unfolding find_task
append-AreDistinct u [] h f = (refl, tt)
append-AreDistinct u (v ∷ tasks) (h, rest) f =
    let (g, missing) = missed u.instance_id v tasks f in
    (
      find_task-append v.instance_id tasks u
          ∙ rw h (rw (==-comm u.instance_id v.instance_id ∙ g) refl),
      append-AreDistinct u tasks rest missing,
    )
