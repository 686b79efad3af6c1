-- ===== src/Provenance/Tasks/Indexed.antt =====
-- The row indices in the tables of provenance/task_provenance.py: no row stands in two places.
use nodelm.Base.{
  ℕ, suc, ◌<◌, ◌≡◌, refl, sym, ap, ◌∙◌, subst, inl, inr, Bool, true, false, not, List, [], ◌∷◌,
  ◌++◌, Text, ◌==◌, ==-refl, ==_iff, ◌||◌, eq_of_==, eqb, arith, if◌then◌else◌, In, In-append_cases,
  In_of_select, In_of_map, Option, none, some, Bool-cases,
}
use nodelm.Contamination.Forest.{contains}
use nodelm.Provenance.Tasks.{
  Rejection, TaskRow, TaskTables, insert_rejection, is_id, as_conflict,
  reclassify_rejections_as_conflict, find_task,
}
use nodelm.Provenance.Tasks.Standing.{
  IsFresh, insert_rejection-fresh, marked, contains-add_conflict,
}

pub record IsIndexed (n : ℕ) (t : TaskTables) : Type 0 where
  pub rejections_below : (q : Rejection) → In q t.rejections → q.row_index < n
  pub tasks_below : (u : TaskRow) → In u t.tasks → u.row_index < n
  pub apart :
      (q : Rejection) (u : TaskRow)
      → In q t.rejections
      → In u t.tasks
      → eqb q.row_index u.row_index ≡ false
  pub unique :
      (u v : TaskRow)
      → In u t.tasks
      → In v t.tasks
      → u.row_index ≡ v.row_index
      → u.instance_id ≡ v.instance_id
  pub unconflicted : (u : TaskRow) → In u t.tasks → contains u.instance_id t.conflicts ≡ false

pub IsIndexed-suc : (n : ℕ) (t : TaskTables) → IsIndexed n t → IsIndexed (suc n) t
IsIndexed-suc n t h = record {
  rejections_below = λ q i. omega (arith, h.rejections_below q i);
  tasks_below = λ u i. omega (arith, h.tasks_below u i);
  apart = h.apart;
  unique = h.unique;
  unconflicted = h.unconflicted;
}

pub IsFresh-index : (n : ℕ) (t : TaskTables) → IsIndexed n t → IsFresh n t.rejections
IsFresh-index n t h = λ q i. let below = h.rejections_below q i in ground arith

abbrev pub IsApart : ℕ → TaskTables → Type 0
IsApart index t = (u : TaskRow) → In u t.tasks → eqb index u.row_index ≡ false

pub IsApart-index : (n : ℕ) (t : TaskTables) → IsIndexed n t → IsApart n t
IsApart-index n t h = λ u i. let below = h.tasks_below u i in ground arith

last_item : {A : Type 0} (x y : A) → In x (y ∷ []) → x ≡ y
last_item x y (inl e) = e
last_item x y (inr i) = absurd i

pub insert_rejection-IsIndexed :
    (n : ℕ) (r : Rejection) (t : TaskTables)
    → IsIndexed n t
    → r.row_index < n
    → IsFresh r.row_index t.rejections
    → IsApart r.row_index t
    → IsIndexed n (insert_rejection r t)
insert_rejection-IsIndexed n r t h below fresh apart =
    subst (IsIndexed n) (sym (insert_rejection-fresh r t fresh)) (record {
      rejections_below = λ q i. elim (In-append_cases q t.rejections (r ∷ []) i) [
        | inl j ↦ h.rejections_below q j
        | inr j ↦ subst (λ x. x.row_index < n) (sym (last_item q r j)) below
      ];
      tasks_below = h.tasks_below;
      apart = λ q u i k. elim (In-append_cases q t.rejections (r ∷ []) i) [
        | inl j ↦ h.apart q u j k
        | inr j ↦
            subst (λ x. eqb x.row_index u.row_index ≡ false) (sym (last_item q r j)) (apart u k)
      ];
      unique = h.unique;
      unconflicted = h.unconflicted;
    })

reclassified_index :
    (k : Text) (r : Rejection)
    → (if is_id k r.instance_id then as_conflict r else r).row_index ≡ r.row_index
unfolding as_conflict
reclassified_index k r = ground arith

In_reclassified :
    (k : Text) (q : Rejection) (rejections : List Rejection)
    → In q (reclassify_rejections_as_conflict k rejections)
    → (r : Rejection) × In r rejections × (q.row_index ≡ r.row_index)
unfolding reclassify_rejections_as_conflict
In_reclassified k q rejections i =
    let (r, j, e) =
      In_of_map (λ (x : Rejection). if is_id k x.instance_id then as_conflict x else x) q rejections
        i in
    (r, j, ap (λ x. x.row_index) e ∙ reclassified_index k r)

deleted : Text → TaskRow → Bool
deleted k u = not (u.instance_id == k)

other_id : (k : Text) (u : TaskRow) → not (u.instance_id == k) ≡ true → (k == u.instance_id) ≡ false
other_id k u h = ground (arith, ==_iff k u.instance_id, ==_iff u.instance_id k)

neither : {a b : Bool} → a ≡ false → b ≡ false → (a || b) ≡ false
neither e f = rw (e, f) refl

pub marked-IsIndexed :
    (n : ℕ) (k : Text) (t : TaskTables) → IsIndexed n t → IsIndexed n (marked k t)
marked-IsIndexed n k t h = record {
  rejections_below = λ q i.
      let (r, j, e) = In_reclassified k q t.rejections i in
      subst (λ x. x < n) (sym e) (h.rejections_below r j);
  tasks_below = λ u i.
      h.tasks_below u (In_of_select (λ (x : TaskRow). not (x.instance_id == k)) u t.tasks i).0;
  apart = λ q u i j.
      let (r, l, e) = In_reclassified k q t.rejections i in
      subst (λ x. eqb x u.row_index ≡ false) (sym e)
        (h.apart r u l (In_of_select (λ (x : TaskRow). not (x.instance_id == k)) u t.tasks j).0);
  unique = λ u v i j.
      h.unique u v (In_of_select (λ (x : TaskRow). not (x.instance_id == k)) u t.tasks i).0
        (In_of_select (λ (x : TaskRow). not (x.instance_id == k)) v t.tasks j).0;
  unconflicted = λ u i.
      let (j, f) = In_of_select (λ (x : TaskRow). not (x.instance_id == k)) u t.tasks i in
      contains-add_conflict u.instance_id k t.conflicts
      ∙ neither (other_id k u f) (h.unconflicted u j);
}

pub none-some : {A : Type 0} {a : A} → ◌≡◌ {A = Option A} none (some a) → ⊥
none-some e = cc

pub some_eq : {A : Type 0} {a b : A} → ◌≡◌ {A = Option A} (some a) (some b) → a ≡ b
some_eq e = cc

pub find_task-In :
    (id : Text) (tasks : List TaskRow) (u : TaskRow)
    → find_task id tasks ≡ some u
    → In u tasks × (u.instance_id ≡ id)
unfolding find_task
find_task-In id [] u h = absurd (none-some h)
find_task-In id (v ∷ tasks) u h = elim (Bool-cases (v.instance_id == id)) [
  | inl t ↦
      let e : v ≡ u = some_eq (rw t at h) in
      (inl (sym e), ap (λ x. x.instance_id) (sym e) ∙ eq_of_== v.instance_id id t)
  | inr f ↦ let (i, e) = find_task-In id tasks u (rw f at h) in (inr i, e)
]

-- The task that was admitted for an instance leaves its index to its rejection.
pub marked-IsFresh :
    (n : ℕ) (k : Text) (u : TaskRow) (t : TaskTables)
    → IsIndexed n t
    → In u t.tasks
    → IsFresh u.row_index (marked k t).rejections
marked-IsFresh n k u t h i = λ q j.
    let (r, l, e) = In_reclassified k q t.rejections j in
    subst (λ x. eqb x u.row_index ≡ false) (sym e) (h.apart r u l i)

pub marked-IsApart :
    (n : ℕ) (k : Text) (u : TaskRow) (t : TaskTables)
    → IsIndexed n t
    → In u t.tasks
    → u.instance_id ≡ k
    → IsApart u.row_index (marked k t)
marked-IsApart n k u t h i e = λ v j.
    let (l, f) = In_of_select (λ (x : TaskRow). not (x.instance_id == k)) v t.tasks j in
    elim (Bool-cases (eqb u.row_index v.row_index)) [
      | inr g ↦ g
      | inl g ↦
          let same : v.instance_id ≡ k = sym (h.unique u v i l (ground arith)) ∙ e in
          let g : (v.instance_id == k) ≡ true =
            subst (λ x. (x == k) ≡ true) (sym same) (==-refl k) in
          absurd (ground arith)
    ]

-- A task that is inserted at the next index.
pub insert_task-IsIndexed :
    (n : ℕ) (u : TaskRow) (t : TaskTables)
    → IsIndexed n t
    → u.row_index ≡ n
    → contains u.instance_id t.conflicts ≡ false
    → IsIndexed (suc n) (record t { tasks = t.tasks ++ u ∷ [] })
insert_task-IsIndexed n u t h e c = record {
  rejections_below = λ q i. omega (arith, h.rejections_below q i);
  tasks_below = λ v i. elim (In-append_cases v t.tasks (u ∷ []) i) [
    | inl j ↦ omega (arith, h.tasks_below v j)
    | inr j ↦ let f = ap (λ (x : TaskRow). x.row_index) (last_item v u j) in omega arith
  ];
  apart = λ q v i j. elim (In-append_cases v t.tasks (u ∷ []) j) [
    | inl k ↦ h.apart q v i k
    | inr k ↦
        let f = ap (λ (x : TaskRow). x.row_index) (last_item v u k) in
        let below = h.rejections_below q i in ground arith
  ];
  unique = λ v w i j f. elim (In-append_cases v t.tasks (u ∷ []) i) [
    | inl k ↦ elim (In-append_cases w t.tasks (u ∷ []) j) [
      | inl l ↦ h.unique v w k l f
      | inr l ↦
          let g = ap (λ (x : TaskRow). x.row_index) (last_item w u l) in
          let below = h.tasks_below v k in absurd (omega arith)
    ]
    | inr k ↦ elim (In-append_cases w t.tasks (u ∷ []) j) [
      | inl l ↦
          let g = ap (λ (x : TaskRow). x.row_index) (last_item v u k) in
          let below = h.tasks_below w l in absurd (omega arith)
      | inr l ↦ ap (λ x. x.instance_id) (last_item v u k ∙ sym (last_item w u l))
    ]
  ];
  unconflicted = λ v i. elim (In-append_cases v t.tasks (u ∷ []) i) [
    | inl j ↦ h.unconflicted v j
    | inr j ↦ ap (λ x. contains x.instance_id t.conflicts) (last_item v u j) ∙ c
  ];
}
