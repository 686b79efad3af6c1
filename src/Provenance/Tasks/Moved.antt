-- ===== src/Provenance/Tasks/Moved.antt =====
-- Each row of provenance/task_provenance.py moves the standing of its own instance alone.
use nodelm.Base.{
  ℕ, suc, ◌≡◌, refl, sym, ap, ◌∙◌, subst, inl, inr, true, false, [], ◌∷◌, ◌++◌, Text, ◌==◌, arith,
  if◌then◌else◌, Result, ok, err, Option, none, some, Bool-cases, Option-cases,
}
use nodelm.Contamination.Forest.{contains}
use nodelm.Provenance.Values.{Fields}
use nodelm.Provenance.Pipeline.{DatasetSource}
use nodelm.Provenance.Tasks.{
  safe_rejection, TaskRow, TaskTables, insert_rejection, is_id, mark_instance_conflict, find_task,
  has_rejection, mark_if_admitted, reject_row, admit_beside, admit_record, project_row, same_record,
}
use nodelm.Provenance.Tasks.Standing.{
  Standing, unseen, failing, conflicting, admitted, next, standing,
}
use nodelm.Provenance.Tasks.Indexed.{
  IsIndexed, IsIndexed-suc, IsFresh-index, IsApart-index, insert_task-IsIndexed,
}
use nodelm.Provenance.Tasks.Followed.{
  Follows, mark-Follows, tasks-insert_rejection, rejected, by_instance, same_instance, unless,
  still_conflicting, insert-Follows, standing-insert_task,
}
use nodelm.Provenance.TaskRecord.{
  TaskProjectionError, TaskProvenanceRecord, row_id, project_task_provenance,
}
use nodelm.Provenance.TaskRecord.{conflicting_task_provenance, duplicate_task_provenance}

module _ (n : ℕ) (row : Fields) (t : TaskTables) (h : IsIndexed n t) where
  abbrev pub IsMoved : Result TaskProjectionError TaskProvenanceRecord → TaskTables → Type 0
  IsMoved result after =
      Follows (suc n) after
        (λ id. if is_id id (row_id row) then next result (standing id t) else standing id t)

  -- A rejection of the row itself.
  rejects :
      (code : TaskProjectionError) (cause : Option TaskProjectionError)
      → Follows
          (suc n)
          (insert_rejection (safe_rejection n row code cause) t)
          (λ id. if is_id id (row_id row) then rejected (standing id t) else standing id t)
  unfolding safe_rejection
  rejects code cause =
      insert-Follows (suc n) (safe_rejection n row code cause) t (IsIndexed-suc n t h) (omega arith)
        (IsFresh-index n t h) (IsApart-index n t h)

  IsMoved-by :
      (result : Result TaskProjectionError TaskProvenanceRecord) (k : Text) (after : TaskTables)
      (s : Standing)
      → row_id row ≡ some k
      → s ≡ next result (standing k t)
      → IsIndexed (suc n) after
      → ((id : Text) → standing id after ≡ (if k == id then s else standing id t))
      → IsMoved result after
  unfolding is_id
  IsMoved-by result k after s e f i follows = record {
    indexed = i;
    follows = λ id.
        follows id
        ∙ by_instance k id (λ x. standing x t) (next result) s f
        ∙ ap (λ x. if is_id id x then next result (standing id t) else standing id t) (sym e);
  }

  rejected_as :
      (result : Result TaskProjectionError TaskProvenanceRecord) (k : Text)
      (code : TaskProjectionError) (cause : Option TaskProjectionError)
      → row_id row ≡ some k
      → rejected (standing k t) ≡ next result (standing k t)
      → IsMoved result (insert_rejection (safe_rejection n row code cause) t)
  unfolding is_id
  rejected_as result k code cause e f =
      let r = rejects code cause in
      record {
        indexed = r.indexed;
        follows = λ id.
            r.follows id
            ∙ ap (λ x. if is_id id x then rejected (standing id t) else standing id t) e
            ∙ same_instance k id (λ x. standing x t) rejected (next result) f
            ∙ ap (λ x. if is_id id x then next result (standing id t) else standing id t) (sym e);
      }

  -- A row of an instance without a place in the tables.
  nameless :
      (e : TaskProjectionError)
      → row_id row ≡ none
      → IsMoved (err e) (insert_rejection (safe_rejection n row e none) t)
  unfolding is_id
  nameless e f =
      let r = rejects e none in
      record {
        indexed = r.indexed;
        follows = λ id.
            r.follows id
            ∙ ap (λ x. if is_id id x then rejected (standing id t) else standing id t) f
            ∙ ap (λ x. if is_id id x then next (err e) (standing id t) else standing id t) (sym f);
      }

  standing_conflict : (k : Text) → contains k t.conflicts ≡ true → standing k t ≡ conflicting
  unfolding standing
  standing_conflict k c = rw c refl

  standing_task :
      (k : Text) (u : TaskRow)
      → contains k t.conflicts ≡ false
      → find_task k t.tasks ≡ some u
      → standing k t ≡ admitted u.payload
  unfolding standing
  standing_task k u c f = rw (c, f) refl

  standing_rejected :
      (k : Text)
      → contains k t.conflicts ≡ false
      → find_task k t.tasks ≡ none
      → has_rejection k t.rejections ≡ true
      → standing k t ≡ failing
  unfolding standing
  standing_rejected k c f h = rw (c, f, h) refl

  standing_unseen :
      (k : Text)
      → contains k t.conflicts ≡ false
      → find_task k t.tasks ≡ none
      → has_rejection k t.rejections ≡ false
      → standing k t ≡ unseen
  unfolding standing
  standing_unseen k c f h = rw (c, f, h) refl

  rejected_open :
      (k : Text) (e : TaskProjectionError)
      → contains k t.conflicts ≡ false
      → find_task k t.tasks ≡ none
      → rejected (standing k t) ≡ next (err e) (standing k t)
  unfolding rejected next
  rejected_open k e c f = elim (Bool-cases (has_rejection k t.rejections)) [
    | inl h ↦ rw (standing_rejected k c f h) refl
    | inr h ↦ rw (standing_unseen k c f h) refl
  ]

  -- A rejected row of an instance whose task was admitted.
  reject_mark :
      (e : TaskProjectionError) (k : Text) (u : TaskRow)
      → row_id row ≡ some k
      → contains k t.conflicts ≡ false
      → find_task k t.tasks ≡ some u
      → IsMoved
          (err e)
          (mark_instance_conflict k (some u) (insert_rejection (safe_rejection n row e none) t))
  unfolding next is_id
  reject_mark e k u f c g =
      let r = rejects e none in
      let m =
        mark-Follows (suc n) k (some u) (insert_rejection (safe_rejection n row e none) t) r.indexed
          (tasks-insert_rejection (safe_rejection n row e none) t k ∙ g) in
      IsMoved-by (err e) k _ conflicting f (ap (next (err e)) (sym (standing_task k u c g)))
        m.indexed
        (λ id.
          m.follows id
          ∙ unless (k == id) conflicting _ rejected (standing id t) (
              r.follows id
              ∙ ap (λ x. if is_id id x then rejected (standing id t) else standing id t) f))

  pub reject_row-IsMoved : (e : TaskProjectionError) → IsMoved (err e) (reject_row n row e t)
  unfolding reject_row next rejected mark_if_admitted
  reject_row-IsMoved e = elim (Option-cases (row_id row)) [
    | inl f ↦ subst (IsMoved (err e)) (rw (f, reject_row) refl) (nameless e f)
    | inr (k, f) ↦ elim (Bool-cases (contains k t.conflicts)) [
      | inl c ↦ subst (IsMoved (err e)) (rw (f, reject_row) (rw c refl)) (
          rejected_as (err e) k conflicting_task_provenance (some e) f
            (rw (standing_conflict k c) refl))
      | inr c ↦ elim (Option-cases (find_task k t.tasks)) [
        | inl g ↦
            subst (IsMoved (err e)) (rw (f, reject_row) (rw c (rw (g, mark_if_admitted) refl)))
              (rejected_as (err e) k e none f (rejected_open k e c g))
        | inr (u, g) ↦
            subst (IsMoved (err e)) (rw (f, reject_row) (rw c (rw (g, mark_if_admitted) refl)))
              (reject_mark e k u f c g)
      ]
    ]
  ]

  -- A row that brings its instance into conflict, with the task that is there.
  mark_reject :
      (result : Result TaskProjectionError TaskProvenanceRecord) (k : Text) (a : Option TaskRow)
      → row_id row ≡ some k
      → find_task k t.tasks ≡ a
      → conflicting ≡ next result (standing k t)
      → IsMoved result (
          insert_rejection
            (safe_rejection n row conflicting_task_provenance none)
            (mark_instance_conflict k a t))
  unfolding is_id safe_rejection
  mark_reject result k a f g e =
      let m = mark-Follows n k a t h g in
      let r =
        insert-Follows (suc n) (safe_rejection n row conflicting_task_provenance none)
          (mark_instance_conflict k a t) (IsIndexed-suc n _ m.indexed) (omega arith)
          (IsFresh-index n _ m.indexed) (IsApart-index n _ m.indexed) in
      IsMoved-by result k _ conflicting f e r.indexed (λ id.
        r.follows id
        ∙ ap
            (λ x.
              if is_id id x
              then rejected (standing id (mark_instance_conflict k a t))
              else standing id (mark_instance_conflict k a t))
            f
        ∙ still_conflicting (k == id) (standing id t) _ (m.follows id))

  inserted_task :
      (k : Text) (u : TaskRow)
      → row_id row ≡ some k
      → u.instance_id ≡ k
      → u.row_index ≡ n
      → contains k t.conflicts ≡ false
      → find_task k t.tasks ≡ none
      → has_rejection k t.rejections ≡ false
      → IsMoved (ok u.payload) (record t { tasks = t.tasks ++ u ∷ [] })
  unfolding next
  inserted_task k u f e i c g r =
      IsMoved-by (ok u.payload) k _ (admitted u.payload) f
        (ap (next (ok u.payload)) (sym (standing_unseen k c g r)))
        (insert_task-IsIndexed n u t h i (ap (λ x. contains x t.conflicts) e ∙ c))
        (λ id. standing-insert_task id k u t e c g)

  admit_beside-IsMoved :
      (r : TaskProvenanceRecord)
      → row_id row ≡ some r.instance_id
      → contains r.instance_id t.conflicts ≡ false
      → (a : Option TaskRow) → find_task r.instance_id t.tasks ≡ a
      → IsMoved (ok r) (admit_beside n row r a t)
  unfolding admit_beside next rejected
  admit_beside-IsMoved r f c none g = elim (Bool-cases (has_rejection r.instance_id t.rejections)) [
    | inl x ↦ rw x (
        mark_reject (ok r) r.instance_id none f g
          (ap (next (ok r)) (sym (standing_rejected r.instance_id c g x))))
    | inr x ↦ rw x (inserted_task r.instance_id _ f refl refl c g x)
  ]
  admit_beside-IsMoved r f c (some u) g = elim (Bool-cases (same_record u.payload r)) [
    | inl x ↦ rw x (
        rejected_as (ok r) r.instance_id duplicate_task_provenance none f
          (rw (standing_task r.instance_id u c g) (rw x refl)))
    | inr x ↦ rw x (
        mark_reject (ok r) r.instance_id (some u) f g
          (rw (standing_task r.instance_id u c g) (rw x refl)))
  ]

  pub admit_record-IsMoved :
      (r : TaskProvenanceRecord)
      → row_id row ≡ some r.instance_id
      → IsMoved (ok r) (admit_record n row r t)
  unfolding admit_record next rejected
  admit_record-IsMoved r f = elim (Bool-cases (contains r.instance_id t.conflicts)) [
    | inl c ↦ rw c (
        rejected_as (ok r) r.instance_id conflicting_task_provenance none f
          (rw (standing_conflict r.instance_id c) refl))
    | inr c ↦ rw c (admit_beside-IsMoved r f c (find_task r.instance_id t.tasks) refl)
  ]

  pub project_row-IsMoved :
      (source : DatasetSource)
      → ((r : TaskProvenanceRecord)
          → project_task_provenance source row ≡ ok r
          → row_id row ≡ some r.instance_id)
      → IsMoved (project_task_provenance source row) (project_row source n row t)
  unfolding project_row
  project_row-IsMoved source named = moved (project_task_provenance source row) named
    where
      moved :
          (result : Result TaskProjectionError TaskProvenanceRecord)
          → ((r : TaskProvenanceRecord) → result ≡ ok r → row_id row ≡ some r.instance_id)
          → IsMoved result
              (elim result [ err e ↦ reject_row n row e t | ok r ↦ admit_record n row r t ])
      moved (err e) f = reject_row-IsMoved e
      moved (ok r) f = admit_record-IsMoved r (f r refl)
