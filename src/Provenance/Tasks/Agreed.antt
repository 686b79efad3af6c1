-- ===== src/Provenance/Tasks/Agreed.antt =====
-- The rows of one instance, one after the other: it stays admitted exactly while they agree.
use nodelm.Base.{
  ◌≡◌, refl, sym, ap, ◌∙◌, subst, ◌⊎◌, inl, inr, true, false, List, [], ◌∷◌, Text, if◌then◌else◌,
  In, Result, ok, err, Option, some, Bool-cases,
}
use nodelm.Provenance.Values.{Fields}
use nodelm.Provenance.Pipeline.{DatasetSource}
use nodelm.Provenance.Tasks.{is_id, same_record}
use nodelm.Provenance.Tasks.Standing.{Standing, unseen, failing, conflicting, admitted, next}
use nodelm.Provenance.Tasks.Same.{
  admitted_eq, eq_of_same_record, is_id-of, not_admitted, of_is_id, same_record_refl,
}
use nodelm.Provenance.TaskRecord.{
  TaskProjectionError, TaskProvenanceRecord, row_id, project_task_provenance,
}

-- The rows of an instance, one after the other.
unfoldable pub follow : DatasetSource → Text → List Fields → Standing → Standing
follow source id [] s = s
follow source id (row ∷ rows) s =
    follow source id rows
      (if is_id id (row_id row) then next (project_task_provenance source row) s else s)

-- Every row of the instance has this record.
abbrev pub AllProject : DatasetSource → Text → List Fields → TaskProvenanceRecord → Type 0
AllProject source id rows r =
    (row : Fields) → In row rows → row_id row ≡ some id → project_task_provenance source row ≡ ok r

-- The instance has rows, and all of them have this record.
pub record IsAgreed (source : DatasetSource) (id : Text) (rows : List Fields)
    (r : TaskProvenanceRecord) : Type 0 where
  pub a_row : Fields
  pub in_rows : In a_row rows
  pub of_instance : row_id a_row ≡ some id
  pub agree : AllProject source id rows r

module _ (source : DatasetSource) (id : Text) (r : TaskProvenanceRecord) where
  next-conflicting :
      (p : Result TaskProjectionError TaskProvenanceRecord) → next p conflicting ≡ conflicting
  unfolding next
  next-conflicting (ok q) = refl
  next-conflicting (err e) = refl

  stays_conflicting : (rows : List Fields) → follow source id rows conflicting ≡ conflicting
  unfolding follow
  stays_conflicting [] = refl
  stays_conflicting (row ∷ rows) = elim (Bool-cases (is_id id (row_id row))) [
    | inl t ↦ rw t (
        ap (follow source id rows) (next-conflicting (project_task_provenance source row))
        ∙ stays_conflicting rows)
    | inr f ↦ rw f (stays_conflicting rows)
  ]

  next-failing :
      (p : Result TaskProjectionError TaskProvenanceRecord)
      → (next p failing ≡ failing) ⊎ (next p failing ≡ conflicting)
  unfolding next
  next-failing (ok q) = inr refl
  next-failing (err e) = inl refl

  follow_hit :
      (row : Fields) (rows : List Fields) (s : Standing)
      → is_id id (row_id row) ≡ true
      → follow source id (row ∷ rows) s
        ≡ follow source id rows (next (project_task_provenance source row) s)
  unfolding follow
  follow_hit row rows s t = rw t refl

  follow_miss :
      (row : Fields) (rows : List Fields) (s : Standing)
      → is_id id (row_id row) ≡ false
      → follow source id (row ∷ rows) s ≡ follow source id rows s
  unfolding follow
  follow_miss row rows s f = rw f refl

  never_failing : (rows : List Fields) → follow source id rows failing ≡ admitted r → ⊥
  unfolding follow
  never_failing [] h = cc
  never_failing (row ∷ rows) h = elim (Bool-cases (is_id id (row_id row))) [
    | inr f ↦ never_failing rows (sym (follow_miss row rows failing f) ∙ h)
    | inl t ↦
        let g = sym (follow_hit row rows failing t) ∙ h in
        elim (next-failing (project_task_provenance source row)) [
          | inl e ↦ never_failing rows (ap (follow source id rows) (sym e) ∙ g)
          | inr e ↦ not_admitted (sym (ap (follow source id rows) e ∙ stays_conflicting rows) ∙ g)
        ]
  ]

  next-admitted :
      (p : Result TaskProjectionError TaskProvenanceRecord) (s : TaskProvenanceRecord)
      → ((p ≡ ok s) × (next p (admitted s) ≡ admitted s)) ⊎ (next p (admitted s) ≡ conflicting)
  unfolding next
  next-admitted (err e) s = inr refl
  next-admitted (ok q) s = elim (Bool-cases (same_record s q)) [
    | inl t ↦ inl (ap ok (sym (eq_of_same_record s q t)), rw t refl)
    | inr f ↦ inr (rw f refl)
  ]

  -- A row beside those that follow it.
  with_row :
      (row : Fields) (rows : List Fields)
      → (row_id row ≡ some id → project_task_provenance source row ≡ ok r)
      → AllProject source id rows r
      → AllProject source id (row ∷ rows) r
  with_row row rows h all x (inl e) f =
      subst (λ y. project_task_provenance source y ≡ ok r) (sym e) (h (ap row_id (sym e) ∙ f))
  with_row row rows h all x (inr i) f = all x i f

  not_of : (o : Option Text) {P : Type 0} → is_id id o ≡ false → o ≡ some id → P
  not_of o f e = absurd (false_true (sym f ∙ is_id-of id o e))
    where
      false_true : false ≡ true → ⊥
      false_true g = cc

  from_admitted :
      (rows : List Fields) (s : TaskProvenanceRecord)
      → follow source id rows (admitted s) ≡ admitted r
      → (s ≡ r) × AllProject source id rows r
  unfolding follow
  from_admitted [] s h = (admitted_eq h, λ x i. absurd i)
  from_admitted (row ∷ rows) s h = elim (Bool-cases (is_id id (row_id row))) [
    | inr f ↦
        let (e, all) = from_admitted rows s (sym (follow_miss row rows (admitted s) f) ∙ h) in
        (e, with_row row rows (not_of (row_id row) f) all)
    | inl t ↦
        let g = sym (follow_hit row rows (admitted s) t) ∙ h in
        elim (next-admitted (project_task_provenance source row) s) [
          | inl (p, n) ↦
              let (e, all) = from_admitted rows s (ap (follow source id rows) (sym n) ∙ g) in
              (e, with_row row rows (λ x. p ∙ ap ok e) all)
          | inr n ↦
              absurd
                (not_admitted (sym (ap (follow source id rows) n ∙ stays_conflicting rows) ∙ g))
        ]
  ]

  next-same :
      (p : Result TaskProjectionError TaskProvenanceRecord)
      → p ≡ ok r
      → next p (admitted r) ≡ admitted r
  unfolding next
  next-same p e = rw e (rw (same_record_refl r) refl)

  to_admitted :
      (rows : List Fields)
      → AllProject source id rows r
      → follow source id rows (admitted r) ≡ admitted r
  unfolding follow
  to_admitted [] all = refl
  to_admitted (row ∷ rows) all = elim (Bool-cases (is_id id (row_id row))) [
    | inr f ↦ follow_miss row rows (admitted r) f ∙ to_admitted rows (λ x i. all x (inr i))
    | inl t ↦
        follow_hit row rows (admitted r) t
        ∙ ap (follow source id rows) (
            next-same (project_task_provenance source row)
              (all row (inl refl) (of_is_id id (row_id row) t)))
        ∙ to_admitted rows (λ x i. all x (inr i))
  ]

  next-unseen :
      (p : Result TaskProjectionError TaskProvenanceRecord)
      → ((q : TaskProvenanceRecord) × (p ≡ ok q) × (next p unseen ≡ admitted q))
        ⊎ (next p unseen ≡ failing)
  unfolding next
  next-unseen (ok q) = inl (q, refl, refl)
  next-unseen (err e) = inr refl

  next-first :
      (p : Result TaskProjectionError TaskProvenanceRecord) → p ≡ ok r → next p unseen ≡ admitted r
  unfolding next
  next-first p e = rw e refl

  pub follow-IsAgreed :
      (rows : List Fields) → follow source id rows unseen ≡ admitted r → IsAgreed source id rows r
  unfolding follow
  follow-IsAgreed [] h = cc
  follow-IsAgreed (row ∷ rows) h = elim (Bool-cases (is_id id (row_id row))) [
    | inr f ↦
        let a = follow-IsAgreed rows (sym (follow_miss row rows unseen f) ∙ h) in
        record {
          a_row = a.a_row;
          in_rows = inr a.in_rows;
          of_instance = a.of_instance;
          agree = with_row row rows (not_of (row_id row) f) a.agree;
        }
    | inl t ↦
        let g = sym (follow_hit row rows unseen t) ∙ h in
        elim (next-unseen (project_task_provenance source row)) [
          | inr n ↦ absurd (never_failing rows (ap (follow source id rows) (sym n) ∙ g))
          | inl (q, p, n) ↦
              let (e, all) = from_admitted rows q (ap (follow source id rows) (sym n) ∙ g) in
              record {
                a_row = row;
                in_rows = inl refl;
                of_instance = of_is_id id (row_id row) t;
                agree = with_row row rows (λ x. p ∙ ap ok e) all;
              }
        ]
  ]

  agreed_follow :
      (rows : List Fields) (x : Fields)
      → In x rows
      → row_id x ≡ some id
      → AllProject source id rows r
      → follow source id rows unseen ≡ admitted r
  unfolding follow
  agreed_follow [] x i f all = absurd i
  agreed_follow (row ∷ rows) x i f all = elim (Bool-cases (is_id id (row_id row))) [
    | inl t ↦
        follow_hit row rows unseen t
        ∙ ap (follow source id rows) (
            next-first (project_task_provenance source row)
              (all row (inl refl) (of_is_id id (row_id row) t)))
        ∙ to_admitted rows (λ y j. all y (inr j))
    | inr g ↦ follow_miss row rows unseen g ∙ elim i [
      | inl e ↦ not_of (row_id row) g (ap row_id (sym e) ∙ f)
      | inr j ↦ agreed_follow rows x j f (λ y k. all y (inr k))
    ]
  ]

  pub IsAgreed-follow :
      (rows : List Fields) → IsAgreed source id rows r → follow source id rows unseen ≡ admitted r
  IsAgreed-follow rows a = agreed_follow rows a.a_row a.in_rows a.of_instance a.agree
