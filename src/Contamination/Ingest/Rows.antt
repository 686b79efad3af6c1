-- ===== src/Contamination/Ingest/Rows.antt =====
-- The insertion of a repository or a sample.
use nodelm.Base.{
  ◌≡◌, refl, sym, ap, ◌∙◌, true, false, List, [], ◌∷◌, ◌++◌, Text, arith, ltb_text, ltb_text_irrefl,
  ◌==◌, ==-refl, eq_of_==, In, Option, none, some, inl, inr, ◌⊎◌, Bool-cases, Option-cases,
  if◌then◌else◌,
}
use nodelm.Contamination.Tables.{RepositoryRow, SampleRow}
use nodelm.Contamination.Forest.{map_option, row_of, parent_of}
use nodelm.Contamination.Forest.Flat.{IsFlat}
use nodelm.Contamination.Forest.Groups.{IsLeast}
use nodelm.Contamination.Ingest.{insert_repository, has_sample}

row_of-append :
    (k : Text) (rows : List RepositoryRow) (r : RepositoryRow)
    → row_of k rows ≡ none
    → row_of k (rows ++ r ∷ []) ≡ (if r.repository == k then some r else none)
unfolding row_of
row_of-append k [] r h = refl
row_of-append k (q ∷ rows) r h = elim (Bool-cases (q.repository == k)) [
  | inl t ↦ absurd (none_of (rw t at h))
  | inr f ↦ rw f (row_of-append k rows r (rw f at h))
]
  where
    none_of : ◌≡◌ {A = Option RepositoryRow} (some q) none → ⊥
    none_of e = cc

row_of-append_some :
    (k : Text) (rows : List RepositoryRow) (r q : RepositoryRow)
    → row_of k rows ≡ some q
    → row_of k (rows ++ r ∷ []) ≡ some q
unfolding row_of
row_of-append_some k [] r q h = absurd (none_of h)
  where
    none_of : ◌≡◌ {A = Option RepositoryRow} none (some q) → ⊥
    none_of e = cc
row_of-append_some k (p ∷ rows) r q h = elim (Bool-cases (p.repository == k)) [
  | inl t ↦ rw t (rw t at h)
  | inr f ↦ rw f (row_of-append_some k rows r q (rw f at h))
]

abbrev new_row : Text → RepositoryRow
new_row repository = record { repository = repository; parent = repository; split = none }

-- Either the repository was there, and nothing changes, or its new row is its own parent.
insert_repository_cases :
    (repository : Text) (rows : List RepositoryRow)
    → ((q : RepositoryRow) × (row_of repository rows ≡ some q)
        × (insert_repository repository rows ≡ rows))
      ⊎ ((row_of repository rows ≡ none)
          × (insert_repository repository rows ≡ rows ++ new_row repository ∷ []))
unfolding insert_repository
insert_repository_cases repository rows = elim (Option-cases (row_of repository rows)) [
  | inl e ↦ inr (e, rw (e, insert_repository))
  | inr (q, e) ↦ inl (q, e, rw (e, insert_repository))
]

module _ (repository : Text) (rows : List RepositoryRow) where
  abbrev after : List RepositoryRow
  after = insert_repository repository rows

  -- What was found is found still.
  pub insert_repository-keeps :
      (k p : Text) → parent_of k rows ≡ some p → parent_of k after ≡ some p
  unfolding parent_of
  insert_repository-keeps k p h = elim (insert_repository_cases repository rows) [
    | inl (q, _, e) ↦ ap (λ x. map_option (λ r. r.parent) (row_of k x)) e ∙ h
    | inr (_, e) ↦ elim (Option-cases (row_of k rows)) [
      | inl n ↦ absurd (none_of (ap (map_option (λ r. r.parent)) (sym n) ∙ h))
      | inr (q, f) ↦
          ap (λ x. map_option (λ r. r.parent) (row_of k x)) e
          ∙ ap (map_option (λ r. r.parent))
              (row_of-append_some k rows (new_row repository) q f ∙ sym f)
          ∙ h
    ]
  ]
    where
      none_of : ◌≡◌ {A = Option Text} none (some p) → ⊥
      none_of e = cc

  -- What is found was found before, or is the new row.
  pub insert_repository-only :
      (k p : Text)
      → parent_of k after ≡ some p
      → (parent_of k rows ≡ some p) ⊎ ((k ≡ repository) × (p ≡ repository))
  unfolding parent_of
  insert_repository-only k p h = elim (insert_repository_cases repository rows) [
    | inl (q, _, e) ↦ inl (ap (λ x. map_option (λ r. r.parent) (row_of k x)) (sym e) ∙ h)
    | inr (_, e) ↦
        let h' : map_option (λ r. r.parent) (row_of k (rows ++ new_row repository ∷ [])) ≡ some p =
          ap (λ x. map_option (λ r. r.parent) (row_of k x)) (sym e) ∙ h in
        elim (Option-cases (row_of k rows)) [
          | inr (q, f) ↦ inl (
              ap (map_option (λ r. r.parent))
                (f ∙ sym (row_of-append_some k rows (new_row repository) q f))
              ∙ h')
          | inl n ↦ inr (
              new (Bool-cases (repository == k)) (
                ap (map_option (λ r. r.parent)) (sym (row_of-append k rows (new_row repository) n))
                ∙ h'))
        ]
  ]
    where
      new :
          ((repository == k) ≡ true) ⊎ ((repository == k) ≡ false)
          → map_option
              (λ (r : RepositoryRow). r.parent)
              (if repository == k then some (new_row repository) else none)
            ≡ some p
          → (k ≡ repository) × (p ≡ repository)
      new (inl t) e = (sym (eq_of_== repository k t), found (rw t at e))
        where
          found : some repository ≡ some p → p ≡ repository
          found e = cc
      new (inr f) e = absurd (none_of (rw f at e))
        where
          none_of : ◌≡◌ {A = Option Text} none (some p) → ⊥
          none_of e = cc

  pub insert_repository-known : (p : Text) × (parent_of repository after ≡ some p)
  unfolding parent_of
  insert_repository-known = elim (insert_repository_cases repository rows) [
    | inl (q, f, e) ↦ (
      q.parent,
      ap (λ x. map_option (λ r. r.parent) (row_of repository x)) e
          ∙ ap (map_option (λ r. r.parent)) f,
    )
    | inr (n, e) ↦ (
      repository,
      ap (λ x. map_option (λ r. r.parent) (row_of repository x)) e
          ∙ ap (map_option (λ r. r.parent)) (row_of-append repository rows (new_row repository) n)
          ∙ rw (==-refl repository),
    )
  ]

  pub insert_repository-IsFlat : IsFlat rows → IsFlat after
  insert_repository-IsFlat flat = record {
    at_parent = λ k p e. elim (insert_repository-only k p e) [
      | inl old ↦ insert_repository-keeps p p (flat.at_parent k p old)
      | inr (same, root) ↦ ap (λ x. parent_of x after) (root ∙ sym same) ∙ e
    ];
  }

  pub insert_repository-IsLeast : IsLeast rows → IsLeast after
  insert_repository-IsLeast least = record {
    at_parent = λ k p e. elim (insert_repository-only k p e) [
      | inl old ↦ least.at_parent k p old
      | inr (same, root) ↦ ap (λ x. ltb_text k x) (root ∙ sym same) ∙ ltb_text_irrefl k
    ];
  }

pub has_sample_of_In :
    (id : Text) (samples : List SampleRow) (s : SampleRow)
    → In s samples
    → s.sample_id ≡ id
    → has_sample id samples ≡ true
unfolding has_sample
has_sample_of_In id [] s i e = absurd i
has_sample_of_In id (q ∷ samples) s (inl same) e =
    rw (ap (λ (x : SampleRow). x.sample_id) (sym same) ∙ e) (rw (==-refl id))
has_sample_of_In id (q ∷ samples) s (inr i) e = ground (arith, has_sample_of_In id samples s i e)

pub has_sample-append :
    (id : Text) (samples : List SampleRow) (s : SampleRow)
    → has_sample id samples ≡ true
    → has_sample id (samples ++ s ∷ []) ≡ true
unfolding has_sample
has_sample-append id [] s h = cc
has_sample-append id (q ∷ samples) s h = ground (arith, has_sample-append id samples s)
