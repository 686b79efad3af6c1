-- ===== src/Contamination/Content/Inserted.antt =====
-- The tables after `_insert_content_value` and `_insert_benchmark_value`.
use nodelm.Base.{
  ℕ, ◌≡◌, refl, sym, subst, Bool, true, List, [], ◌∷◌, ◌++◌, Text, arith, eq_of_==, In,
  In-append_cases, ok, passed, ok-injective, inl, inr, ◌⊎◌, Bool-cases, Option-cases,
}
use nodelm.Base.Methods.{is_empty}
use nodelm.Fingerprint.Normalize.{normalize_fingerprint_text, exact_fingerprint}
use nodelm.Fingerprint.Normalize.Stable.{normalize-normalize}
use nodelm.Contamination.Tables.{
  ContentKind, task, patch, same_kind, ContentRow, ValueRepositoryRow, ValueSampleRow, Database,
  empty_text, fingerprint_collision, empty_benchmark_text, benchmark_collision,
}
use nodelm.Contamination.Linking.Near.{IsStored}
use nodelm.Contamination.Content.{
  text_of, insert_content, insert_unless, same_value_repository, same_value_sample, is_collision,
  content_row, insert_content_value, insert_benchmark_value,
}

module _ {A : Type 0} (same : A → A → Bool) where
  pub In-insert_unless :
      (row x : A) (rows : List A) → In x rows → In x (insert_unless same row rows)
  unfolding insert_unless
  In-insert_unless row x [] i = absurd i
  In-insert_unless row x (r ∷ rows) i = elim (Bool-cases (same r row)) [
    | inl t ↦ rw t i
    | inr f ↦ rw f (elim i [ inl e ↦ inl e | inr k ↦ inr (In-insert_unless row x rows k) ])
  ]

  pub In_of_insert_unless :
      (row x : A) (rows : List A) → In x (insert_unless same row rows) → (x ≡ row) ⊎ In x rows
  unfolding insert_unless
  In_of_insert_unless row x [] (inl e) = inl e
  In_of_insert_unless row x [] (inr b) = absurd b
  In_of_insert_unless row x (r ∷ rows) i = elim (Bool-cases (same r row)) [
    | inl t ↦ inr (rw t at i)
    | inr f ↦ elim (let k : In x (r ∷ insert_unless same row rows) = rw f at i in k) [
      | inl e ↦ inr (inl e)
      | inr k ↦ elim (In_of_insert_unless row x rows k) [ inl e ↦ inl e | inr j ↦ inr (inr j) ]
    ]
  ]

  pub In-insert_unless_self :
      ((r x : A) → same r x ≡ true → r ≡ x)
      → (row : A) (rows : List A) → In row (insert_unless same row rows)
  unfolding insert_unless
  In-insert_unless_self sound row [] = inl refl
  In-insert_unless_self sound row (r ∷ rows) = elim (Bool-cases (same r row)) [
    | inl t ↦ rw t (inl (sym (sound r row t)))
    | inr f ↦ rw f (inr (In-insert_unless_self sound row rows))
  ]

pub eq_of_same_kind : (a b : ContentKind) → same_kind a b ≡ true → a ≡ b
unfolding same_kind
eq_of_same_kind task task h = refl
eq_of_same_kind patch patch h = refl
eq_of_same_kind task patch h = cc
eq_of_same_kind patch task h = cc

pub eq_of_same_value_sample : (a b : ValueSampleRow) → same_value_sample a b ≡ true → a ≡ b
eq_of_same_value_sample a b h =
    let k : a.kind ≡ b.kind = eq_of_same_kind a.kind b.kind (ground arith) in
    let f : a.fingerprint ≡ b.fingerprint = eq_of_== a.fingerprint b.fingerprint (ground arith) in
    let s : a.sample_id ≡ b.sample_id = eq_of_== a.sample_id b.sample_id (ground arith) in
    λ i. record { kind = k i; fingerprint = f i; sample_id = s i }

pub eq_of_same_value_repository :
    (a b : ValueRepositoryRow) → same_value_repository a b ≡ true → a ≡ b
eq_of_same_value_repository a b h =
    let k : a.kind ≡ b.kind = eq_of_same_kind a.kind b.kind (ground arith) in
    let f : a.fingerprint ≡ b.fingerprint = eq_of_== a.fingerprint b.fingerprint (ground arith) in
    let s : a.repository ≡ b.repository = eq_of_== a.repository b.repository (ground arith) in
    λ i. record { kind = k i; fingerprint = f i; repository = s i }

pub insert_content_cases :
    (row : ContentRow) (rows : List ContentRow)
    → (insert_content row rows ≡ rows) ⊎ (insert_content row rows ≡ rows ++ row ∷ [])
unfolding insert_content
insert_content_cases row rows = elim (Option-cases (text_of row.kind row.fingerprint rows)) [
  | inl e ↦ inr (rw (e, insert_content))
  | inr (t, e) ↦ inl (rw (e, insert_content))
]

pub In_of_insert_content :
    (row c : ContentRow) (rows : List ContentRow)
    → In c (insert_content row rows)
    → (c ≡ row) ⊎ In c rows
In_of_insert_content row c rows i = elim (insert_content_cases row rows) [
  | inl e ↦ inr (subst (In c) e i)
  | inr e ↦ elim (In-append_cases c rows (row ∷ []) (subst (In c) e i)) [
    | inl k ↦ inr k
    | inr (inl s) ↦ inl s
    | inr (inr b) ↦ absurd b
  ]
]

-- The fingerprint under which a value is stored.
abbrev pub fingerprint_of : (Text → List ℕ) → Text → Text
fingerprint_of sha256 value = exact_fingerprint sha256 (normalize_fingerprint_text value)

module _ (sha256 : Text → List ℕ) (db : Database) (kind : ContentKind) (value : Text) where
  abbrev pub row_for : ContentRow
  row_for = content_row sha256 kind (normalize_fingerprint_text value)

  pub row_for-IsStored : IsStored row_for
  row_for-IsStored = record { normal = normalize-normalize value; measured = refl }

  -- The tables after the insertion.
  abbrev pub with_value : (sample_id repository : Text) → Database
  with_value sample_id repository = record db {
    content_values = insert_content row_for db.content_values;
    value_repositories =
        insert_unless same_value_repository
          (record { kind = kind; fingerprint = row_for.fingerprint; repository = repository })
          db.value_repositories;
    value_samples =
        insert_unless same_value_sample
          (record { kind = kind; fingerprint = row_for.fingerprint; sample_id = sample_id })
          db.value_samples;
  }

  pub insert_content_value-ok :
      (sample_id repository : Text) (db' : Database)
      → insert_content_value sha256 db kind value sample_id repository ≡ ok db'
      → db' ≡ with_value sample_id repository
  unfolding insert_content_value
  insert_content_value-ok sample_id repository db' h =
      let normalized = normalize_fingerprint_text value in
      let contents = insert_content row_for db.content_values in
      let (_, h) = passed (is_empty normalized) (empty_text kind) _ h in
      let (_, h) =
        passed (is_collision (text_of kind row_for.fingerprint contents) normalized)
          (fingerprint_collision kind) (ok (with_value sample_id repository)) h in
      sym (ok-injective h)

  abbrev pub with_benchmark : Database
  with_benchmark = record db { benchmark_values = insert_content row_for db.benchmark_values }

  pub insert_benchmark_value-ok :
      (db' : Database) → insert_benchmark_value sha256 db kind value ≡ ok db' → db' ≡ with_benchmark
  unfolding insert_benchmark_value
  insert_benchmark_value-ok db' h =
      let normalized = normalize_fingerprint_text value in
      let benchmarks = insert_content row_for db.benchmark_values in
      let (_, h) = passed (is_empty normalized) (empty_benchmark_text kind) _ h in
      let (_, h) =
        passed (is_collision (text_of kind row_for.fingerprint benchmarks) normalized)
          (benchmark_collision kind) (ok with_benchmark) h in
      sym (ok-injective h)
