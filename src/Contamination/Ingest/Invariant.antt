-- ===== src/Contamination/Ingest/Invariant.antt =====
-- The invariant of the tables while `build_contamination_index` reads its rows, for one value.
use nodelm.Base.{
  ℕ, ◌≡◌, refl, sym, ap, ◌∙◌, subst, true, List, [], ◌∷◌, Text, In, ok, ◌>>=◌, >>=-eq-ok,
  ok-injective, none, some, inl, inr, Bool-cases,
}
use mathlib.Core.Path.{ap₂}
use nodelm.Fingerprint.Normalize.{exact_fingerprint}
use nodelm.Contamination.Tables.{
  ContentKind, patch, RepositoryRow, SampleRow, ContentRow, ValueRepositoryRow, ValueSampleRow,
  Database, initialize_database,
}
use nodelm.Contamination.Forest.{parent_of, row_of, contains}
use nodelm.Contamination.Linking.Joins.{IsLinkable}
use nodelm.Contamination.Linking.Near.{IsStored}
use nodelm.Contamination.Content.{
  insert_unless, same_value_repository, same_value_sample, insert_content_value,
}
use nodelm.Contamination.Content.Inserted.{
  In-insert_unless, In_of_insert_unless, In-insert_unless_self, eq_of_same_value_repository,
  In_of_insert_content, row_for, row_for-IsStored, with_value, insert_content_value-ok,
}
use nodelm.Contamination.Ingest.{has_sample, insert_patches}

abbrev pub HasRow : List RepositoryRow → Text → Type 0
HasRow rows k = (p : Text) × (parent_of k rows ≡ some p)

-- The value of a sample, as a value of its repository.
abbrev pub value_of : ValueSampleRow → Text → ValueRepositoryRow
value_of v repository = record {
  kind = v.kind;
  fingerprint = v.fingerprint;
  repository = repository;
}

pub record IsIngested (db : Database) : Type 0 where
  pub linkable : IsLinkable db
  -- A value that a sample holds is held by the repository of the sample.
  pub held :
      (v : ValueSampleRow) (s : SampleRow)
      → In v db.value_samples
      → In s db.samples
      → s.sample_id ≡ v.sample_id
      → In (value_of v s.repository) db.value_repositories
  pub owned :
      (v : ValueSampleRow) → In v db.value_samples → has_sample v.sample_id db.samples ≡ true
  pub known : (s : SampleRow) → In s db.samples → HasRow db.repositories s.repository
  pub stored : (c : ContentRow) → In c db.content_values → IsStored c
  pub benchmark_stored : (c : ContentRow) → In c db.benchmark_values → IsStored c
  pub no_roots : db.excluded_roots ≡ []

-- All rows of the sample are in one repository.
abbrev pub Current : Text → Text → Database → Type 0
Current id repository db =
    (s : SampleRow) → In s db.samples → s.sample_id ≡ id → s.repository ≡ repository

pub record Ready (id repository : Text) (db : Database) : Type 0 where
  pub ingested : IsIngested db
  pub current : Current id repository db
  pub sampled : has_sample id db.samples ≡ true
  pub rowed : HasRow db.repositories repository

pub empty-IsIngested : IsIngested initialize_database
unfolding parent_of row_of
empty-IsIngested = record {
  linkable = record {
    flat = record { at_parent = λ k p e. absurd (none_of e) };
    least = record { at_parent = λ k p e. absurd (none_of e) };
    values_known = λ v i. absurd i;
  };
  held = λ v s i k e. absurd i;
  owned = λ v i. absurd i;
  known = λ s i. absurd i;
  stored = λ c i. absurd i;
  benchmark_stored = λ c i. absurd i;
  no_roots = refl;
}
  where
    none_of : {p : Text} → none ≡ some p → ⊥
    none_of e = cc

module _ (sha256 : Text → List ℕ) where
  pub with_value-Ready :
      (db : Database) (kind : ContentKind) (value id repository : Text)
      → Ready id repository db
      → Ready id repository (with_value sha256 db kind value id repository)
  with_value-Ready db kind value id repository r =
      let i = r.ingested in
      let row = row_for sha256 db kind value in
      let new : ValueRepositoryRow = record {
        kind = kind;
        fingerprint = row.fingerprint;
        repository = repository;
      } in
      record {
        ingested = record {
          linkable = record {
            flat = i.linkable.flat;
            least = i.linkable.least;
            values_known = λ v k.
                elim (In_of_insert_unless same_value_repository new v db.value_repositories k) [
                  | inl e ↦
                      let (p, f) = r.rowed in
                      (
                        p,
                        ap (λ (x : ValueRepositoryRow). parent_of x.repository db.repositories) e
                            ∙ f,
                      )
                  | inr k' ↦ i.linkable.values_known v k'
                ];
          };
          held = λ v s k l e. elim (In_of_insert_unless same_value_sample _ v db.value_samples k) [
            | inl e' ↦
                let at : s.repository ≡ repository =
                  r.current s l (e ∙ ap (λ (x : ValueSampleRow). x.sample_id) e') in
                let is_new : new ≡ value_of v s.repository = ap₂ value_of (sym e') (sym at) in
                subst (λ x. In x (insert_unless same_value_repository new db.value_repositories))
                  is_new
                  (In-insert_unless_self same_value_repository eq_of_same_value_repository new
                    db.value_repositories)
            | inr k' ↦
                In-insert_unless same_value_repository new _ db.value_repositories
                  (i.held v s k' l e)
          ];
          owned = λ v k. elim (In_of_insert_unless same_value_sample _ v db.value_samples k) [
            | inl e ↦ ap (λ (x : ValueSampleRow). has_sample x.sample_id db.samples) e ∙ r.sampled
            | inr k' ↦ i.owned v k'
          ];
          known = i.known;
          stored = λ c k. elim (In_of_insert_content row c db.content_values k) [
            | inl e ↦ subst IsStored (sym e) (row_for-IsStored sha256 db kind value)
            | inr k' ↦ i.stored c k'
          ];
          benchmark_stored = i.benchmark_stored;
          no_roots = i.no_roots;
        };
        current = r.current;
        sampled = r.sampled;
        rowed = r.rowed;
      }

  pub insert_patches-Ready :
      (id repository : Text) (patches seen : List Text) (db db' : Database)
      → insert_patches sha256 id repository seen db patches ≡ ok db'
      → Ready id repository db
      → Ready id repository db'
  unfolding insert_patches
  insert_patches-Ready id repository [] seen db db' h r =
      subst (Ready id repository) (ok-injective h) r
  insert_patches-Ready id repository (value ∷ patches) seen db db' h r =
      elim (Bool-cases (contains (exact_fingerprint sha256 value) seen)) [
        | inl t ↦ insert_patches-Ready id repository patches seen db db' (rw t at h) r
        | inr f ↦
            let next : List Text = exact_fingerprint sha256 value ∷ seen in
            let h' : (insert_content_value sha256 db patch value id repository >>= λ m.
            insert_patches sha256 id repository next m patches)
                ≡ ok db' =
              rw f at h in
            let (m, e, rest) =
              >>=-eq-ok (insert_content_value sha256 db patch value id repository)
                (λ m. insert_patches sha256 id repository next m patches) h' in
            insert_patches-Ready id repository patches next m db' rest (
              subst (Ready id repository)
                (sym (insert_content_value-ok sha256 db patch value id repository m e))
                (with_value-Ready db patch value id repository r))
      ]
