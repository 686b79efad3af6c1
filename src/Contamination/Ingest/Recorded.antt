-- ===== src/Contamination/Ingest/Recorded.antt =====
-- The values of one sample in the tables, and growing tables.
use nodelm.Base.{
  ℕ, ◌≡◌, sym, subst, List, [], ◌∷◌, Text, In, ok, ◌>>=◌, >>=-eq-ok, passed, ok-injective, some,
  inl, inr, Bool-cases,
}
use nodelm.Base.Methods.{is_empty}
use nodelm.Fingerprint.Normalize.{normalize_fingerprint_text, exact_fingerprint}
use nodelm.Fingerprint.Normalize.Stable.{exact_fingerprint-normalize}
use nodelm.Contamination.Tables.{
  ContentKind, patch, SampleRow, ValueSampleRow, Database, empty_text, fingerprint_collision,
}
use nodelm.Contamination.Forest.{contains}
use nodelm.Contamination.Forest.Sets.{In_of_contains}
use nodelm.Contamination.Content.{
  text_of, insert_content, same_value_sample, is_collision, insert_content_value,
}
use nodelm.Contamination.Content.Inserted.{
  In-insert_unless, In-insert_unless_self, eq_of_same_value_sample, row_for, with_value,
  fingerprint_of,
}
use nodelm.Contamination.Ingest.{insert_patches}
use nodelm.Contamination.Content.Found.{text_of-insert_content, stored_of_collision}

module _ (sha256 : Text → List ℕ) where
  -- The value is recorded for the sample, and its text under its fingerprint.
  pub record Recorded (kind : ContentKind) (value id : Text) (db : Database) : Type 0 where
    pub listed :
        In
          (record { kind = kind; fingerprint = fingerprint_of sha256 value; sample_id = id })
          db.value_samples
    pub text :
        text_of kind (fingerprint_of sha256 value) db.content_values
        ≡ some (normalize_fingerprint_text value)

  -- Nothing that was recorded is lost.
  pub record Grown (db db' : Database) : Type 0 where
    pub value_samples : (v : ValueSampleRow) → In v db.value_samples → In v db'.value_samples
    pub samples : (s : SampleRow) → In s db.samples → In s db'.samples
    pub contents :
        (kind : ContentKind) (f t : Text)
        → text_of kind f db.content_values ≡ some t
        → text_of kind f db'.content_values ≡ some t
    pub benchmarks :
        (kind : ContentKind) (f t : Text)
        → text_of kind f db.benchmark_values ≡ some t
        → text_of kind f db'.benchmark_values ≡ some t

  pub Grown-refl : (db : Database) → Grown db db
  Grown-refl db = record {
    value_samples = λ v i. i;
    samples = λ s i. i;
    contents = λ k f t e. e;
    benchmarks = λ k f t e. e;
  }

  pub Grown-trans : (a b c : Database) → Grown a b → Grown b c → Grown a c
  Grown-trans a b c h k = record {
    value_samples = λ v i. k.value_samples v (h.value_samples v i);
    samples = λ s i. k.samples s (h.samples s i);
    contents = λ x f t e. k.contents x f t (h.contents x f t e);
    benchmarks = λ x f t e. k.benchmarks x f t (h.benchmarks x f t e);
  }

  pub Recorded-Grown :
      (kind : ContentKind) (value id : Text) (db db' : Database)
      → Grown db db'
      → Recorded kind value id db
      → Recorded kind value id db'
  Recorded-Grown kind value id db db' g r = record {
    listed = g.value_samples _ r.listed;
    text = g.contents kind _ _ r.text;
  }

  pub with_value-Grown :
      (db : Database) (kind : ContentKind) (value id repository : Text)
      → Grown db (with_value sha256 db kind value id repository)
  with_value-Grown db kind value id repository = record {
    value_samples = λ v i. In-insert_unless same_value_sample _ v db.value_samples i;
    samples = λ s i. i;
    contents =
        λ k f t e. text_of-insert_content k f db.content_values (row_for sha256 db kind value) t e;
    benchmarks = λ k f t e. e;
  }

  pub insert_value-Recorded :
      (db : Database) (kind : ContentKind) (value id repository : Text) (db' : Database)
      → insert_content_value sha256 db kind value id repository ≡ ok db'
      → Grown db db' × Recorded kind value id db'
  unfolding insert_content_value
  insert_value-Recorded db kind value id repository db' h =
      let normalized = normalize_fingerprint_text value in
      let contents = insert_content (row_for sha256 db kind value) db.content_values in
      let after = with_value sha256 db kind value id repository in
      let (_, h') = passed (is_empty normalized) (empty_text kind) _ h in
      let (stored, h'') =
        passed (is_collision (text_of kind (fingerprint_of sha256 value) contents) normalized)
          (fingerprint_collision kind) (ok after) h' in
      let same : after ≡ db' = ok-injective h'' in
      (
        subst (Grown db) same (with_value-Grown db kind value id repository),
        subst (Recorded kind value id) same (record {
          listed =
              In-insert_unless_self same_value_sample eq_of_same_value_sample _ db.value_samples;
          text = stored_of_collision _ normalized stored;
        }),
      )

  -- A value with the fingerprint is recorded for the sample, and a text is stored under it.
  pub record Listed (kind : ContentKind) (f id : Text) (db : Database) : Type 0 where
    pub listed : In (record { kind = kind; fingerprint = f; sample_id = id }) db.value_samples
    pub text : (t : Text) × (text_of kind f db.content_values ≡ some t)

  pub Listed-Grown :
      (kind : ContentKind) (f id : Text) (db db' : Database)
      → Grown db db'
      → Listed kind f id db
      → Listed kind f id db'
  Listed-Grown kind f id db db' g l = record {
    listed = g.value_samples _ l.listed;
    text = (l.text.0, g.contents kind f _ l.text.1);
  }

  pub Recorded-Listed :
      (kind : ContentKind) (value id : Text) (db : Database)
      → Recorded kind value id db
      → Listed kind (exact_fingerprint sha256 value) id db
  Recorded-Listed kind value id db r =
      subst (λ f. Listed kind f id db) (exact_fingerprint-normalize sha256 value)
        (record { listed = r.listed; text = (normalize_fingerprint_text value, r.text) })

  pub insert_patches-Listed :
      (id repository : Text) (patches seen : List Text) (db db' : Database)
      → insert_patches sha256 id repository seen db patches ≡ ok db'
      → ((f : Text) → In f seen → Listed patch f id db)
      → Grown db db'
        × ((value : Text) → In value patches → Listed patch (exact_fingerprint sha256 value) id db')
  unfolding insert_patches
  insert_patches-Listed id repository [] seen db db' h known =
      (subst (Grown db) (ok-injective h) (Grown-refl db), λ value i. absurd i)
  insert_patches-Listed id repository (value ∷ patches) seen db db' h known =
      elim (Bool-cases (contains (exact_fingerprint sha256 value) seen)) [
        | inl t ↦
            let (g, rest) =
              insert_patches-Listed id repository patches seen db db' (rw t at h) known in
            (
              g,
              λ u i. elim i [
                | inl e ↦
                    subst (λ x. Listed patch (exact_fingerprint sha256 x) id db') (sym e)
                      (Listed-Grown patch _ id db db' g (known _ (In_of_contains _ seen t)))
                | inr i' ↦ rest u i'
              ],
            )
        | inr c ↦
            let f : Text = exact_fingerprint sha256 value in
            let h' : (insert_content_value sha256 db patch value id repository >>= λ m.
            insert_patches sha256 id repository (f ∷ seen) m patches)
                ≡ ok db' =
              rw c at h in
            let (m, e, rest) =
              >>=-eq-ok (insert_content_value sha256 db patch value id repository)
                (λ m. insert_patches sha256 id repository (f ∷ seen) m patches) h' in
            let (g, r) = insert_value-Recorded db patch value id repository m e in
            let here : Listed patch f id m = Recorded-Listed patch value id m r in
            let (g', others) =
              insert_patches-Listed id repository patches (f ∷ seen) m db' rest (λ x i. elim i [
                | inl e' ↦ subst (λ y. Listed patch y id m) (sym e') here
                | inr i' ↦ Listed-Grown patch x id db m g (known x i')
              ]) in
            (
              Grown-trans db m db' g g',
              λ u i. elim i [
                | inl e' ↦
                    subst (λ x. Listed patch (exact_fingerprint sha256 x) id db') (sym e')
                      (Listed-Grown patch f id m db' g' here)
                | inr i' ↦ others u i'
              ],
            )
      ]
