-- ===== src/Contamination/Benchmarks/Marked.antt =====
-- The flags of samples under `_mark_value_samples` and `_mark_exact_benchmark_overlap`.
use nodelm.Base.{
  ℕ, suc, ◌≡◌, refl, sym, ap, ◌∙◌, subst, Bool, true, false, ◌&&◌, List, [], ◌∷◌, Text, ◌==◌,
  ==-refl, In, In-map, In-select, some, inl, inr, Bool-cases, if◌then◌else◌,
}
use nodelm.Contamination.Tables.{
  ContentKind, same_kind, ContentRow, SampleRow, ValueSampleRow, Database,
}
use nodelm.Contamination.Forest.{contains}
use nodelm.Contamination.Forest.Sets.{contains_of_In}
use nodelm.Contamination.Content.{text_of}
use nodelm.Contamination.Linking.{contents_of}
use nodelm.Contamination.Linking.Joins.{same_kind_refl, In-contents_of}
use nodelm.Contamination.Benchmarks.{
  samples_of_value, mark_samples, mark_value_samples, is_some, benchmark_fingerprints,
  mark_fingerprints, mark_exact_benchmark_overlap,
}

-- The row that a marked row comes from.
pub record Origin (samples : List SampleRow) (s' : SampleRow) : Type 0 where
  pub row : SampleRow
  pub listed : In row samples
  pub same_id : s'.sample_id ≡ row.sample_id
  pub same_repository : s'.repository ≡ row.repository
  pub stays : row.benchmark_overlap ≡ true → s'.benchmark_overlap ≡ true

pub record Marked (db db' : Database) : Type 0 where
  pub rest : db' ≡ record db { samples = db'.samples }
  pub origin : (s' : SampleRow) → In s' db'.samples → Origin db.samples s'
  pub kept :
      (s : SampleRow)
      → In s db.samples
      → (s' : SampleRow) × In s' db'.samples
        × (s'.sample_id ≡ s.sample_id)
        × (s'.repository ≡ s.repository)

pub Marked-refl : (db : Database) → Marked db db
Marked-refl db = record {
  rest = refl;
  origin =
      λ s i. record { row = s; listed = i; same_id = refl; same_repository = refl; stays = λ e. e };
  kept = λ s i. (s, i, refl, refl);
}

pub Marked-trans : (a b c : Database) → Marked a b → Marked b c → Marked a c
Marked-trans a b c h k = record {
  rest = k.rest ∙ ap (λ (d : Database). record d { samples = c.samples }) h.rest;
  origin = λ s i.
      let o = k.origin s i in
      let p = h.origin o.row o.listed in
      record {
        row = p.row;
        listed = p.listed;
        same_id = o.same_id ∙ p.same_id;
        same_repository = o.same_repository ∙ p.same_repository;
        stays = λ e. o.stays (p.stays e);
      };
  kept = λ s i.
      let (t, j, e, f) = h.kept s i in let (u, j', e', f') = k.kept t j in (u, j', e' ∙ e, f' ∙ f);
}

-- Every sample that holds the value is marked.
abbrev pub Flagged : ContentKind → Text → Database → Type 0
Flagged kind fingerprint db =
    (v : ValueSampleRow) (s : SampleRow)
    → In v db.value_samples
    → In s db.samples
    → v.kind ≡ kind
    → v.fingerprint ≡ fingerprint
    → s.sample_id ≡ v.sample_id
    → s.benchmark_overlap ≡ true

pub Flagged-Marked :
    (kind : ContentKind) (f : Text) (db db' : Database)
    → Marked db db'
    → Flagged kind f db
    → Flagged kind f db'
Flagged-Marked kind f db db' m h v s i k e g same =
    let values : db'.value_samples ≡ db.value_samples =
      ap (λ (d : Database). d.value_samples) m.rest in
    let o = m.origin s k in
    o.stays (h v o.row (subst (In v) values i) o.listed e g (sym o.same_id ∙ same))

mark_samples-Origin :
    (ids : List Text) (samples : List SampleRow) (s' : SampleRow)
    → In s' (mark_samples ids samples)
    → Origin samples s'
unfolding mark_samples
mark_samples-Origin ids [] s' i = absurd i
mark_samples-Origin ids (s ∷ samples) s' (inr i) =
    let o = mark_samples-Origin ids samples s' i in
    record {
      row = o.row;
      listed = inr o.listed;
      same_id = o.same_id;
      same_repository = o.same_repository;
      stays = o.stays;
    }
mark_samples-Origin ids (s ∷ samples) s' (inl e) = elim (Bool-cases (contains s.sample_id ids)) [
  | inl t ↦
      let e' : s' ≡ record s { benchmark_overlap = true } = rw t at e in
      record {
        row = s;
        listed = inl refl;
        same_id = ap (λ (x : SampleRow). x.sample_id) e';
        same_repository = ap (λ (x : SampleRow). x.repository) e';
        stays = λ _. ap (λ (x : SampleRow). x.benchmark_overlap) e';
      }
  | inr f ↦
      let e' : s' ≡ s = rw f at e in
      record {
        row = s;
        listed = inl refl;
        same_id = ap (λ (x : SampleRow). x.sample_id) e';
        same_repository = ap (λ (x : SampleRow). x.repository) e';
        stays = λ o. ap (λ (x : SampleRow). x.benchmark_overlap) e' ∙ o;
      }
]

mark_kept :
    (ids : List Text) (samples : List SampleRow) (s : SampleRow)
    → In s samples
    → (s' : SampleRow) × In s' (mark_samples ids samples)
      × (s'.sample_id ≡ s.sample_id)
      × (s'.repository ≡ s.repository)
unfolding mark_samples
mark_kept ids [] s i = absurd i
mark_kept ids (q ∷ samples) s (inr i) =
    let (s', i', e, f) = mark_kept ids samples s i in (s', inr i', e, f)
mark_kept ids (q ∷ samples) s (inl e) = (
  if contains q.sample_id ids then record q { benchmark_overlap = true } else q,
  inl refl,
  at_id (contains q.sample_id ids) ∙ ap (λ (x : SampleRow). x.sample_id) (sym e),
  at_repository (contains q.sample_id ids) ∙ ap (λ (x : SampleRow). x.repository) (sym e),
)
  where
    at_id :
        (b : Bool)
        → (if b then record q { benchmark_overlap = true } else q).sample_id ≡ q.sample_id
    at_id true = refl
    at_id false = refl

    at_repository :
        (b : Bool)
        → (if b then record q { benchmark_overlap = true } else q).repository ≡ q.repository
    at_repository true = refl
    at_repository false = refl

mark_flags :
    (ids : List Text) (samples : List SampleRow) (s' : SampleRow)
    → In s' (mark_samples ids samples)
    → In s'.sample_id ids
    → s'.benchmark_overlap ≡ true
unfolding mark_samples
mark_flags ids [] s' i k = absurd i
mark_flags ids (s ∷ samples) s' (inr i) k = mark_flags ids samples s' i k
mark_flags ids (s ∷ samples) s' (inl e) k = elim (Bool-cases (contains s.sample_id ids)) [
  | inl t ↦
      let e' : s' ≡ record s { benchmark_overlap = true } = rw t at e in
      ap (λ (x : SampleRow). x.benchmark_overlap) e'
  | inr f ↦
      let e' : s' ≡ s = rw f at e in
      absurd (
        clash f (
          contains_of_In s.sample_id ids
            (subst (λ x. In x ids) (ap (λ (x : SampleRow). x.sample_id) e') k)))
]
  where
    clash : {b : Bool} → b ≡ false → b ≡ true → ⊥
    clash e f = cc

pub mark_value_samples-Marked :
    (kind : ContentKind) (f : Text) (db : Database) → Marked db (mark_value_samples kind f db)
unfolding mark_value_samples
mark_value_samples-Marked kind f db =
    let ids = samples_of_value kind f db.value_samples in
    record {
      rest = refl;
      origin = mark_samples-Origin ids db.samples;
      kept = mark_kept ids db.samples;
    }

pub mark_value_samples-Flagged :
    (kind : ContentKind) (f : Text) (db : Database) → Flagged kind f (mark_value_samples kind f db)
unfolding mark_value_samples samples_of_value
mark_value_samples-Flagged kind f db v s i k e g same = mark_flags _ db.samples s k (
    subst (λ x. In x (samples_of_value kind f db.value_samples)) (sym same)
      (In-map (λ r. r.sample_id) v _
        (In-select (λ r. same_kind r.kind kind && r.fingerprint == f) v db.value_samples i
          (rw (e, g, ==-refl f) (rw (same_kind_refl kind))))))

mark_fingerprints-Marked :
    (kind : ContentKind) (fs : List Text) (count : ℕ) (db : Database)
    → Marked db (mark_fingerprints kind count db fs).1
unfolding mark_fingerprints
mark_fingerprints-Marked kind [] count db = Marked-refl db
mark_fingerprints-Marked kind (f ∷ fs) count db =
    Marked-trans db (mark_value_samples kind f db) _ (mark_value_samples-Marked kind f db)
      (mark_fingerprints-Marked kind fs (suc count) (mark_value_samples kind f db))

mark_fingerprints-Flagged :
    (kind : ContentKind) (fs : List Text) (count : ℕ) (db : Database) (f : Text)
    → In f fs
    → Flagged kind f (mark_fingerprints kind count db fs).1
unfolding mark_fingerprints
mark_fingerprints-Flagged kind [] count db f i = absurd i
mark_fingerprints-Flagged kind (g ∷ fs) count db f (inr i) =
    mark_fingerprints-Flagged kind fs (suc count) (mark_value_samples kind g db) f i
mark_fingerprints-Flagged kind (g ∷ fs) count db f (inl e) =
    let db' = mark_value_samples kind g db in
    Flagged-Marked kind f db' _ (mark_fingerprints-Marked kind fs (suc count) db')
      (subst (λ x. Flagged kind x db') (sym e) (mark_value_samples-Flagged kind g db))

pub mark_exact-Marked :
    (kind : ContentKind) (db : Database) → Marked db (mark_exact_benchmark_overlap kind db).1
unfolding mark_exact_benchmark_overlap
mark_exact-Marked kind db = mark_fingerprints-Marked kind (benchmark_fingerprints kind db) 0 db

-- A content whose fingerprint is a benchmark's: its samples are marked.
pub mark_exact-Flagged :
    (kind : ContentKind) (db : Database) (c : ContentRow) (b : Text)
    → In c db.content_values
    → c.kind ≡ kind
    → text_of kind c.fingerprint db.benchmark_values ≡ some b
    → Flagged kind c.fingerprint (mark_exact_benchmark_overlap kind db).1
unfolding mark_exact_benchmark_overlap benchmark_fingerprints is_some
mark_exact-Flagged kind db c b i e found =
    mark_fingerprints-Flagged kind (benchmark_fingerprints kind db) 0 db c.fingerprint (
      In-map (λ r. r.fingerprint) c _
        (In-select (λ r. is_some (text_of kind r.fingerprint db.benchmark_values)) c
          (contents_of kind db.content_values) (In-contents_of kind db.content_values c i e)
          (rw found)))
