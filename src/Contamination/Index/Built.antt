-- ===== src/Contamination/Index/Built.antt =====
-- The stages that a result of `build_contamination_index` went through.
use nodelm.Base.{
  ℕ, ◌↔◌, ◌≡◌, ◌∙◌, sym, ap, subst, false, not, List, Text, arith, ok, ◌>>=◌, >>=-eq-ok, passed,
  ok-injective,
}
use nodelm.Base.Fractions.{Fraction}
use nodelm.Contamination.Tables.{Database, threshold_out_of_range}
use nodelm.Contamination.Forest.Flat.{IsFlat}
use nodelm.Contamination.Linking.Bounds.{IsThreshold}
use nodelm.Contamination.Splits.{compress_repository_groups, assign_splits}
use nodelm.Contamination.Splits.Compress.{CompressedGroups, compress_repository_groups_lem}
use nodelm.Contamination.Ingest.Invariant.{IsIngested}
use nodelm.Contamination.Index.{
  IndexInput, LoopCounts, is_threshold, validate, ingest, link, build_database,
}
use nodelm.Contamination.Index.Ingested.{ingest-IsIngested}
use nodelm.Contamination.Index.Linked.{Links, Fits, link-Fits, link_lem}

IsThreshold-of : (t : Fraction) → not (is_threshold t) ≡ false → IsThreshold t
IsThreshold-of t h = record { positive = ground arith; at_most_one = ground arith }

pub validate-IsThreshold :
    (i : IndexInput) → validate i ≡ ok tt → IsThreshold i.near_duplicate_threshold
unfolding validate
validate-IsThreshold i h =
    let (f, _) =
      passed (not (is_threshold i.near_duplicate_threshold)) threshold_out_of_range _ h in
    IsThreshold-of i.near_duplicate_threshold f

-- Marking leaves the rows of the repositories alone, so the groups are flat still.
IsFlat-after : (t : Fraction) (db : Database) (l : Links t db) → IsFlat l.after.repositories
IsFlat-after t db l =
    subst IsFlat (sym (ap (λ (d : Database). d.repositories) l.marked.rest)) l.linkable.flat

module _ (sha256 : Text → List ℕ) (i : IndexInput) where
  pub record Built (counts : LoopCounts) (db : Database) : Type 0 where
    pub valid : validate i ≡ ok tt
    pub threshold : IsThreshold i.near_duplicate_threshold
    pub full : Database
    pub read : ingest sha256 i ≡ ok full
    pub ingested : IsIngested full
    pub fits : Fits i.near_duplicate_threshold full
    pub links : Links i.near_duplicate_threshold full
    pub compressed : CompressedGroups links.after
    pub assigned :
        db
        ≡ assign_splits sha256 i.seed i.evaluation_fraction
            (record links.after { repositories = compressed.rows })

  -- The building returns.
  abbrev pub Total : Database → Type 0
  Total full = (counts : LoopCounts) × (db : Database) × (build_database sha256 i ≡ ok (counts, db))

  built_of_Fits :
      (full : Database)
      → validate i ≡ ok tt
      → ingest sha256 i ≡ ok full
      → Fits i.near_duplicate_threshold full
      → Total full
  unfolding build_database
  built_of_Fits full v h fits =
      let t = validate-IsThreshold i v in
      let ingested = ingest-IsIngested sha256 i full h in
      let l = link_lem i.near_duplicate_threshold full t fits ingested.linkable in
      let c =
        compress_repository_groups_lem l.after (IsFlat-after i.near_duplicate_threshold full l) in
      (
        l.counts,
        assign_splits sha256 i.seed i.evaluation_fraction
            (record l.after { repositories = c.rows }),
        rw v (rw h (rw (l.result) (rw (c.result)))),
      )

  pub build_database-ok :
      (counts : LoopCounts) (db : Database)
      → build_database sha256 i ≡ ok (counts, db)
      → Built counts db
  unfolding build_database
  build_database-ok counts db h =
      let compressed_of = λ (s : LoopCounts × Database). compress_repository_groups s.1 >>= λ c.
      ok (s.0, assign_splits sha256 i.seed i.evaluation_fraction c) in
      let linked_of = λ (full : Database). link i.near_duplicate_threshold full >>= compressed_of in
      let (u, v, h) = >>=-eq-ok (validate i) (λ _. ingest sha256 i >>= linked_of) h in
      let (full, read, h) = >>=-eq-ok (ingest sha256 i) linked_of h in
      let t = validate-IsThreshold i v in
      let ingested = ingest-IsIngested sha256 i full read in
      let (x, linked, _) = >>=-eq-ok (link i.near_duplicate_threshold full) compressed_of h in
      let fits = link-Fits i.near_duplicate_threshold full x t ingested.linkable linked in
      let l = link_lem i.near_duplicate_threshold full t fits ingested.linkable in
      let c =
        compress_repository_groups_lem l.after (IsFlat-after i.near_duplicate_threshold full l) in
      let end : ok (
        l.counts,
        assign_splits sha256 i.seed i.evaluation_fraction
            (record l.after { repositories = c.rows }),
      )
          ≡ ok (counts, db) =
        rw (c.result) at (rw (l.result) at h) in
      record {
        valid = v;
        threshold = t;
        full = full;
        read = read;
        ingested = ingested;
        fits = fits;
        links = l;
        compressed = c;
        assigned = sym (ap (λ (s : LoopCounts × Database). s.1) (ok-injective end));
      }

  -- Once the arguments are valid and all rows are read, the building returns exactly if the lengths that
  -- bound the candidates of every text fit into an INTEGER of SQLite: no search for a root runs out, and
  -- no comparison raises.
  pub build_database-Total :
      (full : Database)
      → validate i ≡ ok tt
      → ingest sha256 i ≡ ok full
      → Total full ↔ Fits i.near_duplicate_threshold full
  build_database-Total full v h = (
    λ (counts, db, e).
        let b = build_database-ok counts db e in
        subst (Fits i.near_duplicate_threshold) (ok-injective (sym b.read ∙ h)) b.fits,
    built_of_Fits full v h,
  )
