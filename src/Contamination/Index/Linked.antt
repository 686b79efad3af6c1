-- ===== src/Contamination/Index/Linked.antt =====
-- The linking stage of `build_contamination_index`.
use nodelm.Base.{◌≡◌, ◌≢◌, refl, sym, ap, ◌∙◌, subst, true, Text, In, ok, some, >>=-eq-ok}
use nodelm.Base.Fractions.{Fraction}
use nodelm.Fingerprint.Near.{is_near_duplicate}
use nodelm.Contamination.Tables.{ContentKind, task, patch, ContentRow, Database}
use nodelm.Contamination.Content.{text_of}
use nodelm.Contamination.Linking.{contents_of, union_near_groups}
use nodelm.Contamination.Linking.Joins.{IsLinkable, Linked, Linked-trans}
use nodelm.Contamination.Linking.Exact.{Exact, Exact-Linked, union_exact_groups_lem}
use nodelm.Contamination.Linking.Bounds.{IsThreshold}
use nodelm.Contamination.Linking.Near.{IsStored}
use nodelm.Contamination.Linking.NearGroups.{
  Near, Near-Linked, KindFits, union_near_groups-KindFits, union_near_groups_lem,
}
use nodelm.Contamination.Benchmarks.{mark_exact_benchmark_overlap}
use nodelm.Contamination.Benchmarks.Marked.{
  Marked, Marked-trans, Flagged, Flagged-Marked, mark_exact-Marked, mark_exact-Flagged,
}
use nodelm.Contamination.Benchmarks.Near.{mark_near_lem}
use nodelm.Contamination.Index.{LoopCounts, link}

-- A content is a near duplicate of a benchmark text under another fingerprint.
pub record NearBenchmark (t : Fraction) (db : Database) (c : ContentRow) : Type 0 where
  pub benchmark : ContentRow
  pub listed : In benchmark db.benchmark_values
  pub same_kind : benchmark.kind ≡ c.kind
  pub other : benchmark.fingerprint ≢ c.fingerprint
  pub near : is_near_duplicate c.text benchmark.text t ≡ ok true

pub record Links (t : Fraction) (db : Database) : Type 0 where
  pub counts : LoopCounts
  pub grouped : Database
  pub after : Database
  pub result : link t db ≡ ok (counts, after)
  -- The groups are joined first, and then the samples are marked.
  pub linked : Linked db grouped
  pub marked : Marked grouped after
  pub linkable : IsLinkable grouped
  pub exact : (kind : ContentKind) → Exact kind grouped
  pub near : (kind : ContentKind) → Near kind t grouped
  pub exact_flagged :
      (c : ContentRow) (b : Text)
      → In c db.content_values
      → text_of c.kind c.fingerprint db.benchmark_values ≡ some b
      → Flagged c.kind c.fingerprint after
  pub near_flagged :
      (c : ContentRow)
      → In c db.content_values
      → ((b : ContentRow) → In b db.benchmark_values → IsStored b)
      → IsStored c
      → NearBenchmark t db c
      → Flagged c.kind c.fingerprint after

-- The tables that linking and marking leave alone.
record SameTexts (db db' : Database) : Type 0 where
  contents : db'.content_values ≡ db.content_values
  benchmarks : db'.benchmark_values ≡ db.benchmark_values

same_of_Linked : (db db' : Database) → Linked db db' → SameTexts db db'
same_of_Linked db db' l = record {
  contents = ap (λ (d : Database). d.content_values) l.rest;
  benchmarks = ap (λ (d : Database). d.benchmark_values) l.rest;
}

same_of_Marked : (db db' : Database) → Marked db db' → SameTexts db db'
same_of_Marked db db' l = record {
  contents = ap (λ (d : Database). d.content_values) l.rest;
  benchmarks = ap (λ (d : Database). d.benchmark_values) l.rest;
}

SameTexts-trans : (a b c : Database) → SameTexts a b → SameTexts b c → SameTexts a c
SameTexts-trans a b c h k = record {
  contents = k.contents ∙ h.contents;
  benchmarks = k.benchmarks ∙ h.benchmarks;
}

by_kind : (P : ContentKind → Type 0) → P task → P patch → (kind : ContentKind) → P kind
by_kind P at_task at_patch task = at_task
by_kind P at_task at_patch patch = at_patch

-- A near match with a benchmark, for a kind.
near_marks :
    (kind : ContentKind) (t : Fraction) (h : IsThreshold t) (db m : Database)
    (fits : KindFits kind t m) (c : ContentRow)
    → SameTexts db m
    → In c db.content_values
    → c.kind ≡ kind
    → ((b : ContentRow) → In b db.benchmark_values → IsStored b)
    → IsStored c
    → NearBenchmark t db c
    → Flagged kind c.fingerprint (mark_near_lem kind t h m fits).after
near_marks kind t h db m fits c same i e stored sc nb =
    (mark_near_lem kind t h m fits).flagged c nb.benchmark (subst (In c) (sym same.contents) i)
      (subst (In nb.benchmark) (sym same.benchmarks) nb.listed) e (nb.same_kind ∙ e) nb.other sc
      (stored nb.benchmark nb.listed) nb.near

-- An exact match with a benchmark, for a kind.
exact_marks :
    (kind : ContentKind) (db m : Database) (c : ContentRow) (b : Text)
    → SameTexts db m
    → In c db.content_values
    → c.kind ≡ kind
    → text_of c.kind c.fingerprint db.benchmark_values ≡ some b
    → Flagged kind c.fingerprint (mark_exact_benchmark_overlap kind m).1
exact_marks kind db m c b same i e found =
    mark_exact-Flagged kind m c b (subst (In c) (sym same.contents) i) e (
      ap (λ k. text_of k c.fingerprint m.benchmark_values) (sym e)
      ∙ ap (λ rows. text_of c.kind c.fingerprint rows) same.benchmarks
      ∙ found)

-- The bounds of every text that is there fit into an INTEGER.
abbrev pub Fits : Fraction → Database → Type 0
Fits t db = (kind : ContentKind) → KindFits kind t db

Fits-same :
    (t : Fraction) (db m : Database) → m.content_values ≡ db.content_values → Fits t db → Fits t m
Fits-same t db m e fits kind c i = fits kind c (subst (λ rows. In c (contents_of kind rows)) e i)

contents-Linked : (db m : Database) → Linked db m → m.content_values ≡ db.content_values
contents-Linked db m l = ap (λ (d : Database). d.content_values) l.rest

pub link_lem :
    (t : Fraction) (db : Database) → IsThreshold t → Fits t db → IsLinkable db → Links t db
unfolding link
link_lem t db h fits l =
    let a = union_exact_groups_lem task db l in
    let b = union_exact_groups_lem patch a.after a.linkable in
    let ab = Linked-trans db a.after b.after a.linked b.linked in
    let fits_b = Fits-same t db b.after (contents-Linked db b.after ab) fits in
    let c = union_near_groups_lem task t b.after h (fits_b task) b.linkable in
    let fits_c = Fits-same t b.after c.after (contents-Linked b.after c.after c.linked) fits_b in
    let d = union_near_groups_lem patch t c.after h (fits_c patch) c.linkable in
    let (n, e) = mark_exact_benchmark_overlap task d.after in
    let (m, f) = mark_exact_benchmark_overlap patch e in
    let e_marked : Marked d.after e = mark_exact-Marked task d.after in
    let f_marked : Marked e f = mark_exact-Marked patch e in
    let cd = Linked-trans b.after c.after d.after c.linked d.linked in
    let linked = Linked-trans db b.after d.after ab cd in
    let same_d = same_of_Linked db d.after linked in
    let same_e = SameTexts-trans db d.after e same_d (same_of_Marked d.after e e_marked) in
    let same_f = SameTexts-trans db e f same_e (same_of_Marked e f f_marked) in
    let fits_f = Fits-same t db f same_f.contents fits in
    let g = mark_near_lem task t h f (fits_f task) in
    let fits_g = Fits-same t f g.after (same_of_Marked f g.after g.marked).contents fits_f in
    let j = mark_near_lem patch t h g.after (fits_g patch) in
    let f_after = Marked-trans f g.after j.after g.marked j.marked in
    let e_after = Marked-trans e f j.after f_marked f_after in
    let same_g = SameTexts-trans db f g.after same_f (same_of_Marked f g.after g.marked) in
    record {
      counts = record {
        exact_task_groups = a.count;
        exact_patch_groups = b.count;
        task_comparisons = c.comparisons;
        near_task_pairs = c.matches;
        patch_comparisons = d.comparisons;
        near_patch_pairs = d.matches;
        benchmark_exact_tasks = n;
        benchmark_exact_patches = m;
        benchmark_task_comparisons = g.comparisons;
        benchmark_near_tasks = g.matches;
        benchmark_patch_comparisons = j.comparisons;
        benchmark_near_patches = j.matches;
      };
      grouped = d.after;
      after = j.after;
      result =
          rw (a.result)
            (rw (b.result) (rw (c.result) (rw (d.result) (rw (g.result) (rw (j.result))))));
      linked = linked;
      marked = Marked-trans d.after e j.after e_marked e_after;
      linkable = d.linkable;
      exact =
          by_kind (λ k. Exact k d.after)
            (Exact-Linked task b.after d.after cd
              (Exact-Linked task a.after b.after b.linked a.exact))
            (Exact-Linked patch b.after d.after cd b.exact);
      near =
          by_kind (λ k. Near k t d.after) (Near-Linked task t c.after d.after d.linked c.near)
            d.near;
      exact_flagged = λ x text i found.
          by_kind (λ k. x.kind ≡ k → Flagged k x.fingerprint j.after)
            (λ k.
              Flagged-Marked task x.fingerprint e j.after e_after
                (exact_marks task db d.after x text same_d i k found))
            (λ k.
              Flagged-Marked patch x.fingerprint f j.after f_after
                (exact_marks patch db e x text same_e i k found))
            x.kind refl;
      near_flagged = λ x i stored sx nb.
          by_kind (λ k. x.kind ≡ k → Flagged k x.fingerprint j.after)
            (λ k.
              Flagged-Marked task x.fingerprint g.after j.after j.marked
                (near_marks task t h db f (fits_f task) x same_f i k stored sx nb))
            (λ k. near_marks patch t h db g.after (fits_g patch) x same_g i k stored sx nb) x.kind
            refl;
    }

-- The stage returns only where the bounds fit: each of its queries is made with them.
pub link-Fits :
    (t : Fraction) (db : Database) (r : LoopCounts × Database)
    → IsThreshold t
    → IsLinkable db
    → link t db ≡ ok r
    → Fits t db
unfolding link
link-Fits t db r h l e =
    let a = union_exact_groups_lem task db l in
    let b = union_exact_groups_lem patch a.after a.linkable in
    let ab = contents-Linked db b.after (Linked-trans db a.after b.after a.linked b.linked) in
    let (s, near_task, _) =
      >>=-eq-ok (union_near_groups task t b.after) _ (rw (b.result) at (rw (a.result) at e)) in
    let fits_task = union_near_groups-KindFits task t b.after s near_task in
    let c = union_near_groups_lem task t b.after h fits_task b.linkable in
    let ac = contents-Linked b.after c.after c.linked ∙ ab in
    let (u, near_patch, _) =
      >>=-eq-ok (union_near_groups patch t c.after) _
        (rw (c.result) at (rw (b.result) at (rw (a.result) at e))) in
    let fits_patch = union_near_groups-KindFits patch t c.after u near_patch in
    by_kind (λ k. KindFits k t db)
      (λ x i. fits_task x (subst (λ rows. In x (contents_of task rows)) (sym ab) i))
      (λ x i. fits_patch x (subst (λ rows. In x (contents_of patch rows)) (sym ac) i))
