-- ===== src/Contamination/Linking/Joins.antt =====
-- `_union_value_repositories` on linkable tables.
use nodelm.Base.{
  ◌≡◌, refl, ap, subst, ◌∙◌, Bool, true, ◌&&◌, List, [], ◌∷◌, Text, In, In-map, In_of_map,
  In-select, In_of_select, select, ok, some, inl, inr,
}
use nodelm.Contamination.Tables.{
  ContentKind, task, patch, same_kind, ContentRow, RepositoryRow, ValueRepositoryRow, Database,
}
use nodelm.Contamination.Ordering.{In-distinct, In_of_distinct, In-order_by}
use nodelm.Contamination.Forest.{parent_of, contains}
use nodelm.Contamination.Forest.Flat.{IsFlat}
use nodelm.Contamination.Forest.Sets.{contains_of_In}
use nodelm.Contamination.Forest.Union.{Known, union_joins}
use nodelm.Contamination.Forest.Groups.{
  IsLeast, SameGroup, Joined-IsFlat, Joined-IsLeast, Joined-coarser, Joined-together, Joined-known,
}
use nodelm.Contamination.Linking.{contents_of, value_repositories_of, union_value_repositories}

-- The repositories form flat groups under their least members, and every repository of a value
-- has a row.
pub record IsLinkable (db : Database) : Type 0 where
  pub flat : IsFlat db.repositories
  pub least : IsLeast db.repositories
  pub values_known :
      (v : ValueRepositoryRow)
      → In v db.value_repositories
      → (p : Text) × (parent_of v.repository db.repositories ≡ some p)

-- Only parents changed, no row went, and no group was parted.
pub record Linked (db db' : Database) : Type 0 where
  pub rest : db' ≡ record db { repositories = db'.repositories }
  pub grouped : (a b : Text) → SameGroup db.repositories a b → SameGroup db'.repositories a b
  pub known :
      (k p : Text)
      → parent_of k db.repositories ≡ some p
      → (q : Text) × (parent_of k db'.repositories ≡ some q)

pub Linked-refl : (db : Database) → Linked db db
Linked-refl db = record { rest = refl; grouped = λ a b h. h; known = λ k p e. (p, e) }

pub Linked-trans : (a b c : Database) → Linked a b → Linked b c → Linked a c
Linked-trans a b c h k = record {
  rest = k.rest ∙ ap (λ (d : Database). record d { repositories = c.repositories }) h.rest;
  grouped = λ x y e. k.grouped x y (h.grouped x y e);
  known = λ x p e. let (q, e') = h.known x p e in k.known x q e';
}

pub Known-of_In :
    (rows : List RepositoryRow) (xs : List Text)
    → ((k : Text) → In k xs → (p : Text) × (parent_of k rows ≡ some p))
    → Known rows xs
Known-of_In rows [] h = tt
Known-of_In rows (k ∷ xs) h = (h k (inl refl), Known-of_In rows xs (λ j i. h j (inr i)))

pub same_kind_refl : (kind : ContentKind) → same_kind kind kind ≡ true
unfolding same_kind
same_kind_refl task = refl
same_kind_refl patch = refl

pub In-contents_of :
    (kind : ContentKind) (contents : List ContentRow) (c : ContentRow)
    → In c contents
    → c.kind ≡ kind
    → In c (contents_of kind contents)
unfolding contents_of
In-contents_of kind contents c i e =
    In-order_by (λ r. r.fingerprint) c _
      (In-select (λ r. same_kind r.kind kind) c contents i (rw e (same_kind_refl kind)))

In-value_repositories_of :
    (kind : ContentKind) (fingerprints : List Text) (rows : List ValueRepositoryRow)
    (v : ValueRepositoryRow)
    → In v rows
    → v.kind ≡ kind
    → In v.fingerprint fingerprints
    → In v.repository (value_repositories_of kind fingerprints rows)
unfolding value_repositories_of
In-value_repositories_of kind fingerprints rows v i e f = In-distinct v.repository _ (
    In-map (λ r. r.repository) v _
      (In-select (λ r. same_kind r.kind kind && contains r.fingerprint fingerprints) v rows i
        (rw (e, contains_of_In v.fingerprint fingerprints f) (rw (same_kind_refl kind)))))

In_of_value_repositories_of :
    (kind : ContentKind) (fingerprints : List Text) (rows : List ValueRepositoryRow) (k : Text)
    → In k (value_repositories_of kind fingerprints rows)
    → (v : ValueRepositoryRow) × In v rows × (k ≡ v.repository)
unfolding value_repositories_of
In_of_value_repositories_of kind fingerprints rows k i =
    let test : ValueRepositoryRow → Bool =
      λ r. same_kind r.kind kind && contains r.fingerprint fingerprints in
    let (v, i', e) =
      In_of_map (λ (r : ValueRepositoryRow). r.repository) k (select test rows)
        (In_of_distinct k _ i) in
    (v, (In_of_select test v rows i').0, e)

-- The repositories of the values `fingerprints` are in one group.
abbrev pub Together : ContentKind → List Text → Database → Type 0
Together kind fingerprints db =
    (v w : ValueRepositoryRow)
    → In v db.value_repositories
    → In w db.value_repositories
    → v.kind ≡ kind
    → w.kind ≡ kind
    → In v.fingerprint fingerprints
    → In w.fingerprint fingerprints
    → SameGroup db.repositories v.repository w.repository

pub Together-Linked :
    (kind : ContentKind) (fingerprints : List Text) (db db' : Database)
    → Linked db db'
    → Together kind fingerprints db
    → Together kind fingerprints db'
Together-Linked kind fingerprints db db' l h v w i k e f a b =
    let same : db'.value_repositories ≡ db.value_repositories =
      ap (λ (d : Database). d.value_repositories) l.rest in
    l.grouped v.repository w.repository (h v w (subst (In v) same i) (subst (In w) same k) e f a b)

pub record Union (kind : ContentKind) (fingerprints : List Text) (db : Database) : Type 0 where
  pub after : Database
  pub result : union_value_repositories kind fingerprints db ≡ ok after
  pub linkable : IsLinkable after
  pub linked : Linked db after
  pub together : Together kind fingerprints after

pub union_value_lem :
    (kind : ContentKind) (fingerprints : List Text) (db : Database)
    → IsLinkable db
    → Union kind fingerprints db
unfolding union_value_repositories
union_value_lem kind fingerprints db h =
    let ks = value_repositories_of kind fingerprints db.value_repositories in
    let known = λ (k : Text) (i : In k ks).
      let (v, i', e) = In_of_value_repositories_of kind fingerprints db.value_repositories k i in
      let (p, e') = h.values_known v i' in
      let at : (p : Text) × (parent_of k db.repositories ≡ some p) =
        (p, ap (λ s. parent_of s db.repositories) e ∙ e') in
      at in
    let j = union_joins db.repositories ks h.flat (Known-of_In db.repositories ks known) in
    record {
      after = record db { repositories = j.after };
      result = rw j.result;
      linkable = record {
        flat = Joined-IsFlat j h.flat;
        least = Joined-IsLeast j h.least;
        values_known = λ v i. let (p, e) = h.values_known v i in Joined-known j v.repository p e;
      };
      linked = record { rest = refl; grouped = Joined-coarser j; known = Joined-known j };
      together = λ v w i k e f a b.
          let (p, at_v) = h.values_known v i in
          let (q, at_w) = h.values_known w k in
          Joined-together j v.repository w.repository p q
            (In-value_repositories_of kind fingerprints db.value_repositories v i e a)
            (In-value_repositories_of kind fingerprints db.value_repositories w k f b) at_v at_w;
    }
