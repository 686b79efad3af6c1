-- ===== src/Split/Evidence/Disjoint.antt =====
-- The lists of a manifest that `read_repository_split_evidence` reads.
use nodelm.Base.{
  ◌≡◌, refl, sym, ap, ◌∙◌, subst, true, false, not, ◌||◌, List, [], ◌∷◌, Text, arith, In, Result,
  ok, err, ◌>>=◌, ◌>>◌, >>=-eq-ok, raise_if, passed, ok-injective, inl, inr,
}
use nodelm.Fingerprint.Repository.{canonical_repository}
use nodelm.Fingerprint.Repository.Shape.{IsIdentity, canonical_repository-IsIdentity}
use nodelm.Contamination.Ordering.{distinct, In_of_distinct}
use nodelm.Contamination.Forest.Sets.{contains_of_In}
use nodelm.Split.Errors.{unsupported_schema, lists_overlap, invalid_identity}
use nodelm.Split.Aliases.{canonical}
use nodelm.Split.Events.{Event, RepositoryLists}
use nodelm.Split.Evidence.{
  RepositorySplitEvidence, is_supported, required_lists, canonical_items, canonical_set, intersects,
  evidence_of, read_document, read_repository_split_evidence,
}

canonical-IsIdentity : (value r : Text) → canonical value ≡ ok r → IsIdentity r
unfolding canonical
canonical-IsIdentity value r h = go (canonical_repository value) refl (h)
  where
    go :
        (m : Result _ Text)
        → canonical_repository value ≡ m
        → (elim m [ err e ↦ err (invalid_identity value) | ok repository ↦ ok repository ]) ≡ ok r
        → IsIdentity r
    go (ok q) e k = canonical_repository-IsIdentity value r (e ∙ ap ok (ok-injective k))
    go (err x) e k = cc

canonical_items-IsIdentity :
    (items all : List Text) (r : Text) → canonical_items items ≡ ok all → In r all → IsIdentity r
unfolding canonical_items
canonical_items-IsIdentity [] all r h i = absurd (subst (In r) (sym (ok-injective h)) i)
canonical_items-IsIdentity (item ∷ items) all r h i =
    let finish = λ (q : Text). canonical_items items >>= λ rest. ok (q ∷ rest) in
    let (q, named, h) = >>=-eq-ok (canonical item) finish h in
    let (rest, read, h) = >>=-eq-ok (canonical_items items) (λ rest. ok (q ∷ rest)) h in
    elim (let j : In r (q ∷ rest) = subst (In r) (sym (ok-injective h)) i in j) [
      | inl same ↦ subst IsIdentity (sym same) (canonical-IsIdentity item q named)
      | inr j ↦ canonical_items-IsIdentity items rest r read j
    ]

canonical_set-IsIdentity :
    (items all : List Text) (r : Text) → canonical_set items ≡ ok all → In r all → IsIdentity r
unfolding canonical_set
canonical_set-IsIdentity items all r h i =
    let (found, read, h) = >>=-eq-ok (canonical_items items) (λ all. ok (distinct all)) h in
    canonical_items-IsIdentity items found r read
      (In_of_distinct r found (subst (In r) (sym (ok-injective h)) i))

intersects_of_In : (r : Text) (a b : List Text) → In r a → In r b → intersects a b ≡ true
unfolding intersects
intersects_of_In r [] b i k = absurd i
intersects_of_In r (x ∷ a) b (inl e) k = rw (contains_of_In x b (subst (λ y. In y b) e k)) refl
intersects_of_In r (x ∷ a) b (inr i) k = ground (arith, intersects_of_In r a b i k)

-- The lists of a manifest have no repository in common, and each of their repositories is an identity.
pub record IsPartition (e : RepositorySplitEvidence) : Type 0 where
  pub train_evaluation : (r : Text) → In r e.train_repositories → In r e.evaluation_repositories → ⊥
  pub train_excluded : (r : Text) → In r e.train_repositories → In r e.excluded_repositories → ⊥
  pub evaluation_excluded :
      (r : Text) → In r e.evaluation_repositories → In r e.excluded_repositories → ⊥
  pub train_identity : (r : Text) → In r e.train_repositories → IsIdentity r
  pub evaluation_identity : (r : Text) → In r e.evaluation_repositories → IsIdentity r
  pub excluded_identity : (r : Text) → In r e.excluded_repositories → IsIdentity r

apart : (a b : List Text) → intersects a b ≡ false → (r : Text) → In r a → In r b → ⊥
apart a b f r i k = clash (intersects_of_In r a b i k)
  where
    clash : intersects a b ≡ true → ⊥
    clash t = cc

-- A manifest that is read has pairwise disjoint lists of repositories, each of which is a host, an owner and
-- a name, or more parts, joined by slashes: the parts are not empty and have no capital letter of ASCII.
pub read_repository_split_evidence-IsPartition :
    (events : List Event) (e : RepositorySplitEvidence)
    → read_repository_split_evidence events ≡ ok e
    → IsPartition e
unfolding read_repository_split_evidence evidence_of
read_repository_split_evidence-IsPartition events e h =
    let (fields, _, h) = >>=-eq-ok (read_document events) evidence_of h in
    let made = λ (a b c : List Text).
      let e : RepositorySplitEvidence = record {
        train_repositories = a;
        evaluation_repositories = b;
        excluded_repositories = c;
        input_sha256 = fields.input_sha256;
        input_bytes = fields.input_bytes;
        sample_count = fields.sample_count;
      } in
      e in
    let overlap = λ (a b c : List Text). intersects a b || intersects a c || intersects b c in
    let tested = λ (a b c : List Text). raise_if (overlap a b c) lists_overlap >> ok (made a b c) in
    let third = λ (lists : RepositoryLists) (a b : List Text).
      canonical_set lists.excluded_items >>= tested a b in
    let second = λ (lists : RepositoryLists) (a : List Text).
      canonical_set lists.evaluation_items >>= third lists a in
    let first = λ (lists : RepositoryLists). canonical_set lists.train_items >>= second lists in
    let (_, h) =
      passed (not (is_supported fields.schema_version)) unsupported_schema
        (required_lists fields.repositories >>= first) h in
    let (lists, _, h) = >>=-eq-ok (required_lists fields.repositories) first h in
    let (a, at_a, h) = >>=-eq-ok (canonical_set lists.train_items) (second lists) h in
    let (b, at_b, h) = >>=-eq-ok (canonical_set lists.evaluation_items) (third lists a) h in
    let (c, at_c, h) = >>=-eq-ok (canonical_set lists.excluded_items) (tested a b) h in
    let (clear, h) = passed (overlap a b c) lists_overlap (ok (made a b c)) h in
    subst IsPartition (ok-injective h) (record {
      train_evaluation = apart a b (ground arith);
      train_excluded = apart a c (ground arith);
      evaluation_excluded = apart b c (ground arith);
      train_identity = λ r i. canonical_set-IsIdentity lists.train_items a r at_a i;
      evaluation_identity = λ r i. canonical_set-IsIdentity lists.evaluation_items b r at_b i;
      excluded_identity = λ r i. canonical_set-IsIdentity lists.excluded_items c r at_c i;
    })
