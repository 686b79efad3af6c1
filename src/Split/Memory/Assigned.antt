-- ===== src/Split/Memory/Assigned.antt =====
-- The assignments and lists of `build_repository_split`.
use nodelm.Base.{
  ℕ, ◌≡◌, ◌≢◌, refl, sym, ap, ◌∙◌, subst, Bool, true, false, not, List, [], ◌∷◌, map, Text, leb, In,
  In-map, In_of_map, In-select, In_of_select, select, for_each, Result, ok, err, ◌>>=◌, >>=-eq-ok,
  passed, ok-injective, Option, none, some, inl, inr, Option-cases, if◌then◌else◌,
}
use nodelm.Base.Fractions.{Fraction, ltb_fraction}
use nodelm.Contamination.Ordering.{order_by, distinct, In-order_by, In_of_order_by}
use nodelm.Contamination.Tables.{SplitName, train, evaluation, excluded}
use nodelm.Contamination.Splits.{repository_bucket, bucket_split}
use nodelm.Contamination.Index.{is_proper, same_split}
use nodelm.Split.Errors.{
  SplitError, fraction_out_of_range, max_samples_not_positive, missing_repository,
}
use nodelm.Split.Maps.{get, In_of_get}
use nodelm.Split.Aliases.{Entries, resolved_aliases}
use nodelm.Split.Memory.{
  SplitAssignment, RepositorySplitManifest, read_sample, assign_all, repositories_in,
  repository_splits, build_repository_split,
}

none_of : {A : Type 0} {a : A} → ◌≡◌ {A = Option A} none (some a) → ⊥
none_of e = cc

-- Each assignment has the split that its repository is listed with.
In_of_assign_all :
    (splits : List (Text × SplitName)) (samples : List (Text × Text)) (all : List SplitAssignment)
    (x : SplitAssignment)
    → assign_all splits samples ≡ ok all
    → In x all
    → In (x.repository, x.split) splits
unfolding assign_all
In_of_assign_all splits [] all x h i = absurd (subst (In x) (sym (ok-injective h)) i)
In_of_assign_all splits ((id, r) ∷ samples) all x h i = elim (Option-cases (get r splits)) [
  | inl e ↦ absurd (ok_of_err (rw (e, assign_all) at h))
  | inr (split, e) ↦
      let row : SplitAssignment = record { sample_id = id; repository = r; split = split } in
      let h' : (assign_all splits samples >>= λ rest. ok (row ∷ rest)) ≡ ok all =
        rw (e, assign_all) at h in
      let (rest, assigned, end) =
        >>=-eq-ok (assign_all splits samples) (λ rest. ok (row ∷ rest)) h' in
      elim (let j : In x (row ∷ rest) = subst (In x) (sym (ok-injective end)) i in j) [
        | inl same ↦
            subst (λ (y : SplitAssignment). In (y.repository, y.split) splits) (sym same)
              (In_of_get r split splits e)
        | inr j ↦ In_of_assign_all splits samples rest x assigned j
      ]
]
  where
    ok_of_err :
        ◌≡◌ {A = Result SplitError (List SplitAssignment)} (err missing_repository) (ok all) → ⊥
    ok_of_err e = cc

same_split_refl : (split : SplitName) → same_split split (some split) ≡ true
same_split_refl train = refl
same_split_refl evaluation = refl
same_split_refl excluded = refl

module _ (sha256 : Text → List ℕ) (seed : ℕ) (fraction : Fraction) where
  In_of_repository_splits :
      (samples : List (Text × Text)) (r : Text) (split : SplitName)
      → In (r, split) (repository_splits sha256 seed fraction samples)
      → split ≡ bucket_split sha256 seed fraction r
  unfolding repository_splits
  In_of_repository_splits samples r split i =
      let f : Text → Text × SplitName = λ r. (r, bucket_split sha256 seed fraction r) in
      let (q, _, e) = In_of_map f (r, split) (distinct (map (λ s. s.1) samples)) i in
      ap (λ (x : Text × SplitName). x.1) e
      ∙ ap (bucket_split sha256 seed fraction) (sym (ap (λ (x : Text × SplitName). x.0) e))

  In-repositories_in :
      (splits : List (Text × SplitName)) (r : Text) (split : SplitName)
      → In (r, split) splits
      → In r (repositories_in split splits)
  unfolding repositories_in
  In-repositories_in splits r split i =
      In-map (λ (e : Text × SplitName). e.0) (r, split) _
        (In-select (λ e. same_split split (some e.1)) (r, split) _
          (In-order_by (λ (e : Text × SplitName). e.0) (r, split) splits i) (same_split_refl split))

  In_of_repositories_in :
      (samples : List (Text × Text)) (r : Text) (split : SplitName)
      → In r (repositories_in split (repository_splits sha256 seed fraction samples))
      → same_split split (some (bucket_split sha256 seed fraction r)) ≡ true
  unfolding repositories_in
  In_of_repositories_in samples r split i =
      let splits = repository_splits sha256 seed fraction samples in
      let ((q, s), j, e) =
        In_of_map (λ (x : Text × SplitName). x.0) r
          (select (λ x. same_split split (some x.1)) (order_by (λ x. x.0) splits)) i in
      let (k, t) =
        In_of_select (λ x. same_split split (some x.1)) (q, s) (order_by (λ x. x.0) splits) j in
      let found =
        In_of_repository_splits samples q s
          (In_of_order_by (λ (x : Text × SplitName). x.0) (q, s) splits k) in
      ap (λ x. same_split split (some (bucket_split sha256 seed fraction x))) e
      ∙ ap (λ x. same_split split (some x)) (sym found)
      ∙ t

  -- The samples that a manifest was built from.
  record Built (m : RepositorySplitManifest) : Type 0 where
    samples : List (Text × Text)
    all : List SplitAssignment
    assigned : assign_all (repository_splits sha256 seed fraction samples) samples ≡ ok all
    assignments : m.assignments ≡ order_by (λ a. a.sample_id) all
    train_list :
        m.train_repositories
        ≡ repositories_in train (repository_splits sha256 seed fraction samples)
    evaluation_list :
        m.evaluation_repositories
        ≡ repositories_in evaluation (repository_splits sha256 seed fraction samples)

  build_repository_split-ok :
      (aliases : Entries) (max_samples : ℕ) (raw : List (Text × Text)) (m : RepositorySplitManifest)
      → build_repository_split sha256 seed fraction aliases max_samples raw ≡ ok m
      → Built m
  unfolding build_repository_split
  build_repository_split-ok aliases max_samples raw m h =
      let made = λ (samples : List (Text × Text)) (all : List SplitAssignment).
        let m : RepositorySplitManifest = record {
          seed = seed;
          evaluation_fraction = fraction;
          assignments = order_by (λ a. a.sample_id) all;
          train_repositories =
              repositories_in train (repository_splits sha256 seed fraction samples);
          evaluation_repositories =
              repositories_in evaluation (repository_splits sha256 seed fraction samples);
        } in
        m in
      let finish = λ (samples : List (Text × Text)).
        assign_all (repository_splits sha256 seed fraction samples) samples >>= λ all.
        ok (made samples all) in
      let rest =
        λ (resolved : Entries). for_each (read_sample resolved max_samples) [] raw >>= finish in
      let (_, h) = passed (not (is_proper fraction)) fraction_out_of_range _ h in
      let (_, h) =
        passed (leb max_samples 0) max_samples_not_positive (resolved_aliases aliases >>= rest) h in
      let (resolved, _, h) = >>=-eq-ok (resolved_aliases aliases) rest h in
      let (samples, _, h) =
        >>=-eq-ok (for_each (read_sample resolved max_samples) [] raw) finish h in
      let (all, assigned, h) =
        >>=-eq-ok (assign_all (repository_splits sha256 seed fraction samples) samples)
          (λ all. ok (made samples all)) h in
      let same = sym (ok-injective h) in
      record {
        samples = samples;
        all = all;
        assigned = assigned;
        assignments = ap (λ (x : RepositorySplitManifest). x.assignments) same;
        train_list = ap (λ (x : RepositorySplitManifest). x.train_repositories) same;
        evaluation_list = ap (λ (x : RepositorySplitManifest). x.evaluation_repositories) same;
      }

-- The list of a manifest for a split.
abbrev pub listed_in : SplitName → RepositorySplitManifest → List Text
listed_in train m = m.train_repositories
listed_in evaluation m = m.evaluation_repositories
listed_in excluded m = []

no_excluded :
    (sha256 : Text → List ℕ) (seed : ℕ) (fraction : Fraction) (r : Text)
    → excluded ≢ bucket_split sha256 seed fraction r
unfolding bucket_split
no_excluded sha256 seed fraction r e =
    kept (ltb_fraction (repository_bucket sha256 r seed) fraction) e
  where
    kept : (c : Bool) → excluded ≡ (if c then evaluation else train) → ⊥
    kept true e = cc
    kept false e = cc

-- In a split that is built in memory each assignment has the split of its repository's bucket, so that
-- two samples of one repository are in one split, and its repository is listed for that split.
pub build_repository_split-bucket :
    (sha256 : Text → List ℕ) (seed : ℕ) (fraction : Fraction) (aliases : Entries) (max_samples : ℕ)
    (raw : List (Text × Text)) (m : RepositorySplitManifest) (x : SplitAssignment)
    → build_repository_split sha256 seed fraction aliases max_samples raw ≡ ok m
    → In x m.assignments
    → (x.split ≡ bucket_split sha256 seed fraction x.repository)
      × In x.repository (listed_in x.split m)
build_repository_split-bucket sha256 seed fraction aliases max_samples raw m x h i =
    let b = build_repository_split-ok sha256 seed fraction aliases max_samples raw m h in
    let entry =
      In_of_assign_all _ b.samples b.all x b.assigned
        (In_of_order_by (λ a. a.sample_id) x b.all (subst (In x) b.assignments i)) in
    let bucket =
      In_of_repository_splits sha256 seed fraction b.samples x.repository x.split entry in
    (
      bucket,
      listed b x.split bucket
          (In-repositories_in sha256 seed fraction _ x.repository x.split entry),
    )
  where
    listed :
        (b : Built sha256 seed fraction m) (split : SplitName)
        → split ≡ bucket_split sha256 seed fraction x.repository
        → In x.repository (repositories_in split (repository_splits sha256 seed fraction b.samples))
        → In x.repository (listed_in split m)
    listed b train e j = subst (In x.repository) (sym b.train_list) j
    listed b evaluation e j = subst (In x.repository) (sym b.evaluation_list) j
    listed b excluded e j = absurd (no_excluded sha256 seed fraction x.repository e)

-- In a split that is built in memory no repository that is listed for training is listed for evaluation.
pub build_repository_split-disjoint :
    (sha256 : Text → List ℕ) (seed : ℕ) (fraction : Fraction) (aliases : Entries) (max_samples : ℕ)
    (raw : List (Text × Text)) (m : RepositorySplitManifest) (r : Text)
    → build_repository_split sha256 seed fraction aliases max_samples raw ≡ ok m
    → In r m.train_repositories
    → ¬ In r m.evaluation_repositories
build_repository_split-disjoint sha256 seed fraction aliases max_samples raw m r h i k =
    let b = build_repository_split-ok sha256 seed fraction aliases max_samples raw m h in
    differ (bucket_split sha256 seed fraction r)
      (In_of_repositories_in sha256 seed fraction b.samples r train (subst (In r) b.train_list i))
      (In_of_repositories_in sha256 seed fraction b.samples r evaluation
        (subst (In r) b.evaluation_list k))
  where
    differ :
        (s : SplitName)
        → same_split train (some s) ≡ true
        → same_split evaluation (some s) ≡ true
        → ⊥
    differ train e f = cc
    differ evaluation e f = cc
    differ excluded e f = cc
