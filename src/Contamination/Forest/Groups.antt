-- ===== src/Contamination/Forest/Groups.antt =====
-- The groups of a flat table under `_union_repositories`: repositories with one parent are one group.
use nodelm.Base.{
  ◌≡◌, refl, sym, ap, ◌∙◌, subst, ◌⊎◌, inl, inr, true, false, Option, none, some, List, [], ◌∷◌,
  Text, arith, ltb_text, ltb_text_total, ltb_text_trans, ltb_text_irrefl, ltb_text_asymm,
  if◌then◌else◌, Bool-cases, In,
}
use nodelm.Contamination.Tables.{RepositoryRow}
use nodelm.Contamination.Forest.{map_option, parent_of, contains, min_text}
use nodelm.Contamination.Forest.Flat.{IsFlat}
use nodelm.Contamination.Forest.Sets.{
  target, target_agree, target_cases, target-target, contains_of_In, In_of_contains,
}
use nodelm.Contamination.Forest.Union.{Joined}

-- Every parent is at most the repositories that have it.
pub record IsLeast (rows : List RepositoryRow) : Type 0 where
  pub at_parent : (k p : Text) → parent_of k rows ≡ some p → ltb_text k p ≡ false

pub not_lt_trans :
    (a b c : Text) → ltb_text a b ≡ false → ltb_text b c ≡ false → ltb_text a c ≡ false
not_lt_trans a b c h k = ground (
  arith,
  ltb_text_total a c,
  ltb_text_total a b,
  ltb_text_total b c,
  ltb_text_trans b a c,
  ltb_text_asymm a c,
)

-- No root is less than the least of the roots.
pub min_text-least :
    (x : Text) (xs : List Text) (y : Text) → In y (x ∷ xs) → ltb_text y (min_text x xs) ≡ false
unfolding min_text
min_text-least x [] y (inl e) = rw e (ltb_text_irrefl x)
min_text-least x [] y (inr b) = absurd b
min_text-least x (z ∷ xs) y h = elim h [
  | inl e ↦ not_lt_trans y m (min_text m xs) (rw e left) (min_text-least m xs m (inl refl))
  | inr (inl e) ↦ not_lt_trans y m (min_text m xs) (rw e right) (min_text-least m xs m (inl refl))
  | inr (inr i) ↦ min_text-least m xs y (inr i)
]
  where
    m : Text
    m = if ltb_text z x then z else x

    left : ltb_text x m ≡ false
    left = ground (arith, ltb_text_asymm z x, ltb_text_irrefl x)

    right : ltb_text z m ≡ false
    right = ground (arith, ltb_text_irrefl z)

target-least : (roots : List Text) (p : Text) → ltb_text p (target roots p) ≡ false
unfolding target
target-least [] p = ltb_text_irrefl p
target-least (a ∷ roots) p = elim (Bool-cases (contains p (a ∷ roots))) [
  | inl t ↦ rw t (min_text-least a roots p (In_of_contains p (a ∷ roots) t))
  | inr f ↦ rw f (ltb_text_irrefl p)
]

some_of_map :
    {A B : Type 0} (f : A → B) (o : Option A) (b : B)
    → map_option f o ≡ some b
    → (a : A) × (o ≡ some a) × (b ≡ f a)
some_of_map f none b h = cc
some_of_map f (some a) b h = (a, refl, cc)

-- Repositories of one group.
abbrev pub SameGroup : List RepositoryRow → Text → Text → Type 0
SameGroup rows a b = parent_of a rows ≡ parent_of b rows

module _ {rows : List RepositoryRow} {repositories : List Text} (j : Joined rows repositories) where
  open j use {after, roots, found, only, parents}

  pub Joined-IsFlat : IsFlat rows → IsFlat after
  Joined-IsFlat flat = record {
    at_parent = λ k q e.
        let (p, at_k, q_target) =
          some_of_map (target roots) (parent_of k rows) q (sym (parents k) ∙ e) in
        parents q ∙ root_stays p q q_target (flat.at_parent k p at_k) (target_cases roots p);
  }
    where
      root_stays :
          (p q : Text)
          → q ≡ target roots p
          → parent_of p rows ≡ some p
          → (In p roots × In (target roots p) roots)
            ⊎ ((contains p roots ≡ false) × (target roots p ≡ p))
          → map_option (target roots) (parent_of q rows) ≡ some q
      root_stays p q e at_p (inr (absent, same)) =
          let q_is : q ≡ p = e ∙ same in rw (q_is, at_p, same)
      root_stays p q e at_p (inl (i, i')) =
          let (k, _, at_k) = only (target roots p) i' in
          let at_q : parent_of q rows ≡ some q = rw e (flat.at_parent k (target roots p) at_k) in
          rw at_q (ap some (rw e (target-target roots p)))

  pub Joined-IsLeast : IsLeast rows → IsLeast after
  Joined-IsLeast least = record {
    at_parent = λ k q e.
        let (p, at_k, q_target) =
          some_of_map (target roots) (parent_of k rows) q (sym (parents k) ∙ e) in
        rw q_target
          (not_lt_trans k p (target roots p) (least.at_parent k p at_k) (target-least roots p));
  }

  -- Repositories of one group stay in one group.
  pub Joined-coarser : (a b : Text) → SameGroup rows a b → SameGroup after a b
  Joined-coarser a b h = parents a ∙ ap (map_option (target roots)) h ∙ sym (parents b)

  -- The repositories that are joined are in one group.
  pub Joined-together :
      (a b p q : Text)
      → In a repositories
      → In b repositories
      → parent_of a rows ≡ some p
      → parent_of b rows ≡ some q
      → SameGroup after a b
  Joined-together a b p q i k e f =
      parents a
      ∙ rw (e, f) (ap some (target_agree roots p q (found a p i e) (found b q k f)))
      ∙ sym (parents b)

  -- A row stays a row.
  pub Joined-known :
      (k p : Text) → parent_of k rows ≡ some p → (q : Text) × (parent_of k after ≡ some q)
  Joined-known k p e = (target roots p, parents k ∙ rw e)

  -- Two repositories are in one group afterwards only if they were before, or both were joined.
  pub Joined-only :
      (a b p q : Text)
      → parent_of a rows ≡ some p
      → parent_of b rows ≡ some q
      → SameGroup after a b
      → (p ≡ q) ⊎ (In p roots × In q roots)
  Joined-only a b p q e f h =
      let same : target roots p ≡ target roots q = some_injective (
        ap (map_option (target roots)) (sym e)
        ∙ sym (parents a)
        ∙ h
        ∙ parents b
        ∙ ap (map_option (target roots)) f) in
      go (target_cases roots p) (target_cases roots q) same
    where
      some_injective : {x y : Text} → some x ≡ some y → x ≡ y
      some_injective e = cc

      go :
          (In p roots × In (target roots p) roots)
            ⊎ ((contains p roots ≡ false) × (target roots p ≡ p))
          → (In q roots × In (target roots q) roots)
            ⊎ ((contains q roots ≡ false) × (target roots q ≡ q))
          → target roots p ≡ target roots q
          → (p ≡ q) ⊎ (In p roots × In q roots)
      go (inl (i, i')) (inl (k, k')) same = inr (i, k)
      go (inl (i, i')) (inr (absent, stays)) same =
          let is_root : In q roots = subst (λ x. In x roots) (same ∙ stays) i' in
          absurd_of (contains_of_In q roots is_root) absent
        where
          absurd_of :
              contains q roots ≡ true
              → contains q roots ≡ false
              → (p ≡ q) ⊎ (In p roots × In q roots)
          absurd_of u v = cc
      go (inr (absent, stays)) (inl (k, k')) same =
          let is_root : In p roots = subst (λ x. In x roots) (sym same ∙ stays) k' in
          absurd_of (contains_of_In p roots is_root) absent
        where
          absurd_of :
              contains p roots ≡ true
              → contains p roots ≡ false
              → (p ≡ q) ⊎ (In p roots × In q roots)
          absurd_of u v = cc
      go (inr (_, stays)) (inr (_, stays')) same = inl (sym stays ∙ same ∙ stays')
