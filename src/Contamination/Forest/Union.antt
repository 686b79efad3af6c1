-- ===== src/Contamination/Forest/Union.antt =====
-- `_union_repositories` in a flat table.
use nodelm.Base.{
  ◌≡◌, refl, sym, ap, ◌∙◌, ◌⊎◌, inl, inr, not, Option, none, some, List, [], ◌∷◌, Text, arith, ◌==◌,
  ==_iff, if◌then◌else◌, In, select, ok,
}
use nodelm.Contamination.Tables.{RepositoryRow}
use nodelm.Contamination.Forest.{
  map_option, parent_of, reparent, contains, add_text, find_roots, min_text, reparent_all,
  join_roots, union_repositories,
}
use nodelm.Contamination.Forest.Lookup.{parent_of-reparent}
use nodelm.Contamination.Forest.Flat.{IsFlat, SameParents, IsFlat-SameParents, find_root_flat}
use nodelm.Contamination.Forest.Sets.{target, In-add_text_self, In-add_text, In_of_add_text}

-- Every repository of the list has a row.
abbrev pub Known : List RepositoryRow → List Text → Type 0
Known rows [] = Unit
Known rows (k ∷ repositories) = ((p : Text) × (parent_of k rows ≡ some p)) × Known rows repositories

pub Known-SameParents :
    (rows rows' : List RepositoryRow) (repositories : List Text)
    → SameParents rows rows'
    → Known rows repositories
    → Known rows' repositories
Known-SameParents rows rows' [] same h = tt
Known-SameParents rows rows' (k ∷ repositories) same ((p, e), h) =
    ((p, same k ∙ e), Known-SameParents rows rows' repositories same h)

record RootsSearch (rows : List RepositoryRow) (before repositories : List Text) : Type 0 where
  roots : List Text
  after : List RepositoryRow
  result : find_roots before rows repositories ≡ ok (roots, after)
  same : SameParents rows after
  kept : (x : Text) → In x before → In x roots
  found : (k p : Text) → In k repositories → parent_of k rows ≡ some p → In p roots
  only :
      (x : Text)
      → In x roots
      → In x before ⊎ ((k : Text) × In k repositories × (parent_of k rows ≡ some x))

find_roots_flat :
    (repositories before : List Text) (rows : List RepositoryRow)
    → IsFlat rows
    → Known rows repositories
    → RootsSearch rows before repositories
unfolding find_roots
find_roots_flat [] before rows flat h = record {
  roots = before;
  after = rows;
  result = refl;
  same = λ k. refl;
  kept = λ x i. i;
  found = λ k p i e. absurd i;
  only = λ x i. inl i;
}
find_roots_flat (k ∷ repositories) before rows flat ((p, e), h) =
    let r = find_root_flat rows k p flat e in
    let rest =
      find_roots_flat repositories (add_text p before) r.after (IsFlat-SameParents r.same flat)
        (Known-SameParents rows r.after repositories r.same h) in
    record {
      roots = rest.roots;
      after = rest.after;
      result = rw r.result rest.result;
      same = λ j. rest.same j ∙ r.same j;
      kept = λ x i. rest.kept x (In-add_text p x before i);
      found = λ j q i e'. elim i [
        | inl same_key ↦
            let eq : some q ≡ some p = sym e' ∙ ap (λ s. parent_of s rows) same_key ∙ e in
            rest.kept q (ground (arith, In-add_text_self p before))
        | inr i' ↦ rest.found j q i' (r.same j ∙ e')
      ];
      only = λ x i. elim (rest.only x i) [
        | inl i' ↦ elim (In_of_add_text p x before i') [
          | inl b ↦ inl b
          | inr same_root ↦ inr (k, inl refl, rw same_root e)
        ]
        | inr (j, i', e') ↦ inr (j, inr i', sym (r.same j) ∙ e')
      ];
    }

map_option-map_option :
    {A B C : Type 0} (f : A → B) (g : B → C) (h : A → C) (o : Option A)
    → ((a : A) → g (f a) ≡ h a)
    → map_option g (map_option f o) ≡ map_option h o
map_option-map_option f g h none e = refl
map_option-map_option f g h (some a) e = ap some (e a)

moved : Text → List Text → Text → Text
moved root children p = if contains p children then root else p

moved-cons :
    (root c : Text) (children : List Text) (p : Text)
    → moved root children (if p == c then root else p) ≡ moved root (c ∷ children) p
unfolding moved contains
moved-cons root c children p = ground (arith, ==_iff p c, ==_iff c p)

parent_of-reparent_all :
    (root : Text) (children : List Text) (rows : List RepositoryRow) (k : Text)
    → parent_of k (reparent_all root children rows)
      ≡ map_option (moved root children) (parent_of k rows)
unfolding reparent_all
parent_of-reparent_all root [] rows k = at_option (parent_of k rows)
  where
    at_option : (o : Option Text) → o ≡ map_option (moved root []) o
    at_option none = refl
    at_option (some p) = unfold moved contains in refl
parent_of-reparent_all root (c ∷ children) rows k =
    parent_of-reparent_all root children (reparent c root rows) k
    ∙ ap (map_option (moved root children)) (parent_of-reparent c root k rows)
    ∙ map_option-map_option (λ p. if p == c then root else p) (moved root children)
        (moved root (c ∷ children)) (parent_of k rows) (moved-cons root c children)

contains-select :
    (root p : Text) (roots : List Text)
    → (if contains p (select (λ child. not (child == root)) roots) then root else p)
      ≡ (if contains p roots then root else p)
unfolding contains
contains-select root p [] = refl
contains-select root p (a ∷ roots) =
    ground (arith, ==_iff a root, ==_iff a p, contains-select root p roots)

-- The roots are joined at their least.
parent_of-join_roots :
    (roots : List Text) (rows : List RepositoryRow) (k : Text)
    → parent_of k (join_roots roots rows) ≡ map_option (target roots) (parent_of k rows)
unfolding join_roots
parent_of-join_roots [] rows k = at_option (parent_of k rows)
  where
    at_option : (o : Option Text) → o ≡ map_option (target []) o
    at_option none = refl
    at_option (some p) = unfold target in refl
parent_of-join_roots (a ∷ []) rows k = at_option (parent_of k rows)
  where
    at_option : (o : Option Text) → o ≡ map_option (target (a ∷ [])) o
    at_option none = refl
    at_option (some p) = unfold target contains min_text in ground (arith, ==_iff a p)
parent_of-join_roots (a ∷ b ∷ roots) rows k =
    let root = min_text a (b ∷ roots) in
    let children = select (λ child. not (child == root)) (a ∷ b ∷ roots) in
    parent_of-reparent_all root children rows k ∙ at_option (parent_of k rows)
  where
    at_option :
        (o : Option Text)
        → map_option
            (moved
              (min_text a (b ∷ roots))
              (select (λ child. not (child == min_text a (b ∷ roots))) (a ∷ b ∷ roots)))
            o
          ≡ map_option (target (a ∷ b ∷ roots)) o
    at_option none = refl
    at_option (some p) =
        ap some (unfold moved target in contains-select (min_text a (b ∷ roots)) p (a ∷ b ∷ roots))

pub record Joined (rows : List RepositoryRow) (repositories : List Text) : Type 0 where
  pub after : List RepositoryRow
  pub result : union_repositories rows repositories ≡ ok after
  -- The parents of the given repositories.
  pub roots : List Text
  pub found : (k p : Text) → In k repositories → parent_of k rows ≡ some p → In p roots
  pub only : (x : Text) → In x roots → (k : Text) × In k repositories × (parent_of k rows ≡ some x)
  pub parents : (k : Text) → parent_of k after ≡ map_option (target roots) (parent_of k rows)

-- In a flat table with a row for each given repository the union returns, and every parent among the parents
-- of the given repositories becomes the least of them, while other parents stay.
pub union_joins :
    (rows : List RepositoryRow) (repositories : List Text)
    → IsFlat rows
    → Known rows repositories
    → Joined rows repositories
unfolding union_repositories
union_joins rows repositories flat known =
    let r = find_roots_flat repositories [] rows flat known in
    record {
      after = join_roots r.roots r.after;
      result = rw r.result;
      roots = r.roots;
      found = r.found;
      only = λ x i. elim (r.only x i) [ inl b ↦ absurd b | inr k ↦ k ];
      parents =
          λ k. parent_of-join_roots r.roots r.after k ∙ ap (map_option (target r.roots)) (r.same k);
    }
