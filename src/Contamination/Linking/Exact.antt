-- ===== src/Contamination/Linking/Exact.antt =====
-- The loop of `_union_exact_groups`.
use nodelm.Base.{
  ℕ, suc, ◌≤◌, ◌≡◌, refl, sym, ap, ◌∙◌, subst, true, false, ◌&&◌, List, [], ◌∷◌, Text, arith, ◌==◌,
  ==-refl, ltb, In, In-map, In-select, length, ok, inl, inr, Bool-cases,
}
use nodelm.Base.Loops.{Step, loop_done}
use nodelm.Contamination.Tables.{ContentKind, same_kind, ValueRepositoryRow, Database}
use nodelm.Contamination.Ordering.{In-distinct}
use nodelm.Contamination.Forest.{parent_of}
use nodelm.Contamination.Forest.Groups.{SameGroup}
use nodelm.Contamination.Linking.{
  rows_of_value, shared_fingerprints, union_exact_value, union_exact_groups,
}
use nodelm.Contamination.Linking.Joins.{
  IsLinkable, Linked, Linked-refl, Linked-trans, Together, Together-Linked, union_value_lem,
  same_kind_refl,
}

-- Two items of a list that passes no more than one are equal.
In_of_single :
    {A : Type 0} (a b : A) (xs : List A) → ltb 1 (length xs) ≡ false → In a xs → In b xs → a ≡ b
In_of_single a b [] h i k = absurd i
In_of_single a b (x ∷ []) h (inl e) (inl f) = e ∙ sym f
In_of_single a b (x ∷ []) h (inl e) (inr k) = absurd k
In_of_single a b (x ∷ []) h (inr i) k = absurd i
In_of_single a b (x ∷ y ∷ xs) h i k =
    absurd (omega (arith, ltb→lt_of_false (suc (suc (length xs))) h))
  where
    ltb→lt_of_false : (n : ℕ) → ltb 1 n ≡ false → n ≤ 1
    ltb→lt_of_false n e = ground arith

module _ (kind : ContentKind) where
  -- All repositories that hold a value of this kind are in one group.
  abbrev pub Exact : Database → Type 0
  Exact db =
      (v w : ValueRepositoryRow)
      → In v db.value_repositories
      → In w db.value_repositories
      → v.kind ≡ kind
      → w.kind ≡ kind
      → v.fingerprint ≡ w.fingerprint
      → SameGroup db.repositories v.repository w.repository

  pub Exact-Linked : (db db' : Database) → Linked db db' → Exact db → Exact db'
  Exact-Linked db db' l h v w i k e f g =
      let same : db'.value_repositories ≡ db.value_repositories =
        ap (λ (d : Database). d.value_repositories) l.rest in
      l.grouped v.repository w.repository (h v w (subst (In v) same i) (subst (In w) same k) e f g)

  union_exact_value_lem :
      (s : ℕ × Database) (f : Text)
      → IsLinkable s.1
      → Step
          (λ t. IsLinkable t.1)
          (λ s t. Linked s.1 t.1)
          (λ t. Together kind (f ∷ []) t.1)
          s
          (union_exact_value kind s f)
  unfolding union_exact_value
  union_exact_value_lem s f h =
      let u = union_value_lem kind (f ∷ []) s.1 h in
      record {
        after = (suc s.0, u.after);
        result = rw u.result;
        keeps = u.linkable;
        related = u.linked;
        done = u.together;
      }

  pub record ExactGroups (db : Database) : Type 0 where
    pub count : ℕ
    pub after : Database
    pub result : union_exact_groups kind db ≡ ok (count, after)
    pub linkable : IsLinkable after
    pub linked : Linked db after
    pub exact : Exact after

  In-shared :
      (rows : List ValueRepositoryRow) (v : ValueRepositoryRow)
      → In v rows
      → v.kind ≡ kind
      → ltb 1 (length (rows_of_value kind v.fingerprint rows)) ≡ true
      → In v.fingerprint (shared_fingerprints kind rows)
  unfolding shared_fingerprints
  In-shared rows v i e many =
      In-select (λ f. ltb 1 (length (rows_of_value kind f rows))) v.fingerprint _
        (In-distinct v.fingerprint _ (
          In-map (λ r. r.fingerprint) v _
            (In-select (λ r. same_kind r.kind kind) v rows i (rw e (same_kind_refl kind)))))
        many

  In-rows_of_value :
      (rows : List ValueRepositoryRow) (v : ValueRepositoryRow)
      → In v rows
      → v.kind ≡ kind
      → In v (rows_of_value kind v.fingerprint rows)
  unfolding rows_of_value
  In-rows_of_value rows v i e =
      In-select (λ r. same_kind r.kind kind && r.fingerprint == v.fingerprint) v rows i
        (rw (e, ==-refl v.fingerprint) (rw (same_kind_refl kind)))

  pub union_exact_groups_lem : (db : Database) → IsLinkable db → ExactGroups db
  unfolding union_exact_groups
  union_exact_groups_lem db h =
      let loop =
        loop_done (union_exact_value kind) (λ t. IsLinkable t.1) (λ s t. Linked s.1 t.1)
          (λ f t. Together kind (f ∷ []) t.1) (λ s. Linked-refl s.1)
          (λ s t u. Linked-trans s.1 t.1 u.1) (λ f s t. Together-Linked kind (f ∷ []) s.1 t.1)
          union_exact_value_lem (shared_fingerprints kind db.value_repositories) (0, db) h in
      let db' = loop.after.1 in
      let same : db'.value_repositories ≡ db.value_repositories =
        ap (λ (d : Database). d.value_repositories) loop.related.rest in
      record {
        count = loop.after.0;
        after = db';
        result = loop.result;
        linkable = loop.keeps;
        linked = loop.related;
        exact = λ v w i k e f g.
            let i' = subst (In v) same i in
            let k' = subst (In w) same k in
            elim (Bool-cases
              (ltb 1 (length (rows_of_value kind v.fingerprint db.value_repositories)))) [
                | inl many ↦
                    loop.done v.fingerprint (In-shared db.value_repositories v i' e many) v w i k e
                      f (inl refl) (inl (sym g))
                | inr single ↦
                    ap (λ (r : ValueRepositoryRow). parent_of r.repository db'.repositories)
                      (In_of_single v w _ single (In-rows_of_value db.value_repositories v i' e) (
                        subst (λ x. In w (rows_of_value kind x db.value_repositories)) (sym g)
                          (In-rows_of_value db.value_repositories w k' f)))
              ];
      }
