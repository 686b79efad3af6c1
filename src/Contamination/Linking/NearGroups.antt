-- ===== src/Contamination/Linking/NearGroups.antt =====
-- The outer loop of `_union_near_groups`.
use nodelm.Base.{
  ℕ, ◌≡◌, ◌≢◌, refl, ap, ◌∙◌, subst, true, [], ◌∷◌, Text, ltb_text_total, In, ok, inl, inr, Bool,
  not, false, arith, >>=-eq-ok, passed,
}
use nodelm.Base.Loops.{loop_done_in, for_each-returns}
use nodelm.Base.Fractions.{Fraction}
use nodelm.Fingerprint.Near.{is_near_duplicate}
use nodelm.Fingerprint.Near.Symmetry.{is_near_duplicate_comm}
use nodelm.Contamination.Tables.{ContentKind, ContentRow, Database, integer_overflow}
use nodelm.Contamination.Linking.{
  candidate_length_bounds, fits_integer, bind_bounds, NearState, contents_of, union_near_row,
  union_near_groups,
}
use nodelm.Contamination.Linking.Bounds.{IsThreshold}
use nodelm.Contamination.Linking.Joins.{
  IsLinkable, Linked, Linked-refl, Linked-trans, Together, Together-Linked, In-contents_of,
}
use nodelm.Contamination.Linking.Near.{
  IsStored, Running, union_near_row_lem, RowDone, RowDone-Linked,
}

module _ (kind : ContentKind) where
  -- The order of two fingerprints does not matter.
  Together-swap :
      (f g : Text) (db : Database) → Together kind (f ∷ g ∷ []) db → Together kind (g ∷ f ∷ []) db
  Together-swap f g db h v w i k e e' a b =
      h v w i k e e' (flip v.fingerprint a) (flip w.fingerprint b)
    where
      flip : (x : Text) → In x (g ∷ f ∷ []) → In x (f ∷ g ∷ [])
      flip x (inl e) = inr (inl e)
      flip x (inr (inl e)) = inl e
      flip x (inr (inr b)) = absurd b

  -- The repositories of two different contents that are near duplicates are in one group.
  abbrev pub Near : Fraction → Database → Type 0
  Near t db =
      (a b : ContentRow)
      → In a db.content_values
      → In b db.content_values
      → a.kind ≡ kind
      → b.kind ≡ kind
      → IsStored a
      → IsStored b
      → a.fingerprint ≢ b.fingerprint
      → is_near_duplicate a.text b.text t ≡ ok true
      → Together kind (a.fingerprint ∷ b.fingerprint ∷ []) db

  pub Near-Linked : (t : Fraction) (db db' : Database) → Linked db db' → Near t db → Near t db'
  Near-Linked t db db' l n a b i k e f sa sb ne near =
      let same : db'.content_values ≡ db.content_values =
        ap (λ (d : Database). d.content_values) l.rest in
      Together-Linked kind (a.fingerprint ∷ b.fingerprint ∷ []) db db' l
        (n a b (subst (In a) same i) (subst (In b) same k) e f sa sb ne near)

  -- The bounds of every text of the kind fit into an INTEGER.
  abbrev pub KindFits : Fraction → Database → Type 0
  KindFits t db =
      (c : ContentRow)
      → In c (contents_of kind db.content_values)
      → fits_integer (candidate_length_bounds c.length t) ≡ true

  union_near_row-fits :
      (t : Fraction) (c : ContentRow) (s u : NearState)
      → union_near_row kind t s c ≡ ok u
      → fits_integer (candidate_length_bounds c.length t) ≡ true
  unfolding union_near_row bind_bounds
  union_near_row-fits t c s u h =
      let (_, bound, _) = >>=-eq-ok (bind_bounds (candidate_length_bounds c.length t)) _ h in
      let (f, _) =
        passed (not (fits_integer (candidate_length_bounds c.length t))) integer_overflow _ bound in
      true_of_not (fits_integer (candidate_length_bounds c.length t)) f
    where
      true_of_not : (b : Bool) → not b ≡ false → b ≡ true
      true_of_not b e = ground arith

  pub union_near_groups-KindFits :
      (t : Fraction) (db : Database) (s : NearState)
      → union_near_groups kind t db ≡ ok s
      → KindFits t db
  unfolding union_near_groups
  union_near_groups-KindFits t db s h c i =
      let (u, v, e) =
        for_each-returns (union_near_row kind t) (contents_of kind db.content_values) c (0, 0, db) s
          h i in
      union_near_row-fits t c u v e

  pub record NearGroups (t : Fraction) (db : Database) : Type 0 where
    pub comparisons : ℕ
    pub matches : ℕ
    pub after : Database
    pub result : union_near_groups kind t db ≡ ok (comparisons, matches, after)
    pub linkable : IsLinkable after
    pub linked : Linked db after
    pub near : Near t after

  pub union_near_groups_lem :
      (t : Fraction) (db : Database)
      → IsThreshold t
      → KindFits t db
      → IsLinkable db
      → NearGroups t db
  unfolding union_near_groups
  union_near_groups_lem t db h fits l =
      let contents = db.content_values in
      let loop =
        loop_done_in (union_near_row kind t) (Running kind t h contents) (λ s u. Linked s.2 u.2)
          (RowDone kind t h contents) (λ s. Linked-refl s.2) (λ s u v. Linked-trans s.2 u.2 v.2)
          (RowDone-Linked kind t h contents) (contents_of kind contents)
          (λ s c i r. union_near_row_lem kind t h contents s c (fits c i) r) (0, 0, db)
          (record { linkable = l; same = refl }) in
      let db' = loop.after.2 in
      let same : db'.content_values ≡ contents = loop.keeps.same in
      record {
        comparisons = loop.after.0;
        matches = loop.after.1;
        after = db';
        result = loop.result;
        linkable = loop.keeps.linkable;
        linked = loop.related;
        near = λ a b i k e f sa sb ne near.
            let i' = subst (In a) same i in
            let k' = subst (In b) same k in
            elim (ltb_text_total a.fingerprint b.fingerprint) [
              | inl lt ↦ loop.done a (In-contents_of kind contents a i' e) b k' f lt sa sb near
              | inr (inl eq) ↦ absurd (ne eq)
              | inr (inr gt) ↦ Together-swap b.fingerprint a.fingerprint db' (
                  loop.done b (In-contents_of kind contents b k' f) a i' e gt sb sa
                    (is_near_duplicate_comm b.text a.text t ∙ near))
            ];
      }
