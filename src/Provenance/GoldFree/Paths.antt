-- ===== src/Provenance/GoldFree/Paths.antt =====
-- The policy on gold fields in terms of the paths of keys in a value.
use nodelm.Base.{
  ◌≡◌, ◌↔◌, refl, sym, ◌∙◌, subst, ◌⊎◌, inl, inr, Bool, false, ◌&&◌, ◌||◌, List, [], ◌∷◌, Text,
  arith, ok, ◌>>◌, passed, >>=-eq-ok, Result,
}
use nodelm.Gates.Status.{any}
use nodelm.Provenance.Values.{
  Value, Items, Fields, null, floating, boolean, integer, negative, string, array, object, nil,
  cons, end, field,
}
use nodelm.Provenance.GoldFree.{
  field_references_gold, field_contains_patch, forbidden_patch, validate_gold_free, validate_items,
  validate_fields, validate_gold_free_trajectory,
}

-- The keys lead from a value to a field in it, through lists where there are any.
unfoldable mutual
  pub LeadsFrom : Value → List Text → Type 0
  LeadsFrom null path = ⊥
  LeadsFrom (floating t) path = ⊥
  LeadsFrom (boolean b) path = ⊥
  LeadsFrom (integer n) path = ⊥
  LeadsFrom (negative n) path = ⊥
  LeadsFrom (string s) path = ⊥
  LeadsFrom (array items) path = LeadsInto items path
  LeadsFrom (object fields) path = LeadsAmong fields path

  pub LeadsInto : Items → List Text → Type 0
  LeadsInto nil path = ⊥
  LeadsInto (cons value items) path = LeadsFrom value path ⊎ LeadsInto items path

  pub LeadsAmong : Fields → List Text → Type 0
  LeadsAmong end path = ⊥
  LeadsAmong (field key value fields) [] = ⊥
  LeadsAmong (field key value fields) (k ∷ path) =
      ((k ≡ key) × ((path ≡ []) ⊎ LeadsFrom value path)) ⊎ LeadsAmong fields (k ∷ path)

unfoldable pub last_contains_patch : List Text → Bool
last_contains_patch [] = false
last_contains_patch (k ∷ []) = field_contains_patch k
last_contains_patch (k ∷ l ∷ path) = last_contains_patch (l ∷ path)

-- The last key is that of a patch, and it or a key before it references gold.
abbrev pub is_gold_patch : List Text → Bool
is_gold_patch path = last_contains_patch path && any field_references_gold path

-- The same below a scope.
abbrev exposes : Bool → List Text → Bool
exposes scope path = last_contains_patch path && (scope || any field_references_gold path)

exposes-cons :
    (scope : Bool) (k l : Text) (path : List Text)
    → exposes scope (k ∷ l ∷ path) ≡ exposes (scope || field_references_gold k) (l ∷ path)
unfolding last_contains_patch any
exposes-cons scope k l path = ground arith

exposes_one :
    (scope : Bool) (k : Text)
    → exposes scope (k ∷ []) ≡ (field_contains_patch k && (scope || field_references_gold k))
unfolding last_contains_patch any
exposes_one scope k = ground arith

pair_ok : {E : Type 0} (a b : Result E (Unit {0})) → (a >> b) ≡ ok tt → (a ≡ ok tt) × (b ≡ ok tt)
pair_ok a b h = let (u, e, f) = >>=-eq-ok a (λ _. b) h in (e, f)

cons_nil : {m : Text} {path : List Text} → ◌≡◌ {A = List Text} (m ∷ path) [] → ⊥
cons_nil h = cc

mutual
  unfolding validate_gold_free LeadsFrom

  accepted :
      (scope : Bool) (v : Value)
      → validate_gold_free scope v ≡ ok tt
      → (path : List Text) → LeadsFrom v path
      → exposes scope path ≡ false
  accepted scope null h path l = absurd l
  accepted scope (floating t) h path l = absurd l
  accepted scope (boolean b) h path l = absurd l
  accepted scope (integer n) h path l = absurd l
  accepted scope (negative n) h path l = absurd l
  accepted scope (string s) h path l = absurd l
  accepted scope (array items) h path l = accepted_items scope items h path l
  accepted scope (object fields) h path l = accepted_fields scope fields h path l

  accepted_items :
      (scope : Bool) (items : Items)
      → validate_items scope items ≡ ok tt
      → (path : List Text) → LeadsInto items path
      → exposes scope path ≡ false
  accepted_items scope nil h path l = absurd l
  accepted_items scope (cons v items) h path (inl l) =
      accepted scope v (pair_ok (validate_gold_free scope v) (validate_items scope items) h).0 path
        l
  accepted_items scope (cons v items) h path (inr l) =
      accepted_items scope items
        (pair_ok (validate_gold_free scope v) (validate_items scope items) h).1 path l

  accepted_fields :
      (scope : Bool) (fields : Fields)
      → validate_fields scope fields ≡ ok tt
      → (path : List Text) → LeadsAmong fields path
      → exposes scope path ≡ false
  accepted_fields scope end h path l = absurd l
  accepted_fields scope (field key v fields) h [] l = absurd l
  accepted_fields scope (field key v fields) h (k ∷ []) (inl (e, l)) =
      let (t, _) =
        passed (field_contains_patch key && (scope || field_references_gold key)) forbidden_patch _
          h in
      exposes_one scope k
      ∙ subst (λ x. (field_contains_patch x && (scope || field_references_gold x)) ≡ false) (sym e)
          t
  accepted_fields scope (field key v fields) h (k ∷ m ∷ path) (inl (e, inl n)) = absurd (cons_nil n)
  accepted_fields scope (field key v fields) h (k ∷ m ∷ path) (inl (e, inr l)) =
      let (_, t) =
        passed (field_contains_patch key && (scope || field_references_gold key)) forbidden_patch _
          h in
      let (inner, _) =
        pair_ok (validate_gold_free (scope || field_references_gold key) v)
          (validate_fields scope fields) t in
      exposes-cons scope k m path
      ∙ subst (λ x. exposes (scope || field_references_gold x) (m ∷ path) ≡ false) (sym e)
          (accepted (scope || field_references_gold key) v inner (m ∷ path) l)
  accepted_fields scope (field key v fields) h (k ∷ path) (inr l) =
      let (_, t) =
        passed (field_contains_patch key && (scope || field_references_gold key)) forbidden_patch _
          h in
      let (_, rest) =
        pair_ok (validate_gold_free (scope || field_references_gold key) v)
          (validate_fields scope fields) t in
      accepted_fields scope fields rest (k ∷ path) l

exposes_nil : (scope : Bool) → exposes scope [] ≡ false
unfolding last_contains_patch
exposes_nil scope = refl

below :
    (scope : Bool) (key : Text) (P : List Text → Type 0)
    → ((m : Text) (path : List Text) → P (m ∷ path) → exposes scope (key ∷ m ∷ path) ≡ false)
    → (path : List Text) → P path
    → exposes (scope || field_references_gold key) path ≡ false
below scope key P h [] l = exposes_nil (scope || field_references_gold key)
below scope key P h (m ∷ path) l = sym (exposes-cons scope key m path) ∙ h m path l

others :
    (scope : Bool) (key : Text) (v : Value) (fields : Fields)
    → ((path : List Text) → LeadsAmong (field key v fields) path → exposes scope path ≡ false)
    → (path : List Text) → LeadsAmong fields path
    → exposes scope path ≡ false
unfolding LeadsAmong
others scope key v fields h [] l = exposes_nil scope
others scope key v fields h (k ∷ path) l = h (k ∷ path) (inr l)

mutual
  unfolding validate_gold_free LeadsFrom

  complete :
      (scope : Bool) (v : Value)
      → ((path : List Text) → LeadsFrom v path → exposes scope path ≡ false)
      → validate_gold_free scope v ≡ ok tt
  complete scope null h = refl
  complete scope (floating t) h = refl
  complete scope (boolean b) h = refl
  complete scope (integer n) h = refl
  complete scope (negative n) h = refl
  complete scope (string s) h = refl
  complete scope (array items) h = complete_items scope items h
  complete scope (object fields) h = complete_fields scope fields h

  complete_items :
      (scope : Bool) (items : Items)
      → ((path : List Text) → LeadsInto items path → exposes scope path ≡ false)
      → validate_items scope items ≡ ok tt
  complete_items scope nil h = refl
  complete_items scope (cons v items) h =
      rw (complete scope v (λ path l. h path (inl l)))
        (complete_items scope items (λ path l. h path (inr l)))

  complete_fields :
      (scope : Bool) (fields : Fields)
      → ((path : List Text) → LeadsAmong fields path → exposes scope path ≡ false)
      → validate_fields scope fields ≡ ok tt
  complete_fields scope end h = refl
  complete_fields scope (field key v fields) h =
      let guarded = sym (exposes_one scope key) ∙ h (key ∷ []) (inl (refl, inl refl)) in
      let inner =
        complete (scope || field_references_gold key) v
          (below scope key (LeadsFrom v) (λ m path l. h (key ∷ m ∷ path) (inl (refl, inr l)))) in
      rw guarded (rw inner (complete_fields scope fields (others scope key v fields h)))

-- A trajectory passes exactly if no path of keys in it leads to a patch field that references gold, or
-- that stands below a field which does.
pub validate_gold_free_trajectory_iff :
    (v : Value)
    → (validate_gold_free_trajectory v ≡ ok tt)
      ↔ ((path : List Text) → LeadsFrom v path → is_gold_patch path ≡ false)
validate_gold_free_trajectory_iff v = (accepted false v, complete false v)
