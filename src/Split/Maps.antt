-- ===== src/Split/Maps.antt =====
-- A dictionary as its entries in the order of insertion.
use nodelm.Base.{
  ◌≡◌, sym, ap, ◌∙◌, List, [], ◌∷◌, Text, In, ◌==◌, eq_of_==, Option, none, some, inl, inr, ◌⊎◌,
  Bool-cases, if◌then◌else◌,
}

module _ {A : Type 0} where
  -- `entries.get(key)`
  unfoldable pub get : Text → List (Text × A) → Option A
  unfolding ◌==◌
  get key [] = none
  get key ((k, a) ∷ entries) = let rest = get key entries in if k == key then some a else rest

  -- `entries[key] = value`: a key that is there keeps its place.
  unfoldable pub put : Text → A → List (Text × A) → List (Text × A)
  unfolding ◌==◌
  put key value [] = (key, value) ∷ []
  put key value ((k, a) ∷ entries) =
      let rest = (k, a) ∷ put key value entries in if k == key then (k, value) ∷ entries else rest

  pub In_of_get :
      (key : Text) (value : A) (entries : List (Text × A))
      → get key entries ≡ some value
      → In (key, value) entries
  unfolding get
  In_of_get key value [] h = absurd (none_of h)
    where
      none_of : ◌≡◌ {A = Option A} none (some value) → ⊥
      none_of e = cc
  In_of_get key value ((k, a) ∷ entries) h = elim (Bool-cases (k == key)) [
    | inl t ↦ inl (pair (eq_of_== k key t) (some_injective (rw t at h)))
    | inr f ↦ inr (In_of_get key value entries (rw f at h))
  ]
    where
      some_injective : some a ≡ some value → a ≡ value
      some_injective e = cc

      pair : k ≡ key → a ≡ value → ◌≡◌ {A = Text × A} (key, value) (k, a)
      pair e f i = (sym e i, sym f i)

  -- An entry after an insertion is the new one, or was there before.
  pub In_of_put :
      (key : Text) (value : A) (entries : List (Text × A)) (e : Text × A)
      → In e (put key value entries)
      → (◌≡◌ {A = Text × A} e (key, value)) ⊎ In e entries
  unfolding put
  In_of_put key value [] e (inl same) = inl same
  In_of_put key value [] e (inr b) = absurd b
  In_of_put key value ((k, a) ∷ entries) e i = elim (Bool-cases (k == key)) [
    | inl t ↦ elim (let j : In e ((k, value) ∷ entries) = rw t at i in j) [
      | inl same ↦ inl (same ∙ ap (λ x. (x, value)) (eq_of_== k key t))
      | inr j ↦ inr (inr j)
    ]
    | inr f ↦ elim (let j : In e ((k, a) ∷ put key value entries) = rw f at i in j) [
      | inl same ↦ inr (inl same)
      | inr j ↦ elim (In_of_put key value entries e j) [ inl same ↦ inl same | inr o ↦ inr (inr o) ]
    ]
  ]
