-- ===== src/Contamination/Ordering.antt =====
-- ORDER BY on a text column, and DISTINCT or a sorted set of texts.
use nodelm.Base.{
  ◌≡◌, refl, sym, subst, ◌⊎◌, inl, inr, List, [], ◌∷◌, Text, arith, ltb_text, ◌==◌, ==_iff,
  if◌then◌else◌, In, Bool-cases,
}

module _ {A : Type 0} (key : A → Text) where
  -- Before the first row whose key is larger.
  place : A → List A → List A
  place x [] = x ∷ []
  place x (y ∷ ys) =
      let later = y ∷ place x ys in if ltb_text (key x) (key y) then x ∷ y ∷ ys else later

  unfoldable pub order_by : List A → List A
  unfolding place ltb_text
  order_by [] = []
  order_by (x ∷ xs) = place x (order_by xs)

  In-place_self : (x : A) (xs : List A) → In x (place x xs)
  unfolding place
  In-place_self x [] = inl refl
  In-place_self x (y ∷ ys) = ground (arith, In-place_self x ys)

  In-place : (x z : A) (xs : List A) → In z xs → In z (place x xs)
  unfolding place
  In-place x z [] h = absurd h
  In-place x z (y ∷ ys) (inl e) = ground arith
  In-place x z (y ∷ ys) (inr h) = ground (arith, In-place x z ys h)

  pub In-order_by : (x : A) (xs : List A) → In x xs → In x (order_by xs)
  unfolding order_by
  In-order_by x [] h = absurd h
  In-order_by x (y ∷ ys) (inl e) =
      subst (λ z. In z (place y (order_by ys))) (sym e) (In-place_self y (order_by ys))
  In-order_by x (y ∷ ys) (inr h) = In-place y x (order_by ys) (In-order_by x ys h)

  In_of_place : (x z : A) (xs : List A) → In z (place x xs) → (z ≡ x) ⊎ In z xs
  unfolding place
  In_of_place x z [] (inl e) = inl e
  In_of_place x z [] (inr h) = absurd h
  In_of_place x z (y ∷ ys) h = elim (Bool-cases (ltb_text (key x) (key y))) [
    | inl t ↦ rw t at h
    | inr f ↦ elim (let k : In z (y ∷ place x ys) = rw f at h in k) [
      | inl e ↦ inr (inl e)
      | inr k ↦ elim (In_of_place x z ys k) [ inl e ↦ inl e | inr i ↦ inr (inr i) ]
    ]
  ]

  pub In_of_order_by : (x : A) (xs : List A) → In x (order_by xs) → In x xs
  unfolding order_by
  In_of_order_by x [] h = absurd h
  In_of_order_by x (y ∷ ys) h = elim (In_of_place y x (order_by ys) h) [
    | inl e ↦ inl e
    | inr k ↦ inr (In_of_order_by x ys k)
  ]

-- A text is put in its place unless it is there.
insert_text : Text → List Text → List Text
insert_text x [] = x ∷ []
insert_text x (y ∷ ys) =
    let later = y ∷ insert_text x ys in
    if x == y then y ∷ ys else if ltb_text x y then x ∷ y ∷ ys else later

unfoldable pub distinct : List Text → List Text
unfolding insert_text ltb_text ◌==◌
distinct [] = []
distinct (x ∷ xs) = insert_text x (distinct xs)

In-insert_text_self : (x : Text) (xs : List Text) → In x (insert_text x xs)
unfolding insert_text
In-insert_text_self x [] = inl refl
In-insert_text_self x (y ∷ ys) = ground (arith, ==_iff x y, In-insert_text_self x ys)

In-insert_text : (x z : Text) (xs : List Text) → In z xs → In z (insert_text x xs)
unfolding insert_text
In-insert_text x z [] h = absurd h
In-insert_text x z (y ∷ ys) (inl e) = ground arith
In-insert_text x z (y ∷ ys) (inr h) = ground (arith, In-insert_text x z ys h)

pub In-distinct : (x : Text) (xs : List Text) → In x xs → In x (distinct xs)
unfolding distinct
In-distinct x [] h = absurd h
In-distinct x (y ∷ ys) (inl e) =
    subst (λ z. In z (insert_text y (distinct ys))) (sym e) (In-insert_text_self y (distinct ys))
In-distinct x (y ∷ ys) (inr h) = In-insert_text y x (distinct ys) (In-distinct x ys h)

In_of_insert_text : (x z : Text) (xs : List Text) → In z (insert_text x xs) → (z ≡ x) ⊎ In z xs
unfolding insert_text
In_of_insert_text x z [] (inl e) = inl e
In_of_insert_text x z [] (inr h) = absurd h
In_of_insert_text x z (y ∷ ys) h = elim (Bool-cases (x == y)) [
  | inl t ↦ inr (rw t at h)
  | inr f ↦ elim (Bool-cases (ltb_text x y)) [
    | inl t ↦ let k : In z (x ∷ y ∷ ys) = rw (f, t) at h in k
    | inr g ↦ elim (let k : In z (y ∷ insert_text x ys) = rw (f, g) at h in k) [
      | inl e ↦ inr (inl e)
      | inr k ↦ elim (In_of_insert_text x z ys k) [ inl e ↦ inl e | inr i ↦ inr (inr i) ]
    ]
  ]
]

pub In_of_distinct : (x : Text) (xs : List Text) → In x (distinct xs) → In x xs
unfolding distinct
In_of_distinct x [] h = absurd h
In_of_distinct x (y ∷ ys) h = elim (In_of_insert_text y x (distinct ys) h) [
  | inl e ↦ inl e
  | inr k ↦ inr (In_of_distinct x ys k)
]

-- A list that repeats one text has at most that text.
pub distinct_single :
    (x : Text) (xs : List Text)
    → ((y : Text) → In y xs → y ≡ x)
    → (distinct xs ≡ []) ⊎ (distinct xs ≡ x ∷ [])
unfolding distinct insert_text
distinct_single x [] h = inl refl
distinct_single x (y ∷ ys) h =
    let same = h y (inl refl) in
    elim (distinct_single x ys (λ z i. h z (inr i))) [
      | inl e ↦ inr (rw (same, e) refl)
      | inr e ↦ inr (rw (same, e) (ground (arith, ==_iff x x)))
    ]
