-- ===== src/Base/Counts.antt =====
-- COUNT(*) with a condition: how many items pass a test.
use nodelm.Base.{
  suc, map, ◌++◌, ◌∙◌, ◌+◌, ◌≤◌, ◌≡◌, refl, inl, inr, ap, Bool, true, false, not, List, [], ◌∷◌,
  length, arith, In, select, Bool-cases,
}

module _ {A : Type 0} (p : A → Bool) where
  pub length-select-le : (xs : List A) → length (select p xs) ≤ length xs
  length-select-le [] = omega arith
  length-select-le (x ∷ xs) = ground (arith, length-select-le xs)

  pub all_selected : (x : A) (xs : List A) → length (select p xs) ≡ length xs → In x xs → p x ≡ true
  all_selected x [] h i = absurd i
  all_selected x (y ∷ xs) h i = elim (Bool-cases (p y)) [
    | inl t ↦ elim i [ inl e ↦ ap p e ∙ t | inr j ↦ all_selected x xs (ground arith) j ]
    | inr f ↦ absurd (ground (arith, length-select-le xs))
  ]

  pub length-select_all :
      (xs : List A) → ((x : A) → In x xs → p x ≡ true) → length (select p xs) ≡ length xs
  length-select_all [] h = refl
  length-select_all (x ∷ xs) h =
      ground (arith, h x (inl refl), length-select_all xs (λ y i. h y (inr i)))

  pub none_selected : (x : A) (xs : List A) → length (select p xs) ≡ 0 → In x xs → p x ≡ false
  none_selected x [] h i = absurd i
  none_selected x (y ∷ xs) h i = elim (Bool-cases (p y)) [
    | inl t ↦ absurd (ground arith)
    | inr f ↦ elim i [ inl e ↦ ap p e ∙ f | inr j ↦ none_selected x xs (ground arith) j ]
  ]

  -- Items that pass, and items that do not.
  pub length-select-split :
      (xs : List A) → length (select p xs) + length (select (λ x. not (p x)) xs) ≡ length xs
  length-select-split [] = omega arith
  length-select-split (x ∷ xs) = ground (arith, length-select-split xs)

pub length-append_one : {A : Type 0} (x : A) (xs : List A) → length (xs ++ x ∷ []) ≡ suc (length xs)
length-append_one x [] = refl
length-append_one x (y ∷ xs) = ap suc (length-append_one x xs)

pub length-map : {A B : Type 0} (f : A → B) (xs : List A) → length (map f xs) ≡ length xs
length-map f [] = refl
length-map f (x ∷ xs) = ap suc (length-map f xs)
