-- ===== src/Base/Lists.antt =====
-- Lists measured by native numbers, membership by recursion, and folds that may raise.
use Prim.Native.Nat.{ℕ, suc, ◌+◌}
use mathlib.Core.Path.{◌≡◌, refl, ap, subst}
use mathlib.Core.Logic.{◌⊎◌, inl, inr}
use mathlib.Core.Bool.{Bool, true}
use mathlib.Core.List.{List, [], ◌∷◌, ◌++◌, map}
use native.Mathlib.Omega.{arith}
use nodelm.Base.Tests.{if◌then◌else◌, Bool-cases}
use nodelm.Base.Results.{Result, ok, ◌>>=◌, >>=-eq-ok, ok-injective}

module _ {ℓ} {A : Type ℓ} where
  abbrev pub length : List A → ℕ
  length [] = 0
  length (x ∷ xs) = suc (length xs)

  pub length-append : (xs ys : List A) → length (xs ++ ys) ≡ length xs + length ys
  length-append [] ys = omega arith
  length-append (x ∷ xs) ys = omega (arith, length-append xs ys)

module _ {A : Type 0} where
  -- `x` is an item of the list.
  abbrev pub In : A → List A → Type 0
  In x [] = ⊥
  In x (y ∷ ys) = (x ≡ y) ⊎ In x ys

  pub In-append_right : (x : A) (xs ys : List A) → In x ys → In x (xs ++ ys)
  In-append_right x [] ys h = h
  In-append_right x (y ∷ xs) ys h = inr (In-append_right x xs ys h)

  pub In-append_left : (x : A) (xs ys : List A) → In x xs → In x (xs ++ ys)
  In-append_left x [] ys h = absurd h
  In-append_left x (y ∷ xs) ys (inl e) = inl e
  In-append_left x (y ∷ xs) ys (inr h) = inr (In-append_left x xs ys h)

  pub In-append_cases : (x : A) (xs ys : List A) → In x (xs ++ ys) → In x xs ⊎ In x ys
  In-append_cases x [] ys h = inr h
  In-append_cases x (y ∷ xs) ys (inl e) = inl (inl e)
  In-append_cases x (y ∷ xs) ys (inr h) = elim (In-append_cases x xs ys h) [
    | inl k ↦ inl (inr k)
    | inr k ↦ inr k
  ]

  -- The items that pass a test: a comprehension's `if`, a query's WHERE.
  abbrev pub select : (A → Bool) → List A → List A
  select p [] = []
  select p (x ∷ xs) = let rest = select p xs in if p x then x ∷ rest else rest

  pub In-select : (p : A → Bool) (x : A) (xs : List A) → In x xs → p x ≡ true → In x (select p xs)
  In-select p x [] h t = absurd h
  In-select p x (y ∷ xs) (inl e) t = ground (arith, ap p e)
  In-select p x (y ∷ xs) (inr h) t = ground (arith, In-select p x xs h t)

  pub In_of_select :
      (p : A → Bool) (x : A) (xs : List A) → In x (select p xs) → In x xs × (p x ≡ true)
  In_of_select p x [] h = absurd h
  In_of_select p x (y ∷ xs) h = elim (Bool-cases (p y)) [
    | inl t ↦ elim (let k : In x (y ∷ select p xs) = rw t at h in k) [
      | inl e ↦ (inl e, rw e t)
      | inr k ↦ let (i, u) = In_of_select p x xs k in (inr i, u)
    ]
    | inr f ↦
        let k : In x (select p xs) = rw f at h in let (i, u) = In_of_select p x xs k in (inr i, u)
  ]

module _ {A B : Type 0} where
  pub In-map : (f : A → B) (x : A) (xs : List A) → In x xs → In (f x) (map f xs)
  In-map f x [] h = absurd h
  In-map f x (y ∷ xs) (inl e) = inl (ap f e)
  In-map f x (y ∷ xs) (inr h) = inr (In-map f x xs h)

  pub In_of_map :
      (f : A → B) (b : B) (xs : List A) → In b (map f xs) → (x : A) × In x xs × (b ≡ f x)
  In_of_map f b [] h = absurd h
  In_of_map f b (y ∷ xs) (inl e) = (y, inl refl, e)
  In_of_map f b (y ∷ xs) (inr h) = let (x, i, e) = In_of_map f b xs h in (x, inr i, e)

-- `for x in xs: s = step(s, x)`, where a step may raise.
unfoldable pub for_each : {E S A : Type 0} → (S → A → Result E S) → S → List A → Result E S
for_each step s [] = ok s
for_each step s (x ∷ xs) = step s x >>= λ s'. for_each step s' xs

module _ {E S A : Type 0} (step : S → A → Result E S) (P : S → Type 0) where
  -- The rule for a loop whose every step returns and keeps `P`.
  pub for_each_total :
      ((s : S) (x : A) → P s → (s' : S) × (step s x ≡ ok s') × P s')
      → (s : S) (xs : List A) → P s
      → (s' : S) × (for_each step s xs ≡ ok s') × P s'
  unfolding for_each
  for_each_total keep s [] h = (s, refl, h)
  for_each_total keep s (x ∷ xs) h =
      let (s', e, h') = keep s x h in
      let (s'', e', h'') = for_each_total keep s' xs h' in (s'', rw e e', h'')

  -- The rule for a loop whose steps keep `P` where they return.
  pub for_each_keeps :
      ((s : S) (x : A) (s' : S) → step s x ≡ ok s' → P s → P s')
      → (xs : List A) (s s' : S) → for_each step s xs ≡ ok s'
      → P s
      → P s'
  unfolding for_each
  for_each_keeps keep [] s s' e h = subst P (ok-injective e) h
  for_each_keeps keep (x ∷ xs) s s' e h =
      let (m, e', e'') = >>=-eq-ok (step s x) (λ t. for_each step t xs) e in
      for_each_keeps keep xs m s' e'' (keep s x m e' h)
