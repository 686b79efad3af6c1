-- ===== src/Gates/Status.antt =====
-- `VerificationStatus` of models.py, and the tests that the validators make of lists and options.
use nodelm.Base.{
  ◌≡◌, refl, Bool, true, false, List, [], ◌∷◌, Option, none, some, if◌then◌else◌, In, inl, inr, ap,
  arith, ◌∙◌, ℕ, Text,
}
use nodelm.Base.Urls.{contains_char}

pub data VerificationStatus : Type 0 where
  pass fail not_run blocked unverified : VerificationStatus

unfoldable pub is_pass : VerificationStatus → Bool
is_pass pass = true
is_pass _ = false

unfoldable pub is_not_run : VerificationStatus → Bool
is_not_run not_run = true
is_not_run _ = false

pub eq_of_is_pass : (s : VerificationStatus) → is_pass s ≡ true → s ≡ pass
unfolding is_pass
eq_of_is_pass pass h = refl
eq_of_is_pass fail h = cc
eq_of_is_pass not_run h = cc
eq_of_is_pass blocked h = cc
eq_of_is_pass unverified h = cc

-- `item is None`
unfoldable pub is_none : {A : Type 0} → Option A → Bool
is_none none = true
is_none (some a) = false

pub some_of_is_none : {A : Type 0} (o : Option A) → is_none o ≡ false → (a : A) × (o ≡ some a)
unfolding is_none
some_of_is_none none h = cc
some_of_is_none (some a) h = (a, refl)

-- `any(test(item) for item in items)`
unfoldable pub any : {A : Type 0} → (A → Bool) → List A → Bool
any test [] = false
any test (x ∷ xs) = let rest = any test xs in if test x then true else rest

pub any-false :
    {A : Type 0} (test : A → Bool) (x : A) (xs : List A)
    → any test xs ≡ false
    → In x xs
    → test x ≡ false
unfolding any
any-false test x [] h i = absurd i
any-false test x (y ∷ ys) h (inl e) = ap test e ∙ (ground arith)
any-false test x (y ∷ ys) h (inr i) = any-false test x ys (ground arith) i

pub any_of_none :
    {A : Type 0} (test : A → Bool) (xs : List A)
    → ((x : A) → In x xs → test x ≡ false)
    → any test xs ≡ false
unfolding any
any_of_none test [] h = refl
any_of_none test (x ∷ xs) h = rw (h x (inl refl)) (any_of_none test xs (λ y i. h y (inr i)))

pub contains_char-false : (x : ℕ) (s : Text) → contains_char x s ≡ false → In x s → ⊥
unfolding contains_char
contains_char-false x [] f i = i
contains_char-false x (d ∷ s) f (inl e) = ground arith
contains_char-false x (d ∷ s) f (inr i) = contains_char-false x s (ground arith) i
