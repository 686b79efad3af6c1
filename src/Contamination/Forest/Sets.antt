-- ===== src/Contamination/Forest/Sets.antt =====
-- The set of roots: what `add_text` puts in, the least root, and the new parent that a root gets.
use nodelm.Base.{
  ◌≡◌, refl, sym, ap, subst, ◌⊎◌, inl, inr, Bool, true, false, List, [], ◌∷◌, Text, arith, ltb_text,
  ◌==◌, ==-refl, eq_of_==, if◌then◌else◌, Bool-cases, In, In-append_left, In-append_right,
  In-append_cases,
}
use nodelm.Contamination.Forest.{contains, add_text, min_text}

pub contains_of_In : (x : Text) (xs : List Text) → In x xs → contains x xs ≡ true
unfolding contains
contains_of_In x [] h = absurd h
contains_of_In x (y ∷ ys) (inl e) = rw e (rw (==-refl y))
contains_of_In x (y ∷ ys) (inr h) = ground (arith, contains_of_In x ys h)

pub In_of_contains : (x : Text) (xs : List Text) → contains x xs ≡ true → In x xs
unfolding contains
In_of_contains x [] h = cc
In_of_contains x (y ∷ ys) h = elim (Bool-cases (y == x)) [
  | inl t ↦ inl (sym (eq_of_== y x t))
  | inr f ↦ inr (In_of_contains x ys (rw f at h))
]

pub In-add_text_self : (x : Text) (xs : List Text) → In x (add_text x xs)
unfolding add_text
In-add_text_self x xs = elim (Bool-cases (contains x xs)) [
  | inl t ↦ rw t (In_of_contains x xs t)
  | inr f ↦ rw f (In-append_right x xs (x ∷ []) (inl refl))
]

pub In-add_text : (x z : Text) (xs : List Text) → In z xs → In z (add_text x xs)
unfolding add_text
In-add_text x z xs h = elim (Bool-cases (contains x xs)) [
  | inl t ↦ rw t h
  | inr f ↦ rw f (In-append_left z xs (x ∷ []) h)
]

pub In_of_add_text : (x z : Text) (xs : List Text) → In z (add_text x xs) → In z xs ⊎ (z ≡ x)
unfolding add_text
In_of_add_text x z xs h = elim (Bool-cases (contains x xs)) [
  | inl t ↦ inl (rw t at h)
  | inr f ↦ elim (In-append_cases z xs (x ∷ []) (rw f at h)) [
    | inl i ↦ inl i
    | inr i ↦ elim i [ inl e ↦ inr e | inr b ↦ absurd b ]
  ]
]

-- The least of the roots is one of them.
pub In-min_text : (x : Text) (xs : List Text) → In (min_text x xs) (x ∷ xs)
unfolding min_text
In-min_text x [] = inl refl
In-min_text x (y ∷ ys) =
    let at = λ (b : Bool). In (min_text (if b then y else x) ys) (x ∷ y ∷ ys) in
    elim (Bool-cases (ltb_text y x)) [
      | inl t ↦ subst at (sym t) (inr (In-min_text y ys))
      | inr f ↦ subst at (sym f) (elim (In-min_text x ys) [ inl e ↦ inl e | inr i ↦ inr (inr i) ])
    ]

-- The parent that a row with parent `p` has after the roots are joined.
unfoldable pub target : List Text → Text → Text
target [] p = p
target (a ∷ roots) p = if contains p (a ∷ roots) then min_text a roots else p

pub target_absent : (roots : List Text) (p : Text) → contains p roots ≡ false → target roots p ≡ p
unfolding target
target_absent [] p h = refl
target_absent (a ∷ roots) p h = rw h

pub target_agree :
    (roots : List Text) (p q : Text) → In p roots → In q roots → target roots p ≡ target roots q
unfolding target
target_agree [] p q h k = absurd h
target_agree (a ∷ roots) p q h k =
    rw (contains_of_In p (a ∷ roots) h, contains_of_In q (a ∷ roots) k)

pub target_cases :
    (roots : List Text) (p : Text)
    → (In p roots × In (target roots p) roots) ⊎ ((contains p roots ≡ false) × (target roots p ≡ p))
unfolding target
target_cases [] p = inr (unfold contains in refl, refl)
target_cases (a ∷ roots) p =
    let at = λ (b : Bool). In (if b then min_text a roots else p) (a ∷ roots) in
    elim (Bool-cases (contains p (a ∷ roots))) [
      | inl t ↦ inl (In_of_contains p (a ∷ roots) t, subst at (sym t) (In-min_text a roots))
      | inr f ↦ inr (f, rw f)
    ]

pub target-target : (roots : List Text) (p : Text) → target roots (target roots p) ≡ target roots p
target-target roots p = elim (target_cases roots p) [
  | inl (i, j) ↦ target_agree roots (target roots p) p j i
  | inr (f, e) ↦ ap (target roots) e
]
