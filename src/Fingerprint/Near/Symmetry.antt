-- ===== src/Fingerprint/Near/Symmetry.antt =====
-- `is_near_duplicate` under an exchange of its texts.
use nodelm.Base.{
  ℕ, suc, ◌+◌, ◌≤◌, ◌*◌, ◌≡◌, refl, ap, ◌⊎◌, Bool, true, false, ok, ◌>>◌, raise_if, ℕ-cases, Text,
  arith, length, Bool-cases, inl, inr,
}
use nodelm.Base.Fractions.{Fraction, leb_fraction, ltb_fraction}
use nodelm.Fingerprint.Normalize.{normalize_fingerprint_text}
use nodelm.Fingerprint.Matcher.{ratio, matching_size}
use nodelm.Fingerprint.Near.{
  is_near_duplicate, max_fraction, outside_unit, threshold_must_be_between_0_and_1,
}

-- Equal multiples of a positive number are equal.
mul_cancel : (x y d : ℕ) → x * suc d ≡ y * suc d → x ≡ y
mul_cancel x y d h = grind arith

abbrev over : ℕ → ℕ → Fraction
over d x = record { numerator = x; denominator = d }

-- The larger of two fractions over one denominator passes the same tests in either order.
leb_max_fraction_comm :
    (t : Fraction) (x y d : ℕ)
    → leb_fraction t (max_fraction (over (suc d) x) (over (suc d) y))
      ≡ leb_fraction t (max_fraction (over (suc d) y) (over (suc d) x))
leb_max_fraction_comm t x y d = elim (Bool-cases (ltb_fraction (over (suc d) x) (over (suc d) y))) [
  | inl e ↦ rw (e, other e) refl
  | inr e ↦ elim (Bool-cases (ltb_fraction (over (suc d) y) (over (suc d) x))) [
    | inl f ↦ rw (e, f) refl
    | inr f ↦
        rw (e, f) (ap (λ n. leb_fraction t (over (suc d) n)) (mul_cancel x y d (ground arith)))
  ]
]
  where
    other :
        ltb_fraction (over (suc d) x) (over (suc d) y) ≡ true
        → ltb_fraction (over (suc d) y) (over (suc d) x) ≡ false
    other e = ground arith

-- The two ratios of a pair stand over one denominator.
ratio_pair :
    (a b : Text)
    → (ratio a b ≡ ratio b a)
      ⊎ ((d : ℕ) × (x y : ℕ) × (ratio a b ≡ over (suc d) x) × (ratio b a ≡ over (suc d) y))
unfolding ratio
ratio_pair a b = elim (ℕ-cases (length a + length b)) [
  | inl e ↦ inl (rw (e, total e, ratio))
  | inr (n, e) ↦ inr (
    n,
    2 * matching_size (suc (length a)) a b,
    2 * matching_size (suc (length b)) b a,
    rw (e, ratio),
    rw (total e, ratio),
  )
]
  where
    total : {n : ℕ} → length a + length b ≡ n → length b + length a ≡ n
    total e = omega arith

leb_max_ratio_comm :
    (t : Fraction) (a b : Text)
    → leb_fraction t (max_fraction (ratio a b) (ratio b a))
      ≡ leb_fraction t (max_fraction (ratio b a) (ratio a b))
leb_max_ratio_comm t a b = elim (ratio_pair a b) [
  | inl e ↦ rw e
  | inr (d, x, y, e, f) ↦ rw (e, f) (leb_max_fraction_comm t x y d)
]

-- Near duplication is symmetric: swapping the texts gives the same answer, or the same error.
pub is_near_duplicate_comm :
    (a b : Text) (t : Fraction) → is_near_duplicate a b t ≡ is_near_duplicate b a t
unfolding is_near_duplicate
is_near_duplicate_comm a b t =
    let l = normalize_fingerprint_text a in
    let r = normalize_fingerprint_text b in
    ap (λ answer. raise_if (outside_unit t) threshold_must_be_between_0_and_1 >> ok answer)
      (leb_max_ratio_comm t l r)

-- With a threshold of at most 1 there is an answer.
pub is_near_duplicate-ok :
    (a b : Text) (t : Fraction)
    → t.numerator ≤ t.denominator
    → (answer : Bool) × (is_near_duplicate a b t ≡ ok answer)
unfolding is_near_duplicate
is_near_duplicate-ok a b t h =
    let l = normalize_fingerprint_text a in
    let r = normalize_fingerprint_text b in
    let inside : outside_unit t ≡ false = ground arith in
    (leb_fraction t (max_fraction (ratio l r) (ratio r l)), rw inside)
