-- ===== src/Fingerprint/Near/Lengths.antt =====
-- Near duplicates and the lengths of their normal forms.
use nodelm.Base.{
  ℕ, suc, ◌+◌, ◌*◌, ◌≤◌, ◌≡◌, ◌⊎◌, inl, inr, Bool, true, false, Text, arith, ok, length, ℕ-cases,
  Bool-cases, leb→le, raise_if, ◌>>◌,
}
use native.Mathlib.Nat.{add_comm}
use nodelm.Base.Fractions.{Fraction, one_fraction, leb_fraction, ltb_fraction}
use nodelm.Fingerprint.Normalize.{normalize_fingerprint_text}
use nodelm.Fingerprint.Matcher.{ratio, matching_size}
use nodelm.Fingerprint.Matcher.Bounds.{matching_size-le}
use nodelm.Fingerprint.Near.{
  is_near_duplicate, max_fraction, outside_unit, threshold_must_be_between_0_and_1,
}

-- The ratio is 1 for two empty texts, and else twice the matching size by both lengths.
pub ratio_cases :
    (a b : Text)
    → ((length a + length b ≡ 0) × (ratio a b ≡ one_fraction))
      ⊎ (ratio a b ≡ record {
        numerator = 2 * matching_size (suc (length a)) a b;
        denominator = length a + length b;
      })
unfolding ratio
ratio_cases a b = elim (ℕ-cases (length a + length b)) [
  | inl e ↦ inl (e, rw (e, ratio))
  | inr (n, e) ↦ inr (rw (e, ratio))
]

pub record Fit (t : Fraction) (la lb : ℕ) : Type 0 where
  pub left : t.numerator * (la + lb) ≤ la * (2 * t.denominator)
  pub right : t.numerator * (la + lb) ≤ lb * (2 * t.denominator)

scaled : (n d m l total : ℕ) → n * total ≤ 2 * m * d → m ≤ l → n * total ≤ l * (2 * d)
scaled n d m l total h k = grind arith

ratio_fits :
    (t : Fraction) (a b : Text) → leb_fraction t (ratio a b) ≡ true → Fit t (length a) (length b)
ratio_fits t a b h = elim (ratio_cases a b) [
  | inl (e, r) ↦ record { left = rw e (omega arith); right = rw e (omega arith) }
  | inr r ↦
      let k = leb→le _ _ (rw r at h) in
      let m = matching_size-le (suc (length a)) a b in
      record {
        left = scaled t.numerator t.denominator _ (length a) (length a + length b) k m.0;
        right = scaled t.numerator t.denominator _ (length b) (length a + length b) k m.1;
      }
]

max_fraction_cases :
    (t x y : Fraction)
    → leb_fraction t (max_fraction x y) ≡ true
    → (leb_fraction t x ≡ true) ⊎ (leb_fraction t y ≡ true)
max_fraction_cases t x y h = elim (Bool-cases (ltb_fraction x y)) [
  | inl e ↦ inr (rw e at h)
  | inr e ↦ inl (rw e at h)
]

Fit-comm : (t : Fraction) (la lb : ℕ) → Fit t lb la → Fit t la lb
Fit-comm t la lb f = record {
  left = rw (add_comm la lb) f.right;
  right = rw (add_comm la lb) f.left;
}

guard_passed :
    {E : Type 0} (test : Bool) (e : E) (answer : Bool)
    → (raise_if test e >> ok answer) ≡ ok true
    → answer ≡ true
guard_passed true e answer h = cc
guard_passed false e answer h = cc

-- Two near duplicates: the threshold times both lengths is at most twice either length.
pub near_fits :
    (a b : Text) (t : Fraction)
    → is_near_duplicate a b t ≡ ok true
    → Fit t (length (normalize_fingerprint_text a)) (length (normalize_fingerprint_text b))
unfolding is_near_duplicate
near_fits a b t h =
    let l = normalize_fingerprint_text a in
    let r = normalize_fingerprint_text b in
    let e =
      guard_passed (outside_unit t) threshold_must_be_between_0_and_1
        (leb_fraction t (max_fraction (ratio l r) (ratio r l))) h in
    elim (max_fraction_cases t (ratio l r) (ratio r l) e) [
      | inl k ↦ ratio_fits t l r k
      | inr k ↦ Fit-comm t (length l) (length r) (ratio_fits t r l k)
    ]
