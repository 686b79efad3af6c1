-- ===== src/Contamination/Linking/Bounds.antt =====
-- `_candidate_length_bounds` against `is_near_duplicate`.
use nodelm.Base.{
  ℕ, ◌+◌, ◌-◌, ◌*◌, ◌/◌, ◌<◌, ◌≤◌, ◌≡◌, subst, true, false, ok, Text, arith, eqb, length,
}
use nodelm.Base.Fractions.{Fraction}
use nodelm.Fingerprint.Normalize.{normalize_fingerprint_text}
use nodelm.Fingerprint.Near.{is_near_duplicate}
use nodelm.Fingerprint.Near.Lengths.{Fit, near_fits}
use nodelm.Contamination.Linking.{candidate_length_bounds}

div_le : (a b c : ℕ) → 0 < c → a ≤ b * c → a / c ≤ b
div_le a b c h k = grind arith

le_div : (a b c : ℕ) → 0 < c → b * c ≤ a → b ≤ a / c
le_div a b c h k = grind arith

scaled_left : (n d la lb : ℕ) → n ≤ d → n * (la + lb) ≤ lb * (2 * d) → la * n ≤ lb * (2 * d - n)
scaled_left n d la lb h k = grind arith

scaled_right : (n d la lb : ℕ) → n ≤ d → n * (la + lb) ≤ la * (2 * d) → lb * n ≤ la * (2 * d - n)
scaled_right n d la lb h k = grind arith

-- A threshold in the range that the index accepts.
pub record IsThreshold (t : Fraction) : Type 0 where
  pub positive : 0 < t.numerator
  pub at_most_one : t.numerator ≤ t.denominator

fits_bounds :
    (t : Fraction) (la lb : ℕ)
    → IsThreshold t
    → Fit t la lb
    → ((candidate_length_bounds la t).0 ≤ lb) × (lb ≤ (candidate_length_bounds la t).1)
unfolding candidate_length_bounds
fits_bounds t la lb h f =
    let other = 2 * t.denominator - t.numerator in
    let left = scaled_left t.numerator t.denominator la lb h.at_most_one f.right in
    let right = scaled_right t.numerator t.denominator la lb h.at_most_one f.left in
    rw (not_zero t.numerator h.positive) (
      div_le (la * t.numerator) lb other (omega (arith, h.positive, h.at_most_one)) left,
      le_div (la * other + (t.numerator - 1)) lb t.numerator h.positive (omega (arith, right)),
    )
  where
    not_zero : (n : ℕ) → 0 < n → eqb n 0 ≡ false
    not_zero n p = ground arith

-- Whatever passes as a near duplicate of a text in normal form has a length within the bounds that
-- are computed for the text.
pub near_in_bounds :
    (t : Fraction) (a b : Text)
    → IsThreshold t
    → normalize_fingerprint_text a ≡ a
    → normalize_fingerprint_text b ≡ b
    → is_near_duplicate a b t ≡ ok true
    → ((candidate_length_bounds (length a) t).0 ≤ length b)
      × (length b ≤ (candidate_length_bounds (length a) t).1)
near_in_bounds t a b h na nb near =
    let f : Fit t (length a) (length b) =
      subst (λ x. Fit t (length x) (length b)) na
        (subst (λ y. Fit t (length (normalize_fingerprint_text a)) (length y)) nb
          (near_fits a b t near)) in
    fits_bounds t (length a) (length b) h f
