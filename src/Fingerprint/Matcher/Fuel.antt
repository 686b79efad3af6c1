-- ===== src/Fingerprint/Matcher/Fuel.antt =====
-- The fuel of the matching blocks.
use nodelm.Base.{ℕ, zero, suc, ◌+◌, ◌<◌, ◌≡◌, Text, arith, length, ℕ-cases, inl, inr}
use nodelm.Fingerprint.Matcher.{Match, take, drop, find_longest_match, around, matching_size}
use nodelm.Fingerprint.Matcher.Bounds.{Fits, find_longest_match-Fits, length-drop, length-take-le}

module _ (f g : Text → Text → ℕ) (a : Text)
    (agree : (s t : Text) → length s < length a → f s t ≡ g s t) where
  around-agree :
      (m : Match) (b : Text) → Fits m (length a) (length b) → around f m a b ≡ around g m a b
  unfolding around
  around-agree m b fits = elim (ℕ-cases m.size) [
    | inl e ↦ rw (e, around)
    | inr (n, e) ↦
        rw (e, around)
          (omega (
            arith,
            agree (take m.a_start a) (take m.b_start b) (omega (arith, length-take-le m.a_start a)),
            agree (drop (m.a_start + suc n) a) (drop (m.b_start + suc n) b)
                (omega (arith, length-drop (m.a_start + suc n) a)),
          ))
  ]

pub matching_size-fuel :
    (f g : ℕ) (a b : Text) → length a < f → length a < g → matching_size f a b ≡ matching_size g a b
unfolding matching_size
matching_size-fuel zero g a b h k = absurd (omega arith)
matching_size-fuel (suc f) zero a b h k = absurd (omega arith)
matching_size-fuel (suc f) (suc g) a b h k =
    around-agree (matching_size f) (matching_size g) a
      (λ s t l. matching_size-fuel f g s t (omega arith) (omega arith)) (find_longest_match a b) b
      (find_longest_match-Fits a b)
