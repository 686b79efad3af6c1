-- ===== src/Fingerprint/Matcher/Bounds.antt =====
-- The lengths of matching blocks.
use nodelm.Base.{ℕ, zero, suc, ◌+◌, ◌-◌, ◌≤◌, ◌≡◌, [], ◌∷◌, Text, arith, length, ℕ-cases, inl, inr}
use nodelm.Fingerprint.Matcher.{
  Match, take, drop, common_prefix, scan_a, scan_b, find_longest_match, around, matching_size,
}

pub record Fits (m : Match) (la lb : ℕ) : Type 0 where
  pub in_a : m.a_start + m.size ≤ la
  pub in_b : m.b_start + m.size ≤ lb

common_prefix-le : (a b : Text) → (common_prefix a b ≤ length a) × (common_prefix a b ≤ length b)
unfolding common_prefix
common_prefix-le [] b = omega arith
common_prefix-le (c ∷ a) [] = omega arith
common_prefix-le (c ∷ a) (d ∷ b) = ground (arith, common_prefix-le a b)

scan_b-Fits :
    (a : Text) (i : ℕ) (b : Text) (j : ℕ) (best : Match) (la lb : ℕ)
    → i + length a ≤ la
    → j + length b ≤ lb
    → Fits best la lb
    → Fits (scan_b a i b j best) la lb
unfolding scan_b
scan_b-Fits a i [] j best la lb h k f = f
scan_b-Fits a i (d ∷ b) j best la lb h k f =
    scan_b-Fits a i b (suc j) _ la lb h (omega arith) (ground (arith, common_prefix-le a (d ∷ b)))

scan_a-Fits :
    (a : Text) (i : ℕ) (b : Text) (best : Match) (la : ℕ)
    → i + length a ≤ la
    → Fits best la (length b)
    → Fits (scan_a a i b best) la (length b)
unfolding scan_a
scan_a-Fits [] i b best la h f = f
scan_a-Fits (c ∷ a) i b best la h f =
    scan_a-Fits a (suc i) b _ la (omega arith)
      (scan_b-Fits (c ∷ a) i b 0 best la (length b) h (omega arith) f)

pub find_longest_match-Fits : (a b : Text) → Fits (find_longest_match a b) (length a) (length b)
unfolding find_longest_match
find_longest_match-Fits a b = scan_a-Fits a 0 b _ (length a) (omega arith) (omega arith)

pub length-take-le : (n : ℕ) (s : Text) → length (take n s) ≤ n
unfolding take
length-take-le zero s = omega arith
length-take-le (suc n) [] = omega arith
length-take-le (suc n) (c ∷ s) = omega (arith, length-take-le n s)

pub length-drop : (n : ℕ) (s : Text) → length (drop n s) ≡ length s - n
unfolding drop
length-drop zero s = omega arith
length-drop (suc n) [] = omega arith
length-drop (suc n) (c ∷ s) = omega (arith, length-drop n s)

-- If the parts fit their texts, so does the sum.
around-le :
    (sizes : Text → Text → ℕ) (m : Match) (a b : Text)
    → ((s t : Text) → (sizes s t ≤ length s) × (sizes s t ≤ length t))
    → Fits m (length a) (length b)
    → (around sizes m a b ≤ length a) × (around sizes m a b ≤ length b)
unfolding around
around-le sizes m a b fit f = elim (ℕ-cases m.size) [
  | inl e ↦ rw (e, around) (omega arith)
  | inr (n, e) ↦
      rw (e, around)
        (omega (
          arith,
          fit (take m.a_start a) (take m.b_start b),
          fit (drop (m.a_start + suc n) a) (drop (m.b_start + suc n) b),
          length-take-le m.a_start a,
          length-take-le m.b_start b,
          length-drop (m.a_start + suc n) a,
          length-drop (m.b_start + suc n) b,
        ))
]

-- The matching blocks are no longer than either text.
pub matching_size-le :
    (fuel : ℕ) (a b : Text)
    → (matching_size fuel a b ≤ length a) × (matching_size fuel a b ≤ length b)
unfolding matching_size
matching_size-le zero a b = omega arith
matching_size-le (suc fuel) a b =
    around-le (matching_size fuel) (find_longest_match a b) a b (matching_size-le fuel)
      (find_longest_match-Fits a b)
