-- ===== src/Fingerprint/Matcher.antt =====
-- `SequenceMatcher(None, a, b, autojunk=False).ratio()`, as decontamination/fingerprints.py uses it:
-- the longest common block, the earliest in `a` and then in `b`, and the blocks left and right of it.
pub mod Bounds
pub mod Fuel
use nodelm.Base.{ℕ, zero, suc, ◌+◌, ◌*◌, List, [], ◌∷◌, Text, ltb, eqb, length, if◌then◌else◌}
use nodelm.Base.Fractions.{Fraction, one_fraction}

-- A common block: where it starts in each text, and its size.
pub record Match : Type 0 where
  pub a_start : ℕ
  pub b_start : ℕ
  pub size : ℕ

unfoldable pub take : ℕ → Text → Text
take zero s = []
take (suc n) [] = []
take (suc n) (c ∷ s) = c ∷ take n s

unfoldable pub drop : ℕ → Text → Text
drop zero s = s
drop (suc n) [] = []
drop (suc n) (c ∷ s) = drop n s

-- How far two texts agree.
common_prefix : Text → Text → ℕ
common_prefix [] b = 0
common_prefix (c ∷ a) [] = 0
common_prefix (c ∷ a) (d ∷ b) = let rest = suc (common_prefix a b) in if eqb c d then rest else 0

-- The starts in `b`, from `j` on, against the start `i` in `a`. Only a larger block replaces the best.
scan_b : Text → ℕ → Text → ℕ → Match → Match
unfolding common_prefix
scan_b a i [] j best = best
scan_b a i (d ∷ b) j best =
    let size = common_prefix a (d ∷ b) in
    scan_b a i b (suc j)
      (if ltb best.size size then record { a_start = i; b_start = j; size = size } else best)

-- The starts in `a`, from `i` on.
scan_a : Text → ℕ → Text → Match → Match
unfolding scan_b
scan_a [] i b best = best
scan_a (c ∷ a) i b best = scan_a a (suc i) b (scan_b (c ∷ a) i b 0 best)

pub find_longest_match : Text → Text → Match
unfolding scan_a
find_longest_match a b = scan_a a 0 b (record { a_start = 0; b_start = 0; size = 0 })

-- The sizes of a block and of the blocks on both sides of it.
around : (Text → Text → ℕ) → Match → Text → Text → ℕ
around sizes m a b = elim m.size [
  | zero ↦ 0
  | suc n ↦
      sizes (take m.a_start a) (take m.b_start b)
      + suc n
      + sizes (drop (m.a_start + suc n) a) (drop (m.b_start + suc n) b)
]

-- The sum of the sizes of the matching blocks, with fuel above the length of `a`.
pub matching_size : ℕ → Text → Text → ℕ
unfolding find_longest_match around take drop
matching_size zero a b = 0
matching_size (suc fuel) a b = around (matching_size fuel) (find_longest_match a b) a b

unfoldable pub ratio : Text → Text → Fraction
unfolding matching_size
ratio a b = elim (length a + length b) [
  | zero ↦ one_fraction
  | suc n ↦ record { numerator = 2 * matching_size (suc (length a)) a b; denominator = suc n }
]
