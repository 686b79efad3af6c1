-- ===== src/Fingerprint/Near.antt =====
-- `is_near_duplicate` of decontamination/fingerprints.py
pub mod Symmetry
pub mod Lengths
use nodelm.Base.{Bool, ◌&&◌, not, Text, Result, ok, ◌>>=◌, ◌>>◌, raise_if, if◌then◌else◌}
use nodelm.Base.Fractions.{Fraction, leb_fraction, ltb_fraction, zero_fraction, one_fraction}
use nodelm.Fingerprint.Normalize.{normalize_fingerprint_text}
use nodelm.Fingerprint.Matcher.{ratio}

pub data ThresholdError : Type 0 where
  threshold_must_be_between_0_and_1 : ThresholdError

-- `max(a, b)`: the second only if it is larger.
abbrev pub max_fraction : Fraction → Fraction → Fraction
max_fraction a b = if ltb_fraction a b then b else a

-- `not 0.0 <= threshold <= 1.0`
abbrev pub outside_unit : Fraction → Bool
outside_unit t = not (leb_fraction zero_fraction t && leb_fraction t one_fraction)

unfoldable pub is_near_duplicate : Text → Text → Fraction → Result ThresholdError Bool
unfolding normalize_fingerprint_text ratio
is_near_duplicate left right threshold = do
  raise_if (outside_unit threshold) threshold_must_be_between_0_and_1
  let l = normalize_fingerprint_text left
  let r = normalize_fingerprint_text right
  ok (leb_fraction threshold (max_fraction (ratio l r) (ratio r l)))
