-- ===== src/Fingerprint/Examples.antt =====
-- The theorems on fingerprints at concrete texts.
use nodelm.Base.{◌≤◌, ◌≡◌, refl, Bool, true, ok, [], ◌∷◌, Text, text, arith, length}
use nodelm.Base.Fractions.{Fraction}
use nodelm.Fingerprint.Normalize.{normalize_fingerprint_text}
use nodelm.Fingerprint.Normalize.Stable.{normalize-normalize}
use nodelm.Fingerprint.Matcher.{matching_size}
use nodelm.Fingerprint.Matcher.Bounds.{matching_size-le}
use nodelm.Fingerprint.Near.{is_near_duplicate}
use nodelm.Fingerprint.Near.Lengths.{Fit, near_fits}
use nodelm.Fingerprint.Near.Symmetry.{is_near_duplicate_comm, is_near_duplicate-ok}
use nodelm.Fingerprint.Repository.{canonical_repository}

abbrev messy : Text
messy = 32 ∷ 97 ∷ 32 ∷ 13 ∷ 10 ∷ 98 ∷ 13 ∷ []

normal_messy : normalize_fingerprint_text messy ≡ 97 ∷ 10 ∷ 98 ∷ []
unfolding normalize_fingerprint_text
normal_messy = refl

normalize-normalize_example :
    normalize_fingerprint_text (normalize_fingerprint_text messy) ≡ normalize_fingerprint_text messy
normalize-normalize_example = normalize-normalize messy

matching_size-le_example :
    (matching_size 9 (text "abcdefgh") (text "abxdefg") ≤ 8)
    × (matching_size 9 (text "abcdefgh") (text "abxdefg") ≤ 7)
matching_size-le_example = matching_size-le 9 (text "abcdefgh") (text "abxdefg")

abbrev nine_tenths : Fraction
nine_tenths = record { numerator = 9; denominator = 10 }

is_near_duplicate_comm_example :
    is_near_duplicate (text "abcdefghij") (text "abcdefghijk") nine_tenths
    ≡ is_near_duplicate (text "abcdefghijk") (text "abcdefghij") nine_tenths
is_near_duplicate_comm_example =
    is_near_duplicate_comm (text "abcdefghij") (text "abcdefghijk") nine_tenths

is_near_duplicate-ok_example :
    (answer : Bool) × (is_near_duplicate (text "abc") (text "xyz") nine_tenths ≡ ok answer)
is_near_duplicate-ok_example =
    is_near_duplicate-ok (text "abc") (text "xyz") nine_tenths (omega arith)

near : is_near_duplicate (text "abcdefghij") (text "abcdefghijk") nine_tenths ≡ ok true
unfolding is_near_duplicate
near = refl

near_fits_example :
    Fit nine_tenths
      (length (normalize_fingerprint_text (text "abcdefghij")))
      (length (normalize_fingerprint_text (text "abcdefghijk")))
near_fits_example = near_fits (text "abcdefghij") (text "abcdefghijk") nine_tenths near

accepted : canonical_repository (text "Owner/Name.git") ≡ ok (text "github.com/owner/name")
unfolding canonical_repository
accepted = refl
