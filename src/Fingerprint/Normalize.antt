-- ===== src/Fingerprint/Normalize.antt =====
-- `normalize_fingerprint_text` and `exact_fingerprint` of decontamination/fingerprints.py.
-- SHA-256 of the UTF-8 bytes of a text is a parameter.
pub mod Stable
pub mod Tidied
use nodelm.Base.{ℕ, List, Text, map}
use nodelm.Base.Digests.{hexdigest}
use nodelm.Base.Methods.{rstrip, strip, split, join, replace_char, replace_crlf}

unfoldable pub normalize_fingerprint_text : Text → Text
unfolding rstrip strip split join replace_char replace_crlf
normalize_fingerprint_text value =
    let value = replace_char 13 10 (replace_crlf value) in
    strip (join 10 (map rstrip (split 10 value)))

unfoldable pub exact_fingerprint : (Text → List ℕ) → Text → Text
unfolding normalize_fingerprint_text hexdigest
exact_fingerprint sha256 value = hexdigest (sha256 (normalize_fingerprint_text value))
