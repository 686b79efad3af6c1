-- ===== src/Provenance/Json/Digest.antt =====
-- The digest of a value has the form of a digest.
use nodelm.Base.{ℕ, ◌≡◌, true, List, Text, length}
use nodelm.Base.Digests.{is_digest, AreBytes, hexdigest-is_digest}
use nodelm.Provenance.Values.{Value}
use nodelm.Provenance.Json.{dumps, sort_keys, stable_model_id}

-- SHA-256 gives 32 bytes.
pub record IsSha256 (sha256 : Text → List ℕ) : Type 0 where
  pub bytes : (s : Text) → length (sha256 s) ≡ 32
  pub small : (s : Text) → AreBytes (sha256 s)

pub stable_model_id-is_digest :
    (sha256 : Text → List ℕ) (v : Value)
    → IsSha256 sha256
    → is_digest (stable_model_id sha256 v) ≡ true
unfolding stable_model_id
stable_model_id-is_digest sha256 v h =
    hexdigest-is_digest (sha256 (dumps (sort_keys v))) (h.bytes _) (h.small _)
