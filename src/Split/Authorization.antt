-- ===== src/Split/Authorization.antt =====
-- `require_authorized_repository_split` of decontamination/split.py.
use nodelm.Base.{
  ◌≡◌, true, not, List, [], Text, arith, ◌==◌, eq_of_==, Result, ok, err, raise_if, none, some, inl,
  inr, Option-cases,
}
use nodelm.Split.Errors.{SplitError, no_reviewed_split, wrong_split_digest}
use nodelm.Split.Maps.{get}

-- No split has been reviewed.
abbrev pub authorized_split_sha256_by_normalized_sha256 : List (Text × Text)
authorized_split_sha256_by_normalized_sha256 = []

unfoldable pub require_split :
    List (Text × Text) → (normalized_sha256 split_sha256 : Text) → Result SplitError (Unit {0})
unfolding get ◌==◌
require_split table normalized_sha256 split_sha256 = elim (get normalized_sha256 table) [
  | none ↦ err no_reviewed_split
  | some expected ↦ raise_if (not (split_sha256 == expected)) wrong_split_digest
]

unfoldable pub require_authorized_repository_split : Text → Text → Result SplitError (Unit {0})
unfolding require_split
require_authorized_repository_split = require_split authorized_split_sha256_by_normalized_sha256

-- Whatever table of reviewed splits is given, only the split that it names for an artifact passes.
pub require_split-ok :
    (table : List (Text × Text)) (normalized_sha256 split_sha256 : Text)
    → require_split table normalized_sha256 split_sha256 ≡ ok tt
    → get normalized_sha256 table ≡ some split_sha256
unfolding require_split
require_split-ok table normalized_sha256 split_sha256 h =
    elim (Option-cases (get normalized_sha256 table)) [
      | inl e ↦ absurd (ok_of_err (rw (e, require_split) at h))
      | inr (expected, e) ↦
          let same : split_sha256 ≡ expected =
            eq_of_== split_sha256 expected (equal expected (rw (e, require_split) at h)) in
          rw same e
    ]
  where
    ok_of_err : ◌≡◌ {A = Result SplitError (Unit {0})} (err no_reviewed_split) (ok tt) → ⊥
    ok_of_err e = cc

    equal :
        (expected : Text)
        → raise_if (not (split_sha256 == expected)) wrong_split_digest ≡ ok tt
        → (split_sha256 == expected) ≡ true
    equal expected e = ground arith
