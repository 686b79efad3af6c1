-- ===== src/Gates/License.antt =====
-- `evaluate_license` of licenses/gate.py. The reasons are the constructors of `Reason`.
pub mod Allowed
use nodelm.Base.{
  ℕ, ◌++◌, ◌∙◌, arith, ◌≡◌, ◌≢◌, subst, refl, sym, ap, Bool, true, false, List, [], ◌∷◌, Text, text,
  if◌then◌else◌, Option, none, some, In, inl, inr, Bool-cases, Option-cases,
}
use nodelm.Base.Methods.{strip, is_empty}
use nodelm.Base.Urls.{lower, after_prefix}
use nodelm.Gates.Status.{any, any-false}
use nodelm.Split.Maps.{get, In_of_get}

pub data LicenseDisposition : Type 0 where
  allow reject unknown : LicenseDisposition

pub data Reason : Type 0 where
  missing allowlisted copyleft unrecognized : Reason

pub record LicenseDecision : Type 0 where
  pub raw_license : Option Text
  pub normalized_spdx : Option Text
  pub disposition : LicenseDisposition
  pub reason : Reason

abbrev pub normalized_allowlist : List (Text × Text)
normalized_allowlist =
    (text "mit", text "MIT")
    ∷ (text "mit license", text "MIT")
    ∷ (text "apache-2.0", text "Apache-2.0")
    ∷ (text "apache 2.0", text "Apache-2.0")
    ∷ (text "apache license 2.0", text "Apache-2.0")
    ∷ (text "bsd-2-clause", text "BSD-2-Clause")
    ∷ (text "bsd 2-clause", text "BSD-2-Clause")
    ∷ (text "bsd-3-clause", text "BSD-3-Clause")
    ∷ (text "bsd 3-clause", text "BSD-3-Clause")
    ∷ []

-- `part in value`
unfoldable pub is_part : Text → Text → Bool
unfolding after_prefix
is_part part [] = elim (after_prefix part []) [ none ↦ false | some _ ↦ true ]
is_part part (c ∷ s) = elim (after_prefix part (c ∷ s)) [ none ↦ is_part part s | some _ ↦ true ]

unfoldable pub unlisted : Text → LicenseDecision
unfolding is_part lower
unlisted raw =
    if is_part (text "gpl") (lower raw)
    then record {
      raw_license = some raw;
      normalized_spdx = none;
      disposition = reject;
      reason = copyleft;
    }
    else record {
      raw_license = some raw;
      normalized_spdx = none;
      disposition = unknown;
      reason = unrecognized;
    }

unfoldable pub evaluate_stated : Text → LicenseDecision
unfolding get lower strip unlisted
evaluate_stated raw = elim (get (lower (strip raw)) normalized_allowlist) [
  | none ↦ unlisted raw
  | some spdx ↦ record {
    raw_license = some raw;
    normalized_spdx = some spdx;
    disposition = allow;
    reason = allowlisted;
  }
]

unfoldable pub evaluate_license : Option Text → LicenseDecision
unfolding evaluate_stated is_empty strip
evaluate_license none = record {
  raw_license = none;
  normalized_spdx = none;
  disposition = unknown;
  reason = missing;
}
evaluate_license (some raw) =
    if is_empty (strip raw)
    then record {
      raw_license = some raw;
      normalized_spdx = none;
      disposition = unknown;
      reason = missing;
    }
    else evaluate_stated raw
