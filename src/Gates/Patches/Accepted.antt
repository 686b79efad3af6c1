-- ===== src/Gates/Patches/Accepted.antt =====
-- Which patches `validate_text_git_patch` of harness/patches.py accepts.
use nodelm.Base.{length, ℕ, ◌≤◌, ◌≡◌, ◌≢◌, Bool, not, ◌||◌, List, [], ◌∷◌, ◌++◌, Text, text, In}
use nodelm.Base.Methods.{is_empty}
use nodelm.Gates.Status.{any}
use nodelm.Gates.Patches.{starts_with, is_boundary, forbidden_prefixes}
use nodelm.Gates.Patches.Encoded.{encode}

-- How git begins the lines of a patch that moves or copies a file, changes its mode, creates or deletes it,
-- or changes bytes that are no text.
abbrev pub beginnings : List Text
beginnings =
    text "rename from "
    ∷ text "rename to "
    ∷ text "copy from "
    ∷ text "copy to "
    ∷ text "old mode "
    ∷ text "new mode "
    ∷ text "new file mode "
    ∷ text "deleted file mode "
    ∷ text "Binary files "
    ∷ text "literal "
    ∷ text "delta "
    ∷ []

-- A bounded patch that only changes texts: none of those lines stands after a line feed in it.
pub record IsTextPatch (patch : Text) (max_bytes : ℕ) : Type 0 where
  pub bounded : length (encode patch) ≤ max_bytes
  pub encodable : (c : ℕ) → In c patch → 0xd800 ≤ c → c ≤ 0xdfff → ⊥
  pub headed : (rest : Text) × (patch ≡ text "diff --git " ++ rest)
  pub no_nul : In 0 patch → ⊥
  pub no_change :
      (beginning a b : Text) → In beginning beginnings → patch ≢ a ++ (10 ∷ (beginning ++ b))
  pub no_binary : (a b : Text) → patch ≢ a ++ (10 ∷ (text "GIT binary patch" ++ (10 ∷ b)))

-- A text that is not the forbidden beginning of a line.
abbrev is_harmless : Text → Bool
is_harmless s =
    is_empty s || any is_boundary s || not (any (λ p. starts_with p s) forbidden_prefixes)
