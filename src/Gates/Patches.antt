-- ===== src/Gates/Patches.antt =====
-- `validate_text_git_patch` of harness/patches.py.
pub mod Lines
pub mod Encoded
pub mod Accepted
use nodelm.Base.{
  ℕ, ◌+◌, ◌≤◌, ◌≡◌, refl, sym, Bool, true, false, not, ◌&&◌, ◌||◌, List, [], ◌∷◌, Text, text, arith,
  ◌==◌, ltb, leb, eqb, if◌then◌else◌, In, Result, ok, ◌>>◌, raise_if, passed, ok-injective, none,
  some,
}
use nodelm.Base.Methods.{strip, is_empty, cons_head, replace_crlf}
use nodelm.Base.Urls.{after_prefix, contains_char}
use nodelm.Gates.Status.{any, any-false}

pub data PatchError : Type 0 where
  empty_patch limit_not_positive too_long nul_byte no_git_header forbidden_line : PatchError
  -- The UnicodeEncodeError of `patch.encode`.
  not_encodable : PatchError

-- `value.startswith(prefix)`
unfoldable pub starts_with : Text → Text → Bool
unfolding after_prefix
starts_with prefix value = elim (after_prefix prefix value) [ none ↦ false | some _ ↦ true ]

-- The bytes of a code point in UTF-8.
unfoldable pub utf8_length : ℕ → ℕ
utf8_length c = if ltb c 128 then 1 else if ltb c 2048 then 2 else if ltb c 65536 then 3 else 4

unfoldable pub encoded_length : Text → ℕ
unfolding utf8_length
encoded_length [] = 0
encoded_length (c ∷ s) = utf8_length c + encoded_length s

-- A code point of a `str` that has no encoding in UTF-8.
unfoldable pub is_surrogate : ℕ → Bool
is_surrogate c = leb 0xd800 c && leb c 0xdfff

-- The boundaries of `str.splitlines`: line feed, vertical tab, form feed, carriage return, the file,
-- group and record separators, next line, and the line and paragraph separators.
unfoldable pub is_boundary : ℕ → Bool
is_boundary c =
    (leb 10 c && leb c 13) || (leb 28 c && leb c 30) || eqb c 133 || eqb c 8232 || eqb c 8233

-- `str.splitlines` after a carriage return and line feed became one boundary.
unfoldable pub lines_of : Text → List Text
unfolding is_boundary cons_head
lines_of [] = []
lines_of (c ∷ s) = let rest = lines_of s in if is_boundary c then [] ∷ rest else cons_head c rest

unfoldable pub splitlines : Text → List Text
unfolding lines_of replace_crlf
splitlines value = lines_of (replace_crlf value)

abbrev pub forbidden_prefixes : List Text
forbidden_prefixes =
    text "Binary files "
    ∷ text "literal "
    ∷ text "delta "
    ∷ text "new file mode "
    ∷ text "deleted file mode "
    ∷ text "old mode "
    ∷ text "new mode "
    ∷ text "rename from "
    ∷ text "rename to "
    ∷ text "copy from "
    ∷ text "copy to "
    ∷ []

unfoldable pub is_forbidden : Text → Bool
unfolding ◌==◌ starts_with any
is_forbidden line =
    line == text "GIT binary patch" || any (λ p. starts_with p line) forbidden_prefixes

unfoldable pub validate_text_git_patch : Text → ℕ → Result PatchError Text
unfolding is_empty strip is_surrogate encoded_length contains_char starts_with splitlines
    is_forbidden any
validate_text_git_patch patch max_bytes = do
  raise_if (is_empty (strip patch)) empty_patch
  raise_if (eqb max_bytes 0) limit_not_positive
  raise_if (any is_surrogate patch) not_encodable
  raise_if (ltb max_bytes (encoded_length patch)) too_long
  raise_if (contains_char 0 patch) nul_byte
  raise_if (not (starts_with (text "diff --git ") patch)) no_git_header
  raise_if (any is_forbidden (splitlines patch)) forbidden_line
  ok patch
