-- ===== src/Provenance/GoldFree.antt =====
-- The policy on gold and reference fields of provenance/normalize.py.
pub mod Paths
use nodelm.Base.{
  ℕ, ◌+◌, Bool, true, false, ◌&&◌, ◌||◌, List, [], ◌∷◌, ◌++◌, Text, text, ◌==◌, leb, eqb,
  if◌then◌else◌, Result, ok, err, ◌>>=◌, ◌>>◌, raise_if,
}
use nodelm.Base.Methods.{is_empty}
use nodelm.Gates.Status.{any}
use nodelm.Provenance.Values.{
  Value, Items, Fields, null, floating, boolean, integer, negative, string, array, object, nil,
  cons, end, field,
}

is_lower : ℕ → Bool
is_lower c = leb 97 c && leb c 122

is_digit : ℕ → Bool
is_digit c = leb 48 c && leb c 57

is_upper : ℕ → Bool
is_upper c = leb 65 c && leb c 90

-- `re.sub(r"(?<=[a-z0-9])(?=[A-Z])", "_", field)`, with whether the character before is a lower-case
-- letter or a digit.
unfoldable pub camel_split : Bool → Text → Text
unfolding is_lower is_digit is_upper
camel_split after [] = []
camel_split after (c ∷ s) =
    let rest = c ∷ camel_split (is_lower c || is_digit c) s in
    if after && is_upper c then 95 ∷ rest else rest

-- `str.casefold` of one character, as far as it gives ASCII letters: any other letter is kept, and
-- separates tokens as what it folds to would.
unfoldable pub casefold_char : ℕ → Text
unfolding is_upper
casefold_char c =
    if is_upper c
    then (c + 32) ∷ []
    else if eqb c 0xdf || eqb c 0x1e9e
    then text "ss"
    else if eqb c 0x130
    then b'i' ∷ 0x307 ∷ []
    else if eqb c 0x149
    then 0x2bc ∷ b'n' ∷ []
    else if eqb c 0x17f
    then text "s"
    else if eqb c 0x1f0
    then b'j' ∷ 0x30c ∷ []
    else if eqb c 0x1e96
    then b'h' ∷ 0x331 ∷ []
    else if eqb c 0x1e97
    then b't' ∷ 0x308 ∷ []
    else if eqb c 0x1e98
    then b'w' ∷ 0x30a ∷ []
    else if eqb c 0x1e99
    then b'y' ∷ 0x30a ∷ []
    else if eqb c 0x1e9a
    then b'a' ∷ 0x2be ∷ []
    else if eqb c 0x212a
    then text "k"
    else if eqb c 0xfb00
    then text "ff"
    else if eqb c 0xfb01
    then text "fi"
    else if eqb c 0xfb02
    then text "fl"
    else if eqb c 0xfb03
    then text "ffi"
    else if eqb c 0xfb04
    then text "ffl"
    else if eqb c 0xfb05 || eqb c 0xfb06
    then text "st"
    else c ∷ []

unfoldable pub casefold : Text → Text
unfolding casefold_char
casefold [] = []
casefold (c ∷ s) = casefold_char c ++ casefold s

-- `re.findall(r"[a-z0-9]+", s)`, with the token that is being read.
unfoldable pub tokens : Text → Text → List Text
unfolding is_lower is_digit is_empty
tokens token [] = if is_empty token then [] else token ∷ []
tokens token (c ∷ s) =
    let inside = is_lower c || is_digit c in
    let rest = tokens (if inside then token ++ c ∷ [] else []) s in
    if inside || is_empty token then rest else token ∷ rest

unfoldable pub field_tokens : Text → List Text
unfolding tokens casefold camel_split
field_tokens name = tokens [] (casefold (camel_split false name))

unfoldable pub has_token : List Text → Text → Bool
unfolding ◌==◌ any
has_token found token = any (λ t. t == token) found

abbrev pub patch_tokens : List Text
patch_tokens = text "patch" ∷ text "diff" ∷ []

abbrev pub reference_tokens : List Text
reference_tokens =
    text "gold"
    ∷ text "golden"
    ∷ text "reference"
    ∷ text "ref"
    ∷ text "oracle"
    ∷ text "groundtruth"
    ∷ []

unfoldable pub field_references_gold : Text → Bool
unfolding field_tokens has_token any
field_references_gold name =
    let found = field_tokens name in
    any (has_token found) reference_tokens
    || has_token found (text "ground") && has_token found (text "truth")

unfoldable pub field_contains_patch : Text → Bool
unfolding field_tokens has_token any
field_contains_patch name = any (has_token (field_tokens name)) patch_tokens

unfoldable pub is_reference_patch_field : Text → Bool
unfolding field_references_gold field_contains_patch
is_reference_patch_field name = field_references_gold name && field_contains_patch name

pub data GoldFieldError : Type 0 where
  forbidden_patch : GoldFieldError

unfoldable mutual
  -- With whether a field around the value references gold.
  pub validate_gold_free : Bool → Value → Result GoldFieldError (Unit {0})
  validate_gold_free scope null = ok tt
  validate_gold_free scope (floating t) = ok tt
  validate_gold_free scope (boolean b) = ok tt
  validate_gold_free scope (integer n) = ok tt
  validate_gold_free scope (negative n) = ok tt
  validate_gold_free scope (string s) = ok tt
  validate_gold_free scope (array items) = validate_items scope items
  validate_gold_free scope (object fields) = validate_fields scope fields

  pub validate_items : Bool → Items → Result GoldFieldError (Unit {0})
  validate_items scope nil = ok tt
  validate_items scope (cons value items) =
      validate_gold_free scope value >> validate_items scope items

  pub validate_fields : Bool → Fields → Result GoldFieldError (Unit {0})
  validate_fields scope end = ok tt
  validate_fields scope (field key value fields) =
      let inner = validate_gold_free (scope || field_references_gold key) value in
      let rest = validate_fields scope fields in
      raise_if (field_contains_patch key && (scope || field_references_gold key)) forbidden_patch
      >> (inner >> rest)

abbrev pub validate_gold_free_trajectory : Value → Result GoldFieldError (Unit {0})
validate_gold_free_trajectory = validate_gold_free false
