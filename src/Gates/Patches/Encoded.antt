-- ===== src/Gates/Patches/Encoded.antt =====
-- The bytes that `patch.encode` gives in `validate_text_git_patch` of harness/patches.py.
use nodelm.Base.{
  ℕ, ◌+◌, ◌/◌, ◌%◌, ◌≡◌, refl, List, [], ◌∷◌, ◌++◌, Text, arith, ltb, if◌then◌else◌, length,
  length-append, inl, inr, Bool-cases,
}
use nodelm.Gates.Patches.{utf8_length, encoded_length}

-- UTF-8: a leading byte with the highest bits of the code point, and six bits in each byte that continues it.
unfoldable utf8 : ℕ → List ℕ
utf8 c =
    if ltb c 0x80
    then c ∷ []
    else if ltb c 0x800
    then (0xc0 + c / 64) ∷ (0x80 + c % 64) ∷ []
    else if ltb c 0x10000
    then (0xe0 + c / 4096) ∷ (0x80 + c / 64 % 64) ∷ (0x80 + c % 64) ∷ []
    else (0xf0 + c / 262144) ∷ (0x80 + c / 4096 % 64) ∷ (0x80 + c / 64 % 64) ∷ (0x80 + c % 64) ∷ []

unfoldable pub encode : Text → List ℕ
unfolding utf8
encode [] = []
encode (c ∷ s) = utf8 c ++ encode s

length-utf8 : (c : ℕ) → length (utf8 c) ≡ utf8_length c
unfolding utf8 utf8_length
length-utf8 c = elim (Bool-cases (ltb c 0x80)) [
  | inl t ↦ rw t refl
  | inr f ↦ elim (Bool-cases (ltb c 0x800)) [
    | inl t ↦ rw (f, t) refl
    | inr g ↦ elim (Bool-cases (ltb c 0x10000)) [
      | inl t ↦ rw (f, g, t) refl
      | inr h ↦ rw (f, g, h) refl
    ]
  ]
]

pub length-encode : (s : Text) → length (encode s) ≡ encoded_length s
unfolding encode encoded_length
length-encode [] = refl
length-encode (c ∷ s) =
    let e = length-append (utf8 c) (encode s) in
    let f = length-utf8 c in let g = length-encode s in omega arith

-- "aé€😀"
encoded :
    encode (97 ∷ 0xe9 ∷ 0x20ac ∷ 0x1f600 ∷ [])
    ≡ 97 ∷ 0xc3 ∷ 0xa9 ∷ 0xe2 ∷ 0x82 ∷ 0xac ∷ 0xf0 ∷ 0x9f ∷ 0x98 ∷ 0x80 ∷ []
unfolding encode
encoded = refl
