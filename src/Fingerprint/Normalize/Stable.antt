-- ===== src/Fingerprint/Normalize/Stable.antt =====
-- `normalize_fingerprint_text` on its own results.
use nodelm.Base.{
  ℕ, ◌≡◌, ◌≢◌, refl, ap, false, ◌&&◌, List, [], ◌∷◌, Text, arith, eqb, eqb_iff, ◌⊎◌, Bool-cases,
  inl, inr,
}
use nodelm.Base.Methods.{is_space, is_empty, lstrip, rstrip, strip, replace_char, replace_crlf}
use nodelm.Base.Digests.{hexdigest}
use nodelm.Fingerprint.Normalize.{normalize_fingerprint_text, exact_fingerprint}
use nodelm.Fingerprint.Normalize.Tidied.{
  Tidy, at_line_end, rstrip_lines, rstrip_lines-Tidy_self, rstrip_lines_lem,
}

-- No carriage return is left.
abbrev NoReturn : Text → Type 0
NoReturn [] = Unit
NoReturn (c ∷ s) = (c ≢ 13) × NoReturn s

replace_char-NoReturn : (s : Text) → NoReturn (replace_char 13 10 s)
unfolding replace_char
replace_char-NoReturn [] = tt
replace_char-NoReturn (c ∷ s) = (ground arith, replace_char-NoReturn s)

rstrip_lines-Tidy : (s : Text) → NoReturn s → Tidy (rstrip_lines s)
unfolding rstrip_lines
rstrip_lines-Tidy [] h = tt
rstrip_lines-Tidy (c ∷ s) (a, h) =
    let ih = rstrip_lines-Tidy s h in
    elim (Bool-cases (eqb c 10)) [
      | inl t ↦ rw t (a, λ n. absurd (n ((eqb_iff c 10).0 t)), ih)
      | inr f ↦ elim (Bool-cases (is_space c && at_line_end (rstrip_lines s))) [
        | inl t ↦ rw (f, t) ih
        | inr g ↦ rw (f, g) (a, λ n. g, ih)
      ]
    ]

replace_char-NoReturn_self : (s : Text) → NoReturn s → replace_char 13 10 s ≡ s
unfolding replace_char
replace_char-NoReturn_self [] h = refl
replace_char-NoReturn_self (c ∷ s) (a, h) = ground (arith, replace_char-NoReturn_self s h)

replace_crlf-NoReturn_self : (s : Text) → NoReturn s → replace_crlf s ≡ s
unfolding replace_crlf
replace_crlf-NoReturn_self [] h = refl
replace_crlf-NoReturn_self (c ∷ []) h = refl
replace_crlf-NoReturn_self (c ∷ d ∷ s) (a, h) = ground (arith, replace_crlf-NoReturn_self (d ∷ s) h)

Tidy-NoReturn : (s : Text) → Tidy s → NoReturn s
Tidy-NoReturn [] h = tt
Tidy-NoReturn (c ∷ s) (a, b, h) = (a, Tidy-NoReturn s h)

lstrip-Tidy : (s : Text) → Tidy s → Tidy (lstrip s)
unfolding lstrip
lstrip-Tidy [] h = tt
lstrip-Tidy (c ∷ s) (a, b, h) = elim (Bool-cases (is_space c)) [
  | inl t ↦ rw t (lstrip-Tidy s h)
  | inr f ↦ rw f (a, b, h)
]

-- A text that is stripped on the right begins as it did, or is empty.
at_line_end-rstrip :
    (s : Text)
    → (rstrip s ≡ []) ⊎ ((is_empty (rstrip s) ≡ false) × (at_line_end (rstrip s) ≡ at_line_end s))
unfolding rstrip is_empty at_line_end
at_line_end-rstrip [] = inl refl
at_line_end-rstrip (c ∷ s) = elim (Bool-cases (is_space c && is_empty (rstrip s))) [
  | inl t ↦ inl (rw t)
  | inr f ↦ inr (rw f refl, rw f refl)
]

rstrip-Tidy : (s : Text) → Tidy s → Tidy (rstrip s)
unfolding rstrip
rstrip-Tidy [] h = tt
rstrip-Tidy (c ∷ s) (a, b, h) = elim (Bool-cases (is_space c && is_empty (rstrip s))) [
  | inl t ↦ rw t tt
  | inr f ↦ rw f (
    a,
    λ n. unfold at_line_end is_empty in ground (arith, b n, at_line_end-rstrip s),
    rstrip-Tidy s h,
  )
]

pub rstrip-rstrip : (s : Text) → rstrip (rstrip s) ≡ rstrip s
unfolding rstrip
rstrip-rstrip [] = refl
rstrip-rstrip (c ∷ s) = ground (arith, rstrip-rstrip s)

pub lstrip-rstrip-lstrip : (s : Text) → lstrip (rstrip (lstrip s)) ≡ rstrip (lstrip s)
unfolding lstrip rstrip
lstrip-rstrip-lstrip [] = refl
lstrip-rstrip-lstrip (c ∷ s) = ground (arith, lstrip-rstrip-lstrip s)

strip-strip : (s : Text) → strip (strip s) ≡ strip s
unfolding strip
strip-strip s = rw lstrip-rstrip-lstrip (rstrip-rstrip (lstrip s))

-- The normal form of a text.
abbrev pass : Text → Text
pass s = rstrip_lines (replace_char 13 10 (replace_crlf s))

normalize_lem : (s : Text) → normalize_fingerprint_text s ≡ strip (pass s)
unfolding normalize_fingerprint_text
normalize_lem s = ap strip (rstrip_lines_lem (replace_char 13 10 (replace_crlf s)))

strip-pass-Tidy : (s : Text) → Tidy (strip (pass s))
unfolding strip
strip-pass-Tidy s =
    rstrip-Tidy _ (lstrip-Tidy _ (rstrip_lines-Tidy _ (replace_char-NoReturn (replace_crlf s))))

pass-Tidy_self : (s : Text) → Tidy s → pass s ≡ s
pass-Tidy_self s h =
    let n = Tidy-NoReturn s h in
    rw (replace_crlf-NoReturn_self s n, replace_char-NoReturn_self s n) (rstrip_lines-Tidy_self s h)

-- The normal form of a text is its own normal form.
pub normalize-normalize :
    (s : Text)
    → normalize_fingerprint_text (normalize_fingerprint_text s) ≡ normalize_fingerprint_text s
normalize-normalize s =
    rw (normalize_lem s, normalize_lem (strip (pass s)), pass-Tidy_self _ (strip-pass-Tidy s))
      (strip-strip (pass s))

-- A text and its normal form have one fingerprint.
pub exact_fingerprint-normalize :
    (sha256 : Text → List ℕ) (s : Text)
    → exact_fingerprint sha256 (normalize_fingerprint_text s) ≡ exact_fingerprint sha256 s
unfolding exact_fingerprint
exact_fingerprint-normalize sha256 s = ap (λ t. hexdigest (sha256 t)) (normalize-normalize s)
