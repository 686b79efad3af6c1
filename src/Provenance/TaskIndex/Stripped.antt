-- ===== src/Provenance/TaskIndex/Stripped.antt =====
-- The fields that `task_metadata_index` of provenance/pipeline.py stores have no white space around them.
use mathlib.Core.List.{append-nil}
use nodelm.Base.{
  ℕ, length, ◌≤◌, ◌≡◌, refl, ap, inl, inr, Bool, true, false, not, ◌&&◌, [], ◌∷◌, ◌++◌, Text, arith,
  Bool-cases,
}
use nodelm.Fingerprint.Normalize.Stable.{rstrip-rstrip, lstrip-rstrip-lstrip}
use nodelm.Base.Methods.{is_space, strip, rstrip, lstrip, is_empty}
use nodelm.Provenance.GoldFree.{casefold_char, casefold}

abbrev is_visible : Text → Bool
is_visible [] = true
is_visible (c ∷ s) = not (is_space c) && is_visible s

abbrev IsVisible : Text → Type 0
IsVisible s = (is_visible s ≡ true) × (is_empty s ≡ false)

casefold_char-IsVisible : (c : ℕ) → is_space c ≡ false → IsVisible (casefold_char c)
unfolding casefold_char is_space is_empty
casefold_char-IsVisible c h = ground arith

pub casefold_char-some : (c : ℕ) (s : Text) → is_empty (casefold_char c ++ s) ≡ false
unfolding casefold_char is_empty
casefold_char-some c s = ground arith

append-some : (s t : Text) → is_empty t ≡ false → is_empty (s ++ t) ≡ false
unfolding is_empty
append-some [] t e = e
append-some (c ∷ s) t e = refl

rstrip_after : (s t : Text) → rstrip t ≡ t → is_empty t ≡ false → rstrip (s ++ t) ≡ s ++ t
unfolding rstrip is_empty
rstrip_after [] t h e = h
rstrip_after (c ∷ s) t h e = rw (rstrip_after s t h e) (let e2 = append-some s t e in ground arith)

rstrip_visible : (s : Text) → is_visible s ≡ true → rstrip s ≡ s
unfolding rstrip
rstrip_visible [] h = refl
rstrip_visible (c ∷ s) h = ground (arith, rstrip_visible s)

lstrip_visible : (s t : Text) → IsVisible s → lstrip (s ++ t) ≡ s ++ t
unfolding lstrip is_empty
lstrip_visible [] t (v, e) = cc
lstrip_visible (c ∷ s) t (v, e) = ground arith

-- A text with no white space around it.
pub record IsTrimmed (s : Text) : Type 0 where
  pub left : lstrip s ≡ s
  pub right : rstrip s ≡ s

pub strip-IsTrimmed : (s : Text) → IsTrimmed (strip s)
unfolding strip
strip-IsTrimmed s = record { left = lstrip-rstrip-lstrip s; right = rstrip-rstrip (lstrip s) }

length-lstrip : (s : Text) → length (lstrip s) ≤ length s
unfolding lstrip
length-lstrip [] = omega arith
length-lstrip (c ∷ s) = ground (arith, length-lstrip s)

first_visible : (c : ℕ) (s : Text) → lstrip (c ∷ s) ≡ c ∷ s → is_space c ≡ false
unfolding lstrip
first_visible c s h = elim (Bool-cases (is_space c)) [
  | inr f ↦ f
  | inl t ↦ let longer = ap length (rw t at h) in absurd (ground (arith, length-lstrip s))
]

casefold-left : (s : Text) → lstrip s ≡ s → lstrip (casefold s) ≡ casefold s
unfolding casefold is_space is_empty
casefold-left [] h = h
casefold-left (c ∷ s) h =
    lstrip_visible (casefold_char c) (casefold s) (casefold_char-IsVisible c (first_visible c s h))

record IsLast (c : ℕ) (s : Text) : Type 0 where
  rest : rstrip s ≡ s
  visible : (is_empty s && is_space c) ≡ false

IsLast-of : (c : ℕ) (s : Text) → rstrip (c ∷ s) ≡ c ∷ s → IsLast c s
unfolding rstrip is_empty
IsLast-of c s h = elim (Bool-cases (is_space c && is_empty (rstrip s))) [
  | inl t ↦ absurd (nil_cons (rw t at h))
  | inr f ↦
      let same : rstrip s ≡ s = cons_tail (rw f at h) in
      record { rest = same; visible = let g = ap is_empty same in ground arith }
]
  where
    nil_cons : ◌≡◌ {A = Text} [] (c ∷ s) → ⊥
    nil_cons g = cc

    cons_tail : {t : Text} → ◌≡◌ {A = Text} (c ∷ t) (c ∷ s) → t ≡ s
    cons_tail g = cc

casefold-right : (s : Text) → rstrip s ≡ s → rstrip (casefold s) ≡ casefold s
unfolding casefold is_space is_empty
casefold-right [] h = h
casefold-right (c ∷ []) h =
    let v = (IsLast-of c [] h).visible in
    rw (append-nil (casefold_char c))
      (rstrip_visible (casefold_char c) (casefold_char-IsVisible c v).0)
casefold-right (c ∷ d ∷ s) h =
    rstrip_after (casefold_char c) (casefold (d ∷ s))
      (casefold-right (d ∷ s) (IsLast-of c (d ∷ s) h).rest) (casefold_char-some d (casefold s))

pub casefold-IsTrimmed : (s : Text) → IsTrimmed s → IsTrimmed (casefold s)
casefold-IsTrimmed s h = record { left = casefold-left s h.left; right = casefold-right s h.right }
