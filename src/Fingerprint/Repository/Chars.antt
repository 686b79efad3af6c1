-- ===== src/Fingerprint/Repository/Chars.antt =====
-- The characters of the parts that `canonical_repository` of decontamination/fingerprints.py takes from a
-- text in lower case.
use nodelm.Base.{
  ℕ, ◌≡◌, ◌≢◌, refl, ap, sym, ◌∙◌, subst, Bool, false, ◌&&◌, List, [], ◌∷◌, Text, arith, leb, eqb,
  In, inl, inr, Bool-cases,
}
use nodelm.Base.Methods.{split, cons_head}
use nodelm.Base.Urls.{lower}

-- A capital letter of ASCII.
abbrev pub is_capital : ℕ → Bool
is_capital c = leb 65 c && leb c 90

abbrev pub NoCapital : Text → Type 0
NoCapital s = (c : ℕ) → In c s → is_capital c ≡ false

abbrev pub NoSlash : Text → Type 0
NoSlash s = (c : ℕ) → In c s → c ≢ 47

pub lower-NoCapital : (s : Text) → NoCapital (lower s)
unfolding lower
lower-NoCapital [] c i = absurd i
lower-NoCapital (d ∷ s) c (inl e) = ground arith
lower-NoCapital (d ∷ s) c (inr i) = lower-NoCapital s c i

-- What holds of the parts of a text without capitals that is split at its slashes.
abbrev IsPart : Text → Type 0
IsPart part = NoCapital part × NoSlash part

IsPart-cons :
    (d : ℕ) (part : Text) → is_capital d ≡ false → d ≢ 47 → IsPart part → IsPart (d ∷ part)
IsPart-cons d part f n (g, h) = (
  λ c i. elim i [ inl e ↦ ap is_capital e ∙ f | inr j ↦ g c j ],
  λ c i. elim i [ inl e ↦ λ k. n (sym e ∙ k) | inr j ↦ h c j ],
)

empty-IsPart : IsPart []
empty-IsPart = (λ c i. absurd i, λ c i. absurd i)

cons_head-IsPart :
    (d : ℕ) (parts : List Text)
    → is_capital d ≡ false
    → d ≢ 47
    → ((part : Text) → In part parts → IsPart part)
    → (part : Text) → In part (cons_head d parts)
    → IsPart part
unfolding cons_head
cons_head-IsPart d [] f n h part (inl e) = subst IsPart (sym e) (IsPart-cons d [] f n empty-IsPart)
cons_head-IsPart d [] f n h part (inr i) = absurd i
cons_head-IsPart d (p ∷ ps) f n h part (inl e) =
    subst IsPart (sym e) (IsPart-cons d p f n (h p (inl refl)))
cons_head-IsPart d (p ∷ ps) f n h part (inr i) = h part (inr i)

pub split-IsPart :
    (s : Text) → NoCapital s → (part : Text) → In part (split 47 s) → NoCapital part × NoSlash part
unfolding split
split-IsPart [] low part (inl e) = subst IsPart (sym e) empty-IsPart
split-IsPart [] low part (inr i) = absurd i
split-IsPart (d ∷ s) low part i =
    let rest = split-IsPart s (λ c j. low c (inr j)) in
    elim (Bool-cases (eqb d 47)) [
      | inl t ↦ elim (let k : In part ([] ∷ split 47 s) = rw t at i in k) [
        | inl e ↦ subst IsPart (sym e) empty-IsPart
        | inr j ↦ rest part j
      ]
      | inr f ↦
          cons_head-IsPart d (split 47 s) (low d (inl refl)) (λ e. ground arith) rest part
            (rw f at i)
    ]
