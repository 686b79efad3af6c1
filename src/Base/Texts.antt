-- ===== src/Base/Texts.antt =====
-- Python's `str` as its code points, with `==` and the order that `sorted`, `min` and SQLite's
-- binary collation use.
use Prim.Native.Char.{code}
use Prim.Native.String.{String}
use Prim.Native.Nat.{ℕ}
use mathlib.Core.Path.{◌≡◌, refl}
use mathlib.Core.Logic.{◌↔◌, ◌⊎◌, inl, inr}
use mathlib.Core.Bool.{Bool, true, false, ◌&&◌}
use mathlib.Core.List.{List, [], ◌∷◌}
use native.Mathlib.Omega.{arith}
use nodelm.Base.Tests.{eqb, ltb, if◌then◌else◌}

abbrev pub Text : Type 0
Text = List ℕ

abbrev pub text : String → Text
text String.[] = []
text (String.◌∷◌ c s) = code c ∷ text s

infix 50 ◌==◌
unfoldable pub ◌==◌ : Text → Text → Bool
[] == [] = true
[] == (c ∷ t) = false
(c ∷ s) == [] = false
(c ∷ s) == (d ∷ t) = eqb c d && s == t

unfoldable pub ltb_text : Text → Text → Bool
ltb_text [] [] = false
ltb_text [] (d ∷ t) = true
ltb_text (c ∷ s) [] = false
ltb_text (c ∷ s) (d ∷ t) = if ltb c d then true else (eqb c d && ltb_text s t)

pub ==-refl : (s : Text) → (s == s) ≡ true
unfolding ◌==◌
==-refl [] = refl
==-refl (c ∷ s) = ground (arith, ==-refl s)

pub eq_of_== : (s t : Text) → (s == t) ≡ true → s ≡ t
unfolding ◌==◌
eq_of_== [] [] h = refl
eq_of_== [] (d ∷ t) h = ground arith
eq_of_== (c ∷ s) [] h = ground arith
eq_of_== (c ∷ s) (d ∷ t) h = ground (arith, eq_of_== s t)

pub ==_iff : (s t : Text) → ((s == t) ≡ true) ↔ (s ≡ t)
==_iff s t = (eq_of_== s t, λ e. ground (arith, ==-refl s))

pub ltb_text_irrefl : (s : Text) → ltb_text s s ≡ false
unfolding ltb_text
ltb_text_irrefl [] = refl
ltb_text_irrefl (c ∷ s) = ground (arith, ltb_text_irrefl s)

pub ltb_text_asymm : (s t : Text) → ltb_text s t ≡ true → ltb_text t s ≡ false
unfolding ltb_text
ltb_text_asymm [] [] h = refl
ltb_text_asymm [] (d ∷ t) h = refl
ltb_text_asymm (c ∷ s) [] h = ground arith
ltb_text_asymm (c ∷ s) (d ∷ t) h = ground (arith, ltb_text_asymm s t)

pub ltb_text_total : (s t : Text) → (ltb_text s t ≡ true) ⊎ ((s ≡ t) ⊎ (ltb_text t s ≡ true))
unfolding ltb_text
ltb_text_total [] [] = inr (inl refl)
ltb_text_total [] (d ∷ t) = inl refl
ltb_text_total (c ∷ s) [] = inr (inr refl)
ltb_text_total (c ∷ s) (d ∷ t) = ground (arith, ltb_text_total s t)

pub ltb_text_trans :
    (s t u : Text) → ltb_text s t ≡ true → ltb_text t u ≡ true → ltb_text s u ≡ true
unfolding ltb_text
ltb_text_trans [] [] u h k = ground arith
ltb_text_trans [] (d ∷ t) [] h k = ground arith
ltb_text_trans [] (d ∷ t) (e ∷ u) h k = refl
ltb_text_trans (c ∷ s) [] u h k = ground arith
ltb_text_trans (c ∷ s) (d ∷ t) [] h k = ground arith
ltb_text_trans (c ∷ s) (d ∷ t) (e ∷ u) h k = ground (arith, ltb_text_trans s t u)
