-- ===== src/Fingerprint/Normalize/Tidied.antt =====
-- Texts whose lines end in no white space, for `normalize_fingerprint_text`.
use nodelm.Base.{
  ℕ, ◌≡◌, ◌≢◌, refl, sym, ap, ◌∙◌, Bool, true, false, ◌&&◌, List, [], ◌∷◌, map, Text, arith, eqb,
  eqb_iff, if◌then◌else◌, Bool-cases, inl, inr,
}
use nodelm.Base.Methods.{is_space, is_empty, rstrip, cons_head, split, join}

-- The text is at the end of a line.
unfoldable pub at_line_end : Text → Bool
at_line_end [] = true
at_line_end (c ∷ s) = eqb c 10

-- One pass that strips each line on the right.
unfoldable pub rstrip_lines : Text → Text
unfolding at_line_end
rstrip_lines [] = []
rstrip_lines (c ∷ s) =
    let rest = rstrip_lines s in
    if eqb c 10 then c ∷ rest else if is_space c && at_line_end rest then rest else c ∷ rest

-- No carriage return, and no space but a line feed before the end of a line.
abbrev pub Tidy : Text → Type 0
Tidy [] = Unit
Tidy (c ∷ s) = (c ≢ 13) × (c ≢ 10 → (is_space c && at_line_end s) ≡ false) × Tidy s

at_line_end-join : (parts : List Text) → at_line_end (join 10 ([] ∷ parts)) ≡ true
unfolding at_line_end join
at_line_end-join [] = refl
at_line_end-join (p ∷ parts) = refl

join-cons :
    (c : ℕ) (p : Text) (parts : List Text) → join 10 ((c ∷ p) ∷ parts) ≡ c ∷ join 10 (p ∷ parts)
unfolding join
join-cons c p [] = refl
join-cons c p (q ∷ parts) = refl

abbrev join_stripped : List Text → Text
join_stripped parts = join 10 (map rstrip parts)

-- A line that starts with `c`, put in front of the text that follows.
at_line_end_first :
    (c : ℕ) (p : Text) (parts : List Text)
    → c ≢ 10
    → at_line_end (join 10 (rstrip (c ∷ p) ∷ parts)) ≡ is_empty (rstrip (c ∷ p))
unfolding rstrip
at_line_end_first c p parts h = elim (Bool-cases (is_space c && is_empty (rstrip p))) [
  | inl t ↦ rw t (at_line_end-join parts)
  | inr f ↦ rw f (rw join-cons (unfold at_line_end is_empty in ground arith))
]

nil_of_is_empty : (s : Text) → is_empty s ≡ true → s ≡ []
unfolding is_empty
nil_of_is_empty [] h = refl
nil_of_is_empty (c ∷ s) h = cc

record Parts (s : Text) : Type 0 where
  first : Text
  others : List Text
  shape : split 10 s ≡ first ∷ others
  ends : at_line_end (join_stripped (first ∷ others)) ≡ is_empty (rstrip first)

parts : (s : Text) → Parts s
unfolding split rstrip
parts [] = record { first = []; others = []; shape = refl; ends = at_line_end-join [] }
parts (c ∷ s) = elim (Bool-cases (eqb c 10)) [
  | inl t ↦ record {
    first = [];
    others = split 10 s;
    shape = rw t;
    ends = at_line_end-join (map rstrip (split 10 s));
  }
  | inr f ↦
      let r = parts s in
      record {
        first = c ∷ r.first;
        others = r.others;
        shape = rw (f, r.shape);
        ends = at_line_end_first c r.first (map rstrip r.others) (ground arith);
      }
]

rstrip_lines-first :
    (c : ℕ) (p : Text) (others : List Text)
    → at_line_end (join_stripped (p ∷ others)) ≡ is_empty (rstrip p)
    → join_stripped ((c ∷ p) ∷ others) ≡ (
        if is_space c && at_line_end (join_stripped (p ∷ others))
        then join_stripped (p ∷ others)
        else c ∷ join_stripped (p ∷ others))
unfolding rstrip
rstrip_lines-first c p others e = elim (Bool-cases (is_space c && is_empty (rstrip p))) [
  | inl t ↦
      rw (t, e)
        (rw t
          (ap (λ q. join 10 (q ∷ map rstrip others)) (sym (nil_of_is_empty (rstrip p) (last t)))))
  | inr f ↦ rw (f, e) (rw f (join-cons c (rstrip p) (map rstrip others)))
]
  where
    last : (is_space c && is_empty (rstrip p)) ≡ true → is_empty (rstrip p) ≡ true
    last t = ground arith

-- A line feed first ends a line that is empty.
join_stripped-line_feed :
    (s : Text) → join_stripped ([] ∷ split 10 s) ≡ 10 ∷ join_stripped (split 10 s)
unfolding rstrip join
join_stripped-line_feed s = let r = parts s in rw r.shape

-- Stripping each line is one pass over the text.
pub rstrip_lines_lem : (s : Text) → join_stripped (split 10 s) ≡ rstrip_lines s
unfolding split rstrip_lines
rstrip_lines_lem [] = unfold rstrip join in refl
rstrip_lines_lem (c ∷ s) = elim (Bool-cases (eqb c 10)) [
  | inl t ↦
      let e : c ≡ 10 = (eqb_iff c 10).0 t in
      rw t (cc (join_stripped-line_feed s, rstrip_lines_lem s))
  | inr f ↦
      let r = parts s in
      let ih : join_stripped (r.first ∷ r.others) ≡ rstrip_lines s =
        sym (ap join_stripped r.shape) ∙ rstrip_lines_lem s in
      rw (f, r.shape) (unfold cons_head in rw (← ih) (rstrip_lines-first c r.first r.others r.ends))
]

-- A tidy text is left alone by the pass, and every pass leaves a tidy text.
pub rstrip_lines-Tidy_self : (s : Text) → Tidy s → rstrip_lines s ≡ s
unfolding rstrip_lines
rstrip_lines-Tidy_self [] h = refl
rstrip_lines-Tidy_self (c ∷ s) (a, b, h) =
    let ih = rstrip_lines-Tidy_self s h in
    elim (Bool-cases (eqb c 10)) [ inl t ↦ rw (t, ih) | inr f ↦ rw (f, ih) (rw (b (ground arith))) ]
