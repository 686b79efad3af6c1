-- ===== src/Gates/Patches/Lines.antt =====
-- The lines of a text that `validate_text_git_patch` of harness/patches.py looks at.
use nodelm.Base.{
  ℕ, ◌≡◌, ◌≢◌, refl, sym, ap, ◌∙◌, subst, false, ◌&&◌, List, [], ◌∷◌, ◌++◌, Text, arith, eqb, In,
  inl, inr, Bool-cases,
}
use nodelm.Base.Methods.{cons_head, replace_crlf}
use nodelm.Gates.Status.{any}
use nodelm.Gates.Patches.{is_boundary, lines_of, splitlines}

replace_crlf-cons : (c : ℕ) (s : Text) → c ≢ 13 → replace_crlf (c ∷ s) ≡ c ∷ replace_crlf s
unfolding replace_crlf
replace_crlf-cons c [] n = refl
replace_crlf-cons c (d ∷ s) n = ground arith

-- A line feed ends a line, whatever stands before it.
replace_crlf-line_feed :
    (a s : Text) → (y : Text) × (replace_crlf (a ++ (10 ∷ s)) ≡ y ++ (10 ∷ replace_crlf s))
unfolding replace_crlf
replace_crlf-line_feed [] s = ([], replace_crlf-cons 10 s (λ e. ground arith))
replace_crlf-line_feed (c ∷ []) s = elim (Bool-cases (eqb c 13)) [
  | inl t ↦ ([], rw t refl)
  | inr f ↦ (c ∷ [], rw f (ap (λ x. c ∷ x) (replace_crlf-cons 10 s (λ e. ground arith))))
]
replace_crlf-line_feed (c ∷ d ∷ a) s = elim (Bool-cases (eqb c 13 && eqb d 10)) [
  | inl t ↦ let (y, e) = replace_crlf-line_feed a s in (10 ∷ y, rw (t, e) refl)
  | inr f ↦ let (y, e) = replace_crlf-line_feed (d ∷ a) s in (c ∷ y, rw (f, e) refl)
]

-- A text that is within one line.
abbrev pub WithinLine : Text → Type 0
WithinLine k = any is_boundary k ≡ false

first_within : (c : ℕ) (k : Text) → WithinLine (c ∷ k) → (is_boundary c ≡ false) × WithinLine k
unfolding any
first_within c k w = (ground arith, ground arith)

not_return : (c : ℕ) → is_boundary c ≡ false → c ≢ 13
unfolding is_boundary
not_return c f e = ground arith

replace_crlf-within : (k b : Text) → WithinLine k → replace_crlf (k ++ b) ≡ k ++ replace_crlf b
replace_crlf-within [] b w = refl
replace_crlf-within (c ∷ k) b w =
    let (f, v) = first_within c k w in
    replace_crlf-cons c (k ++ b) (not_return c f) ∙ ap (λ x. c ∷ x) (replace_crlf-within k b v)

lines_of-cons :
    (c : ℕ) (s : Text) → is_boundary c ≡ false → lines_of (c ∷ s) ≡ cons_head c (lines_of s)
unfolding lines_of
lines_of-cons c s f = rw f refl

-- A line of what follows a line feed is a line of the whole text, though not its first.
lines_of-line_feed :
    (y s line : Text)
    → In line (lines_of s)
    → (h : Text) × (t : List Text) × (lines_of (y ++ (10 ∷ s)) ≡ h ∷ t) × In line t
unfolding lines_of cons_head is_boundary
lines_of-line_feed [] s line i = ([], lines_of s, refl, i)
lines_of-line_feed (c ∷ y) s line i =
    let (h, t, e, j) = lines_of-line_feed y s line i in
    elim (Bool-cases (is_boundary c)) [
      | inl b ↦ ([], h ∷ t, rw (b, e) refl, inr j)
      | inr f ↦ (c ∷ h, t, lines_of-cons c (y ++ (10 ∷ s)) f ∙ ap (cons_head c) e, j)
    ]

-- The first line of a text goes on from a beginning that is within it.
lines_of-within :
    (c : ℕ) (k b : Text)
    → WithinLine (c ∷ k)
    → (h : Text) × (t : List Text) × (lines_of (c ∷ k ++ b) ≡ (c ∷ k ++ h) ∷ t)
unfolding cons_head
lines_of-within c [] b w =
    let (f, _) = first_within c [] w in head (lines_of b) (lines_of-cons c b f)
  where
    head :
        (parts : List Text)
        → lines_of (c ∷ b) ≡ cons_head c parts
        → (h : Text) × (t : List Text) × (lines_of (c ∷ b) ≡ (c ∷ h) ∷ t)
    head [] e = ([], [], e)
    head (part ∷ parts) e = (part, parts, e)
lines_of-within c (d ∷ k) b w =
    let (f, v) = first_within c (d ∷ k) w in
    let (h, t, e) = lines_of-within d k b v in
    (h, t, lines_of-cons c (d ∷ k ++ b) f ∙ ap (cons_head c) e)

-- The first line of a text with a line feed after it.
lines_of-whole : (k b : Text) → WithinLine k → lines_of (k ++ (10 ∷ b)) ≡ k ∷ lines_of b
unfolding lines_of cons_head is_boundary
lines_of-whole [] b w = refl
lines_of-whole (c ∷ k) b w =
    let (f, v) = first_within c k w in
    lines_of-cons c (k ++ (10 ∷ b)) f ∙ ap (cons_head c) (lines_of-whole k b v)

In-first : (line : Text) (parts t : List Text) → parts ≡ line ∷ t → In line parts
In-first line parts t e = subst (In line) (sym e) (inl refl)

-- A line of what follows a line feed is one of `splitlines`.
In-splitlines : (a s line : Text) → In line (splitlines s) → In line (splitlines (a ++ (10 ∷ s)))
unfolding splitlines
In-splitlines a s line i =
    let (y, e) = replace_crlf-line_feed a s in
    let (h, t, g, j) = lines_of-line_feed y (replace_crlf s) line i in
    subst (In line) (sym (ap lines_of e ∙ g)) (inr j)

-- What stands after a line feed begins a line.
pub begins_line :
    (a : Text) (c : ℕ) (k b : Text)
    → WithinLine (c ∷ k)
    → (h : Text) × In (c ∷ k ++ h) (splitlines (a ++ (10 ∷ (c ∷ k ++ b))))
unfolding splitlines
begins_line a c k b w =
    let (h, t, e) = lines_of-within c k (replace_crlf b) w in
    (
      h,
      In-splitlines a (c ∷ k ++ b) (c ∷ k ++ h)
          (In-first _ _ t (ap lines_of (replace_crlf-within (c ∷ k) b w) ∙ e)),
    )

-- What stands between two line feeds is a line.
pub is_line : (a k b : Text) → WithinLine k → In k (splitlines (a ++ (10 ∷ (k ++ (10 ∷ b)))))
unfolding splitlines
is_line a k b w =
    let after = replace_crlf-cons 10 b (λ e. ground arith) in
    In-splitlines a (k ++ (10 ∷ b)) k (
      In-first k _ _ (
        ap lines_of (replace_crlf-within k (10 ∷ b) w ∙ ap (λ x. k ++ x) after)
        ∙ lines_of-whole k (replace_crlf b) w))
