-- ===== src/Base/Urls.antt =====
-- `urlsplit` of Python's urllib.parse, as far as the program reads its result: the host name and
-- the path of a URL. Host names are read as ASCII, so the check for compatibility characters in a
-- network location, which only concerns other characters, is left out, and so is the check that a
-- bracketed host is an address.
use Prim.Native.Nat.{ℕ, ◌+◌}
use mathlib.Core.Bool.{Bool, true, false, not, ◌&&◌, ◌||◌, xor}
use mathlib.Core.List.{[], ◌∷◌}
use mathlib.Core.Option.{Option, none, some}
use nodelm.Base.Tests.{eqb, leb, if◌then◌else◌}
use nodelm.Base.Lists.{select}
use nodelm.Base.Texts.{Text, text}

-- What follows a prefix.
unfoldable pub after_prefix : Text → Text → Option Text
after_prefix [] s = some s
after_prefix (c ∷ p) [] = none
after_prefix (c ∷ p) (d ∷ s) = let rest = after_prefix p s in if eqb c d then rest else none

-- `s.partition(sep)` for one character: the parts, or none if the separator is absent.
unfoldable pub partition : ℕ → Text → Option (Text × Text)
partition sep [] = none
partition sep (c ∷ s) =
    let rest : Option (Text × Text) = elim (partition sep s) [
      | none ↦ none
      | some (a, b) ↦ some (c ∷ a, b)
    ] in
    if eqb c sep then some ([], s) else rest

-- `s.partition(sep)[0]`
unfoldable pub before : ℕ → Text → Text
unfolding partition
before sep s = elim (partition sep s) [ none ↦ s | some (a, b) ↦ a ]

unfoldable pub contains_char : ℕ → Text → Bool
contains_char x [] = false
contains_char x (d ∷ t) = eqb d x || contains_char x t

-- `s.rpartition(sep)[2]`
unfoldable pub after_last : ℕ → Text → Text
unfolding contains_char
after_last sep [] = []
after_last sep (c ∷ s) =
    let rest = after_last sep s in
    if contains_char sep s then rest else if eqb c sep then s else c ∷ s

unfoldable pub lower : Text → Text
lower [] = []
lower (c ∷ s) = (if leb 65 c && leb c 90 then c + 32 else c) ∷ lower s

is_letter : ℕ → Bool
is_letter c = (leb 65 c && leb c 90) || (leb 97 c && leb c 122)

-- letters, digits, "+", "-" and "."
is_scheme_char : ℕ → Bool
unfolding is_letter
is_scheme_char c = is_letter c || (leb 48 c && leb c 57) || eqb c 43 || eqb c 45 || eqb c 46

all_scheme_chars : Text → Bool
unfolding is_scheme_char
all_scheme_chars [] = true
all_scheme_chars (c ∷ s) = is_scheme_char c && all_scheme_chars s

is_scheme : Text → Bool
unfolding all_scheme_chars
is_scheme [] = false
is_scheme (c ∷ s) = is_letter c && all_scheme_chars (c ∷ s)

-- The URL without its scheme, where it has one.
without_scheme : Text → Text
unfolding is_scheme partition
without_scheme url = elim (partition 58 url) [
  | none ↦ url
  | some (scheme, rest) ↦ if is_scheme scheme then rest else url
]

-- The network location ends before the first of "/", "?" and "#".
split_netloc : Text → Text × Text
split_netloc [] = ([], [])
split_netloc (c ∷ s) =
    let (a, b) = split_netloc s in
    if eqb c 47 || eqb c 63 || eqb c 35 then ([], c ∷ s) else (c ∷ a, b)

lstrip_control : Text → Text
lstrip_control [] = []
lstrip_control (c ∷ s) = let rest = lstrip_control s in if leb c 32 then rest else c ∷ s

-- Python removes tabs, carriage returns and line feeds.
remove_unsafe : Text → Text
remove_unsafe = select (λ c. not (eqb c 9 || eqb c 10 || eqb c 13))

-- The host name of a network location: none if it is empty.
hostname : Text → Option Text
unfolding partition before after_last
hostname netloc =
    let info = after_last 64 netloc in
    let host : Text = elim (partition 91 info) [
      | none ↦ before 58 info
      | some (a, bracketed) ↦ before 93 bracketed
    ] in
    elim host [ [] ↦ none | c ∷ h ↦ some (c ∷ h) ]

pub record SplitResult : Type 0 where
  pub hostname : Option Text
  pub path : Text

-- none is the ValueError for brackets that do not match.
unfoldable pub urlsplit : Text → Option SplitResult
unfolding after_prefix without_scheme split_netloc lstrip_control remove_unsafe hostname before
    contains_char xor
urlsplit value =
    let url = without_scheme (remove_unsafe (lstrip_control value)) in
    let located : Text × Text = elim (after_prefix (text "//") url) [
      | none ↦ ([], url)
      | some rest ↦ split_netloc rest
    ] in
    let (netloc, rest) = located in
    let result : Option SplitResult =
      some (record { hostname = hostname netloc; path = before 63 (before 35 rest) }) in
    if xor (contains_char 91 netloc) (contains_char 93 netloc) then none else result
