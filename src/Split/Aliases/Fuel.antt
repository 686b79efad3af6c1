-- ===== src/Split/Aliases/Fuel.antt =====
-- The length of the walk along the aliases in `_resolved_aliases`.
use nodelm.Base.{
  ℕ, zero, suc, ◌+◌, ◌≤◌, ◌≡◌, ◌≢◌, refl, ap, subst, false, List, [], ◌∷◌, Text, arith, ◌==◌,
  eq_of_==, ==-refl, length, Result, ok, err, ◌>>=◌, Option, none, some, inl, inr, Bool-cases,
  Option-cases, if◌then◌else◌,
}
use nodelm.Contamination.Forest.{contains}
use nodelm.Split.Errors.{SplitError, alias_cycle, endless_walk}
use nodelm.Split.Maps.{get}
use nodelm.Split.Aliases.{Entries, next_alias, walk, get_or_self, put_all, resolve_origin}
use nodelm.Split.Aliases.Resolved.{OnPath, next_alias-direct}

-- No member of the list stands in it twice.
abbrev NoRepeat : List Text → Type 0
NoRepeat [] = Unit
NoRepeat (x ∷ xs) = (contains x xs ≡ false) × NoRepeat xs

-- The members other than `k`.
without : Text → List Text → List Text
without k [] = []
without k (x ∷ xs) = let rest = without k xs in if x == k then rest else x ∷ rest

contains-without :
    (x k : Text) (xs : List Text) → contains x xs ≡ false → contains x (without k xs) ≡ false
unfolding without contains
contains-without x k [] h = refl
contains-without x k (y ∷ ys) h = elim (Bool-cases (y == k)) [
  | inl t ↦ rw t (contains-without x k ys (ground arith))
  | inr f ↦ rw f (ground (arith, contains-without x k ys))
]

without-NoRepeat : (k : Text) (xs : List Text) → NoRepeat xs → NoRepeat (without k xs)
unfolding without
without-NoRepeat k [] h = tt
without-NoRepeat k (y ∷ ys) (h, r) = elim (Bool-cases (y == k)) [
  | inl t ↦ rw t (without-NoRepeat k ys r)
  | inr f ↦ rw f (contains-without y k ys h, without-NoRepeat k ys r)
]

length-without_absent :
    (k : Text) (xs : List Text) → contains k xs ≡ false → length xs ≤ length (without k xs)
unfolding without contains
length-without_absent k [] h = omega arith
length-without_absent k (y ∷ ys) h = elim (Bool-cases (y == k)) [
  | inl t ↦ absurd (absent (eq_of_== y k t))
  | inr f ↦ rw f (omega (arith, length-without_absent k ys (ground arith)))
]
  where
    absent : y ≡ k → ⊥
    absent e = ground (arith, ==-refl k, ap (λ z. z == k) e, ap (λ z. k == z) e)

length-without : (k : Text) (xs : List Text) → NoRepeat xs → length xs ≤ suc (length (without k xs))
unfolding without
length-without k [] h = omega arith
length-without k (y ∷ ys) (h, r) = elim (Bool-cases (y == k)) [
  | inl t ↦ rw t (
      omega
        (arith, length-without_absent k ys (subst (λ z. contains z ys ≡ false) (eq_of_== y k t) h)))
  | inr f ↦ rw f (omega (arith, length-without k ys r))
]

without-OnPath :
    (k target : Text) (direct : Entries) (xs : List Text)
    → OnPath ((k, target) ∷ direct) xs
    → OnPath direct (without k xs)
unfolding without get
without-OnPath k target direct [] h = tt
without-OnPath k target direct (y ∷ ys) ((next, e), r) = elim (Bool-cases (y == k)) [
  | inl t ↦ rw t (without-OnPath k target direct ys r)
  | inr f ↦ elim (Bool-cases (k == y)) [
    | inl t ↦ absurd (differ (eq_of_== k y t) f)
    | inr g ↦ rw f ((next, rw g at e), without-OnPath k target direct ys r)
  ]
]
  where
    differ : k ≡ y → (y == k) ≡ false → ⊥
    differ e f = cc (ap (λ z. y == z) e, ==-refl y)

-- A list of direct aliases without repetition is no longer than the aliases.
length-OnPath :
    (direct : Entries) (xs : List Text) → NoRepeat xs → OnPath direct xs → length xs ≤ length direct
unfolding get
length-OnPath [] [] h p = omega arith
length-OnPath [] (x ∷ xs) h ((next, e), p) = absurd (none_of e)
  where
    none_of : ◌≡◌ {A = Option Text} none (some next) → ⊥
    none_of e = cc
length-OnPath ((k, target) ∷ direct) xs h p = omega (
  arith,
  length-without k xs h,
  length-OnPath direct (without k xs) (without-NoRepeat k xs h)
      (without-OnPath k target direct xs p),
)

walk_ends :
    (fuel : ℕ) (direct resolved : Entries) (path : List Text) (current x : Text)
    → NoRepeat path
    → OnPath direct path
    → fuel + length path ≡ suc (suc (length direct))
    → walk fuel direct resolved path current ≢ err (endless_walk x)
unfolding walk
walk_ends zero direct resolved path current x h p n e =
    absurd (omega (arith, length-OnPath direct path h p))
walk_ends (suc fuel) direct resolved path current x h p n e =
    elim (Option-cases (next_alias direct resolved current)) [
      | inl s ↦ no_ok (rw (s, walk) at e)
      | inr (next, s) ↦ elim (Bool-cases (contains current path)) [
        | inl t ↦ no_cycle (rw t at (rw (s, walk) at e))
        | inr f ↦
            walk_ends fuel direct resolved (current ∷ path) next x (f, h)
              ((next, next_alias-direct direct resolved current next s), p) (omega arith)
              (rw f at (rw (s, walk) at e))
      ]
    ]
  where
    no_ok :
        ◌≡◌ {A = Result SplitError (List Text × Text)} (ok (path, current)) (err (endless_walk x))
        → ⊥
    no_ok e = cc

    no_cycle :
        {c : List Text}
        → ◌≡◌ {A = Result SplitError (List Text × Text)}
            (err (alias_cycle c))
            (err (endless_walk x))
        → ⊥
    no_cycle e = cc

-- Resolving an alias never runs out of fuel: the walk from it finds the last target, or a cycle.
pub resolve_origin_ends :
    (direct resolved : Entries) (origin x : Text)
    → resolve_origin direct resolved origin ≢ err (endless_walk x)
unfolding resolve_origin
resolve_origin_ends direct resolved origin x h = elim (Option-cases (get origin resolved)) [
  | inr (t, e) ↦ no_ok resolved (rw (e, resolve_origin) at h)
  | inl e ↦
      go (walk (suc (suc (length direct))) direct resolved [] origin)
        (walk_ends (suc (suc (length direct))) direct resolved [] origin x tt tt (omega arith))
        (rw (e, resolve_origin) at h)
]
  where
    no_ok : (r : Entries) → ◌≡◌ {A = Result SplitError Entries} (ok r) (err (endless_walk x)) → ⊥
    no_ok r e = cc

    go :
        (m : Result SplitError (List Text × Text))
        → m ≢ err (endless_walk x)
        → (m >>= λ (path, current). ok (put_all (get_or_self resolved current) path resolved))
          ≢ err (endless_walk x)
    go (ok (path, current)) n e = no_ok _ e
    go (err y) n e = n (same e)
      where
        same :
            ◌≡◌ {A = Result SplitError Entries} (err y) (err (endless_walk x))
            → ◌≡◌ {A = Result SplitError (List Text × Text)} (err y) (err (endless_walk x))
        same e = ap err (err_injective e)
          where
            err_injective :
                ◌≡◌ {A = Result SplitError Entries} (err y) (err (endless_walk x))
                → y ≡ endless_walk x
            err_injective e = cc
