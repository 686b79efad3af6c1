-- ===== src/Base/Loops.antt =====
-- A rule for loops that raise nothing: what every step keeps, what it relates, and what it
-- establishes for its item.
use mathlib.Core.Path.{◌≡◌, refl, subst, sym}
use mathlib.Core.Logic.{inl, inr}
use mathlib.Core.List.{List, [], ◌∷◌}
use nodelm.Base.Results.{Result, ok, >>=-eq-ok}
use nodelm.Base.Lists.{In, for_each}

-- A step from `s` returns `after`; `keeps` holds of it, it is related to `s`, and `done` holds.
pub record Step {E S : Type 0} (P : S → Type 0) (R : S → S → Type 0) (Q : S → Type 0) (s : S)
    (outcome : Result E S) : Type 0 where
  pub after : S
  pub result : outcome ≡ ok after
  pub keeps : P after
  pub related : R s after
  pub done : Q after

module _ {E S A : Type 0} (step : S → A → Result E S) (P : S → Type 0) (R : S → S → Type 0)
    (Q : A → S → Type 0) (R-refl : (s : S) → R s s) (R-trans : (s t u : S) → R s t → R t u → R s u)
    (Q-stable : (x : A) (s t : S) → R s t → Q x s → Q x t) where
  -- The loop returns, keeps `P`, and establishes `Q` for all of its items.
  pub loop_done_in :
      (xs : List A)
      → ((s : S) (x : A) → In x xs → P s → Step P R (Q x) s (step s x))
      → (s : S) → P s
      → Step P R (λ t. (x : A) → In x xs → Q x t) s (for_each step s xs)
  unfolding for_each
  loop_done_in [] each s p = record {
    after = s;
    result = refl;
    keeps = p;
    related = R-refl s;
    done = λ x i. absurd i;
  }
  loop_done_in (x ∷ xs) each s p =
      let first = each s x (inl refl) p in
      let rest = loop_done_in xs (λ t y i q. each t y (inr i) q) first.after first.keeps in
      record {
        after = rest.after;
        result = rw first.result rest.result;
        keeps = rest.keeps;
        related = R-trans s first.after rest.after first.related rest.related;
        done = λ y i. elim i [
          | inl e ↦
              subst (λ z. Q z rest.after) (sym e)
                (Q-stable x first.after rest.after rest.related first.done)
          | inr k ↦ rest.done y k
        ];
      }

  pub loop_done :
      ((s : S) (x : A) → P s → Step P R (Q x) s (step s x))
      → (xs : List A) (s : S) → P s
      → Step P R (λ t. (x : A) → In x xs → Q x t) s (for_each step s xs)
  loop_done each xs s p = loop_done_in xs (λ t x i q. each t x q) s p

-- A loop that returns has taken a step that returns for each of its items.
pub for_each-returns :
    {E S A : Type 0} (step : S → A → Result E S) (xs : List A) (x : A) (s t : S)
    → for_each step s xs ≡ ok t
    → In x xs
    → (u v : S) × (step u x ≡ ok v)
unfolding for_each
for_each-returns step [] x s t h i = absurd i
for_each-returns step (y ∷ xs) x s t h i =
    let (m, first, rest) = >>=-eq-ok (step s y) _ h in
    elim i [
      | inl e ↦ (s, m, subst (λ z. step s z ≡ ok m) (sym e) first)
      | inr k ↦ for_each-returns step xs x m t rest k
    ]
