-- ===== src/Split/Aliases/Resolved.antt =====
-- The targets of `_resolved_aliases`.
use nodelm.Base.{
  ℕ, zero, suc, ◌≡◌, ◌≢◌, map, sym, ap, ◌∙◌, subst, List, [], ◌∷◌, Text, In, length, for_each,
  for_each_keeps, Result, ok, err, ◌>>=◌, >>=-eq-ok, ok-injective, Option, none, some, inl, inr,
  Bool-cases, Option-cases,
}
use nodelm.Contamination.Forest.{contains}
use nodelm.Contamination.Ordering.{order_by, In_of_order_by}
use nodelm.Split.Errors.{SplitError, alias_cycle}
use nodelm.Split.Maps.{get, put, In_of_get, In_of_put}
use nodelm.Split.Aliases.{
  Entries, next_alias, walk, get_or_self, put_all, add_alias, resolve_origin, resolved_aliases,
}

-- Every alias that is resolved is a direct one, and no target is.
pub record IsResolved (direct resolved : Entries) : Type 0 where
  pub target_final : (e : Text × Text) → In e resolved → get e.1 direct ≡ none
  pub alias_direct :
      (e : Text × Text) → In e resolved → (next : Text) × (get e.0 direct ≡ some next)

none_of : {A : Type 0} {a : A} → ◌≡◌ {A = Option A} none (some a) → ⊥
none_of e = cc

-- Every member of the path is a direct alias.
abbrev pub OnPath : Entries → List Text → Type 0
OnPath direct [] = Unit
OnPath direct (x ∷ path) = ((next : Text) × (get x direct ≡ some next)) × OnPath direct path

record Walked (direct resolved : Entries) (path : List Text) (current : Text) : Type 0 where
  direct_path : OnPath direct path
  stopped : next_alias direct resolved current ≡ none

pub next_alias-direct :
    (direct resolved : Entries) (current next : Text)
    → next_alias direct resolved current ≡ some next
    → get current direct ≡ some next
unfolding next_alias
next_alias-direct direct resolved current next h = elim (Option-cases (get current resolved)) [
  | inl e ↦ rw (e, next_alias) at h
  | inr (t, e) ↦ absurd (none_of (rw (e, next_alias) at h))
]

walk-Walked :
    (fuel : ℕ) (direct resolved : Entries) (path : List Text) (current : Text) (path' : List Text)
    (current' : Text)
    → walk fuel direct resolved path current ≡ ok (path', current')
    → OnPath direct path
    → Walked direct resolved path' current'
unfolding walk
walk-Walked zero direct resolved path current path' current' h p = cc
walk-Walked (suc fuel) direct resolved path current path' current' h p =
    elim (Option-cases (next_alias direct resolved current)) [
      | inl e ↦
          let same : ◌≡◌ {A = List Text × Text} (path, current) (path', current') =
            ok-injective (rw (e, walk) at h) in
          record {
            direct_path = subst (OnPath direct) (ap (λ (s : List Text × Text). s.0) same) p;
            stopped =
                ap (next_alias direct resolved) (sym (ap (λ (s : List Text × Text). s.1) same)) ∙ e;
          }
      | inr (next, e) ↦ elim (Bool-cases (contains current path)) [
        | inl t ↦ absurd (ok_of_err (rw t at (rw (e, walk) at h)))
        | inr f ↦
            walk-Walked fuel direct resolved (current ∷ path) next path' current'
              (rw f at (rw (e, walk) at h))
              ((next, next_alias-direct direct resolved current next e), p)
      ]
    ]
  where
    ok_of_err :
        {c : List Text}
        → ◌≡◌ {A = Result SplitError (List Text × Text)}
            (err (alias_cycle c))
            (ok (path', current'))
        → ⊥
    ok_of_err e = cc

-- Where the walk stops, the target is no direct alias.
stopped_final :
    (direct resolved : Entries) (current : Text)
    → IsResolved direct resolved
    → next_alias direct resolved current ≡ none
    → get (get_or_self resolved current) direct ≡ none
unfolding next_alias get_or_self
stopped_final direct resolved current r h = elim (Option-cases (get current resolved)) [
  | inl e ↦ rw (e, get_or_self) (rw (e, next_alias) at h)
  | inr (t, e) ↦ rw (e, get_or_self) (r.target_final (current, t) (In_of_get current t resolved e))
]

put_all-IsResolved :
    (direct : Entries) (target : Text) (path : List Text) (resolved : Entries)
    → get target direct ≡ none
    → OnPath direct path
    → IsResolved direct resolved
    → IsResolved direct (put_all target path resolved)
unfolding put_all
put_all-IsResolved direct target [] resolved final p r = r
put_all-IsResolved direct target (alias ∷ path) resolved final (here, p) r =
    put_all-IsResolved direct target path (put alias target resolved) final p (record {
      target_final = λ e h. elim (In_of_put alias target resolved e h) [
        | inl same ↦ ap (λ (x : Text × Text). get x.1 direct) same ∙ final
        | inr old ↦ r.target_final e old
      ];
      alias_direct = λ e h. elim (In_of_put alias target resolved e h) [
        | inl same ↦
            let (next, f) = here in (next, ap (λ (x : Text × Text). get x.0 direct) same ∙ f)
        | inr old ↦ r.alias_direct e old
      ];
    })

pub resolve_origin-IsResolved :
    (direct resolved : Entries) (origin : Text) (resolved' : Entries)
    → resolve_origin direct resolved origin ≡ ok resolved'
    → IsResolved direct resolved
    → IsResolved direct resolved'
unfolding resolve_origin
resolve_origin-IsResolved direct resolved origin resolved' h r =
    elim (Option-cases (get origin resolved)) [
      | inr (t, e) ↦ subst (IsResolved direct) (ok-injective (rw (e, resolve_origin) at h)) r
      | inl e ↦
          let finish =
            λ (s : List Text × Text). ok (put_all (get_or_self resolved s.1) s.0 resolved) in
          let ((path, current), walked, end) =
            >>=-eq-ok (walk (suc (suc (length direct))) direct resolved [] origin) finish
              (rw (e, resolve_origin) at h) in
          let w =
            walk-Walked (suc (suc (length direct))) direct resolved [] origin path current walked
              tt in
          subst (IsResolved direct) (ok-injective end) (
            put_all-IsResolved direct (get_or_self resolved current) path resolved
              (stopped_final direct resolved current r w.stopped) w.direct_path r)
    ]

-- Where the aliases are resolved, no target of an alias is itself an alias: resolving a repository
-- twice is resolving it once.
pub resolved_aliases-final :
    (aliases resolved : Entries) (e f : Text × Text)
    → resolved_aliases aliases ≡ ok resolved
    → In e resolved
    → In f resolved
    → e.1 ≢ f.0
unfolding resolved_aliases
resolved_aliases-final aliases resolved e f h i k same =
    let names = λ (direct : Entries). map (λ (e : Text × Text). e.0) (order_by (λ e. e.0) direct) in
    let sorted = λ (r : Entries). ok (order_by (λ (e : Text × Text). e.0) r) in
    let (direct, _, h) =
      >>=-eq-ok (for_each add_alias [] aliases)
        (λ direct. for_each (resolve_origin direct) [] (names direct) >>= sorted) h in
    let (r, looped, h) = >>=-eq-ok (for_each (resolve_origin direct) [] (names direct)) sorted h in
    let start : IsResolved direct [] = record {
      target_final = λ e i. absurd i;
      alias_direct = λ e i. absurd i;
    } in
    let done =
      for_each_keeps (resolve_origin direct) (IsResolved direct)
        (λ s x s' step p. resolve_origin-IsResolved direct s x s' step p) (names direct) [] r looped
        start in
    let inside = λ (x : Text × Text) (j : In x resolved).
      In_of_order_by (λ (e : Text × Text). e.0) x r (subst (In x) (sym (ok-injective h)) j) in
    let (next, found) = done.alias_direct f (inside f k) in
    none_of (sym (done.target_final e (inside e i)) ∙ ap (λ x. get x direct) same ∙ found)
