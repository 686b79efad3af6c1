-- ===== src/Split/Aliases.antt =====
-- `_resolved_aliases` of decontamination/split.py. A mapping is its entries in their order.
pub mod Resolved
pub mod Fuel
use nodelm.Base.{
  ℕ, zero, suc, Bool, true, false, not, ◌&&◌, ◌||◌, List, [], ◌∷◌, ◌++◌, map, Text, ◌==◌,
  if◌then◌else◌, length, for_each, Result, ok, err, ◌>>=◌, ◌>>◌, raise_if, Option, none, some,
}
use nodelm.Fingerprint.Repository.{canonical_repository}
use nodelm.Contamination.Ordering.{order_by}
use nodelm.Contamination.Forest.{contains}
use nodelm.Split.Errors.{SplitError, conflicting_alias, alias_cycle, invalid_identity, endless_walk}
use nodelm.Split.Maps.{get, put}

abbrev pub Entries : Type 0
Entries = List (Text × Text)

unfoldable pub canonical : Text → Result SplitError Text
unfolding canonical_repository
canonical value = elim (canonical_repository value) [
  | err e ↦ err (invalid_identity value)
  | ok repository ↦ ok repository
]

-- `previous is not None and previous != target`
unfoldable pub is_conflict : Option Text → Text → Bool
unfolding ◌==◌
is_conflict none target = false
is_conflict (some previous) target = not (previous == target)

unfoldable pub add_alias : Entries → Text × Text → Result SplitError Entries
unfolding canonical is_conflict get put ◌==◌
add_alias direct (raw_alias, raw_target) = do
  alias ← canonical raw_alias
  target ← canonical raw_target
  let added =
      raise_if (is_conflict (get alias direct) target) (conflicting_alias alias)
      >> ok (put alias target direct)
  if alias == target then ok direct else added

-- The path from the first visit of `current` on, in reading order, from the path that is held with
-- its last member first.
unfoldable pub cycle_from : Text → List Text → List Text → List Text
unfolding ◌==◌
cycle_from current [] found = found
cycle_from current (x ∷ path) found =
    let rest = cycle_from current path (x ∷ found) in if x == current then x ∷ found else rest

-- Whether the loop over `current` goes on, and with what.
unfoldable pub next_alias : Entries → Entries → Text → Option Text
unfolding get
next_alias direct resolved current = elim (get current resolved) [
  | some _ ↦ none
  | none ↦ get current direct
]

-- The path is held with its last member first, as `reversed(path)` reads it.
unfoldable pub walk :
    ℕ → Entries → Entries → List Text → Text → Result SplitError (List Text × Text)
unfolding next_alias cycle_from contains
walk zero direct resolved path current = err (endless_walk current)
walk (suc fuel) direct resolved path current = elim (next_alias direct resolved current) [
  | none ↦ ok (path, current)
  | some next ↦
      let rest = walk fuel direct resolved (current ∷ path) next in
      if contains current path
      then err (alias_cycle (cycle_from current path (current ∷ [])))
      else rest
]

-- `resolved.get(current, current)`
unfoldable pub get_or_self : Entries → Text → Text
unfolding get
get_or_self resolved current = elim (get current resolved) [ none ↦ current | some target ↦ target ]

unfoldable pub put_all : Text → List Text → Entries → Entries
unfolding put
put_all target [] resolved = resolved
put_all target (alias ∷ path) resolved = put_all target path (put alias target resolved)

unfoldable pub resolve_origin : Entries → Entries → Text → Result SplitError Entries
unfolding walk get_or_self put_all get
resolve_origin direct resolved origin = elim (get origin resolved) [
  | some _ ↦ ok resolved
  | none ↦ walk (suc (suc (length direct))) direct resolved [] origin >>= λ (path, current).
      ok (put_all (get_or_self resolved current) path resolved)
]

unfoldable pub resolved_aliases : Entries → Result SplitError Entries
unfolding add_alias resolve_origin for_each order_by
resolved_aliases aliases = do
  direct ← for_each add_alias [] aliases
  resolved ← for_each (resolve_origin direct) [] (map (λ e. e.0) (order_by (λ e. e.0) direct))
  ok (order_by (λ e. e.0) resolved)
