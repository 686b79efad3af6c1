-- ===== src/Contamination/Forest.antt =====
-- `_find_root` and `_union_repositories` of decontamination/contamination.py: the parents of the
-- repositories table as a forest. Both functions read and write that table alone.
pub mod Lookup
pub mod Sets
pub mod Flat
pub mod Union
pub mod Groups
use nodelm.Base.{
  ℕ, zero, suc, Bool, true, false, not, Option, none, some, List, [], ◌∷◌, ◌++◌, Text, ltb_text,
  ◌==◌, if◌then◌else◌, length, select, Result, ok, err, ◌>>=◌,
}
use nodelm.Contamination.Tables.{RepositoryRow, IndexError, unknown_repository, no_root}

abbrev pub map_option : {A B : Type 0} → (A → B) → Option A → Option B
map_option f none = none
map_option f (some a) = some (f a)

-- SELECT … WHERE repository = ?
unfoldable pub row_of : Text → List RepositoryRow → Option RepositoryRow
unfolding ◌==◌
row_of k [] = none
row_of k (r ∷ rows) = let rest = row_of k rows in if r.repository == k then some r else rest

unfoldable pub parent_of : Text → List RepositoryRow → Option Text
unfolding row_of
parent_of k rows = map_option (λ r. r.parent) (row_of k rows)

-- UPDATE repositories SET … WHERE …
unfoldable pub update :
    (RepositoryRow → Bool)
    → (RepositoryRow → RepositoryRow)
    → List RepositoryRow
    → List RepositoryRow
update test change [] = []
update test change (r ∷ rows) = (if test r then change r else r) ∷ update test change rows

-- UPDATE repositories SET parent = root WHERE repository = item
unfoldable pub set_parent : Text → Text → List RepositoryRow → List RepositoryRow
unfolding update
set_parent item root = update (λ r. r.repository == item) (λ r. record r { parent = root })

-- UPDATE repositories SET parent = root WHERE parent = child
unfoldable pub reparent : Text → Text → List RepositoryRow → List RepositoryRow
unfolding update
reparent child root = update (λ r. r.parent == child) (λ r. record r { parent = root })

-- The `while True` loop of `_find_root`: the path to the root, and the root.
unfoldable pub find_path :
    ℕ → List RepositoryRow → List Text → Text → Result IndexError (List Text × Text)
unfolding parent_of ◌==◌
find_path zero rows path current = err (no_root current)
find_path (suc fuel) rows path current = elim (parent_of current rows) [
  | none ↦ err (unknown_repository current)
  | some parent ↦ elim (parent == current) [
    | true ↦ ok (path, current)
    | false ↦ find_path fuel rows (path ++ current ∷ []) parent
  ]
]

unfoldable pub set_parents : Text → List Text → List RepositoryRow → List RepositoryRow
unfolding set_parent
set_parents root [] rows = rows
set_parents root (item ∷ path) rows = set_parents root path (set_parent item root rows)

unfoldable pub find_root : List RepositoryRow → Text → Result IndexError (Text × List RepositoryRow)
unfolding find_path set_parents
find_root rows repository = do
  (path, root) ← find_path (suc (length rows)) rows [] repository
  ok (root, set_parents root path rows)

-- A Python set of texts: each is added once.
unfoldable pub contains : Text → List Text → Bool
unfolding ◌==◌
contains x [] = false
contains x (y ∷ ys) = let rest = contains x ys in if y == x then true else rest

unfoldable pub add_text : Text → List Text → List Text
unfolding contains
add_text x xs = if contains x xs then xs else xs ++ x ∷ []

-- `{_find_root(connection, repository) for repository in repositories}`
unfoldable pub find_roots :
    List Text → List RepositoryRow → List Text → Result IndexError (List Text × List RepositoryRow)
unfolding find_root add_text
find_roots roots rows [] = ok (roots, rows)
find_roots roots rows (k ∷ repositories) =
    find_root rows k >>= λ (root, rows'). find_roots (add_text root roots) rows' repositories

-- `min` of a list that is not empty
unfoldable pub min_text : Text → List Text → Text
unfolding ltb_text
min_text x [] = x
min_text x (y ∷ ys) = min_text (if ltb_text y x then y else x) ys

unfoldable pub reparent_all : Text → List Text → List RepositoryRow → List RepositoryRow
unfolding reparent
reparent_all root [] rows = rows
reparent_all root (child ∷ children) rows = reparent_all root children (reparent child root rows)

unfoldable pub join_roots : List Text → List RepositoryRow → List RepositoryRow
unfolding min_text reparent_all ◌==◌
join_roots [] rows = rows
join_roots (root ∷ []) rows = rows
join_roots (a ∷ b ∷ roots) rows =
    let root = min_text a (b ∷ roots) in
    reparent_all root (select (λ child. not (child == root)) (a ∷ b ∷ roots)) rows

unfoldable pub union_repositories :
    List RepositoryRow → List Text → Result IndexError (List RepositoryRow)
unfolding find_roots join_roots
union_repositories rows repositories =
    find_roots [] rows repositories >>= λ (roots, rows'). ok (join_roots roots rows')
