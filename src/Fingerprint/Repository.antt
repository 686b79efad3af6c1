-- ===== src/Fingerprint/Repository.antt =====
-- `canonical_repository` of decontamination/fingerprints.py. Letters outside ASCII are left as they
-- are by `lower`.
pub mod Chars
pub mod Shape
use nodelm.Base.{
  ℕ, zero, suc, Bool, true, false, not, ◌&&◌, ◌||◌, Option, none, some, List, [], ◌∷◌, ◌++◌, Text,
  text, eqb, ltb, if◌then◌else◌, length, select, Result, ok, err, ◌>>=◌, ◌>>◌, raise_if,
}
use nodelm.Base.Methods.{is_empty, strip, split, join, replace_char}
use nodelm.Base.Urls.{SplitResult, after_prefix, partition, contains_char, lower, urlsplit}

-- The four ValueErrors, and the one that `urlsplit` raises.
pub data RepositoryError : Type 0 where
  empty_identity no_host invalid_url no_owner_and_name url_without_owner_and_name : RepositoryError

-- `"://" in candidate`
contains_text : Text → Text → Bool
unfolding after_prefix
contains_text needle [] = elim (after_prefix needle []) [ none ↦ false | some rest ↦ true ]
contains_text needle (c ∷ s) =
    let later = contains_text needle s in
    elim (after_prefix needle (c ∷ s)) [ none ↦ later | some rest ↦ true ]

-- `re.fullmatch(r"git@([^:]+):(.+)", candidate)`: the two groups.
scp_match : Text → Option (Text × Text)
unfolding after_prefix partition contains_char is_empty
scp_match candidate = elim (after_prefix (text "git@") candidate) [
  | none ↦ none
  | some rest ↦ elim (partition 58 rest) [
    | none ↦ none
    | some (host, path) ↦
        if is_empty host || is_empty path || contains_char 10 path then none else some (host, path)
  ]
]

-- `lstrip("/")`
lstrip_slash : Text → Text
lstrip_slash [] = []
lstrip_slash (c ∷ s) = let rest = lstrip_slash s in if eqb c 47 then rest else c ∷ s

-- The candidate with the host in front, and whether the value names a host.
with_host : Text → Result RepositoryError (Text × Bool)
unfolding scp_match contains_text lstrip_slash urlsplit
with_host candidate = elim (scp_match candidate) [
  | some (host, path) ↦ ok (host ++ 47 ∷ path, true)
  | none ↦ elim (contains_text (text "://") candidate) [
    | false ↦ ok (candidate, false)
    | true ↦ elim (urlsplit candidate) [
      | none ↦ err invalid_url
      | some parsed ↦ elim parsed.hostname [
        | none ↦ err no_host
        | some host ↦ ok (host ++ 47 ∷ lstrip_slash parsed.path, true)
      ]
    ]
  ]
]

-- `removesuffix(".git")`
remove_git : Text → Text
unfolding after_prefix
remove_git [] = []
remove_git (c ∷ s) =
    let rest = c ∷ remove_git s in
    elim (after_prefix (text ".git") (c ∷ s)) [ none ↦ rest | some [] ↦ [] | some (d ∷ t) ↦ rest ]

-- `[part for part in candidate.split("/") if part]`
path_parts : Text → List Text
unfolding split is_empty
path_parts candidate = select (λ part. not (is_empty part)) (split 47 candidate)

rstrip_slash : Text → Text
unfolding is_empty
rstrip_slash [] = []
rstrip_slash (c ∷ s) =
    let rest = rstrip_slash s in if eqb c 47 && is_empty rest then [] else c ∷ rest

-- `parts.insert(0, "github.com")`, where no host was named
abbrev insert_host : Bool → List Text → List Text
insert_host explicit_host parts =
    if not explicit_host && eqb (length parts) 2 then text "github.com" ∷ parts else parts

-- The parts of the identity, with the host in front.
identity_parts : Bool → List Text → Result RepositoryError (List Text)
identity_parts explicit_host parts = do
  raise_if (ltb (length parts) 2) no_owner_and_name
  raise_if (explicit_host && ltb (length parts) 3) url_without_owner_and_name
  ok (insert_host explicit_host parts)

unfoldable pub canonical_repository : Text → Result RepositoryError Text
unfolding with_host remove_git lstrip_slash rstrip_slash path_parts identity_parts strip join lower
    is_empty
canonical_repository value =
    let candidate = strip value in
    raise_if (is_empty candidate) empty_identity
    >> (with_host candidate >>= λ (located, explicit_host).
        identity_parts explicit_host
          (path_parts (lower (rstrip_slash (lstrip_slash (remove_git located)))))
        >>= λ parts. ok (join 47 parts))
