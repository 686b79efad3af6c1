-- ===== src/Fingerprint/Repository/Shape.antt =====
-- The shape of the results of `canonical_repository`.
use nodelm.Base.{
  ◌≤◌, ◌≡◌, refl, sym, ap, ◌∙◌, true, subst, Bool, false, not, ◌&&◌, List, ◌∷◌, Text, text, arith,
  ltb, eqb, length, Bool-cases, inl, inr, In, In_of_select, Result, ok, err, ◌>>=◌, >>=-eq-ok,
  ok-injective, raise_if,
}
use nodelm.Base.Methods.{is_empty, strip, split, join}
use nodelm.Base.Urls.{lower}
use nodelm.Gates.Status.{any, any-false}
use nodelm.Fingerprint.Repository.Chars.{
  is_capital, NoCapital, NoSlash, lower-NoCapital, split-IsPart,
}
use nodelm.Fingerprint.Repository.{
  RepositoryError, canonical_repository, with_host, remove_git, lstrip_slash, rstrip_slash,
  path_parts, insert_host, identity_parts, empty_identity, no_owner_and_name, no_host,
  url_without_owner_and_name,
}

-- The identity is a host, an owner and a name, or more parts, joined by slashes: no part is empty, or has
-- a capital letter or a slash.
pub record IsIdentity (r : Text) : Type 0 where
  pub parts : List Text
  pub joined : r ≡ join 47 parts
  pub enough : 3 ≤ length parts
  pub filled : (part : Text) → In part parts → is_empty part ≡ false
  pub lower_case : (part : Text) → In part parts → NoCapital part
  pub slashless : (part : Text) → In part parts → NoSlash part

abbrev AllFilled : List Text → Type 0
AllFilled parts =
    (part : Text) → In part parts → (is_empty part ≡ false) × NoCapital part × NoSlash part

path_parts-filled : (candidate : Text) → NoCapital candidate → AllFilled (path_parts candidate)
unfolding path_parts
path_parts-filled candidate low part i =
    let (j, t) = In_of_select (λ p. not (is_empty p)) part (split 47 candidate) i in
    let (lowered, slashless) = split-IsPart candidate low part j in
    (ground arith, lowered, slashless)

-- The host that is put in front.
host_part :
    (is_empty (text "github.com") ≡ false)
    × NoCapital (text "github.com")
    × NoSlash (text "github.com")
unfolding is_empty any
host_part = (
  refl,
  λ c i. any-false is_capital c (text "github.com") refl i,
  λ c i e.
      slash (sym (ap (λ x. eqb x 47) e) ∙ any-false (λ x. eqb x 47) c (text "github.com") refl i),
)
  where
    slash : true ≡ false → ⊥
    slash e = cc

insert_host-filled :
    (explicit_host : Bool) (parts : List Text)
    → AllFilled parts
    → AllFilled (insert_host explicit_host parts)
unfolding is_empty
insert_host-filled explicit_host parts filled part i =
    elim (Bool-cases (not explicit_host && eqb (length parts) 2)) [
      | inl t ↦ elim (let k : In part (text "github.com" ∷ parts) = rw t at i in k) [
        | inl e ↦ subst (λ x. (is_empty x ≡ false) × NoCapital x × NoSlash x) (sym e) host_part
        | inr k ↦ filled part k
      ]
      | inr f ↦ filled part (rw f at i)
    ]

length-insert_host :
    (explicit_host : Bool) (parts : List Text)
    → ltb (length parts) 2 ≡ false
    → (explicit_host && ltb (length parts) 3) ≡ false
    → 3 ≤ length (insert_host explicit_host parts)
length-insert_host explicit_host parts h k = ground arith

identity_parts-filled :
    (explicit_host : Bool) (parts result : List Text)
    → identity_parts explicit_host parts ≡ ok result
    → AllFilled parts
    → (3 ≤ length result) × AllFilled result
unfolding identity_parts
identity_parts-filled explicit_host parts result h filled =
    elim (Bool-cases (ltb (length parts) 2)) [
      | inl t ↦ absurd (ok_of_err (rw t at h))
      | inr f ↦ elim (Bool-cases (explicit_host && ltb (length parts) 3)) [
        | inl t ↦ absurd (ok_of_err (rw (f, t) at h))
        | inr g ↦
            let e = ok-injective (rw (f, g) at h) in
            subst (λ r. (3 ≤ length r) × AllFilled r) e
              (
                length-insert_host explicit_host parts f g,
                insert_host-filled explicit_host parts filled,
              )
      ]
    ]
  where
    ok_of_err : {e : RepositoryError} {r : List Text} → err e ≡ ok r → ⊥
    ok_of_err e = cc

-- An accepted identity has at least a host, an owner and a name, and no part of it is empty or has a
-- capital letter of ASCII or a slash.
pub canonical_repository-IsIdentity :
    (value r : Text) → canonical_repository value ≡ ok r → IsIdentity r
unfolding canonical_repository
canonical_repository-IsIdentity value r h =
    let (_, _, h) = >>=-eq-ok (raise_if (is_empty (strip value)) empty_identity) (λ _. rest) h in
    let ((located, explicit_host), _, h) = >>=-eq-ok (with_host (strip value)) after_host h in
    let candidate = lower (rstrip_slash (lstrip_slash (remove_git located))) in
    let parts = path_parts candidate in
    let (result, shaped, e) =
      >>=-eq-ok (identity_parts explicit_host parts) (λ ps. ok (join 47 ps)) h in
    let (enough, filled) = identity_parts-filled explicit_host parts result shaped (
      path_parts-filled candidate
        (lower-NoCapital (rstrip_slash (lstrip_slash (remove_git located))))) in
    record {
      parts = result;
      joined = sym (ok-injective e);
      enough = enough;
      filled = λ part i. (filled part i).0;
      lower_case = λ part i. (filled part i).1;
      slashless = λ part i. (filled part i).2;
    }
  where
    after_host : Text × Bool → Result RepositoryError Text
    after_host = λ (located, explicit_host).
        identity_parts explicit_host
          (path_parts (lower (rstrip_slash (lstrip_slash (remove_git located)))))
        >>= λ parts. ok (join 47 parts)

    rest : Result RepositoryError Text
    rest = with_host (strip value) >>= after_host

https_form :
    canonical_repository (text " https://User@GitHub.com:443/Owner/Name.git ")
    ≡ ok (text "github.com/owner/name")
unfolding canonical_repository
https_form = refl

scp_form :
    canonical_repository (text "git@github.com:owner/name.git") ≡ ok (text "github.com/owner/name")
unfolding canonical_repository
scp_form = refl

short_form : canonical_repository (text "Owner/Name/") ≡ ok (text "github.com/owner/name")
unfolding canonical_repository
short_form = refl

bad :
    (canonical_repository (text "name") ≡ err no_owner_and_name)
    × (canonical_repository (text "https:///a/b") ≡ err no_host)
    × (canonical_repository (text "https://a.b/c") ≡ err url_without_owner_and_name)
unfolding canonical_repository
bad = (refl, refl, refl)

-- A suffix that the first pass uncovers is taken off by a second one.
twice :
    (canonical_repository (text "o/n.git.git") ≡ ok (text "github.com/o/n.git"))
    × (canonical_repository (text "github.com/o/n.git") ≡ ok (text "github.com/o/n"))
unfolding canonical_repository
twice = (refl, refl)
