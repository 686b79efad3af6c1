-- ===== src/Gates/License/Allowed.antt =====
-- Which licenses `evaluate_license` of licenses/gate.py allows.
use nodelm.Base.{
  ◌++◌, ◌∙◌, arith, ◌≡◌, ◌≢◌, subst, refl, sym, ap, Bool, true, false, List, [], ◌∷◌, Text, text,
  Option, none, some, In, inl, inr, Bool-cases, Option-cases,
}
use nodelm.Base.Methods.{strip, is_empty}
use nodelm.Base.Urls.{lower, after_prefix}
use nodelm.Gates.Status.{any, any-false}
use nodelm.Split.Maps.{get, In_of_get}
use nodelm.Gates.License.{
  allow, reject, unknown, normalized_allowlist, is_part, unlisted, evaluate_stated,
  evaluate_license,
}

-- The identifiers of the licenses that are neither copyleft nor unknown.
abbrev permissive : List Text
permissive = text "MIT" ∷ text "Apache-2.0" ∷ text "BSD-2-Clause" ∷ text "BSD-3-Clause" ∷ []

-- The license is stated, "gpl" stands nowhere in it in lower case, and it is decided to be one of four
-- identifiers, which, stated as a license, is allowed as itself.
pub record IsAllowed (raw : Option Text) : Type 0 where
  pub stated : Text
  pub given : raw ≡ some stated
  pub no_copyleft : (a b : Text) → lower (strip stated) ≢ a ++ (text "gpl" ++ b)
  pub spdx : Text
  pub normalized : (evaluate_license raw).normalized_spdx ≡ some spdx
  pub is_permissive : In spdx permissive
  pub stable : (evaluate_license (some spdx)).normalized_spdx ≡ some spdx
  pub allowed_again : (evaluate_license (some spdx)).disposition ≡ allow

after_prefix-append : (p s : Text) → after_prefix p (p ++ s) ≡ some s
unfolding after_prefix
after_prefix-append [] s = refl
after_prefix-append (c ∷ p) s = rw (after_prefix-append p s) (ground arith)

-- A text that begins with the part.
is_part-after_prefix : (p t rest : Text) → after_prefix p t ≡ some rest → is_part p t ≡ true
unfolding is_part
is_part-after_prefix p [] rest e = rw (is_part, e) refl
is_part-after_prefix p (c ∷ t) rest e = rw (is_part, e) refl

is_part-append : (p a b : Text) → is_part p (a ++ (p ++ b)) ≡ true
unfolding is_part
is_part-append p [] b = is_part-after_prefix p (p ++ b) b (after_prefix-append p b)
is_part-append p (c ∷ a) b = elim (Option-cases (after_prefix p (c ∷ a ++ (p ++ b)))) [
  | inl e ↦ rw (is_part, e) (is_part-append p a b)
  | inr (rest, e) ↦ is_part-after_prefix p (c ∷ a ++ (p ++ b)) rest e
]

-- The identifier, stated as a license, is allowed as itself.
abbrev Stable : Text → Type 0
Stable spdx =
    ((evaluate_license (some spdx)).normalized_spdx ≡ some spdx)
    × ((evaluate_license (some spdx)).disposition ≡ allow)
    × In spdx permissive

entry : (key spdx k s : Text) → Stable s → ◌≡◌ {A = Text × Text} (key, spdx) (k, s) → Stable spdx
entry key spdx k s h e = subst Stable (sym (ap (λ (x : Text × Text). x.1) e)) h

mit : Stable (text "MIT")
unfolding evaluate_license
mit = (refl, refl, inl refl)

apache : Stable (text "Apache-2.0")
unfolding evaluate_license
apache = (refl, refl, inr (inl refl))

bsd_2 : Stable (text "BSD-2-Clause")
unfolding evaluate_license
bsd_2 = (refl, refl, inr (inr (inl refl)))

bsd_3 : Stable (text "BSD-3-Clause")
unfolding evaluate_license
bsd_3 = (refl, refl, inr (inr (inr (inl refl))))

listed_stable : (key spdx : Text) → In (key, spdx) normalized_allowlist → Stable spdx
listed_stable key spdx (inl e) = entry key spdx _ _ mit e
listed_stable key spdx (inr (inl e)) = entry key spdx _ _ mit e
listed_stable key spdx (inr (inr (inl e))) = entry key spdx _ _ apache e
listed_stable key spdx (inr (inr (inr (inl e)))) = entry key spdx _ _ apache e
listed_stable key spdx (inr (inr (inr (inr (inl e))))) = entry key spdx _ _ apache e
listed_stable key spdx (inr (inr (inr (inr (inr (inl e)))))) = entry key spdx _ _ bsd_2 e
listed_stable key spdx (inr (inr (inr (inr (inr (inr (inl e))))))) = entry key spdx _ _ bsd_2 e
listed_stable key spdx (inr (inr (inr (inr (inr (inr (inr (inl e)))))))) =
    entry key spdx _ _ bsd_3 e
listed_stable key spdx (inr (inr (inr (inr (inr (inr (inr (inr (inl e))))))))) =
    entry key spdx _ _ bsd_3 e
listed_stable key spdx (inr (inr (inr (inr (inr (inr (inr (inr (inr b))))))))) = absurd b

-- No key of the list has "gpl" in it.
listed_no_gpl :
    (key spdx : Text) → In (key, spdx) normalized_allowlist → is_part (text "gpl") key ≡ false
unfolding any is_part
listed_no_gpl key spdx i =
    any-false (λ (x : Text × Text). is_part (text "gpl") x.0) (key, spdx) normalized_allowlist refl
      i

true_not_false : {b : Bool} → b ≡ true → b ≡ false → ⊥
true_not_false t f = cc

unlisted_not_allowed : (raw : Text) → (unlisted raw).disposition ≢ allow
unfolding unlisted
unlisted_not_allowed raw h = elim (Bool-cases (is_part (text "gpl") (lower raw))) [
  | inl t ↦ rejected (rw t at h)
  | inr f ↦ unrecognized_not_allowed (rw f at h)
]
  where
    rejected : reject ≡ allow → ⊥
    rejected e = cc

    unrecognized_not_allowed : unknown ≡ allow → ⊥
    unrecognized_not_allowed e = cc

-- What the list gives for a stated license.
stated_listed :
    (raw : Text)
    → (evaluate_stated raw).disposition ≡ allow
    → (spdx : Text) × In (lower (strip raw), spdx) normalized_allowlist
      × ((evaluate_stated raw).normalized_spdx ≡ some spdx)
unfolding evaluate_stated
stated_listed raw h = elim (Option-cases (get (lower (strip raw)) normalized_allowlist)) [
  | inl e ↦ absurd (unlisted_not_allowed raw (rw (e, evaluate_stated) at h))
  | inr (spdx, e) ↦ (spdx, In_of_get _ spdx normalized_allowlist e, rw (e, evaluate_stated) refl)
]

-- An allowed license is decided by the list.
allowed_listed :
    (raw : Option Text)
    → (evaluate_license raw).disposition ≡ allow
    → (stated spdx : Text) × (raw ≡ some stated)
      × In (lower (strip stated), spdx) normalized_allowlist
      × ((evaluate_license raw).normalized_spdx ≡ some spdx)
unfolding evaluate_license
allowed_listed none h = absurd (unknown_not_allowed h)
  where
    unknown_not_allowed : unknown ≡ allow → ⊥
    unknown_not_allowed e = cc
allowed_listed (some raw) h = elim (Bool-cases (is_empty (strip raw))) [
  | inl t ↦ absurd (unknown_not_allowed (rw t at h))
  | inr f ↦ let (spdx, i, e) = stated_listed raw (rw f at h) in (raw, spdx, refl, i, rw f e)
]
  where
    unknown_not_allowed : unknown ≡ allow → ⊥
    unknown_not_allowed e = cc

-- A license that is allowed is stated, and "gpl" stands nowhere in it, in whatever case of ASCII; it is
-- decided to be MIT, Apache-2.0, BSD-2-Clause or BSD-3-Clause, and that identifier, stated as a license, is
-- allowed as itself.
pub evaluate_license-IsAllowed :
    (raw : Option Text) → (evaluate_license raw).disposition ≡ allow → IsAllowed raw
evaluate_license-IsAllowed raw h =
    let (stated, spdx, given, i, e) = allowed_listed raw h in
    let (same, again, k) = listed_stable (lower (strip stated)) spdx i in
    record {
      stated = stated;
      given = given;
      no_copyleft = λ a b f.
          true_not_false (ap (is_part (text "gpl")) f ∙ is_part-append (text "gpl") a b)
            (listed_no_gpl (lower (strip stated)) spdx i);
      spdx = spdx;
      normalized = e;
      is_permissive = k;
      stable = same;
      allowed_again = again;
    }
