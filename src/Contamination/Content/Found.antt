-- ===== src/Contamination/Content/Found.antt =====
-- Lookups of texts by fingerprint, for the tables of `_insert_content_value`.
use nodelm.Base.{
  ◌≡◌, refl, ap, ◌∙◌, false, ◌&&◌, List, [], ◌∷◌, ◌++◌, Text, arith, ◌==◌, eq_of_==, In, Option,
  none, some, inl, inr, Bool-cases,
}
use nodelm.Contamination.Tables.{ContentKind, same_kind, ContentRow}
use nodelm.Contamination.Content.{text_of, insert_content, is_collision}
use nodelm.Contamination.Content.Inserted.{eq_of_same_kind, insert_content_cases}

pub text_of-append :
    (kind : ContentKind) (f : Text) (rows : List ContentRow) (row : ContentRow) (t : Text)
    → text_of kind f rows ≡ some t
    → text_of kind f (rows ++ row ∷ []) ≡ some t
unfolding text_of
text_of-append kind f [] row t h = absurd (none_of h)
  where
    none_of : ◌≡◌ {A = Option Text} none (some t) → ⊥
    none_of e = cc
text_of-append kind f (r ∷ rows) row t h =
    elim (Bool-cases (same_kind r.kind kind && r.fingerprint == f)) [
      | inl c ↦ rw c (rw c at h)
      | inr c ↦ rw c (text_of-append kind f rows row t (rw c at h))
    ]

pub text_of-insert_content :
    (kind : ContentKind) (f : Text) (rows : List ContentRow) (row : ContentRow) (t : Text)
    → text_of kind f rows ≡ some t
    → text_of kind f (insert_content row rows) ≡ some t
text_of-insert_content kind f rows row t h = elim (insert_content_cases row rows) [
  | inl e ↦ ap (text_of kind f) e ∙ h
  | inr e ↦ ap (text_of kind f) e ∙ text_of-append kind f rows row t h
]

-- The row that a text is found in.
pub row_of_text :
    (kind : ContentKind) (f : Text) (rows : List ContentRow) (t : Text)
    → text_of kind f rows ≡ some t
    → (c : ContentRow) × In c rows × (c.kind ≡ kind) × (c.fingerprint ≡ f) × (c.text ≡ t)
unfolding text_of
row_of_text kind f [] t h = absurd (none_of h)
  where
    none_of : ◌≡◌ {A = Option Text} none (some t) → ⊥
    none_of e = cc
row_of_text kind f (r ∷ rows) t h =
    elim (Bool-cases (same_kind r.kind kind && r.fingerprint == f)) [
      | inl c ↦ (
        r,
        inl refl,
        eq_of_same_kind r.kind kind (ground arith),
        eq_of_== r.fingerprint f (ground arith),
        found (rw c at h),
      )
      | inr c ↦ let (q, i, k, e, u) = row_of_text kind f rows t (rw c at h) in (q, inr i, k, e, u)
    ]
  where
    found : some r.text ≡ some t → r.text ≡ t
    found e = cc

pub stored_of_collision : (o : Option Text) (t : Text) → is_collision o t ≡ false → o ≡ some t
unfolding is_collision
stored_of_collision none t h = cc
stored_of_collision (some s) t h = ap some (eq_of_== s t (ground arith))
