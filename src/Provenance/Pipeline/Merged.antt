-- ===== src/Provenance/Pipeline/Merged.antt =====
-- The fields of a row after `normalize_trace_sample` has set some of them.
use nodelm.Base.{
  ◌≡◌, refl, sym, ap, ◌∙◌, inl, inr, false, not, List, [], ◌∷◌, Text, text, ◌==◌, ==_iff, arith,
  if◌then◌else◌, Result, ok, err, >>=-eq-ok, passed, ok-injective, Option, none, some, Option-cases,
}
use nodelm.Gates.Status.{any}
use nodelm.Provenance.Values.{
  Value, Fields, string, object, field, end, get_value, null, floating, boolean, integer, negative,
  array,
}
use nodelm.Provenance.Normalize.{
  NormalizationError, task_mismatch, string_of, identifier_of, first_of, required_string,
  required_identifier,
}
use nodelm.Provenance.Pipeline.{
  TaskFields, Join, set_field, optional_string, fill_with, fill_from, fill_metadata, values_match,
  join_field, by_repository, by_commit, by_license, by_language, join_task,
}

pub get_value-set_field :
    (key k : Text) (v : Value) (row : Fields)
    → get_value key (set_field k v row) ≡ (if k == key then some v else get_value key row)
unfolding get_value set_field
get_value-set_field key k v end = refl
get_value-set_field key k v (field j w row) =
    ground (arith, ==_iff j k, ==_iff j key, ==_iff k key, get_value-set_field key k v row)

pub get_value-set_field_other :
    (key k : Text) (v : Value) (row : Fields)
    → (k == key) ≡ false
    → get_value key (set_field k v row) ≡ get_value key row
get_value-set_field_other key k v row h = get_value-set_field key k v row ∙ (rw h refl)

get_value-fill_with :
    (name key : Text) (own nested : Option Text) (merged : Fields)
    → (key == name) ≡ false
    → get_value name (fill_with own nested key merged) ≡ get_value name merged
unfolding fill_with
get_value-fill_with name key (some s) nested merged h = refl
get_value-fill_with name key none none merged h = refl
get_value-fill_with name key none (some s) merged h =
    get_value-set_field_other name key (string s) merged h

get_value-fill_from :
    (name : Text) (metadata : Fields) (keys : List Text) (merged : Fields)
    → any (λ k. k == name) keys ≡ false
    → get_value name (fill_from metadata keys merged) ≡ get_value name merged
unfolding fill_from any
get_value-fill_from name metadata [] merged h = refl
get_value-fill_from name metadata (key ∷ keys) merged h =
    get_value-fill_from name metadata keys _ (ground arith)
    ∙ get_value-fill_with name key (optional_string key merged) (optional_string key metadata)
        merged (ground arith)

pub get_value-fill_metadata :
    (name : Text) (metadata : Option Value) (merged : Fields)
    → any (λ k. k == name) (text "base_commit" ∷ text "license" ∷ text "language" ∷ []) ≡ false
    → get_value name (fill_metadata metadata merged) ≡ get_value name merged
unfolding fill_metadata
get_value-fill_metadata name none merged h = refl
get_value-fill_metadata name (some null) merged h = refl
get_value-fill_metadata name (some (floating t)) merged h = refl
get_value-fill_metadata name (some (boolean b)) merged h = refl
get_value-fill_metadata name (some (integer n)) merged h = refl
get_value-fill_metadata name (some (negative n)) merged h = refl
get_value-fill_metadata name (some (string s)) merged h = refl
get_value-fill_metadata name (some (array items)) merged h = refl
get_value-fill_metadata name (some (object metadata)) merged h =
    get_value-fill_from name metadata (text "base_commit" ∷ text "license" ∷ text "language" ∷ [])
      merged h

join_field-set :
    (how : Join) (key : Text) (trace_keys : List Text) (label value : Text) (merged m : Fields)
    → join_field how key trace_keys label value merged ≡ ok m
    → m ≡ set_field key (string value) merged
unfolding join_field
join_field-set how key trace_keys label value merged m h =
    elim (Option-cases (first_of string_of trace_keys merged)) [
      | inl e ↦ sym (ok-injective (rw (e, join_field) at h))
      | inr (t, e) ↦
          let (matched, _, f) = >>=-eq-ok (values_match how t value) _ (rw (e, join_field) at h) in
          let (_, g) = passed (not matched) (task_mismatch label) _ f in sym (ok-injective g)
    ]

-- The row after the fields of the task have been joined.
abbrev pub with_task : TaskFields → Fields → Fields
with_task t row = set_field (text "language") (string t.language) (
    set_field (text "license") (string t.license) (
      set_field (text "base_commit") (string t.base_commit)
        (set_field (text "repo") (string t.repo) row)))

pub join_task-with_task :
    (t : TaskFields) (row joined : Fields) → join_task t row ≡ ok joined → joined ≡ with_task t row
unfolding join_task
join_task-with_task t row joined h =
    let (a, e1, h1) = >>=-eq-ok (join_field by_repository (text "repo") _ _ t.repo row) _ h in
    let (b, e2, h2) =
      >>=-eq-ok (join_field by_commit (text "base_commit") _ _ t.base_commit a) _ h1 in
    let (c, e3, h3) = >>=-eq-ok (join_field by_license (text "license") _ _ t.license b) _ h2 in
    let f1 = join_field-set by_repository _ _ _ t.repo row a e1 in
    let f2 = join_field-set by_commit _ _ _ t.base_commit a b e2 in
    let f3 = join_field-set by_license _ _ _ t.license b c e3 in
    join_field-set by_language _ _ _ t.language c joined h3
    ∙ ap (set_field (text "language") (string t.language)) (
        f3
        ∙ ap (set_field (text "license") (string t.license))
            (f2 ∙ ap (set_field (text "base_commit") (string t.base_commit)) f1))

none-some : {A : Type 0} {a : A} → ◌≡◌ {A = Option A} none (some a) → ⊥
none-some e = cc

-- The first key that is asked for has what is read.
pub first_found :
    (read : Option Value → Option Text) (key : Text) (keys : List Text) (row : Fields) (s : Text)
    → read (get_value key row) ≡ some s
    → first_of read (key ∷ keys) row ≡ some s
unfolding first_of
first_found read key keys row s e = rw (e, first_of) refl

pub found_first :
    (read : Option Value → Option Text) (key : Text) (row : Fields) (s : Text)
    → first_of read (key ∷ []) row ≡ some s
    → read (get_value key row) ≡ some s
unfolding first_of
found_first read key row s h = elim (Option-cases (read (get_value key row))) [
  | inl e ↦ absurd (none-some (rw (e, first_of) at h))
  | inr (t, e) ↦ e ∙ (rw (e, first_of) at h)
]

err_ok :
    {e : NormalizationError} {s : Text}
    → ◌≡◌ {A = Result NormalizationError Text} (err e) (ok s)
    → ⊥
err_ok h = cc

pub identifier_found :
    (keys : List Text) (row : Fields) (id : Text)
    → required_identifier keys row ≡ ok id
    → first_of identifier_of keys row ≡ some id
unfolding required_identifier
identifier_found keys row id h = elim (Option-cases (first_of identifier_of keys row)) [
  | inl e ↦ absurd (err_ok (rw (e, required_identifier) at h))
  | inr (t, e) ↦ e ∙ ap some (ok-injective (rw (e, required_identifier) at h))
]

pub string_found :
    (keys : List Text) (row : Fields) (s : Text)
    → required_string keys row ≡ ok s
    → first_of string_of keys row ≡ some s
unfolding required_string
string_found keys row s h = elim (Option-cases (first_of string_of keys row)) [
  | inl e ↦ absurd (err_ok (rw (e, required_string) at h))
  | inr (t, e) ↦ e ∙ ap some (ok-injective (rw (e, required_string) at h))
]

abbrev pub task_keys : List Text
task_keys = text "language" ∷ text "license" ∷ text "base_commit" ∷ text "repo" ∷ []

-- A field that is not of the task stays.
pub get_value-with_task :
    (name : Text) (t : TaskFields) (row : Fields)
    → any (λ k. k == name) task_keys ≡ false
    → get_value name (with_task t row) ≡ get_value name row
unfolding any
get_value-with_task name t row h =
    get_value-set_field_other name (text "language") _ _ (ground arith)
    ∙ get_value-set_field_other name (text "license") _ _ (ground arith)
    ∙ get_value-set_field_other name (text "base_commit") _ _ (ground arith)
    ∙ get_value-set_field_other name (text "repo") _ row (ground arith)
