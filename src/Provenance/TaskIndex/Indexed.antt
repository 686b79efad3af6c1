-- ===== src/Provenance/TaskIndex/Indexed.antt =====
-- The lookup that `task_metadata_index` of provenance/pipeline.py gives, and a sample that is joined by it.
use nodelm.Base.{
  ℕ, ◌≡◌, refl, sym, ap, ◌∙◌, subst, inl, inr, true, false, List, [], ◌∷◌, Text, text, ◌==◌,
  for_each, In, In-append_cases, Result, ok, err, passed, >>=-eq-ok, ok-injective, Option, none,
  some, Bool-cases, Option-cases,
}
use nodelm.Base.Methods.{strip, is_empty}
use nodelm.Split.Maps as Maps
use nodelm.Provenance.Values.{
  Value, Fields, null, floating, boolean, integer, negative, string, array, object, get_value,
}
use nodelm.Provenance.GoldFree.{casefold}
use nodelm.Provenance.Normalize.{
  NormalizationError, conflicting_task_metadata, string_of, first_of, required_string,
  required_identifier,
}
use nodelm.Provenance.Sample.{NormalizedSample}
use nodelm.Provenance.Pipeline.{
  TaskFields, DatasetSource, TraceOptions, looked_up, language_aliases, canonical_language,
  language_of, canonical_license, normalize_trace_sample,
}
use nodelm.Provenance.Pipeline.Joined.{
  IsStripped, IsTaskFields, IsJoined, normalize_trace_sample-IsJoined,
}
use nodelm.Provenance.Pipeline.Exact.{some_eq}
use nodelm.Provenance.TaskIndex.{
  TaskTable, lookup_task, require_source, require_revision, task_fields_of, add_task, index_row,
  task_metadata_index,
}
use nodelm.Provenance.TaskIndex.Stripped.{
  IsTrimmed, strip-IsTrimmed, casefold-IsTrimmed, casefold_char-some,
}

none-some : {A : Type 0} {a : A} → ◌≡◌ {A = Option A} none (some a) → ⊥
none-some h = cc

err-ok :
    {A : Type 0} {e : NormalizationError} {a : A}
    → ◌≡◌ {A = Result NormalizationError A} (err e) (ok a)
    → ⊥
err-ok h = cc

IsTrimmed-IsStripped : (s : Text) → IsTrimmed s → is_empty s ≡ false → IsStripped s
unfolding strip
IsTrimmed-IsStripped s t e = (rw t.left t.right, e)

string_of-IsStripped : (v : Option Value) (s : Text) → string_of v ≡ some s → IsStripped s
unfolding string_of
string_of-IsStripped none s h = cc
string_of-IsStripped (some null) s h = cc
string_of-IsStripped (some (floating t)) s h = cc
string_of-IsStripped (some (boolean b)) s h = cc
string_of-IsStripped (some (integer n)) s h = cc
string_of-IsStripped (some (negative n)) s h = cc
string_of-IsStripped (some (array i)) s h = cc
string_of-IsStripped (some (object o)) s h = cc
string_of-IsStripped (some (string raw)) s h = elim (Bool-cases (is_empty (strip raw))) [
  | inl t ↦ absurd (none-some (rw t at h))
  | inr f ↦
      subst IsStripped (some_eq (rw f at h))
        (IsTrimmed-IsStripped (strip raw) (strip-IsTrimmed raw) f)
]

first_of-IsStripped :
    (keys : List Text) (row : Fields) (s : Text)
    → first_of string_of keys row ≡ some s
    → IsStripped s
unfolding first_of
first_of-IsStripped [] row s h = absurd (none-some h)
first_of-IsStripped (key ∷ keys) row s h = elim (Option-cases (string_of (get_value key row))) [
  | inl e ↦ first_of-IsStripped keys row s (rw (e, first_of) at h)
  | inr (t, e) ↦ string_of-IsStripped (get_value key row) s (e ∙ (rw (e, first_of) at h))
]

required_string-IsStripped :
    (keys : List Text) (row : Fields) (s : Text) → required_string keys row ≡ ok s → IsStripped s
unfolding required_string
required_string-IsStripped keys row s h = elim (Option-cases (first_of string_of keys row)) [
  | inl e ↦ absurd (err-ok (rw (e, required_string) at h))
  | inr (t, e) ↦
      first_of-IsStripped keys row s (e ∙ ap some (ok-injective (rw (e, required_string) at h)))
]

javascript-IsStripped : IsStripped (text "JavaScript")
unfolding strip is_empty
javascript-IsStripped = (refl, refl)

typescript-IsStripped : IsStripped (text "TypeScript")
unfolding strip is_empty
typescript-IsStripped = (refl, refl)

alias-IsStripped :
    (key language : Text) → Maps.get key language_aliases ≡ some language → IsStripped language
alias-IsStripped key language h = of_entry (Maps.In_of_get key language language_aliases h)
  where
    of_entry : In (key, language) language_aliases → IsStripped language
    of_entry (inl e) = subst IsStripped (sym (ap (λ x. x.1) e)) javascript-IsStripped
    of_entry (inr (inl e)) = subst IsStripped (sym (ap (λ x. x.1) e)) javascript-IsStripped
    of_entry (inr (inr (inl e))) = subst IsStripped (sym (ap (λ x. x.1) e)) typescript-IsStripped
    of_entry (inr (inr (inr (inl e)))) =
        subst IsStripped (sym (ap (λ x. x.1) e)) typescript-IsStripped
    of_entry (inr (inr (inr (inr i)))) = absurd i

casefold-some : (s : Text) → is_empty s ≡ false → is_empty (casefold s) ≡ false
unfolding casefold is_empty
casefold-some [] h = h
casefold-some (c ∷ s) h = casefold_char-some c (casefold s)

language_of-IsStripped :
    (value language : Text) → language_of value ≡ ok language → IsStripped language
unfolding language_of canonical_language
language_of-IsStripped value language h = elim (Bool-cases (is_empty (strip value))) [
  | inl t ↦ absurd (err-ok (rw (t, canonical_language, language_of) at h))
  | inr f ↦ elim (Option-cases (Maps.get (casefold (strip value)) language_aliases)) [
    | inl e ↦
        subst IsStripped (ok-injective (rw e at (rw (f, canonical_language, language_of) at h))) (
          IsTrimmed-IsStripped (casefold (strip value))
            (casefold-IsTrimmed (strip value) (strip-IsTrimmed value))
            (casefold-some (strip value) f))
    | inr (l, e) ↦
        subst IsStripped (ok-injective (rw e at (rw (f, canonical_language, language_of) at h)))
          (alias-IsStripped (casefold (strip value)) l e)
  ]
]

task_fields_of-IsTaskFields :
    (row : Fields) (t : TaskFields) → task_fields_of row ≡ ok t → IsTaskFields t
unfolding task_fields_of
task_fields_of-IsTaskFields row t h =
    let (repo, a, h1) =
      >>=-eq-ok (required_string (text "repo" ∷ text "repository" ∷ []) row) _ h in
    let (commit, b, h2) = >>=-eq-ok (required_string (text "base_commit" ∷ []) row) _ h1 in
    let (raw, _, h3) =
      >>=-eq-ok (required_string (text "license" ∷ text "repository_license" ∷ []) row) _ h2 in
    let (license, _, h4) = >>=-eq-ok (canonical_license raw) _ h3 in
    let (raw_language, _, h5) = >>=-eq-ok (required_string (text "language" ∷ []) row) _ h4 in
    let (language, c, h6) = >>=-eq-ok (language_of raw_language) _ h5 in
    subst IsTaskFields (ok-injective h6) (record {
      repo = required_string-IsStripped (text "repo" ∷ text "repository" ∷ []) row repo a;
      base_commit = required_string-IsStripped (text "base_commit" ∷ []) row commit b;
      language = language_of-IsStripped raw_language language c;
    })

-- Every task of the table has stripped fields.
abbrev AreTaskFields : TaskTable → Type 0
AreTaskFields tasks = (id : Text) (t : TaskFields) → In (id, t) tasks → IsTaskFields t

add_task-AreTaskFields :
    (tasks after : TaskTable) (id : Text) (t : TaskFields)
    → AreTaskFields tasks
    → IsTaskFields t
    → add_task tasks id t ≡ ok after
    → AreTaskFields after
unfolding add_task
add_task-AreTaskFields tasks after id t h new e = elim (Option-cases (lookup_task tasks id)) [
  | inl n ↦ subst AreTaskFields (ok-injective (rw (n, add_task) at e)) (λ k u i.
      elim (In-append_cases (k, u) tasks ((id, t) ∷ []) i) [
        | inl j ↦ h k u j
        | inr j ↦ elim j [
          | inl m ↦ subst IsTaskFields (sym (ap (λ x. x.1) m)) new
          | inr m ↦ absurd m
        ]
      ])
  | inr (u, n) ↦
      let (_, g) = passed _ (conflicting_task_metadata id) _ (rw (n, add_task) at e) in
      subst AreTaskFields (ok-injective g) h
]

index_rows-AreTaskFields :
    (name revision : Option Text) (rows : List Fields) (tasks after : TaskTable)
    → AreTaskFields tasks
    → for_each (index_row name revision) tasks rows ≡ ok after
    → AreTaskFields after
unfolding for_each index_row
index_rows-AreTaskFields name revision [] tasks after h e = subst AreTaskFields (ok-injective e) h
index_rows-AreTaskFields name revision (row ∷ rows) tasks after h e =
    let (m, f, g) = >>=-eq-ok (index_row name revision tasks row) _ e in
    let (_, _, f1) = >>=-eq-ok (require_source name row) _ f in
    let (_, _, f2) = >>=-eq-ok (require_revision revision row) _ f1 in
    let (id, _, f3) = >>=-eq-ok (required_identifier (text "instance_id" ∷ []) row) _ f2 in
    let (t, f4, f5) = >>=-eq-ok (task_fields_of row) _ f3 in
    index_rows-AreTaskFields name revision rows m after
      (add_task-AreTaskFields tasks m id t h (task_fields_of-IsTaskFields row t f4) f5) g

In_of_lookup_task :
    (tasks : TaskTable) (id : Text) (t : TaskFields)
    → lookup_task tasks id ≡ some t
    → (k : Text) × In (k, t) tasks
unfolding lookup_task
In_of_lookup_task [] id t h = absurd (none-some h)
In_of_lookup_task ((k, u) ∷ tasks) id t h = elim (Bool-cases (k == id)) [
  | inl e ↦ (k, inl (ap (λ x. (k, x)) (some_fields (rw e at h))))
  | inr e ↦ let (m, i) = In_of_lookup_task tasks id t (rw e at h) in (m, inr i)
]
  where
    some_fields : ◌≡◌ {A = Option TaskFields} (some u) (some t) → t ≡ u
    some_fields g = cc

-- A sample that is joined by the index of the task rows has the repository, the commit and the language
-- that the index has for its identifier, whatever its trace states, and no gold patch in its trajectory.
pub task_metadata_index-IsJoined :
    (sha256 : Text → List ℕ) (name revision : Option Text) (task_rows : List Fields)
    (tasks : TaskTable) (row : Fields) (source : DatasetSource) (o : TraceOptions)
    (s : NormalizedSample)
    → task_metadata_index name revision task_rows ≡ ok tasks
    → o.task_lookup ≡ some (lookup_task tasks)
    → o.require_task_match ≡ true
    → normalize_trace_sample sha256 row source o ≡ ok s
    → (t : TaskFields) × (lookup_task tasks s.issue_or_pr_id ≡ some t) × IsJoined t s
unfolding task_metadata_index looked_up
task_metadata_index-IsJoined sha256 name revision task_rows tasks row source o s built given
      required h =
    let stored : AreTaskFields tasks =
      index_rows-AreTaskFields name revision task_rows [] tasks (λ id t i. absurd i) built in
    let looks : (id : Text) → looked_up o.task_lookup id ≡ lookup_task tasks id =
      λ id. ap (λ x. looked_up x id) given in
    let (t, found, joined) =
      normalize_trace_sample-IsJoined sha256 row source o s required
        (λ id t e. let (k, i) = In_of_lookup_task tasks id t (sym (looks id) ∙ e) in stored k t i)
        h in
    (t, sym (looks s.issue_or_pr_id) ∙ found, joined)
