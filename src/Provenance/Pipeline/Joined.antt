-- ===== src/Provenance/Pipeline/Joined.antt =====
-- The sample that `normalize_trace_sample` returns has the fields of its task, and no gold patch.
use nodelm.Base.{
  ℕ, ◌≡◌, refl, sym, ap, ◌∙◌, subst, inl, inr, true, false, List, ◌∷◌, Text, text, ◌==◌, Result, ok,
  err, Option, none, some, Bool-cases, ok-injective,
}
use nodelm.Base.Methods.{strip, is_empty}
use nodelm.Gates.Status.{some_of_is_none}
use nodelm.Provenance.Values.{
  Value, Items, Fields, null, floating, boolean, integer, negative, string, array, object, nil,
  get_value,
}
use nodelm.Provenance.GoldFree.{GoldFieldError, validate_gold_free, validate_gold_free_trajectory}
use nodelm.Provenance.GoldFree.Paths.{LeadsFrom, is_gold_patch, validate_gold_free_trajectory_iff}
use nodelm.Provenance.Normalize.{
  NormalizationError, forbidden_gold_patch, string_of, are_mappings, check_trajectory,
  trajectory_of, required_string,
}
use nodelm.Provenance.Sample.{NormalizedSample}
use nodelm.Provenance.Sample.Normalized.{normalize_sample-IsNormalized}
use nodelm.Provenance.Pipeline.{
  TaskFields, DatasetSource, TraceOptions, looked_up, normalize_trace_sample,
}
use nodelm.Provenance.Pipeline.Merged.{
  get_value-set_field, get_value-set_field_other, with_task, first_found, string_found,
}
use nodelm.Provenance.Pipeline.Traced.{labels_of, merged_of, normalize_trace_sample-IsTraced}
use nodelm.Provenance.Pipeline.Exact.{joined_rows, ids_agree, required_found, some_eq}

abbrev pub IsStripped : Text → Type 0
IsStripped s = (strip s ≡ s) × (is_empty s ≡ false)

-- The fields of a task, as they are read for the index of tasks: with no white space around them.
pub record IsTaskFields (t : TaskFields) : Type 0 where
  pub repo : IsStripped t.repo
  pub base_commit : IsStripped t.base_commit
  pub language : IsStripped t.language

string_of_stripped : (s : Text) → IsStripped s → string_of (some (string s)) ≡ some s
unfolding string_of
string_of_stripped s (e, f) = rw e (rw f refl)

module _ (t : TaskFields) (row : Fields) where
  get_value-repo : get_value (text "repo") (with_task t row) ≡ some (string t.repo)
  unfolding ◌==◌
  get_value-repo =
      get_value-set_field_other (text "repo") (text "language") (string t.language) _ refl
      ∙ get_value-set_field_other (text "repo") (text "license") (string t.license) _ refl
      ∙ get_value-set_field_other (text "repo") (text "base_commit") (string t.base_commit) _ refl
      ∙ get_value-set_field (text "repo") (text "repo") (string t.repo) row

  get_value-base_commit :
      get_value (text "base_commit") (with_task t row) ≡ some (string t.base_commit)
  unfolding ◌==◌
  get_value-base_commit =
      get_value-set_field_other (text "base_commit") (text "language") (string t.language) _ refl
      ∙ get_value-set_field_other (text "base_commit") (text "license") (string t.license) _ refl
      ∙ get_value-set_field (text "base_commit") (text "base_commit") (string t.base_commit) _

  get_value-language : get_value (text "language") (with_task t row) ≡ some (string t.language)
  unfolding ◌==◌
  get_value-language = get_value-set_field (text "language") (text "language") (string t.language) _

-- What is read first of a joined row is the field of the task.
read_task :
    (key : Text) (keys : List Text) (joined : Fields) (value s : Text)
    → get_value key joined ≡ some (string value)
    → IsStripped value
    → required_string (key ∷ keys) joined ≡ ok s
    → s ≡ value
read_task key keys joined value s e stripped h = some_eq (
    sym (string_found (key ∷ keys) joined s h)
    ∙ first_found string_of key keys joined value
        (ap string_of e ∙ string_of_stripped value stripped))

err_ok :
    {e : NormalizationError} {s : Items}
    → ◌≡◌ {A = Result NormalizationError Items} (err e) (ok s)
    → ⊥
err_ok h = cc

checked_gold_free :
    (items trajectory : Items)
    → check_trajectory items ≡ ok trajectory
    → validate_gold_free_trajectory (array trajectory) ≡ ok tt
unfolding check_trajectory
checked_gold_free items trajectory h = elim (Bool-cases (are_mappings items)) [
  | inl t ↦ free (validate_gold_free_trajectory (array items)) refl (rw t at h)
  | inr f ↦ absurd (err_ok (rw f at h))
]
  where
    free :
        (r : Result GoldFieldError (Unit {0}))
        → validate_gold_free_trajectory (array items) ≡ r
        → ◌≡◌ {A = Result NormalizationError Items}
            (elim r [ err e ↦ err forbidden_gold_patch | ok u ↦ ok items ])
            (ok trajectory)
        → validate_gold_free_trajectory (array trajectory) ≡ ok tt
    free (err e) f g = absurd (err_ok g)
    free (ok u) f g =
        subst (λ x. validate_gold_free_trajectory (array x) ≡ ok tt) (ok-injective g) f

nil_gold_free :
    (trajectory : Items)
    → nil ≡ trajectory
    → validate_gold_free_trajectory (array trajectory) ≡ ok tt
unfolding validate_gold_free
nil_gold_free trajectory e = subst (λ x. validate_gold_free_trajectory (array x) ≡ ok tt) e refl

trajectory_gold_free :
    (v : Option Value) (trajectory : Items)
    → trajectory_of v ≡ ok trajectory
    → validate_gold_free_trajectory (array trajectory) ≡ ok tt
unfolding trajectory_of
trajectory_gold_free none trajectory h = nil_gold_free trajectory (ok-injective h)
trajectory_gold_free (some null) trajectory h = nil_gold_free trajectory (ok-injective h)
trajectory_gold_free (some (array items)) trajectory h = checked_gold_free items trajectory h
trajectory_gold_free (some (floating t)) trajectory h = absurd (err_ok h)
trajectory_gold_free (some (boolean b)) trajectory h = absurd (err_ok h)
trajectory_gold_free (some (integer n)) trajectory h = absurd (err_ok h)
trajectory_gold_free (some (negative n)) trajectory h = absurd (err_ok h)
trajectory_gold_free (some (string s)) trajectory h = absurd (err_ok h)
trajectory_gold_free (some (object o)) trajectory h = absurd (err_ok h)

-- What a sample takes from its task.
pub record IsJoined (t : TaskFields) (s : NormalizedSample) : Type 0 where
  pub repository : s.repository ≡ t.repo
  pub base_commit : s.base_commit ≡ t.base_commit
  pub language : s.language ≡ t.language
  pub gold_free :
      (path : List Text) → LeadsFrom (array s.trajectory) path → is_gold_patch path ≡ false

-- Where a match is required, and the tasks that the lookup gives have stripped fields, a sample has the
-- repository, the commit and the language of the task that is looked up for its own identifier, whatever
-- its trace states, and no path in its trajectory leads to a patch that references gold.
pub normalize_trace_sample-IsJoined :
    (sha256 : Text → List ℕ) (row : Fields) (source : DatasetSource) (o : TraceOptions)
    (s : NormalizedSample)
    → o.require_task_match ≡ true
    → ((id : Text) (t : TaskFields) → looked_up o.task_lookup id ≡ some t → IsTaskFields t)
    → normalize_trace_sample sha256 row source o ≡ ok s
    → (t : TaskFields) × (looked_up o.task_lookup s.issue_or_pr_id ≡ some t) × IsJoined t s
normalize_trace_sample-IsJoined sha256 row source o s required tasks h =
    let x = normalize_trace_sample-IsTraced sha256 row source o s h in
    let n =
      normalize_sample-IsNormalized sha256 x.joined (labels_of sha256 row source o x.revision x.id)
        s x.normalizes in
    let (t, found) =
      some_of_is_none (looked_up o.task_lookup x.id)
        (required_found o.require_task_match _ required x.matched) in
    let e =
      joined_rows (looked_up o.task_lookup x.id) t (merged_of row x.resolution) x.joined found
        x.joins in
    let ids = ids_agree row x.joined t x.resolution x.id s.issue_or_pr_id e x.named n.named in
    let fields = tasks x.id t found in
    let m = merged_of row x.resolution in
    (
      t,
      ap (looked_up o.task_lookup) (sym ids) ∙ found,
      record {
        repository =
            read_task (text "repo") _ x.joined t.repo s.repository
              (ap (get_value (text "repo")) e ∙ get_value-repo t m) fields.repo n.in_repository;
        base_commit =
            read_task (text "base_commit") _ x.joined t.base_commit s.base_commit
              (ap (get_value (text "base_commit")) e ∙ get_value-base_commit t m) fields.base_commit
              n.at_commit;
        language =
            read_task (text "language") _ x.joined t.language s.language
              (ap (get_value (text "language")) e ∙ get_value-language t m) fields.language
              n.in_language;
        gold_free =
            (validate_gold_free_trajectory_iff (array s.trajectory)).0
              (trajectory_gold_free _ s.trajectory n.checked);
      },
    )
