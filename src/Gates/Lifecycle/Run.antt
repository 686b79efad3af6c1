-- ===== src/Gates/Lifecycle/Run.antt =====
-- What a run of training/lifecycle.py reports.
use nodelm.Base.{
  ◌≡◌, refl, sym, ap, ◌∙◌, Bool, true, false, not, ◌&&◌, List, [], ◌∷◌, ◌++◌, Text, text, Result,
  ok, err, ◌>>◌, raise_if, Option, none, some, inl, inr, ◌⊎◌,
}
use mathlib.Core.Bool.{xor}
use nodelm.Contamination.Forest.{contains}
use nodelm.Gates.Status.{pass, fail, is_pass}
use nodelm.Gates.Lifecycle.{
  pass_without_resume, flag_does_not_match, run_inference, run_stages, run_training_lifecycle,
  RaisedError, ReportError, Stage, TrainingBackend, TrainingLifecycleReport, check_report,
  failed_report, name_of, stages,
}

abbrev pub stage_names : List Text
stage_names =
    text "load"
    ∷ text "tokenize"
    ∷ text "train_step"
    ∷ text "save_checkpoint"
    ∷ text "reload_checkpoint"
    ∷ text "resume_train_step"
    ∷ text "infer"
    ∷ []

-- A report of a run: it passed, with every stage completed and an output, or it failed in the stage that
-- follows the completed ones.
abbrev pub IsRun : TrainingLifecycleReport → Type 0
IsRun r =
    ((r.status ≡ pass)
      × (r.completed_stages ≡ stage_names)
      × ((output : Text) × (r.inference_output ≡ some output)))
    ⊎ ((r.status ≡ fail)
        × ((stage : Text) × (rest : List Text) × (r.failed_stage ≡ some stage)
            × (r.completed_stages ++ stage ∷ rest ≡ stage_names)))

names_of : List Stage → List Text
unfolding name_of
names_of [] = text "infer" ∷ []
names_of (stage ∷ rest) = name_of stage ∷ names_of rest

append_assoc : (a b c : List Text) → (a ++ b) ++ c ≡ a ++ (b ++ c)
append_assoc [] b c = refl
append_assoc (x ∷ a) b c = ap (λ s. x ∷ s) (append_assoc a b c)

-- A report that fails in a stage is consistent if its flag is that of its completed stages.
check_failed :
    (completed : List Text) (stage : Text) (error : RaisedError) (resumed : Bool)
    → resumed ≡ contains (text "resume_train_step") completed
    → check_report (failed_report completed stage error resumed)
      ≡ ok (failed_report completed stage error resumed)
unfolding check_report is_pass xor
check_failed completed stage error resumed e =
    rw (ap (λ b. xor resumed b) (sym e) ∙ same resumed) refl
  where
    same : (b : Bool) → xor b b ≡ false
    same true = refl
    same false = refl

check_passed :
    (r : TrainingLifecycleReport)
    → r.resumed_optimizer_step_completed ≡ true
    → contains (text "resume_train_step") r.completed_stages ≡ true
    → check_report r ≡ ok r
unfolding check_report xor
check_passed r e f =
    both_pass (xor r.resumed_optimizer_step_completed here) (is_pass r.status && not here)
      (ap (λ b. xor b here) e ∙ ap (λ c. xor true c) f)
      (ap (λ c. is_pass r.status && not c) f ∙ and_false (is_pass r.status))
  where
    here : Bool
    here = contains (text "resume_train_step") r.completed_stages

    and_false : (b : Bool) → (b && false) ≡ false
    and_false true = refl
    and_false false = refl

    both_pass :
        (a b : Bool)
        → a ≡ false
        → b ≡ false
        → (raise_if a flag_does_not_match >> (raise_if b pass_without_resume >> ok r)) ≡ ok r
    both_pass false false e f = refl
    both_pass true b e f = cc
    both_pass false true e f = cc

-- A list without its last item.
front : List Text → List Text
front [] = []
front (x ∷ []) = []
front (x ∷ y ∷ s) = x ∷ front (y ∷ s)

front-append : (a : List Text) (x : Text) → front (a ++ x ∷ []) ≡ a
unfolding front
front-append [] x = refl
front-append (y ∷ []) x = refl
front-append (y ∷ z ∷ a) x = ap (λ s. y ∷ s) (front-append (z ∷ a) x)

resumed_at_end :
    (completed : List Text)
    → completed ++ text "infer" ∷ [] ≡ stage_names
    → contains (text "resume_train_step") completed ≡ true
unfolding front contains
resumed_at_end completed h =
    ap (contains (text "resume_train_step"))
      (sym (front-append completed (text "infer")) ∙ ap front h)

module _ {S : Type 0} (backend : TrainingBackend S) where
  Ran : Result ReportError TrainingLifecycleReport → Type 0
  Ran m = (r : TrainingLifecycleReport) × (m ≡ ok r) × IsRun r

  run_inference-Ran :
      (completed : List Text) (s : S)
      → completed ++ text "infer" ∷ [] ≡ stage_names
      → Ran (run_inference backend completed s)
  unfolding Ran run_inference contains
  run_inference-Ran completed s h = go ((backend.infer s).1)
    where
      resumed : contains (text "resume_train_step") completed ≡ true
      resumed = resumed_at_end completed h

      go :
          (m : Result RaisedError Text)
          → Ran (elim m [
            | err error ↦ check_report (failed_report completed (text "infer") error true)
            | ok output ↦ check_report (record {
              status = pass;
              completed_stages = completed ++ text "infer" ∷ [];
              failed_stage = none;
              error = none;
              inference_output = some output;
              resumed_optimizer_step_completed = true;
            })
          ])
      go (err error) = (
        failed_report completed (text "infer") error true,
        check_failed completed (text "infer") error true (sym resumed),
        inr (refl, (text "infer", [], refl, h)),
      )
      go (ok output) = (
        record {
          status = pass;
          completed_stages = completed ++ text "infer" ∷ [];
          failed_stage = none;
          error = none;
          inference_output = some output;
          resumed_optimizer_step_completed = true;
        },
        check_passed _ refl (ap (contains (text "resume_train_step")) h),
        inl (refl, h, (output, refl)),
      )

  run_stages-Ran :
      (rest : List Stage) (completed : List Text) (s : S)
      → completed ++ names_of rest ≡ stage_names
      → Ran (run_stages backend rest completed s)
  unfolding Ran run_stages names_of
  run_stages-Ran [] completed s h = run_inference-Ran completed s h
  run_stages-Ran (stage ∷ rest) completed s h = go ((backend.operation stage s).1) (
      run_stages-Ran rest (completed ++ name_of stage ∷ []) s'
        (append_assoc completed (name_of stage ∷ []) (names_of rest) ∙ h))
    where
      s' : S
      s' = (backend.operation stage s).0

      go :
          (raised : Option RaisedError)
          → Ran (run_stages backend rest (completed ++ name_of stage ∷ []) s')
          → Ran (elim raised [
            | some error ↦ check_report (
                failed_report completed
                  (name_of stage)
                  error
                  (contains (text "resume_train_step") completed))
            | none ↦ run_stages backend rest (completed ++ name_of stage ∷ []) s'
          ])
      go (some error) further = (
        failed_report completed (name_of stage) error
            (contains (text "resume_train_step") completed),
        check_failed completed (name_of stage) error (contains (text "resume_train_step") completed)
            refl,
        inr (refl, (name_of stage, names_of rest, refl, h)),
      )
      go none further = further

-- Whatever the backend does, the lifecycle gives a report that its own validator accepts: a pass with all
-- stages completed and an output, or a failure in the stage that follows the completed ones.
pub run_training_lifecycle-IsRun :
    {S : Type 0} (backend : TrainingBackend S) (s : S)
    → (r : TrainingLifecycleReport) × (run_training_lifecycle backend s ≡ ok r) × IsRun r
unfolding run_training_lifecycle Ran names_of
run_training_lifecycle-IsRun backend s = run_stages-Ran backend stages [] s refl
