-- ===== src/Gates/Lifecycle.antt =====
-- `run_training_lifecycle` of training/lifecycle.py. The backend is a parameter: what each operation does
-- to its state, and the exception that it raises, if it does. Durations are not modelled.
pub mod Run
use nodelm.Base.{
  ◌≡◌, refl, sym, ap, ◌∙◌, Bool, true, false, not, ◌&&◌, List, [], ◌∷◌, ◌++◌, Text, text, Result,
  ok, err, ◌>>◌, raise_if, Option, none, some, inl, inr, ◌⊎◌,
}
use mathlib.Core.Bool.{xor}
use nodelm.Contamination.Forest.{contains}
use nodelm.Gates.Status.{VerificationStatus, pass, fail, is_pass}

-- The operations, without `infer`, which gives a text.
pub data Stage : Type 0 where
  load tokenize train_step save_checkpoint reload_checkpoint resume_train_step : Stage

unfoldable pub name_of : Stage → Text
name_of load = text "load"
name_of tokenize = text "tokenize"
name_of train_step = text "train_step"
name_of save_checkpoint = text "save_checkpoint"
name_of reload_checkpoint = text "reload_checkpoint"
name_of resume_train_step = text "resume_train_step"

abbrev pub stages : List Stage
stages = load ∷ tokenize ∷ train_step ∷ save_checkpoint ∷ reload_checkpoint ∷ resume_train_step ∷ []

pub record RaisedError : Type 0 where
  pub error_type : Text
  pub error_message : Text

pub record TrainingBackend (S : Type 0) : Type 0 where
  pub operation : Stage → S → S × Option RaisedError
  pub infer : S → S × Result RaisedError Text

pub record TrainingLifecycleReport : Type 0 where
  pub status : VerificationStatus
  pub completed_stages : List Text
  pub failed_stage : Option Text
  pub error : Option RaisedError
  pub inference_output : Option Text
  pub resumed_optimizer_step_completed : Bool

pub data ReportError : Type 0 where
  flag_does_not_match pass_without_resume : ReportError

-- `require_consistent_resume_evidence`
unfoldable pub check_report : TrainingLifecycleReport → Result ReportError TrainingLifecycleReport
unfolding contains is_pass
check_report r = do
  let stage_completed = contains (text "resume_train_step") r.completed_stages
  raise_if (xor r.resumed_optimizer_step_completed stage_completed) flag_does_not_match
  raise_if (is_pass r.status && not stage_completed) pass_without_resume
  ok r

abbrev pub failed_report : List Text → Text → RaisedError → Bool → TrainingLifecycleReport
failed_report completed stage error resumed = record {
  status = fail;
  completed_stages = completed;
  failed_stage = some stage;
  error = some error;
  inference_output = none;
  resumed_optimizer_step_completed = resumed;
}

module _ {S : Type 0} (backend : TrainingBackend S) where
  unfoldable pub run_inference : List Text → S → Result ReportError TrainingLifecycleReport
  unfolding check_report
  run_inference completed s =
      let (s', result) = backend.infer s in
      elim result [
        | err error ↦ check_report (failed_report completed (text "infer") error true)
        | ok output ↦ check_report (record {
          status = pass;
          completed_stages = completed ++ text "infer" ∷ [];
          failed_stage = none;
          error = none;
          inference_output = some output;
          resumed_optimizer_step_completed = true;
        })
      ]

  unfoldable pub run_stages :
      List Stage → List Text → S → Result ReportError TrainingLifecycleReport
  unfolding name_of run_inference check_report contains
  run_stages [] completed s = run_inference completed s
  run_stages (stage ∷ rest) completed s =
      let (s', raised) = backend.operation stage s in
      let further = run_stages rest (completed ++ name_of stage ∷ []) s' in
      elim raised [
        | some error ↦ check_report (
            failed_report completed (name_of stage) error
              (contains (text "resume_train_step") completed))
        | none ↦ further
      ]

  unfoldable pub run_training_lifecycle : S → Result ReportError TrainingLifecycleReport
  unfolding run_stages
  run_training_lifecycle s = run_stages stages [] s
