-- ===== src/Harness/Command.antt =====
-- `CommandSpec` of harness/models.py. A timeout is a fraction, so that it is finite; an exit code is a
-- natural number. The directory is the parts of its absolute path.
use nodelm.Base.{
  ℕ, Bool, true, false, not, ◌&&◌, ◌||◌, List, [], ◌∷◌, Text, leb, eqb, select, Result, ok, ◌>>◌,
  raise_if, Option, none, some,
}
use nodelm.Base.Methods.{is_empty}
use nodelm.Base.Urls.{contains_char}
use nodelm.Base.Fractions.{Fraction}
use nodelm.Gates.Status.{any}

pub data OutcomeCategory : Type 0 where
  success model_failure test_failure environment_failure dependency_install_failure :
      OutcomeCategory
  timeout tool_protocol_failure internal_failure : OutcomeCategory

-- `_NONZERO_OUTCOMES`
unfoldable pub is_nonzero : OutcomeCategory → Bool
is_nonzero success = false
is_nonzero timeout = false
is_nonzero _ = true

pub data CommandError : Type 0 where
  no_executable nul_in_argv timeout_not_positive outcome_not_nonzero no_exit_codes
        limit_not_positive :
      CommandError
  invalid_name nul_in_value : Text → CommandError
  nul_in_pattern no_search_path invalid_count invalid_revision unknown_manager invalid_script
        not_trusted :
      CommandError
  outside_workspace not_a_directory : Text → CommandError

pub record CommandSpec : Type 0 where
  pub argv : List Text
  pub cwd : List Text
  pub timeout_seconds : Fraction
  pub failure_outcome : OutcomeCategory
  pub success_exit_codes : List ℕ
  pub env : List (Text × Text)
  pub redact_values : List Text
  pub max_output_bytes : Option ℕ

unfoldable pub is_alphanumeric : ℕ → Bool
is_alphanumeric c = (leb 48 c && leb c 57) || (leb 65 c && leb c 90) || (leb 97 c && leb c 122)

unfoldable pub is_word : ℕ → Bool
unfolding is_alphanumeric
is_word c = is_alphanumeric c || eqb c 95

-- `^[A-Za-z_][A-Za-z0-9_]*$`
unfoldable pub is_environment_name : Text → Bool
unfolding is_word any
is_environment_name [] = false
is_environment_name (c ∷ s) =
    is_word c && not (leb 48 c && leb c 57) && not (any (λ d. not (is_word d)) s)

unfoldable pub check_environment : List (Text × Text) → Result CommandError (Unit {0})
unfolding is_environment_name contains_char
check_environment [] = ok tt
check_environment ((name, value) ∷ env) = do
  raise_if (not (is_environment_name name)) (invalid_name name)
  raise_if (contains_char 0 value) (nul_in_value name)
  check_environment env

unfoldable pub has_executable : List Text → Bool
unfolding is_empty
has_executable [] = false
has_executable (executable ∷ arguments) = not (is_empty executable)

unfoldable pub is_zero_limit : Option ℕ → Bool
is_zero_limit none = false
is_zero_limit (some n) = eqb n 0

-- `__post_init__`
unfoldable pub command_spec : CommandSpec → Result CommandError CommandSpec
unfolding has_executable any contains_char is_nonzero is_empty is_zero_limit check_environment
command_spec spec = do
  raise_if (not (has_executable spec.argv)) no_executable
  raise_if (any (contains_char 0) spec.argv) nul_in_argv
  raise_if (eqb spec.timeout_seconds.numerator 0) timeout_not_positive
  raise_if (not (is_nonzero spec.failure_outcome)) outcome_not_nonzero
  raise_if (is_empty spec.success_exit_codes) no_exit_codes
  raise_if (is_zero_limit spec.max_output_bytes) limit_not_positive
  check_environment spec.env
  ok (record spec { redact_values = select (λ v. not (is_empty v)) spec.redact_values })
