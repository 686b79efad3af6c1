-- ===== src/Harness/Arguments.antt =====
-- The arguments of commands of harness/policy.py: paths, names and what a failure means.
use nodelm.Base.{
  Bool, true, false, not, ◌&&◌, ◌||◌, List, [], ◌∷◌, ◌++◌, Text, text, ◌==◌, if◌then◌else◌, Result,
  ok, ◌>>◌, raise_if, none,
}
use nodelm.Base.Methods.{is_empty, join}
use nodelm.Base.Urls.{contains_char}
use nodelm.Contamination.Forest.{contains}
use nodelm.Gates.Status.{any}
use nodelm.Gates.Patches.{starts_with}
use nodelm.Harness.Command.{
  OutcomeCategory, test_failure, environment_failure, dependency_install_failure, CommandError,
  nul_in_argv, CommandSpec, is_alphanumeric,
}

pub record FileSystem : Type 0 where
  pub resolve : List Text → Text → List Text
  pub is_dir : List Text → Bool

-- `path.is_relative_to(root)`
unfoldable pub is_relative_to : List Text → List Text → Bool
unfolding ◌==◌
is_relative_to path [] = true
is_relative_to [] (part ∷ root) = false
is_relative_to (p ∷ path) (part ∷ root) = p == part && is_relative_to path root

unfoldable pub ups : List Text → List Text
ups [] = []
ups (part ∷ parts) = text ".." ∷ ups parts

-- The parts of `os.path.relpath(path, start=start)`
unfoldable pub relative_parts : List Text → List Text → List Text
unfolding ups ◌==◌
relative_parts path [] = path
relative_parts [] (s ∷ start) = ups (s ∷ start)
relative_parts (p ∷ path) (s ∷ start) =
    let rest = relative_parts path start in if p == s then rest else ups (s ∷ start) ++ (p ∷ path)

unfoldable pub relpath : List Text → List Text → Text
unfolding relative_parts join is_empty
relpath path start =
    if is_empty (relative_parts path start) then text "." else join 47 (relative_parts path start)

-- `_arguments`
unfoldable pub arguments_of : List Text → Result CommandError (List Text)
unfolding any contains_char
arguments_of arguments = raise_if (any (contains_char 0) arguments) nul_in_argv >> ok arguments

-- A letter or digit, and then such characters or the given ones.
unfoldable pub matches : Text → Text → Bool
unfolding is_alphanumeric contains_char any
matches others [] = false
matches others (c ∷ s) =
    is_alphanumeric c && not (any (λ d. not (is_alphanumeric d || contains_char d others)) s)

unfoldable pub is_package_script : Text → Bool
unfolding matches
is_package_script = matches (text ":._/-")

unfoldable pub is_git_revision : Text → Bool
unfolding matches
is_git_revision = matches (text "._/@{}^~:+-")

unfoldable pub is_test_script : Text → Bool
unfolding ◌==◌ starts_with
is_test_script script = script == text "test" || starts_with (text "test:") script

unfoldable pub first_or_empty : List Text → Text
first_or_empty [] = []
first_or_empty (a ∷ s) = a

unfoldable pub runs_test : List Text → Bool
unfolding is_test_script ◌==◌
runs_test (command ∷ script ∷ rest) = command == text "run" && is_test_script script
runs_test _ = false

-- `_node_tool`: what a failure of npm or pnpm means.
unfoldable pub node_failure : List Text → OutcomeCategory
unfolding contains first_or_empty runs_test
node_failure arguments =
    if contains (first_or_empty arguments) (text "add" ∷ text "ci" ∷ text "i" ∷ text "install" ∷ [])
    then dependency_install_failure
    else if contains (first_or_empty arguments) (text "test" ∷ text "t" ∷ []) || runs_test arguments
    then test_failure
    else environment_failure

abbrev pub spec_of : List Text → List Text → OutcomeCategory → CommandSpec
spec_of argv cwd failure = record {
  argv = argv;
  cwd = cwd;
  timeout_seconds = record { numerator = 60; denominator = 1 };
  failure_outcome = failure;
  success_exit_codes = 0 ∷ [];
  env = [];
  redact_values = [];
  max_output_bytes = none;
}
