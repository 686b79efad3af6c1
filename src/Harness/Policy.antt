-- ===== src/Harness/Policy.antt =====
-- `CommandPolicy` of harness/policy.py. The file system is a parameter: what a path means inside a
-- directory once symbolic links are followed, as the parts of an absolute path, and which paths are
-- directories. Joining an absolute path to a directory gives that path.
pub mod Confined
use nodelm.Base.{
  ℕ, Bool, true, false, not, ◌&&◌, ◌||◌, List, [], ◌∷◌, ◌++◌, map, Text, text, ◌==◌, ltb, eqb,
  if◌then◌else◌, Result, ok, err, ◌>>=◌, ◌>>◌, raise_if, Option, none, some,
}
use nodelm.Base.Methods.{is_empty, join}
use nodelm.Base.Digests.{decimal}
use nodelm.Base.Fractions.{Fraction}
use nodelm.Base.Urls.{contains_char}
use nodelm.Contamination.Forest.{contains}
use nodelm.Gates.Status.{any}
use nodelm.Gates.Patches.{starts_with}
use nodelm.Harness.Command.{
  OutcomeCategory, test_failure, environment_failure, dependency_install_failure, CommandError,
  nul_in_argv, nul_in_pattern, no_search_path, invalid_count, invalid_revision, unknown_manager,
  invalid_script, not_trusted, outside_workspace, not_a_directory, CommandSpec, is_alphanumeric,
  command_spec,
}
use nodelm.Harness.Arguments.{
  FileSystem, arguments_of, is_git_revision, is_package_script, is_relative_to, is_test_script,
  node_failure, relpath, spec_of,
}

-- The methods of the policy and their arguments.
pub data Request : Type 0 where
  repo_tree git_status : Request
  search : Text → List Text → Request
  read_file : Text → Request
  git_diff : List Text → Request
  git_log : ℕ → Request
  git_show : Text → Request
  npm pnpm node node_test jest vitest eslint : List Text → Request
  tsc : Option Text → List Text → Request
  package_script : Text → Text → List Text → Request
  dependency_install : Text → Bool → Bool → Request
  generic : Bool → CommandSpec → Request

module _ (files : FileSystem) (root : List Text) where
  -- `_cwd`
  unfoldable pub cwd_of : Option Text → Result CommandError (List Text)
  unfolding is_relative_to
  cwd_of none = ok root
  cwd_of (some cwd) = do
    let resolved = files.resolve root cwd
    raise_if (not (is_relative_to resolved root)) (outside_workspace cwd)
    raise_if (not (files.is_dir resolved)) (not_a_directory cwd)
    ok resolved

  -- `_path_argument`
  unfoldable pub path_argument : List Text → Text → Result CommandError Text
  unfolding is_relative_to relpath
  path_argument cwd path = do
    let resolved = files.resolve root path
    raise_if (not (is_relative_to resolved root)) (outside_workspace path)
    ok (relpath resolved cwd)

  unfoldable pub path_arguments : List Text → List Text → Result CommandError (List Text)
  unfolding path_argument
  path_arguments cwd [] = ok []
  path_arguments cwd (path ∷ paths) = do
    argument ← path_argument cwd path
    rest ← path_arguments cwd paths
    ok (argument ∷ rest)

  unfoldable pub project_arguments : List Text → Option Text → Result CommandError (List Text)
  unfolding path_argument
  project_arguments cwd none = ok []
  project_arguments cwd (some project) =
      path_argument cwd project >>= λ p. ok (text "--project" ∷ p ∷ [])

  -- `_spec`, with arguments that are checked first.
  unfoldable pub checked_spec :
      List Text → List Text → Option Text → OutcomeCategory → Result CommandError CommandSpec
  unfolding arguments_of cwd_of command_spec
  checked_spec start arguments cwd failure = do
    normalized ← arguments_of arguments
    directory ← cwd_of cwd
    command_spec (spec_of (start ++ normalized) directory failure)

  unfoldable pub install_arguments : Text → Bool → Bool → Result CommandError (List Text)
  unfolding ◌==◌
  install_arguments manager frozen ignore_scripts =
      let scripts = if ignore_scripts then text "--ignore-scripts" ∷ [] else [] in
      if manager == text "npm"
      then ok ((if frozen then text "ci" else text "install") ∷ scripts)
      else if manager == text "pnpm"
      then ok (text "install" ∷ ((if frozen then text "--frozen-lockfile" ∷ [] else []) ++ scripts))
      else err unknown_manager

  unfoldable pub package_script_command :
      Text → Text → List Text → Option Text → Result CommandError CommandSpec
  unfolding checked_spec is_package_script is_test_script ◌==◌
  package_script_command manager script arguments cwd = do
    raise_if (not (manager == text "npm" || manager == text "pnpm")) unknown_manager
    raise_if (not (is_package_script script)) invalid_script
    checked_spec (manager ∷ text "run" ∷ script ∷ text "--" ∷ []) arguments cwd
        (if is_test_script script then test_failure else environment_failure)

  unfoldable pub install_command :
      Text → Bool → Bool → Option Text → Result CommandError CommandSpec
  unfolding checked_spec install_arguments
  install_command manager frozen ignore_scripts cwd = do
    arguments ← install_arguments manager frozen ignore_scripts
    checked_spec (manager ∷ arguments) [] cwd dependency_install_failure

  -- The fields of the given request that the method does not take are overwritten.
  unfoldable pub generic_command :
      Bool → CommandSpec → Option Text → Result CommandError CommandSpec
  unfolding arguments_of cwd_of command_spec
  generic_command trusted_local spec cwd = do
    raise_if (not trusted_local) not_trusted
    normalized ← arguments_of spec.argv
    directory ← cwd_of cwd
    command_spec (record spec { argv = normalized; cwd = directory; success_exit_codes = 0 ∷ [] })

  unfoldable pub command_for : Request → Option Text → Result CommandError CommandSpec
  unfolding checked_spec cwd_of path_arguments path_argument project_arguments contains_char
      is_git_revision node_failure decimal command_spec is_empty arguments_of package_script_command
      install_command generic_command
  command_for repo_tree cwd =
      checked_spec
        (text "git"
          ∷ text "ls-files"
          ∷ text "--cached"
          ∷ text "--others"
          ∷ text "--exclude-standard"
          ∷ [])
        [] cwd environment_failure
  command_for git_status cwd =
      checked_spec (text "git" ∷ text "status" ∷ text "--short" ∷ text "--branch" ∷ []) [] cwd
        environment_failure
  command_for (search pattern paths) cwd = do
    raise_if (contains_char 0 pattern) nul_in_pattern
    directory ← cwd_of cwd
    arguments ← path_arguments directory paths
    raise_if (is_empty arguments) no_search_path
    command_spec
        (record (spec_of
          (text "rg"
            ∷ text "--line-number"
            ∷ text "--hidden"
            ∷ text "--glob"
            ∷ text "!.git/**"
            ∷ text "--"
            ∷ pattern
            ∷ arguments)
          directory environment_failure) { success_exit_codes = 0 ∷ 1 ∷ [] })
  command_for (read_file path) cwd = do
    directory ← cwd_of cwd
    argument ← path_argument directory path
    command_spec (spec_of (text "cat" ∷ text "--" ∷ argument ∷ []) directory environment_failure)
  command_for (git_diff paths) cwd = do
    directory ← cwd_of cwd
    arguments ← path_arguments directory paths
    command_spec (
        spec_of (text "git" ∷ text "diff" ∷ text "--no-ext-diff" ∷ text "--" ∷ arguments) directory
          environment_failure)
  command_for (git_log max_count) cwd = do
    raise_if (eqb max_count 0 || ltb 1000 max_count) invalid_count
    checked_spec
        (text "git"
          ∷ text "log"
          ∷ (text "--max-count=" ++ decimal max_count)
          ∷ text "--oneline"
          ∷ text "--decorate=no"
          ∷ [])
        [] cwd environment_failure
  command_for (git_show revision) cwd = do
    raise_if (not (is_git_revision revision)) invalid_revision
    checked_spec
        (text "git" ∷ text "show" ∷ text "--no-ext-diff" ∷ text "--format=fuller" ∷ revision ∷ [])
        [] cwd environment_failure
  command_for (npm arguments) cwd =
      checked_spec (text "npm" ∷ []) arguments cwd (node_failure arguments)
  command_for (pnpm arguments) cwd =
      checked_spec (text "pnpm" ∷ []) arguments cwd (node_failure arguments)
  command_for (node arguments) cwd =
      checked_spec (text "node" ∷ []) arguments cwd environment_failure
  command_for (node_test arguments) cwd =
      checked_spec (text "node" ∷ text "--test" ∷ []) arguments cwd test_failure
  command_for (jest arguments) cwd = checked_spec (text "jest" ∷ []) arguments cwd test_failure
  command_for (vitest arguments) cwd = checked_spec (text "vitest" ∷ []) arguments cwd test_failure
  command_for (eslint arguments) cwd = checked_spec (text "eslint" ∷ []) arguments cwd test_failure
  command_for (tsc project arguments) cwd = do
    directory ← cwd_of cwd
    projects ← project_arguments directory project
    normalized ← arguments_of arguments
    command_spec (
        spec_of (text "tsc" ∷ (projects ++ (normalized ++ text "--noEmit" ∷ []))) directory
          test_failure)
  command_for (package_script manager script arguments) cwd =
      package_script_command manager script arguments cwd
  command_for (dependency_install manager frozen ignore_scripts) cwd =
      install_command manager frozen ignore_scripts cwd
  command_for (generic trusted_local spec) cwd = generic_command trusted_local spec cwd
