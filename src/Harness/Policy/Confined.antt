-- ===== src/Harness/Policy/Confined.antt =====
-- The commands of `CommandPolicy` and the workspace.
use nodelm.Base.{
  ◌≢◌, sym, ap, ◌∙◌, eq_of_==, ◌&&◌, In, ◌≡◌, refl, subst, Bool, true, false, not, ◌||◌, List, [],
  ◌∷◌, ◌++◌, Text, text, arith, ◌==◌, ==-refl, ltb, eqb, if◌then◌else◌, select, Result, ok, ◌>>=◌,
  ◌>>◌, >>=-eq-ok, raise_if, passed, ok-injective, Option, none, some, ◌⊎◌, inl, inr,
}
use nodelm.Base.Methods.{is_empty}
use nodelm.Base.Digests.{decimal}
use nodelm.Base.Urls.{contains_char}
use nodelm.Gates.Status.{any, any-false, contains_char-false}
use nodelm.Harness.Command.{
  success, timeout, OutcomeCategory, test_failure, environment_failure, dependency_install_failure,
  CommandError, no_executable, nul_in_argv, timeout_not_positive, outcome_not_nonzero,
  no_exit_codes, limit_not_positive, CommandSpec, is_nonzero, has_executable, is_zero_limit,
  check_environment, command_spec, nul_in_pattern, no_search_path, invalid_count, invalid_revision,
  unknown_manager, invalid_script, not_trusted, outside_workspace, not_a_directory,
}
use nodelm.Harness.Policy.{
  Request, repo_tree, git_status, search, read_file, git_diff, git_log, git_show, npm, pnpm, node,
  node_test, jest, vitest, eslint, tsc, package_script, dependency_install, generic, cwd_of,
  path_arguments, path_argument, project_arguments, checked_spec, install_arguments, command_for,
  package_script_command, install_command, generic_command,
}
use nodelm.Harness.Arguments.{
  FileSystem, is_relative_to, arguments_of, is_package_script, is_git_revision, is_test_script,
  spec_of, node_failure,
}

-- The working directory is the root of the workspace, or a directory below it.
pub record IsConfined (files : FileSystem) (root : List Text) (spec : CommandSpec) : Type 0 where
  pub inside : (below : List Text) × (spec.cwd ≡ root ++ below)
  pub directory : (spec.cwd ≡ root) ⊎ (files.is_dir spec.cwd ≡ true)
  pub executable :
      (first : Text) × (arguments : List Text) × (spec.argv ≡ first ∷ arguments) × (first ≢ [])
  pub no_nul : (argument : Text) → In argument spec.argv → In 0 argument → ⊥
  pub failure : (spec.failure_outcome ≢ success) × (spec.failure_outcome ≢ timeout)

below_of :
    (path root : List Text)
    → is_relative_to path root ≡ true
    → (below : List Text) × (path ≡ root ++ below)
unfolding is_relative_to
below_of path [] h = (path, refl)
below_of [] (part ∷ root) h = cc
below_of (p ∷ path) (part ∷ root) h =
    let (same, h) = both (p == part) (is_relative_to path root) h in
    let (below, e) = below_of path root h in
    (below, ap (λ x. x ∷ path) (eq_of_== p part same) ∙ ap (λ x. part ∷ x) e)
  where
    both : (x y : Bool) → (x && y) ≡ true → (x ≡ true) × (y ≡ true)
    both x y h = (ground arith, ground arith)

executable_of :
    (argv : List Text)
    → has_executable argv ≡ true
    → (first : Text) × (arguments : List Text) × (argv ≡ first ∷ arguments) × (first ≢ [])
unfolding has_executable is_empty
executable_of [] h = cc
executable_of ([] ∷ arguments) h = cc
executable_of ((c ∷ first) ∷ arguments) h = (c ∷ first, arguments, refl, λ e. cc)

nonzero_of : (o : OutcomeCategory) → is_nonzero o ≡ true → (o ≢ success) × (o ≢ timeout)
unfolding is_nonzero
nonzero_of o h = (
  λ e. true_not_false (sym (ap is_nonzero e) ∙ h),
  λ e. true_not_false (sym (ap is_nonzero e) ∙ h),
)
  where
    true_not_false : false ≡ true → ⊥
    true_not_false e = cc

-- What a computation gives, where it returns, is confined.
abbrev AllConfined : FileSystem → List Text → Result CommandError CommandSpec → Type 0
AllConfined files root m = (spec : CommandSpec) → m ≡ ok spec → IsConfined files root spec

-- A working directory of a confined command.
abbrev Working : FileSystem → List Text → List Text → Type 0
Working files root d =
    ((below : List Text) × (d ≡ root ++ below)) × ((d ≡ root) ⊎ (files.is_dir d ≡ true))

is_relative_to_refl : (path : List Text) → is_relative_to path path ≡ true
unfolding is_relative_to
is_relative_to_refl [] = refl
is_relative_to_refl (p ∷ path) = rw (==-refl p) (is_relative_to_refl path)

module _ (files : FileSystem) (root : List Text) where
  after_test :
      (b : Bool) (e : CommandError) (k : Result CommandError CommandSpec)
      → AllConfined files root k
      → AllConfined files root (raise_if b e >> k)
  after_test b e k h spec r = h spec (passed b e k r).1

  after_step :
      {A : Type 0} (m : Result CommandError A) (f : A → Result CommandError CommandSpec)
      → ((a : A) → m ≡ ok a → AllConfined files root (f a))
      → AllConfined files root (m >>= f)
  after_step m f h spec r = let (a, e, r') = >>=-eq-ok m f r in h a e spec r'

  command_spec-AllConfined :
      (s : CommandSpec) → Working files root s.cwd → AllConfined files root (command_spec s)
  unfolding command_spec
  command_spec-AllConfined s working spec h =
      let (executable, h) = passed (not (has_executable s.argv)) no_executable _ h in
      let (no_nul, h) = passed (any (contains_char 0) s.argv) nul_in_argv _ h in
      let (_, h) = passed (eqb s.timeout_seconds.numerator 0) timeout_not_positive _ h in
      let (failure, h) = passed (not (is_nonzero s.failure_outcome)) outcome_not_nonzero _ h in
      let (_, h) = passed (is_empty s.success_exit_codes) no_exit_codes _ h in
      let (_, h) = passed (is_zero_limit s.max_output_bytes) limit_not_positive _ h in
      let made : CommandSpec = record s {
        redact_values = select (λ v. not (is_empty v)) s.redact_values;
      } in
      let (_, _, h) = >>=-eq-ok (check_environment s.env) (λ _. ok made) h in
      subst (IsConfined files root) (ok-injective h) (record {
        inside = working.0;
        directory = working.1;
        executable = executable_of s.argv (holds (has_executable s.argv) executable);
        no_nul = λ argument i.
            contains_char-false 0 argument (any-false (contains_char 0) argument s.argv no_nul i);
        failure = nonzero_of s.failure_outcome (holds (is_nonzero s.failure_outcome) failure);
      })
    where
      holds : (b : Bool) → not b ≡ false → b ≡ true
      holds b e = ground arith

  cwd_of-Working :
      (cwd : Option Text) (directory : List Text)
      → cwd_of files root cwd ≡ ok directory
      → Working files root directory
  unfolding cwd_of
  cwd_of-Working none directory h =
      subst (Working files root) (ok-injective h)
        (below_of root root (is_relative_to_refl root), inl refl)
  cwd_of-Working (some cwd) directory h =
      let resolved = files.resolve root cwd in
      let (inside, h) = passed (not (is_relative_to resolved root)) (outside_workspace cwd) _ h in
      let (found, h) = passed (not (files.is_dir resolved)) (not_a_directory cwd) (ok resolved) h in
      subst (Working files root) (ok-injective h) (
        below_of resolved root (holds (is_relative_to resolved root) inside),
        inr (holds (files.is_dir resolved) found),
      )
    where
      holds : (b : Bool) → not b ≡ false → b ≡ true
      holds b e = ground arith

  checked_spec-AllConfined :
      (start arguments : List Text) (cwd : Option Text) (failure : OutcomeCategory)
      → AllConfined files root (checked_spec files root start arguments cwd failure)
  unfolding checked_spec
  checked_spec-AllConfined start arguments cwd failure =
      after_step (arguments_of arguments) _ (λ normalized _.
        after_step (cwd_of files root cwd) _ (λ directory e.
          command_spec-AllConfined (spec_of (start ++ normalized) directory failure)
            (cwd_of-Working cwd directory e)))

  -- Whatever is requested of the policy and whatever its arguments, a command that it makes runs in
  -- the root of the workspace or in a directory below it, has an executable, has no NUL in its arguments, and its failure is
  -- neither a success nor a timeout.
  pub command_for-IsConfined :
      (request : Request) (cwd : Option Text) (spec : CommandSpec)
      → command_for files root request cwd ≡ ok spec
      → IsConfined files root spec
  unfolding command_for package_script_command install_command generic_command
  command_for-IsConfined repo_tree cwd =
      checked_spec-AllConfined
        (text "git"
          ∷ text "ls-files"
          ∷ text "--cached"
          ∷ text "--others"
          ∷ text "--exclude-standard"
          ∷ [])
        [] cwd environment_failure
  command_for-IsConfined git_status cwd =
      checked_spec-AllConfined (text "git" ∷ text "status" ∷ text "--short" ∷ text "--branch" ∷ [])
        [] cwd environment_failure
  command_for-IsConfined (search pattern paths) cwd =
      after_test (contains_char 0 pattern) nul_in_pattern _ (
        after_step (cwd_of files root cwd) _ (λ directory e.
          after_step (path_arguments files root directory paths) _ (λ arguments _.
            after_test (is_empty arguments) no_search_path _ (
              command_spec-AllConfined
                (record (spec_of
                  (text "rg"
                    ∷ text "--line-number"
                    ∷ text "--hidden"
                    ∷ text "--glob"
                    ∷ text "!.git/**"
                    ∷ text "--"
                    ∷ pattern
                    ∷ arguments)
                  directory environment_failure) { success_exit_codes = 0 ∷ 1 ∷ [] })
                (cwd_of-Working cwd directory e)))))
  command_for-IsConfined (read_file path) cwd = after_step (cwd_of files root cwd) _ (λ directory e.
      after_step (path_argument files root directory path) _ (λ argument _.
        command_spec-AllConfined
          (spec_of (text "cat" ∷ text "--" ∷ argument ∷ []) directory environment_failure)
          (cwd_of-Working cwd directory e)))
  command_for-IsConfined (git_diff paths) cwd = after_step (cwd_of files root cwd) _ (λ directory e.
      after_step (path_arguments files root directory paths) _ (λ arguments _.
        command_spec-AllConfined
          (spec_of (text "git" ∷ text "diff" ∷ text "--no-ext-diff" ∷ text "--" ∷ arguments)
            directory environment_failure)
          (cwd_of-Working cwd directory e)))
  command_for-IsConfined (git_log max_count) cwd =
      after_test (eqb max_count 0 || ltb 1000 max_count) invalid_count _ (
        checked_spec-AllConfined
          (text "git"
            ∷ text "log"
            ∷ (text "--max-count=" ++ decimal max_count)
            ∷ text "--oneline"
            ∷ text "--decorate=no"
            ∷ [])
          [] cwd environment_failure)
  command_for-IsConfined (git_show revision) cwd =
      after_test (not (is_git_revision revision)) invalid_revision _ (
        checked_spec-AllConfined
          (text "git" ∷ text "show" ∷ text "--no-ext-diff" ∷ text "--format=fuller" ∷ revision ∷ [])
          [] cwd environment_failure)
  command_for-IsConfined (npm arguments) cwd =
      checked_spec-AllConfined (text "npm" ∷ []) arguments cwd (node_failure arguments)
  command_for-IsConfined (pnpm arguments) cwd =
      checked_spec-AllConfined (text "pnpm" ∷ []) arguments cwd (node_failure arguments)
  command_for-IsConfined (node arguments) cwd =
      checked_spec-AllConfined (text "node" ∷ []) arguments cwd environment_failure
  command_for-IsConfined (node_test arguments) cwd =
      checked_spec-AllConfined (text "node" ∷ text "--test" ∷ []) arguments cwd test_failure
  command_for-IsConfined (jest arguments) cwd =
      checked_spec-AllConfined (text "jest" ∷ []) arguments cwd test_failure
  command_for-IsConfined (vitest arguments) cwd =
      checked_spec-AllConfined (text "vitest" ∷ []) arguments cwd test_failure
  command_for-IsConfined (eslint arguments) cwd =
      checked_spec-AllConfined (text "eslint" ∷ []) arguments cwd test_failure
  command_for-IsConfined (tsc project arguments) cwd =
      after_step (cwd_of files root cwd) _ (λ directory e.
        after_step (project_arguments files root directory project) _ (λ projects _.
          after_step (arguments_of arguments) _ (λ normalized _.
            command_spec-AllConfined
              (spec_of (text "tsc" ∷ (projects ++ (normalized ++ text "--noEmit" ∷ []))) directory
                test_failure)
              (cwd_of-Working cwd directory e))))
  command_for-IsConfined (package_script manager script arguments) cwd =
      after_test (not (manager == text "npm" || manager == text "pnpm")) unknown_manager _ (
        after_test (not (is_package_script script)) invalid_script _ (
          checked_spec-AllConfined (manager ∷ text "run" ∷ script ∷ text "--" ∷ []) arguments cwd
            (if is_test_script script then test_failure else environment_failure)))
  command_for-IsConfined (dependency_install manager frozen ignore_scripts) cwd =
      after_step (install_arguments files root manager frozen ignore_scripts) _ (λ arguments _.
        checked_spec-AllConfined (manager ∷ arguments) [] cwd dependency_install_failure)
  command_for-IsConfined (generic trusted_local spec) cwd =
      after_test (not trusted_local) not_trusted _ (
        after_step (arguments_of spec.argv) _ (λ normalized _.
          after_step (cwd_of files root cwd) _ (λ directory e.
            command_spec-AllConfined
              (record spec { argv = normalized; cwd = directory; success_exit_codes = 0 ∷ [] })
              (cwd_of-Working cwd directory e))))
