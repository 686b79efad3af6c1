-- ===== src/Harness/Examples.antt =====
-- The theorems on the policy at concrete requests.
use nodelm.Base.{◌≡◌, refl, true, ok, err, List, [], ◌∷◌, ◌++◌, Text, text, some, none}
use nodelm.Base.{if◌then◌else◌}
use nodelm.Gates.Patches.{starts_with}
use nodelm.Harness.Command.{CommandSpec, environment_failure, outside_workspace}
use nodelm.Harness.Policy.{read_file, command_for}
use nodelm.Harness.Policy.Confined.{IsConfined, command_for-IsConfined}
use nodelm.Harness.Arguments.{FileSystem, spec_of}

-- A path is one part below the directory, except for one that leads out of it.
abbrev resolve : List Text → Text → List Text
resolve root path = if starts_with (text "/") path then path ∷ [] else root ++ path ∷ []

abbrev files : FileSystem
files = record { resolve = resolve; is_dir = λ p. true }

abbrev root : List Text
root = text "home" ∷ text "work" ∷ []

abbrev spec : CommandSpec
spec =
    spec_of (text "cat" ∷ text "--" ∷ text "../a.ts" ∷ []) (root ++ text "lib" ∷ [])
      environment_failure

made : command_for files root (read_file (text "a.ts")) (some (text "lib")) ≡ ok spec
unfolding command_for starts_with
made = refl

outside_lem :
    command_for files root (read_file (text "/etc")) none ≡ err (outside_workspace (text "/etc"))
unfolding command_for starts_with
outside_lem = refl

command_for-IsConfined_example : IsConfined files root spec
command_for-IsConfined_example =
    command_for-IsConfined files root (read_file (text "a.ts")) (some (text "lib")) spec made
