-- ===== src/Runner/Command/Tests.antt =====
-- Commands of a prefill task.
use infra_loop_kda.Base.{◌≡◌, ◌≢◌, ◌⊎◌, refl, String, Bool, true, List, [], ◌∷◌, All}
use infra_loop_kda.Base.Text.{split_on, push_char, join}
use infra_loop_kda.Base.Outcome.{ok}
use infra_loop_kda.Json.{text, array, object, nil, cons, Fields, end, field, get, lookup}
use infra_loop_kda.Json.Repr.{str, str_or}
use infra_loop_kda.Paths.{is_absolute, parts_of, drop_skipped}
use infra_loop_kda.Runner.Evidence.Report.{path_text}
use infra_loop_kda.Runner.Command.{
  Roots, python_executable, workloads_path, guarded, preflight_argv, correctness_argv, compare_argv,
  profile_argv, preflight_commands, correctness_commands, benchmark_commands, precision_commands,
  profile_commands, prefill_commands, builtin_commands, expected_artifacts,
}
use infra_loop_kda.Runner.Command.Resolve.{
  replace_from, substitute, substitutions, configured, builtin, all_texts, text_list,
  configured_command, find_command, builtin_command, configured_value, resolve_command,
}
use infra_loop_kda.Runner.Command.Output.{
  IsRunnable, In, builtin_commands-IsRunnable, resolve_command-IsRunnable,
}

runs : Unit {0}
unfolding split_on push_char join get lookup str str_or is_absolute parts_of drop_skipped path_text
    python_executable workloads_path guarded preflight_argv correctness_argv compare_argv
    profile_argv preflight_commands correctness_commands benchmark_commands precision_commands
    profile_commands prefill_commands builtin_commands expected_artifacts replace_from substitute
    substitutions all_texts text_list configured_command find_command builtin_command
    configured_value resolve_command
runs = tt

abbrev roots : Roots
roots = record {
  task_dir = "/t";
  baseline = "/b";
  candidate = "/c";
  output_dir = "/r/artifacts";
  scratch_dir = "/r/scratch";
  python = "";
}

abbrev all_files : String → Bool
all_files path = true

abbrev task : Fields
task = field "kind" (text "prefill") end

abbrev settings : Fields
settings =
    field "commands"
      (object (
        field "smoke" (array (cons (text "{python}") (cons (text "--in={candidate_root}/x") nil)))
          end))
      end

configured_smoke :
    resolve_command all_files settings task roots "smoke"
    ≡ ok ("python3" ∷ "--in=/c/x" ∷ [], configured)
unfolding runs
configured_smoke = refl

builtin_commands-IsRunnable_example :
    All (IsRunnable "/r/artifacts") (builtin_commands all_files task roots)
builtin_commands-IsRunnable_example = builtin_commands-IsRunnable all_files task roots

abbrev correctness : List String
correctness =
    "python3" ∷ "/t/bench/correctness.py" ∷ "--source-root" ∷ "/c" ∷ "--workloads"
    ∷ "/t/workloads.resolved.json" ∷ "--report" ∷ "/r/artifacts/correctness.json" ∷ []

resolve_command-IsRunnable_example :
    (correctness ≢ [])
    × ((builtin ≡ configured)
        ⊎ All
            (λ artifact. In artifact correctness)
            (expected_artifacts "correctness" "/r/artifacts"))
unfolding runs
resolve_command-IsRunnable_example =
    resolve_command-IsRunnable all_files settings task roots "correctness" refl
