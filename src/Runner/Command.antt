-- ===== src/Runner/Command.antt =====
-- tools/k3/runner.py: `builtin_commands` and `expected_artifacts`. A directory is
-- the text of its path, absolute and without a slash at its end; which files exist is an argument.
pub mod Resolve
pub mod Output
mod Tests
use package.text.Mathlib.Text.{starts_with}
use infra_loop_kda.Base.{
  ℕ, zero, suc, ◌-◌, String, ◌<>◌, Bool, true, false, not, ◌&&◌, ◌||◌, Option, none, some, List, [],
  ◌∷◌, ◌++◌, ◌==◌, if◌then◌else◌, is_empty, map,
}
use infra_loop_kda.Base.Text.{join}
use infra_loop_kda.Base.Outcome.{Outcome, ok, err, ◌>>=◌, ◌>>◌, require, tool_error}
use infra_loop_kda.Json.{Json, text, array, object, Items, nil, cons, Fields, get, lookup, truthy}
use infra_loop_kda.Json.Repr.{str, str_or}
use infra_loop_kda.Paths.{is_absolute}
use infra_loop_kda.Runner.Evidence.Report.{path_text}

-- What the commands are built from.
pub record Roots : Type 0 where
  pub task_dir : String
  pub baseline : String
  pub candidate : String
  pub output_dir : String
  pub scratch_dir : String
  pub python : String

abbrev pub python_of : Json → String
python_of (object m) = if truthy (get "python" m) then str (get "python" m) else "python3"
python_of _ = "python3"

-- `_python_executable`
unfoldable pub python_executable : Fields → String
unfolding get str
python_executable settings = python_of (get "commands" settings)

-- `directory / name`, for a name without a slash
abbrev pub under : String → String → String
under directory name = directory <> "/" <> name

-- `str(task_dir / str(workload))`
unfoldable pub workloads_path : String → Json → String
unfolding is_absolute path_text str
workloads_path task_dir workload =
    let raw = if truthy workload then str workload else "workloads.resolved.json" in
    if is_absolute raw then path_text raw else path_text (under task_dir raw)

-- The commands of one script, which are there if the script is.
unfoldable pub guarded : Bool → List (String × List String) → List (String × List String)
guarded there commands = if there then commands else []

unfoldable pub preflight_argv : Roots → String → String → List String
preflight_argv r workloads report =
    r.python
    ∷ under (under r.task_dir "bench") "preflight.py"
    ∷ "--source-root"
    ∷ r.candidate
    ∷ "--workloads"
    ∷ workloads
    ∷ "--report"
    ∷ under r.output_dir report
    ∷ []

unfoldable pub correctness_argv : Roots → String → List String
correctness_argv r workloads =
    r.python
    ∷ under (under r.task_dir "bench") "correctness.py"
    ∷ "--source-root"
    ∷ r.candidate
    ∷ "--workloads"
    ∷ workloads
    ∷ "--report"
    ∷ under r.output_dir "correctness.json"
    ∷ []

-- The arguments up to `--out` that three commands share.
unfoldable pub compare_argv : Roots → String → String → String → List String
compare_argv r workloads script out =
    r.python
    ∷ script
    ∷ "--baseline-root"
    ∷ r.baseline
    ∷ "--candidate-root"
    ∷ r.candidate
    ∷ "--workloads"
    ∷ workloads
    ∷ "--out"
    ∷ under r.output_dir out
    ∷ []

unfoldable pub profile_argv : Roots → String → List String
profile_argv r workloads =
    r.python
    ∷ under (under r.task_dir "bench") "profile_one.py"
    ∷ "--source-root"
    ∷ r.candidate
    ∷ "--workloads"
    ∷ workloads
    ∷ "--id"
    ∷ "{workload_id}"
    ∷ "--iters"
    ∷ "5"
    ∷ "--warmup"
    ∷ "5"
    ∷ []

-- The commands of each script, which are there if the script is.
unfoldable pub preflight_commands : (String → Bool) → Roots → String → List (String × List String)
unfolding guarded preflight_argv
preflight_commands is_file r workloads =
    guarded (is_file (under (under r.task_dir "bench") "preflight.py")) (
      ("preflight", preflight_argv r workloads "preflight.json")
      ∷ (
        "preflight-static",
        preflight_argv r workloads "preflight-static.json" ++ "--static-check" ∷ [],
      )
      ∷ [])

unfoldable pub correctness_commands : (String → Bool) → Roots → String → List (String × List String)
unfolding guarded correctness_argv
correctness_commands is_file r workloads =
    guarded (is_file (under (under r.task_dir "bench") "correctness.py"))
      (("correctness", correctness_argv r workloads) ∷ [])

unfoldable pub benchmark_commands : (String → Bool) → Roots → String → List (String × List String)
unfolding guarded compare_argv
benchmark_commands is_file r workloads =
    let script = under (under r.task_dir "bench") "benchmark.py" in
    guarded (is_file script) (
      (
        "benchmark",
        compare_argv r workloads script "benchmark"
            ++ "--trials" ∷ "5" ∷ "--warmup" ∷ "5" ∷ "--samples" ∷ "30" ∷ [],
      )
      ∷ (
        "correctness-only",
        compare_argv r workloads script "correctness-only" ++ "--correctness-only" ∷ [],
      )
      ∷ [])

unfoldable pub precision_commands : (String → Bool) → Roots → String → List (String × List String)
unfolding guarded compare_argv
precision_commands is_file r workloads =
    let script = under (under r.task_dir "precision") "diagnose.py" in
    guarded (is_file script) (
      (
        "precision",
        compare_argv r workloads script "precision"
            ++ "--scratch" ∷ under r.scratch_dir "precision" ∷ [],
      )
      ∷ [])

unfoldable pub profile_commands : (String → Bool) → Roots → String → List (String × List String)
unfolding guarded profile_argv
profile_commands is_file r workloads =
    guarded (is_file (under (under r.task_dir "bench") "profile_one.py"))
      (("profile", profile_argv r workloads) ∷ [])

-- All of them, in the order of the `dict`.
unfoldable pub prefill_commands : (String → Bool) → Roots → String → List (String × List String)
unfolding preflight_commands correctness_commands benchmark_commands precision_commands
    profile_commands
prefill_commands is_file r workloads =
    preflight_commands is_file r workloads
    ++ (correctness_commands is_file r workloads
        ++ (benchmark_commands is_file r workloads
            ++ (precision_commands is_file r workloads ++ profile_commands is_file r workloads)))

-- `builtin_commands`: the names and the argument vectors.
unfoldable pub builtin_commands : (String → Bool) → Fields → Roots → List (String × List String)
unfolding get str_or workloads_path prefill_commands
builtin_commands is_file task r =
    if str_or (get "kind" task) "" == "prefill"
    then prefill_commands is_file r (workloads_path r.task_dir (get "workload_file" task))
    else []

-- `expected_artifacts`
unfoldable pub expected_artifacts : String → String → List String
expected_artifacts operation output_dir =
    if operation == "preflight"
    then under output_dir "preflight.json" ∷ []
    else if operation == "preflight-static"
    then under output_dir "preflight-static.json" ∷ []
    else if operation == "correctness"
    then under output_dir "correctness.json" ∷ []
    else if operation == "correctness-only"
    then under output_dir "correctness-only" ∷ []
    else if operation == "benchmark"
    then under output_dir "benchmark" ∷ []
    else if operation == "precision"
    then under output_dir "precision" ∷ []
    else []
