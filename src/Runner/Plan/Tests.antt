-- ===== src/Runner/Plan/Tests.antt =====
-- A run that may start, and one whose task names another base commit.
use infra_loop_kda.Base.{◌≡◌, refl, String, true, false, ◌==◌, ◌||◌, none, some, List, [], ◌∷◌}
use infra_loop_kda.Base.Text.{split_on, push_char, join, contains_char}
use infra_loop_kda.Base.Outcome.{ok, err, tool_error}
use infra_loop_kda.Json.{null, text, object, Fields, end, field, get, lookup, put}
use infra_loop_kda.Json.Repr.{str, str_or}
use infra_loop_kda.Lifecycle.{base_commit}
use infra_loop_kda.Paths.{
  plain, safe_join, safe_relative, is_absolute, parts_of, drop_skipped, is_below, contains_symlink,
  check_links,
}
use infra_loop_kda.Paths.Normal.{normal_parts}
use infra_loop_kda.Runner.RunId.{validate_run_id, full_match, id_rest}
use infra_loop_kda.Runner.Dirs.{run_dir, reserve_run_dir}
use infra_loop_kda.Runner.Evidence.Report.{path_text}
use infra_loop_kda.Runner.Baseline.{
  dict_or, section, recorded_path, is_other_root, require_slice, compare_digest, compare_base,
  verify_record, verify_baseline_integrity, root_path, resolve_roots,
}
use infra_loop_kda.Runner.Command.{
  python_executable, workloads_path, guarded, preflight_argv, correctness_argv, compare_argv,
  profile_argv, preflight_commands, correctness_commands, benchmark_commands, precision_commands,
  profile_commands, prefill_commands, builtin_commands, expected_artifacts,
}
use infra_loop_kda.Runner.Command.Resolve.{
  text_list, all_texts, configured_command, find_command, builtin_command, configured_value,
  resolve_command,
}
use infra_loop_kda.Runner.Pipeline.{
  pipelines, pipeline_for, harness_gate, stage_gate, stage_of, index, build_stages,
}
use infra_loop_kda.Runner.Inputs.{
  World, workload_hash, workload_json, add_harness, harness_of, differs, payload, execution_inputs,
}
use infra_loop_kda.Runner.Plan.{
  Site, Plan, roots_or_blocker, run_id_for, is_unresolved, unresolved, placeholder_blockers,
  command_for, wrapper_blockers, plan, start,
}
use infra_loop_kda.Runner.Plan.Ready.{IsStartable, start-IsStartable}

runs : Unit {0}
unfolding split_on push_char join contains_char get lookup put str str_or base_commit safe_join
    safe_relative is_absolute parts_of drop_skipped is_below contains_symlink check_links
    normal_parts validate_run_id full_match id_rest run_dir reserve_run_dir path_text dict_or
    section recorded_path is_other_root require_slice compare_digest compare_base verify_record
    verify_baseline_integrity root_path resolve_roots python_executable workloads_path guarded
    preflight_argv correctness_argv compare_argv profile_argv preflight_commands
    correctness_commands benchmark_commands precision_commands profile_commands prefill_commands
    builtin_commands expected_artifacts text_list all_texts configured_command find_command
    builtin_command configured_value resolve_command pipelines pipeline_for harness_gate stage_gate
    stage_of index build_stages workload_hash workload_json add_harness harness_of differs payload
    execution_inputs roots_or_blocker run_id_for is_unresolved unresolved placeholder_blockers
    command_for wrapper_blockers plan start
runs = tt

abbrev entry : Fields
entry = field "task_id" (text "t") (
    field "source" (object (field "base_commit" (text "abc") end)) (
      field "baseline" (object (field "absolute_path" (text "/b") (field "digest" (text "d0") end)))
        (field "workspace" (object (field "absolute_path" (text "/c") end)) end)))

abbrev measured : World
measured = record {
  candidate = some (record { file_count = 3; digest = "d1" });
  baseline = some (record { file_count = 3; digest = "d0" });
  workload = λ name. none;
  bench = none;
  precision = none;
  scripts = none;
}

abbrev site : Site
site = record {
  is_file = λ path. true;
  is_dir = λ path. path == "/b" || path == "/c";
  is_there = λ path. false;
  link = λ path. plain;
  resolve = λ path. path;
  loaded = ok entry;
  measured = λ roots. measured;
  hash = λ m. "0";
  fresh_id = "r-0";
}

abbrev task : String → Fields
task commit = field "kind" (text "prefill") (field "base_commit" (text commit) end)

abbrev task_dir : List String
task_dir = "srv" ∷ "t" ∷ []

run : Plan
unfolding runs
run = elim (start site end (task "abc") task_dir "t" "correctness" none) [
  | ok p ↦ p
  | err e ↦ record {
    run_id = "";
    adapter = "";
    argv = [];
    origin = none;
    roots = none;
    inputs = record { entries = end; inputs_sha256 = ""; warnings = [] };
    baseline_integrity = record {
      checked = false;
      matches_prepared = none;
      identity_bound = none;
      recorded_digest = null;
      observed_digest = none;
      recorded_task_id = null;
      recorded_base_commit = null;
      task_base_commit = none;
      problems = [];
    };
    expected = [];
    pipeline = build_stages end "";
    blockers = [];
  }
]

another_base :
    start site end (task "xyz") task_dir "t" "correctness" (some "r-1")
    ≡ err (tool_error "run r-1 cannot start")
unfolding runs
another_base = refl

start-IsStartable_example : IsStartable site end (task "abc") "t" run
unfolding runs run
start-IsStartable_example =
    start-IsStartable site end (task "abc") task_dir "t" "correctness" none refl
