-- ===== src/Agent/Tests/Launch.antt =====
-- A task that is started, fails to start, and is resumed.
use infra_loop_kda.Base.{◌≡◌, refl, pos, true, false, none, some, [], ◌∷◌}
use infra_loop_kda.Base.Outcome.{Outcome, ok, err, tool_error}
use infra_loop_kda.Json.{Json, null, bool, int, text, object, Fields, end, field, get}
use infra_loop_kda.Json.Repr.{str_or}
use infra_loop_kda.Runner.Baseline.{section}
use infra_loop_kda.Runner.Evidence.Report.{path_text}
use infra_loop_kda.Lock.{nothing}
use infra_loop_kda.Agent.Claim.{Seen}
use infra_loop_kda.Agent.Plan.{Settings, Site, Plan}
use infra_loop_kda.Agent.Start.{Spawn, spawned, not_spawned, World, After, start}
use infra_loop_kda.Agent.Resume.{Scene}
use infra_loop_kda.Agent.Loop.{normal}
use infra_loop_kda.Agent.Status.{
  blank, event, result_after, read_event, read_lines, tail_stream, found_verdict, loop_verdict,
  Tail, session_id_of, View, shown_loop, session_verdict, exited_in,
}
use infra_loop_kda.Agent.Status.Verified.{Claims, session_verdict-Claims}
use infra_loop_kda.Agent.Tests.{
  binaries, runs, empty_os, identity, caller, writer, reviewer, machine, outside, loop_at,
}

abbrev task : Fields
task =
    field "status" (text "ready")
      (field "workload_status" (text "resolved") (field "optimization_status" (text "pending") end))

abbrev entry : Fields
entry = field "mode" (text "clone") (
    field "workspace"
      (object (field "absolute_path" (text "/w") (field "review_base_branch" (text "base") end)))
      end)

abbrev site : Site
site = record {
  loaded = ok entry;
  is_dir = λ path. true;
  head_exists = λ path. true;
  is_file = λ path. true;
  is_tracked = λ workspace path. false;
  porcelain = λ path. some ("?? .humanize/x" ∷ []);
  report_failed = false;
  base_available = bool true;
  machine = machine;
  plugin = ok (record { dir = "/plugin"; no_commit_overlay = true });
  session = none;
  os = empty_os;
  disk = record { sha256_file = λ path. "h"; expand_home = λ path. path };
}

abbrev settings : Settings
settings = record { writer = writer; reviewer = reviewer; humanize = end; overlay_enabled = true }

abbrev world_with : Spawn → World
world_with spawn = record {
  uuid = "u1";
  utc = "t0";
  stream = "logs/u1/stream.jsonl";
  shim = "shim/u1";
  shim_is_dir = true;
  shim_entries = λ name. none;
  outside = outside;
  environ = ("PATH", "/bin") ∷ ("HOME", "/h") ∷ [];
  writes = ok tt;
  spawn = spawn;
  failure_write = ok tt;
  session_write = ok tt;
  lock_write = ok tt;
}

abbrev free : Seen
free = record { first = nothing; held = nothing; removed = nothing }

planned : Plan
unfolding runs
planned = record {
  reasons = [];
  argv =
      "claude" ∷ "-p" ∷ "/humanize:start-rlcr-loop .kda-task/plan.md --base-branch base --max 42"
      ∷ "--plugin-dir" ∷ "/plugin" ∷ "--output-format" ∷ "stream-json" ∷ "--verbose"
      ∷ "--session-id" ∷ "u1" ∷ "--model" ∷ "opus" ∷ "--effort" ∷ "max" ∷ [];
  cwd = some "/w";
  env =
      ("CLAUDE_PROJECT_DIR", "/w")
      ∷ ("HUMANIZE_CODEX_BYPASS_SANDBOX", "true")
      ∷ ("K3_NO_COMMIT_REVIEW", "true")
      ∷ ("K3_PLAN_FILE", "/w/.kda-task/plan.md")
      ∷ ("K3_PLAN_SHA256", "h")
      ∷ ("K3_PLAN_SNAPSHOT", "/w/.kda-task/plan-snapshot.md")
      ∷ ("K3_PLAN_SNAPSHOT_SHA256", "h")
      ∷ ("KDA_REVIEWER_EFFORT", "it's")
      ∷ ("KDA_REVIEWER_REAL_BIN", "/bin/codex")
      ∷ [];
  plugin = some (record { dir = "/plugin"; no_commit_overlay = true });
  binaries = binaries;
}

-- The process runs, and the lock file is not written again.
abbrev broken : World
broken = record (world_with (spawned 7 (ok identity))) { lock_write = err (tool_error "disk full") }

abbrev after_broken : After
after_broken = start caller free site settings broken "t" task (pos 42)

-- A spawn that fails leaves nothing behind.
not_spawned_test :
    ((start caller free site settings (world_with (not_spawned "gone")) "t" task (pos 42)).lock
      ≡ nothing)
    × ((start caller free site settings
          (world_with (not_spawned "gone"))
          "t"
          task
          (pos 42)).launched
        ≡ none)
unfolding runs
not_spawned_test = (refl, refl)

abbrev recorded : Fields
recorded = field "uuid" (text "u1") (
    field "claude_session_id" (text "u1") (
      field "state" (text "running") (
        field "cwd" (text "/w") (
          field "pid" (int (pos 7)) (
            field "process_identity" identity (
              field "frozen"
                (object (
                  field "writer" (object writer)
                    (field "plugin_absolute_path" (text "/plugin") end)))
                end))))))

abbrev scene : Scene
scene = record {
  session = some recorded;
  os = empty_os;
  stream_session = null;
  is_dir = λ path. true;
  loops = λ workspace. loop_at "1" "u1" ∷ [];
}

abbrev view : View
view = record {
  os = empty_os;
  log = λ path. some (blank ∷ event (object (field "type" (text "result") end)) ∷ []);
  is_dir = λ path. true;
  loops = λ workspace. loop_at "1" "u1" ∷ [];
}

session_verdict-Claims_example :
    (logs : Fields) × (tail : Tail) × (section "logs" recorded ≡ ok logs)
    × (tail_stream (view.log (path_text (str_or (get "stream" logs) ""))) ≡ ok tail)
    × Claims view recorded tail (exited_in normal)
unfolding runs session_verdict tail_stream read_lines read_event result_after shown_loop
    session_id_of loop_verdict found_verdict
session_verdict-Claims_example = session_verdict-Claims view recorded refl
