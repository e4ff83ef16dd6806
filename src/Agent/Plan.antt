-- ===== src/Agent/Plan.antt =====
-- tools/k3/agent.py: `plan`, up to the record that `start` reads: the reasons against a start and the
-- invocation. What git, the disk, the doctor's report and the overlay say are arguments.
pub mod Usable
pub mod Ready
use infra_loop_kda.Base.{
  ℕ, ◌+◌, nat_beq, ℤ, String, ◌<>◌, Bool, true, false, not, ◌&&◌, ◌||◌, Option, none, some, List,
  [], ◌∷◌, ◌++◌, ◌==◌, map, length, is_empty, contains, if◌then◌else◌,
}
use infra_loop_kda.Base.Outcome.{Outcome, Error, ok, err, ◌>>=◌, tool_error, lock_error}
use infra_loop_kda.Base.Text.{contains_text}
use infra_loop_kda.Json.{Json, null, bool, Fields, get, truthy, equals_text}
use infra_loop_kda.Json.Repr.{str_or}
use infra_loop_kda.Lifecycle
use infra_loop_kda.Lifecycle.{start_blockers}
use infra_loop_kda.Process.{Processes}
use infra_loop_kda.Runner.Baseline.{section, is_tool_error}
use infra_loop_kda.Runner.Evidence.Report.{path_text}
use infra_loop_kda.Agent.Argv.{build_prompt, build_argv, setting}
use infra_loop_kda.Agent.Environment.{Env, Disk, build_env, redact_env}
use infra_loop_kda.Agent.Paths.{Machine, Binaries, Problem, resolve_toolchain_paths}
use infra_loop_kda.Agent.Session.{is_running}

pub data Reason : Type 0 where
  blocked : Lifecycle.Blocker → Reason
  unprepared : String → Reason
  workspace_gone : String → Reason
  not_a_clone : Json → Reason
  no_commit no_base_branch no_plan plan_tracked : Reason
  dirty : ℕ → Reason
  toolchain_failed base_unavailable : Reason
  binary : Problem → Reason
  no_plugin : String → Reason
  effort_rejected : String → Reason
  already_running : Reason

-- The plugin's directory, and whether its provenance says that it is the overlay.
pub record Plugin : Type 0 where
  pub dir : String
  pub no_commit_overlay : Bool

-- The settings that `plan` takes from the configuration.
pub record Settings : Type 0 where
  pub writer : Fields
  pub reviewer : Fields
  pub humanize : Fields
  pub overlay_enabled : Bool

-- What is found outside: the workspace's record, the directories, whether a workspace has a commit,
-- the files of its control directory, whether git tracks the plan, the lines of `git status`, the
-- report of the doctor, the plugin, the recorded session and the processes.
pub record Site : Type 0 where
  pub loaded : Outcome Fields
  pub is_dir : String → Bool
  pub head_exists : String → Bool
  pub is_file : String → Bool
  pub is_tracked : String → String → Bool
  pub porcelain : String → Option (List String)
  pub report_failed : Bool
  pub base_available : Json
  pub machine : Machine
  pub plugin : Outcome Plugin
  pub session : Option Fields
  pub os : Processes
  pub disk : Disk

-- The workspace that the record names; `control` is the same path where its
-- control directory may be used.
pub record Workspace : Type 0 where
  pub reasons : List Reason
  pub path : Option String
  pub branch : Json
  pub control : Option String

-- `availability.get(…) is False`
abbrev pub is_false : Json → Bool
is_false (bool b) = not b
is_false _ = false

-- The message of an exception that `except util.ToolError` catches.
abbrev pub message_of : Error → String
message_of (tool_error m) = m
message_of (lock_error m) = m
message_of _ = ""

abbrev pub when : Bool → Reason → List Reason
when true reason = reason ∷ []
when false reason = []

unfoldable pub known_workspace : Site → Fields → String → Json → Workspace
unfolding get
known_workspace site entry path branch =
    if not (site.is_dir path)
    then record {
      reasons = workspace_gone path ∷ [];
      path = some path;
      branch = branch;
      control = none;
    }
    else if not (equals_text (get "mode" entry) "clone")
    then record {
      reasons = not_a_clone (get "mode" entry) ∷ [];
      path = some path;
      branch = branch;
      control = none;
    }
    else record {
      reasons =
          when (not (site.head_exists path)) no_commit ++ when (not (truthy branch)) no_base_branch;
      path = some path;
      branch = branch;
      control = some path;
    }

-- The workspace part; only a `ToolError` is caught.
unfoldable pub find_workspace : Site → Outcome Fields → Outcome Workspace
unfolding known_workspace section str_or get path_text
find_workspace site (ok entry) = do
  info ← section "workspace" entry
  ok (
      known_workspace site entry (path_text (str_or (get "absolute_path" info) ""))
        (get "review_base_branch" info))
find_workspace site (err e) =
    if is_tool_error e
    then ok (record {
      reasons = unprepared (message_of e) ∷ [];
      path = none;
      branch = null;
      control = none;
    })
    else err e

-- A file of the control directory of a workspace.
unfoldable pub control_file : String → String → String
unfolding path_text
control_file workspace name = path_text (workspace <> "/.kda-task/" <> name)

abbrev pub visible : List String → ℕ
visible [] = 0
visible (line ∷ lines) = (if contains_text ".humanize" line then 0 else 1) + visible lines

-- `gitq.porcelain(…) or []`
abbrev pub lines_of : Option (List String) → List String
lines_of none = []
lines_of (some lines) = lines

-- `if visible:`
unfoldable pub dirty_reasons : ℕ → List Reason
dirty_reasons n = if nat_beq n 0 then [] else dirty n ∷ []

abbrev pub plan_relative : String
plan_relative = ".kda-task/plan.md"

-- Whether there is a plan, and what is wrong with it.
unfoldable pub plan_reasons : Site → String → Bool × List Reason
unfolding dirty_reasons control_file
plan_reasons site workspace =
    if site.is_file (control_file workspace "plan.md")
    then (
      true,
      when (site.is_tracked workspace plan_relative) plan_tracked
          ++ dirty_reasons (visible (lines_of (site.porcelain workspace))),
    )
    else (false, no_plan ∷ [])

-- The plan part, where the control directory may be used.
unfoldable pub find_plan : Site → Option String → Bool × List Reason
unfolding plan_reasons
find_plan site none = (false, [])
find_plan site (some workspace) = plan_reasons site workspace

abbrev pub upstream_efforts : List String
upstream_efforts = "xhigh" ∷ "high" ∷ "medium" ∷ "low" ∷ []

-- `plugin_dir`, and the reason where it cannot be resolved.
unfoldable pub find_plugin : Outcome Plugin → Outcome (Option Plugin × List Reason)
find_plugin (ok plugin) = ok (some plugin, [])
find_plugin (err e) = if is_tool_error e then ok (none, no_plugin (message_of e) ∷ []) else err e

unfoldable pub effort_reasons : Bool → String → List Reason
effort_reasons overlay_enabled effort =
    if effort == "" || contains effort upstream_efforts || overlay_enabled
    then []
    else effort_rejected effort ∷ []

unfoldable pub session_reasons : Processes → Option Fields → List Reason
unfolding is_running
session_reasons os none = []
session_reasons os (some session) = when (is_running os session) already_running

-- The invocation that is frozen; it is empty without a plugin or a plan.
pub record Invocation : Type 0 where
  pub argv : List String
  pub env : Env

abbrev pub no_invocation : Invocation
no_invocation = record { argv = []; env = [] }

abbrev pub file_if : Bool → String → Option String
file_if there path = if there then some path else none

unfoldable pub freeze :
    Site
    → Settings
    → ℤ
    → Option String
    → Workspace
    → Option String
    → Bool
    → Option Plugin
    → Invocation
unfolding build_prompt build_argv build_env str_or get control_file
freeze site settings max_iterations session_id w codex has_plan none = no_invocation
freeze site settings max_iterations session_id w codex false (some plugin) = no_invocation
freeze site settings max_iterations session_id w codex true (some plugin) =
    let workspace : String = elim w.path [ none ↦ "None" | some path ↦ path ] in
    record {
      argv =
          build_argv settings.writer plugin.dir
            (build_prompt plan_relative settings.reviewer w.branch max_iterations
              (str_or (get "start_command" settings.humanize) "/humanize:start-rlcr-loop")
              (truthy (get "skip_quiz" settings.humanize)))
            session_id;
      env =
          build_env site.disk workspace plugin.no_commit_overlay
            (some (control_file workspace "plan.md"))
            (file_if (site.is_file (control_file workspace "plan-snapshot.md"))
              (control_file workspace "plan-snapshot.md"))
            settings.reviewer codex;
    }

-- The fields of the record that `start` and the plan's identity read.
pub record Plan : Type 0 where
  pub reasons : List Reason
  pub argv : List String
  pub cwd : Option String
  pub env : Env
  pub plugin : Option Plugin
  pub binaries : Binaries

-- `record["ready"]`
abbrev pub is_ready : Plan → Bool
is_ready p = is_empty p.reasons

unfoldable pub all_reasons :
    Site → Settings → Fields → Workspace → List Reason → List Reason → List Reason
unfolding start_blockers resolve_toolchain_paths effort_reasons session_reasons setting
all_reasons site settings task w plan_part plugin_part =
    map blocked (start_blockers task)
    ++ (w.reasons
        ++ (plan_part
            ++ (when site.report_failed toolchain_failed
                ++ (when (is_false site.base_available) base_unavailable
                    ++ (map binary
                          (resolve_toolchain_paths site.machine settings.writer settings.reviewer).1
                        ++ (plugin_part
                            ++ (effort_reasons settings.overlay_enabled
                                  (setting "effort" settings.reviewer)
                                ++ session_reasons site.os site.session)))))))

-- `plan`
unfoldable pub plan : Site → Settings → Fields → ℤ → Option String → Outcome Plan
unfolding find_workspace find_plan find_plugin freeze all_reasons redact_env resolve_toolchain_paths
plan site settings task max_iterations session_id = do
  w ← find_workspace site site.loaded
  let found = find_plan site w.control
  chosen ← find_plugin site.plugin
  let binaries = (resolve_toolchain_paths site.machine settings.writer settings.reviewer).0
  let frozen = freeze site settings max_iterations session_id w binaries.codex found.0 chosen.0
  ok (record {
    reasons = all_reasons site settings task w found.1 chosen.1;
    argv = frozen.argv;
    cwd = w.path;
    env = redact_env frozen.env;
    plugin = chosen.0;
    binaries = binaries;
  })
