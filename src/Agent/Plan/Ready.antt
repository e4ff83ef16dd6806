-- ===== src/Agent/Plan/Ready.antt =====
-- What a plan that is ready guarantees.
use infra_loop_kda.Base.{ℤ, String, false, Option, some, List, [], ◌≡◌}
use infra_loop_kda.Base.Outcome.{Outcome, ok}
use infra_loop_kda.Json.{Json, Fields, get, truthy}
use infra_loop_kda.Json.Repr.{str_or}
use infra_loop_kda.Lifecycle.{start_blockers}
use infra_loop_kda.Runner.Baseline.{section}
use infra_loop_kda.Runner.Evidence.Report.{path_text}
use infra_loop_kda.Agent.Environment.{build_env, redact_env}
use infra_loop_kda.Agent.Argv.{build_prompt, build_argv}
use infra_loop_kda.Agent.Paths.{resolve_toolchain_paths, IsResolved}
use infra_loop_kda.Agent.Plan.{
  Reason, Plugin, Settings, Site, Workspace, plan_relative, Plan, control_file, file_if,
}
use infra_loop_kda.Agent.Plan.Usable.{NotRunning, IsUsable, IsPlanned}

pub record IsReady (site : Site) (settings : Settings) (task : Fields) (max_iterations : ℤ)
    (session_id : Option String) (p : Plan) : Type 0 where
  pub startable : start_blockers task ≡ []
  pub entry : Fields
  pub loaded : site.loaded ≡ ok entry
  pub info : Fields
  pub info_is : section "workspace" entry ≡ ok info
  pub workspace : String
  pub workspace_is : workspace ≡ path_text (str_or (get "absolute_path" info) "")
  pub cwd : p.cwd ≡ some workspace
  pub base : Json
  pub base_is : base ≡ get "review_base_branch" info
  pub usable : IsUsable site entry workspace base
  pub planned : IsPlanned site workspace
  pub healthy : site.report_failed ≡ false
  pub binaries : IsResolved site.machine settings.writer settings.reviewer p.binaries
  pub plugin : Plugin
  pub resolved : site.plugin ≡ ok plugin
  pub plugin_is : p.plugin ≡ some plugin
  pub idle : NotRunning site.os site.session
  pub argv :
      p.argv
      ≡ build_argv settings.writer plugin.dir
          (build_prompt plan_relative settings.reviewer base max_iterations
            (str_or (get "start_command" settings.humanize) "/humanize:start-rlcr-loop")
            (truthy (get "skip_quiz" settings.humanize)))
          session_id
  pub env :
      p.env
      ≡ redact_env (
          build_env site.disk workspace plugin.no_commit_overlay
            (some (control_file workspace "plan.md"))
            (file_if
              (site.is_file (control_file workspace "plan-snapshot.md"))
              (control_file workspace "plan-snapshot.md"))
            settings.reviewer
            p.binaries.codex)

-- The reasons that `all_reasons` collects are none only if each part has none.
record NoReasons (site : Site) (settings : Settings) (task : Fields) (w : Workspace)
    (plan_part plugin_part : List Reason) : Type 0 where
  startable : start_blockers task ≡ []
  workspace : w.reasons ≡ []
  planned : plan_part ≡ []
  healthy : site.report_failed ≡ false
  resolved : (resolve_toolchain_paths site.machine settings.writer settings.reviewer).1 ≡ []
  plugin : plugin_part ≡ []
  idle : NotRunning site.os site.session
