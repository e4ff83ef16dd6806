-- ===== src/Agent/Resume/Gate.antt =====
-- When `resume` launches a process, and what it launches.
use infra_loop_kda.Base.{String, some, List, ◌≡◌, ◌==◌, if◌then◌else◌}
use infra_loop_kda.Base.Outcome.{Outcome, ok}
use infra_loop_kda.Json.{Fields}
use infra_loop_kda.Lifecycle.{startable_task, require_startable}
use infra_loop_kda.Lock.{Lock}
use infra_loop_kda.Runner.Baseline.{section}
use infra_loop_kda.Agent.Argv.{build_resume_argv}
use infra_loop_kda.Agent.Environment.{Env, declare_env, value_of, path_with, or_empty}
use infra_loop_kda.Agent.Environment.Spawned.{over}
use infra_loop_kda.Agent.Start.{World, After, Launch}
use infra_loop_kda.Agent.Resume.Checked.{IsResumable}
use infra_loop_kda.Agent.Resume.{Scene, Resumable, recorded_env}

-- What is launched again: the rebuilt command line and the session's declared variables.
abbrev IsRebuilt : Resumable → List String × Env → Type 0
IsRebuilt r built =
    (recorded : Fields) × (section "env" r.session ≡ ok recorded)
    × ((
      build_resume_argv r.writer r.plugin_dir r.claude_session,
      declare_env (recorded_env recorded),
    )
        ≡ built)

-- A process that was launched again, in terms of what may be resumed.
pub record IsRelaunched (w : World) (r : Resumable) (l : Launch) : Type 0 where
  pub argv : l.argv ≡ build_resume_argv r.writer r.plugin_dir r.claude_session
  pub cwd : l.cwd ≡ r.workspace
  pub recorded_variables : Fields
  pub recorded_are : section "env" r.session ≡ ok recorded_variables
  pub env :
      (key : String)
      → value_of key l.env ≡ (
          if "PATH" == key
          then some (
              path_with w.shim
                (or_empty (
                  over
                    (value_of "PATH" (declare_env (recorded_env recorded_variables)))
                    (value_of "PATH" w.environ)))
                (or_empty (value_of "PATH" w.environ)))
          else over
              (value_of key (declare_env (recorded_env recorded_variables)))
              (value_of key w.environ))

-- What a `resume` that returns has done.
pub record IsResumed (scene : Scene) (w : World) (task_id : String) (task : Fields) (after : After)
    : Type 0 where
  pub startable : require_startable task task_id ≡ startable_task
  pub session : Fields
  pub recorded : scene.session ≡ some session
  pub resumed : Resumable
  pub resumable : IsResumable scene session resumed
  pub launched : Launch
  pub launched_is : after.launched ≡ some launched
  pub relaunched : IsRelaunched w resumed launched

module _ (w : World) (task_id : String) where
  -- The process that was launched, where a call returned.
  abbrev Launched : Resumable → After → Type 0
  Launched r after = (l : Launch) × (after.launched ≡ some l) × IsRelaunched w r l
