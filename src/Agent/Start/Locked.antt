-- ===== src/Agent/Start/Locked.antt =====
-- What `start` leaves behind: a process for a ready plan with its session and its lock, or no lock.
use infra_loop_kda.Base.{ℕ, ℤ, String, none, some, ◌≢◌, ◌⊎◌, ◌==◌, if◌then◌else◌, ◌≡◌}
use infra_loop_kda.Base.Outcome.{Outcome, ok}
use infra_loop_kda.Json.{Json, object, Fields}
use infra_loop_kda.Lock.{nothing, written, Lock}
use infra_loop_kda.Agent.Environment.{declare_env, value_of, path_with, or_empty}
use infra_loop_kda.Agent.Environment.Spawned.{over}
use infra_loop_kda.Agent.Paths.{Binaries}
use infra_loop_kda.Agent.Plan.{Site, Settings, Plan, plan}
use infra_loop_kda.Agent.Plan.Ready.{IsReady}
use infra_loop_kda.Agent.Start.{
  spawned, World, After, Launch, new_session, running_session, session_lock,
}

-- What a start that returns has done, for a plan that was ready.
pub record IsLaunched (site : Site) (settings : Settings) (w : World) (task_id : String)
    (task : Fields) (max_iterations : ℤ) (pid : ℕ) (after : After) : Type 0 where
  pub frozen_plan : Plan
  pub planned : plan site settings task max_iterations (some w.uuid) ≡ ok frozen_plan
  pub ready : IsReady site settings task max_iterations (some w.uuid) frozen_plan
  pub identity : Json
  pub spawned_as : w.spawn ≡ spawned pid (ok identity)
  pub launched : Launch
  pub launched_is : after.launched ≡ some launched
  pub argv : launched.argv ≡ frozen_plan.argv
  pub cwd : frozen_plan.cwd ≡ some launched.cwd
  pub env :
      (key : String)
      → value_of key launched.env ≡ (
          if "PATH" == key
          then some (
              path_with w.shim
                (or_empty (
                  over (value_of "PATH" (declare_env frozen_plan.env)) (value_of "PATH" w.environ)))
                (or_empty (value_of "PATH" w.environ)))
          else over (value_of key (declare_env frozen_plan.env)) (value_of key w.environ))
  pub lock : after.lock ≡ written (object (session_lock task_id w.uuid pid w.utc))
  pub session :
      after.session
      ≡ some (
          running_session pid identity
            (new_session w settings task_id frozen_plan frozen_plan.binaries))

module _ (site : Site) (settings : Settings) (w : World) (task_id : String) (task : Fields)
    (max_iterations : ℤ) where
  -- What the launch takes.
  abbrev IsPrepared : Plan → Binaries → Type 0
  IsPrepared p binaries =
      (plan site settings task max_iterations (some w.uuid) ≡ ok p)
      × IsReady site settings task max_iterations (some w.uuid) p
      × (binaries ≡ p.binaries)

  -- Nothing was launched and no lock file is there, or a process was, and the lock file is there.
  abbrev Released : After → Type 0
  Released after =
      ((after.lock ≡ nothing) × (after.launched ≡ none))
      ⊎ ((after.lock ≢ nothing)
          × (pid : ℕ) × (read : Outcome Json) × (w.spawn ≡ spawned pid read)
          × (l : Launch) × (after.launched ≡ some l))
