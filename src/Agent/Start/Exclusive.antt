-- ===== src/Agent/Start/Exclusive.antt =====
-- While the process of a session runs, no other session gets the task's lock.
use infra_loop_kda.Base.{ℕ, pos, true, false, ◌≡◌}
use infra_loop_kda.Base.Outcome.{ok, err}
use infra_loop_kda.Json.{Json, truthy}
use infra_loop_kda.Process.{Processes}
use infra_loop_kda.Process.Laws.{IsSame}
use infra_loop_kda.Agent.Start.{Spawn, spawned, not_spawned, raised}

-- The process is there: `ps` shows the recorded one, or, where nothing was recorded, a signal 0
-- reaches its pid.
pub data StillRuns (os : Processes) (pid : ℕ) (identity : Json) : Type 0 where
  verified : IsSame os (pos pid) identity → StillRuns os pid identity
  unrecorded : truthy identity ≡ false → os.alive (pos pid) ≡ true → StillRuns os pid identity

identity_of : Json → Spawn → Json
identity_of other (spawned pid (ok identity)) = identity
identity_of other (spawned pid (err e)) = other
identity_of other (not_spawned message) = other
identity_of other (raised e) = other
