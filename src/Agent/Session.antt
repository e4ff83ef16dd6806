-- ===== src/Agent/Session.antt =====
-- tools/k3/agent.py: `_session_state`, over what the operating system says of the recorded process.
pub mod Stopped
use infra_loop_kda.Base.{ℤ, String, Bool, ◌||◌, Option, none, some, ◌==◌, ◌≡◌, refl, if◌then◌else◌}
use infra_loop_kda.Json.{Json, Fields, get, equals_text}
use infra_loop_kda.Json.Checks.{integer_of}
use infra_loop_kda.Json.Repr.{str}
use infra_loop_kda.Process.{Processes, Match, is_match, process_matches}

-- The texts of `detail`.
pub data Detail : Type 0 where
  recorded_as : String → Detail
  no_pid : Detail
  identity : Match → Detail

pub record State : Type 0 where
  pub state : String
  pub detail : Detail

-- `isinstance(pid, int)` and the comparison of the process.
unfoldable pub observed : Processes → Option ℤ → Json → State
observed os none recorded = record { state = "exited"; detail = no_pid }
observed os (some pid) recorded = record {
  state = if is_match (process_matches os pid recorded) then "running" else "exited";
  detail = identity (process_matches os pid recorded);
}

-- `session.get("state") in (SESSION_EXITED, SESSION_STOPPED)`
unfoldable pub is_closed : Json → Bool
is_closed v = equals_text v "exited" || equals_text v "stopped"

-- `_session_state`, of the three fields that it reads.
unfoldable pub classify : Processes → Json → Json → Json → State
unfolding observed is_closed str
classify os state pid recorded =
    if is_closed state
    then record { state = str state; detail = recorded_as (str state) }
    else observed os (integer_of pid) recorded

-- `_session_state`
unfoldable pub session_state : Processes → Fields → State
unfolding classify get
session_state os session =
    classify os (get "state" session) (get "pid" session) (get "process_identity" session)

pub session_state_lem :
    (os : Processes) (session : Fields)
    → session_state os session
      ≡ classify os (get "state" session) (get "pid" session) (get "process_identity" session)
unfolding session_state
session_state_lem os session = refl

-- `state["state"] == SESSION_RUNNING`
unfoldable pub is_running : Processes → Fields → Bool
unfolding session_state
is_running os session = (session_state os session).state == "running"
