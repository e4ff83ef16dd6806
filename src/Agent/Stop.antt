-- ===== src/Agent/Stop.antt =====
-- tools/k3/agent.py: `stop`. What the operating system answers at each look at the process, and what
-- becomes of each signal, are arguments.
pub mod Confirmed
use infra_loop_kda.Base.{
  ℕ, zero, suc, ℤ, pos, negsuc, String, ◌<>◌, Bool, true, false, not, ◌&&◌, Option, none, some,
  List, [], ◌∷◌, if◌then◌else◌,
}
use infra_loop_kda.Base.Outcome.{Outcome, ok, err, tool_error, ◌>>=◌}
use infra_loop_kda.Json.{Json, null, int, text, Fields, get, put}
use infra_loop_kda.Json.Checks.{integer_of}
use infra_loop_kda.Json.Repr.{str}
use infra_loop_kda.Lock.{Content, nothing}
use infra_loop_kda.Process.{Processes, is_match, process_matches}

pub data Signal : Type 0 where
  sigterm sigkill : Signal

-- `-pid`
abbrev pub negate : ℤ → ℤ
negate (pos zero) = pos zero
negate (pos (suc n)) = negsuc n
negate (negsuc n) = pos (suc n)

-- `-pid if signal_group else pid`
abbrev pub target_of : Bool → ℤ → ℤ
target_of signal_group pid = if signal_group then negate pid else pid

-- The looks at the process before the deadline; the loop ends at the first that does not match.
unfoldable pub wait_gone : ℤ → Json → List Processes → Bool
wait_gone pid recorded [] = false
wait_gone pid recorded (os ∷ looks) =
    let rest = wait_gone pid recorded looks in
    if is_match (process_matches os pid recorded) then rest else true

-- The world of one call: the look before the first signal, the message of the `OSError` that the
-- signal raises, the looks until the deadline, whether the second signal is sent, the looks after it,
-- whether the lock file can be removed, and the clock.
pub record World : Type 0 where
  pub before : Processes
  pub refused : Option String
  pub looks : List Processes
  pub kill_sent : Bool
  pub looks_after : List Processes
  pub removable : Bool
  pub utc : String

-- What the call did: the signals that were sent, the session that was written and what is left at
-- the path of the lock file.
pub record Stopped : Type 0 where
  pub signals : List (Signal × ℤ)
  pub session : Fields
  pub lock : Content
  pub exited : Bool
  pub escalated : Bool

-- `session["state"] = …; session["stopped_at"] = …`
unfoldable pub stopped_session : Bool → String → Fields → Fields
unfolding put
stopped_session exited utc session =
    put "stopped_at" (if exited then text utc else null)
      (put "state" (text (if exited then "stopped" else "running")) session)

-- `lock.unlink()`, where the process exited.
unfoldable pub left_lock : Bool → Bool → Content → Content
left_lock exited removable content = if exited && removable then nothing else content

-- From the first signal on. `exited` is what the first wait saw.
unfoldable pub finish : World → Fields → Content → ℤ → ℤ → Bool → Bool → Stopped
unfolding wait_gone stopped_session left_lock get
finish w session content pid target escalate exited =
    let escalates = not exited && escalate in
    let gone =
      if escalates then wait_gone pid (get "process_identity" session) w.looks_after else exited in
    record {
      signals =
          (sigterm, target) ∷ (if escalates && w.kill_sent then (sigkill, target) ∷ [] else []);
      session = stopped_session gone w.utc session;
      lock = left_lock gone w.removable content;
      exited = gone;
      escalated = escalates && w.kill_sent;
    }

unfoldable pub signal : World → Fields → Content → Bool → Bool → ℤ → Option String → Outcome Stopped
unfolding finish wait_gone get str
signal w session content signal_group escalate pid (some message) =
    err (tool_error ("cannot signal pid " <> str (int pid) <> ": " <> message))
signal w session content signal_group escalate pid none = ok (
    finish w session content pid (target_of signal_group pid) escalate
      (wait_gone pid (get "process_identity" session) w.looks))

-- `isinstance(pid, int)`
unfoldable pub pid_or_refuse : Option ℤ → Outcome ℤ
pid_or_refuse none = err (tool_error "recorded session has no pid; refusing to signal anything")
pid_or_refuse (some pid) = ok pid

-- The message, to where it goes on with the answer of the process check.
unfoldable pub unconfirmed : ℤ → Outcome Stopped
unfolding str
unconfirmed pid = err (tool_error ("refusing to signal pid " <> str (int pid)))

-- `stop`, for a task with the given session.
unfoldable pub stop : World → String → Option Fields → Content → Bool → Bool → Outcome Stopped
unfolding signal pid_or_refuse unconfirmed get
stop w task_id none content signal_group escalate =
    err (tool_error ("no recorded session for task " <> task_id))
stop w task_id (some session) content signal_group escalate = do
  pid ← pid_or_refuse (integer_of (get "pid" session))
  if is_match (process_matches w.before pid (get "process_identity" session))
      then signal w session content signal_group escalate pid w.refused
      else unconfirmed pid
