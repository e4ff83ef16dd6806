-- ===== src/Runner/Adapter.antt =====
-- tools/k3/runner.py: `LocalCommandAdapter.status` and `cancel`. The status file and the processes
-- are read at the moments at which the code reads them, so each read is an argument.
pub mod Laws
use infra_loop_kda.Base.{
  ℕ, ℤ, pos, String, Bool, true, false, not, ◌&&◌, ◌||◌, Option, none, some, List, [], ◌∷◌, ◌==◌,
  if◌then◌else◌, contains,
}
use infra_loop_kda.Base.Outcome.{Outcome, ok, err, tool_error}
use infra_loop_kda.Json.{
  Json, null, bool, int, text, object, Fields, end, field, get, truthy, equals_nat,
}
use infra_loop_kda.Json.Repr.{str_or}
use infra_loop_kda.Process.{Processes, Match, is_match, process_matches}

-- A status file when it is read: `config.load_json` raises `ValidationError` on a malformed one.
pub data StatusFile : Type 0 where
  absent malformed : StatusFile
  written : Fields → StatusFile

-- `recorded`; an empty `dict` stands for no record.
unfoldable pub recorded : StatusFile → Fields
recorded absent = end
recorded malformed = end
recorded (written m) = m

pub data RunState : Type 0 where
  starting running exited signalled cancelled unknown : RunState

-- `mapping.get(state, RUN_UNKNOWN)`
unfoldable pub run_state : String → RunState
run_state s =
    if s == "starting"
    then starting
    else if s == "running" || s == "cancelling"
    then running
    else if s == "cancelled"
    then cancelled
    else if s == "signalled"
    then signalled
    else if s == "exited" || s == "failed-to-spawn"
    then exited
    else unknown

-- The texts of `detail`, one constructor for each.
pub data Detail : Type 0 where
  no_pid not_running unverified terminating supervisor_gone never_recorded : Detail
  identity : Match → Detail

-- The `dict` that `status` returns; a key that it leaves out reads as `None` or `False`.
pub record Execution : Type 0 where
  pub state : RunState
  pub detail : Detail
  pub exit_code : Json
  pub signal : Json
  pub exited_normally : Json
  pub is_cancelled : Bool
  pub received_signal : Json
  pub escalated : Bool
  pub child_pid : Json
  pub started_at : Json
  pub finished_at : Json

-- The result where nothing was recorded of the end.
unfoldable pub unrecorded : RunState → Detail → Json → Execution
unrecorded s d normally = record {
  state = s;
  detail = d;
  exit_code = null;
  signal = null;
  exited_normally = normally;
  is_cancelled = false;
  received_signal = null;
  escalated = false;
  child_pid = null;
  started_at = null;
  finished_at = null;
}

-- `isinstance(pid, int)`; Python's booleans are integers.
abbrev pub pid_of : Json → Option ℤ
pid_of (int z) = some z
pid_of (bool true) = some (pos 1)
pid_of (bool false) = some (pos 0)
pid_of _ = none

-- Whether the process runs, and what is said of it.
unfoldable pub liveness : Processes → Json → Json → Bool × Detail
liveness os pid recorded_identity = elim (pid_of pid) [
  | none ↦ (false, no_pid)
  | some z ↦
      if truthy recorded_identity
      then (if os.alive z && not (is_match (process_matches os z recorded_identity))
          then (false, identity (process_matches os z recorded_identity))
          else if os.alive z
          then (true, identity (process_matches os z recorded_identity))
          else (false, not_running))
      else if os.alive z
      then (true, unverified)
      else (false, not_running)
]

abbrev in_flight : List String
in_flight = "starting" ∷ "running" ∷ "cancelling" ∷ []

-- `str(recorded.get("state") or RUN_UNKNOWN)`
unfoldable pub state_of : Fields → String
state_of m = str_or (get "state" m) "unknown"

unfoldable pub is_in_flight : Fields → Bool
unfolding state_of
is_in_flight m = contains (state_of m) in_flight

-- `recheck and str(recheck.get("state") or "") not in in_flight`
unfoldable pub is_settled : Fields → Bool
is_settled m = truthy (object m) && not (contains (str_or (get "state" m) "") in_flight)

-- The record after the second read of the file.
unfoldable pub reread : Bool → Fields → StatusFile → Fields
reread alive first second =
    if is_in_flight first && not alive && is_settled (recorded second)
    then recorded second
    else first

-- The result from a record.
unfoldable pub from_record : Bool → Detail → Fields → Execution
from_record alive detail m =
    if is_in_flight m && not alive
    then unrecorded unknown supervisor_gone (bool false)
    else record {
      state = run_state (state_of m);
      detail = if state_of m == "cancelling" then terminating else detail;
      exit_code = get "exit_code" m;
      signal = get "signal" m;
      exited_normally = get "exited_normally" m;
      is_cancelled = truthy (get "cancelled" m);
      received_signal = get "received_signal" m;
      escalated = truthy (get "escalated_to_sigkill" m);
      child_pid = get "child_pid" m;
      started_at = get "started_at" m;
      finished_at = get "finished_at" m;
    }

-- The returns of `status`, from the liveness and the record of the first read.
unfoldable pub report : Bool → Detail → Fields → StatusFile → Execution
report alive detail m second =
    if truthy (object m)
    then from_record alive detail (reread alive m second)
    else if alive
    then unrecorded running detail null
    else unrecorded unknown never_recorded (bool false)

-- `LocalCommandAdapter.status`, from the manifest, the processes and the two reads of the file.
unfoldable pub status : Processes → Fields → StatusFile → StatusFile → Execution
unfolding report
status os manifest first second =
    let (alive, detail) = liveness os (get "pid" manifest) (get "process_identity" manifest) in
    report alive detail (recorded first) second

-- `LocalCommandAdapter.cancel`: the pid that gets SIGTERM.
unfoldable pub signal_pid : Processes → Fields → Option ℤ → Outcome ℤ
signal_pid os manifest none = err (tool_error "no pid recorded; refusing to signal anything")
signal_pid os manifest (some z) =
    if is_match (process_matches os z (get "process_identity" manifest))
    then ok z
    else err (tool_error "refusing to signal pid")

unfoldable pub cancel : Processes → Fields → Outcome ℤ
unfolding signal_pid
cancel os manifest = signal_pid os manifest (pid_of (get "pid" manifest))

-- `ran_to_completion` in `runner.status`
unfoldable pub ran_to_completion : Execution → Bool
ran_to_completion e =
    elim e.state [ exited ↦ true | _ ↦ false ]
    && equals_nat e.exit_code 0
    && truthy e.exited_normally
    && not e.is_cancelled
