-- ===== src/Lifecycle.antt =====
-- tools/k3/lifecycle.py: the states of a task and the gate that guards a start.
pub mod Gate
mod Tests
use infra_loop_kda.Base.{
  String, ◌<>◌, Bool, true, false, not, Option, none, some, List, [], ◌∷◌, ◌++◌, ◌==◌,
  if◌then◌else◌, contains, is_empty,
}
use infra_loop_kda.Base.Outcome.{Outcome, ok, err, Error}
use infra_loop_kda.Json.{Json, object, text, Fields, get, lookup, truthy, equals_text}
use infra_loop_kda.Json.Repr.{str, str_or}

abbrev pub startable : List String
startable = "prepared" ∷ "ready" ∷ "candidate_running" ∷ "in_progress" ∷ []

abbrev pub terminal : List String
terminal = "accepted" ∷ "delivered" ∷ "rejected" ∷ "closed" ∷ []

abbrev pub held : List String
held = "paused" ∷ "blocked" ∷ []

abbrev pub verified : List String
verified = "candidate_verified" ∷ []

abbrev pub known : List String
known =
    "scaffolded" ∷ "prepared" ∷ "ready" ∷ "candidate_running" ∷ "in_progress" ∷ "candidate_verified"
    ∷ "accepted" ∷ "delivered" ∷ "rejected" ∷ "closed" ∷ "paused" ∷ "blocked" ∷ []

-- `task_status`
unfoldable pub task_status : Fields → String
task_status task = str_or (get "status" task) "scaffolded"

-- `is_terminal`
unfoldable pub is_terminal : Fields → Bool
unfolding task_status
is_terminal task = contains (task_status task) terminal

-- The messages of `start_blockers`, one constructor for each, with the values that it shows.
pub data Blocker : Type 0 where
  immutable : String → Blocker
  scaffolded : Blocker
  stopped : String → Blocker
  awaiting_review : String → Blocker
  not_startable : String → Blocker
  unresolved_workload : String → Blocker
  accepted_result : Blocker

-- The ladder on the status.
unfoldable pub status_blockers : String → List Blocker
status_blockers status =
    if contains status terminal
    then immutable status ∷ []
    else if status == "scaffolded"
    then scaffolded ∷ []
    else if contains status held
    then stopped status ∷ []
    else if contains status verified
    then awaiting_review status ∷ []
    else if not (contains status startable)
    then not_startable status ∷ []
    else []

unfoldable pub workload_blockers : String → List Blocker
workload_blockers status = if status == "resolved" then [] else unresolved_workload status ∷ []

unfoldable pub result_blockers : Json → List Blocker
result_blockers v = if equals_text v "accepted" then accepted_result ∷ [] else []

-- `start_blockers`
unfoldable pub start_blockers : Fields → List Blocker
start_blockers task =
    status_blockers (task_status task)
    ++ (workload_blockers (str_or (get "workload_status" task) "unresolved")
        ++ result_blockers (get "optimization_status" task))

-- `task.get(key, default)`
unfoldable pub get_default : String → Json → Fields → Json
get_default key default task = elim (lookup key task) [ none ↦ default | some v ↦ v ]

pub record Description : Type 0 where
  pub status : String
  pub optimization_status : Json
  pub integration_status : Json
  pub serving_validation : Json
  pub workload_status : Json
  pub is_final : Bool
  pub blockers : List Blocker

-- `describe`
unfoldable pub describe : Fields → Description
describe task = record {
  status = task_status task;
  optimization_status = get_default "optimization_status" (text "unknown") task;
  integration_status = get_default "integration_status" (text "unknown") task;
  serving_validation = get_default "serving_validation" (text "not_performed") task;
  workload_status = get_default "workload_status" (text "unresolved") task;
  is_final = is_terminal task;
  blockers = start_blockers task;
}

-- `require_startable` raises a `ToolError` that lists the reasons.
pub data Started : Type 0 where
  startable_task : Started
  refused : String → List Blocker → Started

unfoldable pub require_startable : Fields → String → Started
require_startable task task_id =
    if is_empty (start_blockers task) then startable_task else refused task_id (start_blockers task)

abbrev pub source_commit : Json → Option Json
source_commit (object source) =
    if truthy (get "commit" source) then some (get "commit" source) else none
source_commit _ = none

-- `base_commit`
unfoldable pub base_commit : Fields → Option String
unfolding str
base_commit task = elim (source_commit (get "source" task)) [
  | some commit ↦ some (str commit)
  | none ↦ if truthy (get "base_commit" task) then some (str (get "base_commit" task)) else none
]
