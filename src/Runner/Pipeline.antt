-- ===== src/Runner/Pipeline.antt =====
-- tools/k3/runner.py: `pipeline_for`, `build_stages` and `_stage_gate`, and the adapter that manages
-- a run, `adapter_from_manifest` and `report_adapter_drift`.
pub mod Position
pub mod Manager
mod Tests
use infra_loop_kda.Base.{
  ℕ, suc, zero, ◌+◌, String, ◌<>◌, Bool, true, false, not, ◌&&◌, Option, none, some, List, [], ◌∷◌,
  ◌==◌, if◌then◌else◌, map, contains, length,
}
use infra_loop_kda.Base.Outcome.{Outcome, ok, err, tool_error}
use infra_loop_kda.Json.{Json, object, Fields, end, get, truthy}
use infra_loop_kda.Json.Repr.{str, str_or}

-- `PIPELINES.get(kind, [])`
unfoldable pub pipelines : String → List String
pipelines kind =
    if kind == "prefill" then "preflight" ∷ "correctness" ∷ "precision" ∷ "benchmark" ∷ [] else []

unfoldable pub pipeline_for : Fields → List String
unfolding pipelines get str_or
pipeline_for task = pipelines (str_or (get "kind" task) "")

-- `HARNESS_GATED_STAGES.get(name)`
unfoldable pub harness_gate : String → Option String
harness_gate name =
    if name == "benchmark"
    then some
        "benchmark.py runs the correctness gate itself unless given a verified --correctness-report from the same frozen snapshot"
    else if name == "precision"
    then some "precision/diagnose.py is advisory and evaluates its own comparison"
    else none

-- `_stage_gate`
unfoldable pub stage_gate : String → Option String
stage_gate stage =
    if stage == "correctness"
    then some "correctness"
    else if stage == "benchmark"
    then some "timing"
    else if stage == "precision"
    then some "precision"
    else none

-- One element of `stages`.
pub record Stage : Type 0 where
  pub stage : String
  pub is_this_run : Bool
  pub harness_gate_of : Option String
  pub gate : Option String

unfoldable pub stage_of : String → String → Stage
unfolding harness_gate stage_gate
stage_of operation name = record {
  stage = name;
  is_this_run = name == operation;
  harness_gate_of = harness_gate name;
  gate = stage_gate name;
}

-- `pipeline.index(operation)`, for an operation that is in the pipeline
unfoldable pub index : String → List String → ℕ
index operation [] = 0
index operation (name ∷ names) =
    let later = suc (index operation names) in if name == operation then 0 else later

-- The `dict` that `build_stages` returns.
pub record Stages : Type 0 where
  pub pipeline : List String
  pub stages : List Stage
  pub this_stage : String
  pub position : Option ℕ
  pub total : Option ℕ
  pub in_pipeline : Bool

-- `build_stages`
unfoldable pub build_stages : Fields → String → Stages
unfolding pipeline_for stage_of index
build_stages task operation =
    let pipeline = pipeline_for task in
    record {
      pipeline = pipeline;
      stages = map (stage_of operation) pipeline;
      this_stage = operation;
      position = if contains operation pipeline then some (index operation pipeline + 1) else none;
      total = elim (length pipeline) [ zero ↦ none | suc n ↦ some (suc n) ];
      in_pipeline = contains operation pipeline;
    }

-- The adapter that manages a run; the site adapter has its frozen wrapper.
pub data Adapter : Type 0 where
  local_command : Adapter
  site_wrapper : Json → Adapter

abbrev pub frozen_settings : Json → Fields
frozen_settings (object m) = m
frozen_settings _ = end

-- `adapter_from_manifest`
unfoldable pub adapter_from_manifest : Fields → Outcome Adapter
unfolding get str str_or
adapter_from_manifest manifest =
    let name = str_or (get "adapter" manifest) "" in
    let wrapper = get "wrapper" (frozen_settings (get "adapter_settings" manifest)) in
    if name == "local-command"
    then ok local_command
    else if name == "site-wrapper"
    then (if truthy wrapper
        then ok (site_wrapper wrapper)
        else err (
            tool_error (
              "run "
              <> str (get "run_id" manifest)
              <> " was started by the site adapter but its manifest records no wrapper argv")))
    else err (tool_error ("run " <> str (get "run_id" manifest) <> " records an unknown adapter"))

-- `report_adapter_drift`: the configured and the recorded adapter, where they differ.
unfoldable pub report_adapter_drift : Fields → Fields → Option (String × String)
unfolding get str_or
report_adapter_drift manifest settings =
    let configured = str_or (get "adapter" settings) "local-command" in
    let recorded = str_or (get "adapter" manifest) "" in
    if not (recorded == "") && not (configured == recorded)
    then some (configured, recorded)
    else none
