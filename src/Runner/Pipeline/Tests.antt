-- ===== src/Runner/Pipeline/Tests.antt =====
-- A prefill task and two manifests.
use infra_loop_kda.Base.{◌≡◌, ◌≢◌, refl, ◌⊎◌, ℕ, ◌+◌, true, false, none, some, get_elem?}
use infra_loop_kda.Base.Outcome.{err, tool_error}
use infra_loop_kda.Json.{Json, text, Fields, end, field, get, lookup, truthy}
use infra_loop_kda.Json.Repr.{str, str_or}
use infra_loop_kda.Runner.Pipeline.{
  pipelines, pipeline_for, harness_gate, stage_gate, stage_of, index, build_stages, local_command,
  site_wrapper, frozen_settings, adapter_from_manifest, report_adapter_drift,
}
use infra_loop_kda.Runner.Pipeline.Position.{build_stages_position}
use infra_loop_kda.Runner.Pipeline.Manager.{adapter_from_manifest_lem}

runs : Unit {0}
unfolding get lookup str str_or pipelines pipeline_for harness_gate stage_gate stage_of index
    build_stages adapter_from_manifest report_adapter_drift
runs = tt

abbrev task : Fields
task = field "kind" (text "prefill") end

third_stage : (build_stages task "precision").position ≡ some 3
unfolding runs
third_stage = refl

build_stages_position_example :
    ((n : ℕ)
      → (build_stages task "precision").position ≡ some n
      → (i : ℕ) × (n ≡ i + 1)
        × (get_elem? (build_stages task "precision").pipeline i ≡ some "precision")
        × (get_elem? (build_stages task "precision").stages i
            ≡ some (stage_of "precision" "precision"))
        × ((stage_of "precision" "precision").is_this_run ≡ true))
    × ((build_stages task "precision").position ≡ none
        → (build_stages task "precision").in_pipeline ≡ false)
build_stages_position_example = build_stages_position task "precision"

abbrev manifest : Fields
manifest = field "adapter" (text "local-command") end

unknown_adapter :
    adapter_from_manifest (field "adapter" (text "other") (field "run_id" (text "r") end))
    ≡ err (tool_error "run r records an unknown adapter")
unfolding runs
unknown_adapter = refl

adapter_from_manifest_lem_example :
    ((local_command ≡ local_command) × (str_or (get "adapter" manifest) "" ≡ "local-command")
      ⊎ ((wrapper : Json) × (local_command ≡ site_wrapper wrapper)
          × (str_or (get "adapter" manifest) "" ≡ "site-wrapper")
          × (wrapper ≡ get "wrapper" (frozen_settings (get "adapter_settings" manifest)))
          × (truthy wrapper ≡ true)))
    × ((str_or (get "adapter" end) "local-command" ≢ str_or (get "adapter" manifest) "")
        → report_adapter_drift manifest end
          ≡ some (str_or (get "adapter" end) "local-command", str_or (get "adapter" manifest) ""))
unfolding runs
adapter_from_manifest_lem_example = adapter_from_manifest_lem manifest end refl
