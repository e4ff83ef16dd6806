-- ===== src/Runner/Pipeline/Manager.antt =====
-- A run is managed by the adapter that started it.
use infra_loop_kda.Base.{
  ◌≡◌, ◌≢◌, refl, ◌⊎◌, inl, inr, String, true, false, some, ◌==◌, Bool-cases, eq_iff, sym,
}
use infra_loop_kda.Base.Outcome.{ok, ok_injective}
use infra_loop_kda.Json.{Json, Fields, get, truthy}
use infra_loop_kda.Json.Repr.{str_or}
use infra_loop_kda.Runner.Pipeline.{
  Adapter, local_command, site_wrapper, frozen_settings, adapter_from_manifest,
  report_adapter_drift,
}

drift_found :
    (manifest settings : Fields)
    → (str_or (get "adapter" manifest) "" == "") ≡ false
    → str_or (get "adapter" settings) "local-command" ≢ str_or (get "adapter" manifest) ""
    → report_adapter_drift manifest settings
      ≡ some (str_or (get "adapter" settings) "local-command", str_or (get "adapter" manifest) "")
unfolding report_adapter_drift
drift_found manifest settings named other =
    let configured = str_or (get "adapter" settings) "local-command" in
    let recorded = str_or (get "adapter" manifest) "" in
    elim (Bool-cases (configured == recorded)) [
      | inl e ↦ elim (other ((eq_iff configured recorded).0 e)) [ ]
      | inr n ↦ rw (named, n) refl
    ]

named_by : (name literal : String) → name ≡ literal → (literal == "") ≡ false → (name == "") ≡ false
named_by name literal e n = rw e n

-- The adapter is the one that the manifest records, by its name, and the wrapper of a site adapter
-- is the frozen one, which is not empty. If the configuration selects another adapter, this is
-- reported.
pub adapter_from_manifest_lem :
    (manifest settings : Fields) {adapter : Adapter}
    → adapter_from_manifest manifest ≡ ok adapter
    → ((adapter ≡ local_command) × (str_or (get "adapter" manifest) "" ≡ "local-command")
        ⊎ ((wrapper : Json) × (adapter ≡ site_wrapper wrapper)
            × (str_or (get "adapter" manifest) "" ≡ "site-wrapper")
            × (wrapper ≡ get "wrapper" (frozen_settings (get "adapter_settings" manifest)))
            × (truthy wrapper ≡ true)))
      × ((str_or (get "adapter" settings) "local-command" ≢ str_or (get "adapter" manifest) "")
          → report_adapter_drift manifest settings
            ≡ some (
              str_or (get "adapter" settings) "local-command",
              str_or (get "adapter" manifest) "",
            ))
unfolding adapter_from_manifest
adapter_from_manifest_lem manifest settings {adapter} h =
    let name = str_or (get "adapter" manifest) "" in
    let wrapper = get "wrapper" (frozen_settings (get "adapter_settings" manifest)) in
    elim (Bool-cases (name == "local-command")) [
      | inl e ↦
          let is = (eq_iff name "local-command").0 e in
          (
            inl (sym (ok_injective (rw e at h)), is),
            drift_found manifest settings (named_by name "local-command" is refl),
          )
      | inr n ↦ elim (Bool-cases (name == "site-wrapper")) [
        | inl e ↦
            let is = (eq_iff name "site-wrapper").0 e in
            elim (Bool-cases (truthy wrapper)) [
              | inl t ↦ (
                inr (wrapper, sym (ok_injective (rw (n, e, t) at h)), is, refl, t),
                drift_found manifest settings (named_by name "site-wrapper" is refl),
              )
              | inr f ↦ cc (rw (n, e, f) at h)
            ]
        | inr m ↦ cc (rw (n, m) at h)
      ]
    ]
