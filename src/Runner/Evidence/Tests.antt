-- ===== src/Runner/Evidence/Tests.antt =====
-- Report directories: a complete one, and some that are not.
use infra_loop_kda.Base.{
  ◌⊎◌, ◌≡◌, ◌≢◌, refl, ℕ, suc, pos, List, String, false, none, some, [], ◌∷◌, ◌==◌, All,
  if◌then◌else◌,
}
use infra_loop_kda.Base.Text.{split_on, push_char, ends_with, join, decimal}
use infra_loop_kda.Base.Sorted.{insert, sorted}
use infra_loop_kda.Base.Outcome.{ok, err}
use infra_loop_kda.Json.{
  Json, int, text, array, object, nil, cons, Fields, end, field, get, lookup, put, set_default,
}
use infra_loop_kda.Paths.{is_absolute, drop_skipped, parts_of}
use infra_loop_kda.Runner.Evidence.{
  add_hashes, add_manifest, is_sidecar, collect_text, collect_sidecars, has_key, two_digits,
  trial_name, entry_names, trial_names, order_of, unique, schema_requirements, benchmark,
}
use infra_loop_kda.Runner.Evidence.Summary.{
  loaded, File, no_file, regular, files_missing, Info, start_info, case_count, count_problem,
  count_problems, summary_counts, gate_counts, add_required, inspect_gate, is_failed_gate,
  check_file, missing_names, differing_names, verified_total, file_problems, check_files,
  read_summary, inspect, inspect_summary,
}
use infra_loop_kda.Runner.Evidence.Report.{
  Item, nothing, folder, path_text, name_of, remapped, is_json, texts_of, declared_paths, read_file,
  add_file, add_folder, add_item, add_items, Report, is_complete, no_findings, artifact_report,
}
use infra_loop_kda.Runner.Evidence.Inspected.{
  IsEvidence, IsThere, IsCounted, inspect_summary-IsEvidence,
}
use infra_loop_kda.Runner.Evidence.Complete.{IsGood, IsDeclared, place_of, artifact_report_complete}
use infra_loop_kda.Runner.Evidence.Gate.{inspect_summary-schema}
use infra_loop_kda.Runner.Evidence.Named.{trial_name_injective}

runs : Unit {0}
unfolding split_on push_char ends_with join decimal insert sorted get lookup put set_default
    is_absolute drop_skipped parts_of add_hashes add_manifest is_sidecar collect_text
    collect_sidecars has_key two_digits trial_name entry_names trial_names order_of unique
    schema_requirements start_info case_count count_problem count_problems summary_counts
    gate_counts add_required inspect_gate check_file missing_names differing_names verified_total
    file_problems check_files read_summary inspect inspect_summary path_text name_of remapped
    is_json texts_of declared_paths read_file add_file add_folder add_item add_items is_complete
    artifact_report
runs = tt

abbrev summary : Fields
summary = field "status" (text "passed") (
    field "case_count" (int (pos 11)) (
      field "execution_order"
        (array (
          cons
            (object (field "trial" (int (pos 1)) (field "implementation" (text "candidate") end)))
            nil))
        end))

abbrev gate : Fields
gate =
    field "status" (text "passed")
      (field "reports_sha256" (object (field "case-1.json" (text "h1") end)) end)

abbrev files : String → File
files name =
    if name == "summary.json"
    then regular 10 "h0" (loaded summary)
    else if name == "correctness.json"
    then regular 10 "h2" (loaded gate)
    else if name == "trial-01.candidate.json"
    then regular 10 "h3" (loaded end)
    else if name == "case-1.json"
    then regular 10 "h1" (loaded end)
    else no_file

-- The same directory with nothing but its summary.
abbrev bare : String → File
bare name = if name == "summary.json" then regular 10 "h0" (loaded summary) else no_file

info_of : (String → File) → Info
unfolding runs
info_of file = elim (inspect_summary file) [ ok info ↦ info | err e ↦ start_info ]

bare_summary :
    (info_of bare).problems
    ≡ files_missing ("correctness.json" ∷ "trial-01.candidate.json" ∷ []) ∷ []
unfolding runs info_of
bare_summary = refl

inspect_summary-IsEvidence_example : IsEvidence files
unfolding runs info_of
inspect_summary-IsEvidence_example =
    inspect_summary-IsEvidence files {info = info_of files} refl refl

inspect_summary-schema_example :
    (e : IsEvidence files) × All (λ name. (digest : Json) × IsThere (files name) digest) e.names
    × ((e.schema ≢ benchmark)
        ⊎ ((size : ℕ) × (sha256 : String) × (gate : Fields) × (files "correctness.json"
              ≡ regular (suc size) sha256 (loaded gate))
            × (is_failed_gate (get "status" gate) ≡ false)
            × IsCounted gate))
unfolding runs info_of
inspect_summary-schema_example = inspect_summary-schema files {info = info_of files} refl refl

abbrev disk : String → Item
disk path = if path == "/out/timing" then folder 4 "d" files else nothing

abbrev manifest : Fields
manifest = field "expected_artifacts" (array (cons (text "/run/timing") nil)) end

report : Report
unfolding runs
report = elim (artifact_report disk manifest (some "/out")) [
  | ok r ↦ r
  | err e ↦ record { declared = []; base = none; found = no_findings }
]

artifact_report_complete_example :
    (paths : List String) × IsDeclared (get "expected_artifacts" manifest) paths
    × (paths ≢ [])
    × All (λ raw. IsGood (place_of (some "/out") raw) (disk (place_of (some "/out") raw))) paths
unfolding runs report
artifact_report_complete_example = artifact_report_complete disk manifest (some "/out") refl refl

abbrev implementation : String
implementation = "cute.dsl"

trial_name_injective_example : (pos 3 ≡ pos 3) × (implementation ≡ implementation)
trial_name_injective_example =
    trial_name_injective (pos 3) (pos 3) implementation implementation refl

padded_name : trial_name (some (pos 3)) (text "cute.dsl") ≡ "trial-03.cute.dsl.json" ∷ []
unfolding runs
padded_name = refl
