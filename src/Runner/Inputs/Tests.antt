-- ===== src/Runner/Inputs/Tests.antt =====
-- A measurement with all of its inputs.
use infra_loop_kda.Base.{◌≡◌, refl, String, none, some, [], ◌∷◌}
use infra_loop_kda.Json.{text, Fields, end, field, get, lookup, put}
use infra_loop_kda.Json.Repr.{str}
use infra_loop_kda.Runner.Inputs.{
  Tree, World, trees_identical, workload_hash, workload_json, add_harness, harness_of, differs,
  payload, execution_inputs,
}
use infra_loop_kda.Runner.Inputs.Bound.{
  digest_of, measured_workload, harness_digest, payload-determines, IsComplete,
  execution_inputs-IsComplete,
}

runs : Unit {0}
unfolding get lookup put str workload_hash workload_json add_harness harness_of differs payload
    execution_inputs
runs = tt

abbrev tree : String → Tree
tree digest = record { file_count = 2; digest = digest }

abbrev world : String → World
world candidate = record {
  candidate = some (tree candidate);
  baseline = some (tree "b");
  workload = λ name. some "h";
  bench = some (tree "k");
  precision = none;
  scripts = none;
}

abbrev task : Fields
task = field "workload_file" (text "w.json") end

abbrev digest : Fields → String
digest m = "0"

unchanged_candidate : (execution_inputs digest (world "b") task).warnings ≡ trees_identical ∷ []
unfolding runs
unchanged_candidate = refl

payload-determines_example :
    (digest_of (some (tree "c")) ≡ digest_of (some (tree "c")))
    × (digest_of (some (tree "b")) ≡ digest_of (some (tree "b")))
    × (measured_workload (world "c") (get "workload_file" task)
        ≡ measured_workload (world "c") (get "workload_file" task))
    × (harness_digest (world "c").bench ≡ harness_digest (world "c").bench)
    × (harness_digest (world "c").precision ≡ harness_digest (world "c").precision)
    × (harness_digest (world "c").scripts ≡ harness_digest (world "c").scripts)
payload-determines_example = payload-determines (world "c") (world "c") task task refl

execution_inputs-IsComplete_example : IsComplete (world "c") task
unfolding runs
execution_inputs-IsComplete_example = execution_inputs-IsComplete digest (world "c") task refl
