-- ===== src/Runner/Inputs.antt =====
-- tools/k3/runner.py: `execution_inputs`. What the trees and files hash to is an argument, as is the
-- hash of the payload (`util.sha256_json`).
pub mod Bound
mod Tests
use infra_loop_kda.Base.{
  ℕ, suc, zero, pos, String, ◌<>◌, Bool, true, false, not, ◌&&◌, Option, none, some, List, [], ◌∷◌,
  ◌++◌, ◌==◌, if◌then◌else◌,
}
use infra_loop_kda.Json.{Json, null, bool, int, text, object, Fields, end, field, get, put, truthy}
use infra_loop_kda.Json.Repr.{str}

-- A directory with its `tree_hashes`: their number and their digest. `none` is no directory, or no
-- path for one.
pub record Tree : Type 0 where
  pub file_count : ℕ
  pub digest : String

-- What is measured: the two trees, the hash of the workload file by its name in the task, and the
-- harness directories.
pub record World : Type 0 where
  pub candidate : Option Tree
  pub baseline : Option Tree
  pub workload : String → Option String
  pub bench : Option Tree
  pub precision : Option Tree
  pub scripts : Option Tree

-- The texts of `warnings`, one constructor for each.
pub data Warning : Type 0 where
  tree_unavailable : String → Warning
  workload_unavailable no_harness trees_identical : Warning

-- `digest_tree`, and the warning that it appends.
abbrev pub tree_json : Option Tree → Json
tree_json none = null
tree_json (some t) =
    object (field "file_count" (int (pos t.file_count)) (field "digest" (text t.digest) end))

abbrev pub tree_warning : String → Option Tree → List Warning
tree_warning label none = tree_unavailable label ∷ []
tree_warning label (some t) = []

-- The hash of the workload file, where the task names one and it is there.
unfoldable pub workload_hash : World → Json → Option String
unfolding str
workload_hash w name = if truthy name then w.workload (str name) else none

unfoldable pub workload_json : Json → Option String → Json
unfolding str
workload_json name none = null
workload_json name (some hash) =
    object (field "path" (text (str name)) (field "sha256" (text hash) end))

abbrev pub workload_warning : Option String → List Warning
workload_warning none = workload_unavailable ∷ []
workload_warning (some hash) = []

-- One round of the loop on the harness directories; one without files is left out.
unfoldable pub add_harness : String → Option Tree → Fields → Fields
unfolding put
add_harness name none harness = harness
add_harness name (some t) harness = elim t.file_count [
  | zero ↦ harness
  | suc n ↦ put name (text t.digest) harness
]

unfoldable pub harness_of : World → Fields
unfolding add_harness
harness_of w =
    add_harness "scripts" w.scripts
      (add_harness "precision" w.precision (add_harness "bench" w.bench end))

-- `harness or None`
abbrev pub harness_json : Fields → Json
harness_json end = null
harness_json (field k v m) = object (field k v m)

-- `candidate_differs_from_baseline`
unfoldable pub differs : Option Tree → Option Tree → Json
differs (some c) (some b) = bool (not (c.digest == b.digest))
differs _ _ = null

abbrev pub differs_warning : Json → List Warning
differs_warning (bool false) = trees_identical ∷ []
differs_warning _ = []

-- `payload`, in the order in which it is filled.
unfoldable pub payload : World → Fields → Fields
unfolding get workload_hash workload_json harness_of differs
payload w task =
    let name = get "workload_file" task in
    field "candidate_tree" (tree_json w.candidate) (
      field "baseline_tree" (tree_json w.baseline) (
        field "workload" (workload_json name (workload_hash w name)) (
          field "harness" (harness_json (harness_of w))
            (field "candidate_differs_from_baseline" (differs w.candidate w.baseline) end))))

-- The `dict` that `execution_inputs` returns: the payload's entries, its hash and the warnings.
pub record Inputs : Type 0 where
  pub entries : Fields
  pub inputs_sha256 : String
  pub warnings : List Warning

-- `execution_inputs`
unfoldable pub execution_inputs : (Fields → String) → World → Fields → Inputs
unfolding payload get workload_hash harness_of differs
execution_inputs hash w task = record {
  entries = payload w task;
  inputs_sha256 = hash (payload w task);
  warnings =
      tree_warning "candidate" w.candidate
      ++ (tree_warning "baseline" w.baseline
          ++ (workload_warning (workload_hash w (get "workload_file" task))
              ++ ((if truthy (object (harness_of w)) then [] else no_harness ∷ [])
                  ++ differs_warning (differs w.candidate w.baseline))));
}
