-- ===== src/Runner/Baseline.antt =====
-- tools/k3/runner.py: `verify_baseline_integrity` and `resolve_roots`. The workspace record, the
-- directories that exist and `Path.resolve` are arguments.
pub mod Bound
mod Tests
use infra_loop_kda.Base.{
  String, Bool, true, false, not, ◌&&◌, Option, none, some, List, [], ◌∷◌, ◌++◌, ◌==◌,
  if◌then◌else◌, is_empty,
}
use infra_loop_kda.Base.Outcome.{
  Error, tool_error, path_error, lock_error, validation_error, type_error, value_error, key_error,
  attribute_error, Outcome, ok, err, ◌>>=◌, ◌>>◌, require,
}
use infra_loop_kda.Json.{
  Json, null, bool, int, text, array, object, Fields, end, get, truthy, equals_text,
}
use infra_loop_kda.Json.Repr.{str_or}
use infra_loop_kda.Lifecycle.{base_commit}
use infra_loop_kda.Runner.Evidence.Report.{path_text}

-- `value or {}`, which the code then asks for a key
unfoldable pub dict_or : Json → Outcome Fields
dict_or (object m) = ok m
dict_or v = if truthy v then err attribute_error else ok end

unfoldable pub section : String → Fields → Outcome Fields
unfolding get dict_or
section key entry = dict_or (get key entry)

-- `_canonical` of a recorded path, where one is recorded.
unfoldable pub recorded_path : (String → String) → Fields → Option String
unfolding get str_or
recorded_path resolve m =
    if truthy (get "absolute_path" m)
    then some (resolve (str_or (get "absolute_path" m) ""))
    else none

-- `recorded and _canonical(root) != recorded`
unfoldable pub is_other_root : (String → String) → Option String → Option String → Bool
is_other_root resolve none root = false
is_other_root resolve (some path) none = not (path == "")
is_other_root resolve (some path) (some root) = not (path == "") && not (resolve root == path)

-- `recorded_base == current_base`
abbrev pub is_same_commit : Json → Option String → Bool
is_same_commit null none = true
is_same_commit v none = false
is_same_commit v (some s) = equals_text v s

-- Whether the first characters of `value or "..."` can be taken, as the messages do.
unfoldable pub require_slice : Json → Outcome (Unit {0})
require_slice v = elim v [
  | text s ↦ ok tt
  | array vs ↦ ok tt
  | null ↦ ok tt
  | bool b ↦ require (not b) type_error
  | int z ↦ require (not (truthy (int z))) type_error
  | object m ↦ require (not (truthy (object m))) type_error
]

-- The texts of `problems`, one constructor for each.
pub data Trouble : Type 0 where
  no_record : Error → Trouble
  other_task other_base other_baseline other_candidate no_digest not_hashed changed : Trouble

-- The `dict` that is returned; `problem` is the first of `problems`.
pub record Integrity : Type 0 where
  pub checked : Bool
  pub matches_prepared : Option Bool
  pub identity_bound : Option Bool
  pub recorded_digest : Json
  pub observed_digest : Option String
  pub recorded_task_id : Json
  pub recorded_base_commit : Json
  pub task_base_commit : Option String
  pub problems : List Trouble

abbrev pub trouble : Bool → Trouble → List Trouble
trouble bad t = if bad then t ∷ [] else []

-- The digest part: `checked`, `matches_prepared`, and its problems.
unfoldable pub compare_digest : Json → Option String → Outcome (Bool × Option Bool × List Trouble)
unfolding require_slice
compare_digest recorded none =
    ok (false, none, if truthy recorded then not_hashed ∷ [] else no_digest ∷ [])
compare_digest recorded (some observed) =
    if not (truthy recorded)
    then ok (false, none, no_digest ∷ [])
    else if observed == ""
    then ok (false, none, not_hashed ∷ [])
    else if equals_text recorded observed
    then ok (true, some true, [])
    else (do require_slice recorded; ok (true, some false, changed ∷ []))

-- The message on the base commits is made only where they differ.
unfoldable pub compare_base : Json → Option String → Outcome (List Trouble)
unfolding require_slice
compare_base recorded current =
    if is_same_commit recorded current
    then ok []
    else (do require_slice recorded; ok (other_base ∷ []))

-- What follows when the workspace record was loaded.
unfoldable pub verify_record :
    (String → String)
    → Fields
    → String
    → Fields
    → Option String
    → Option String
    → Option String
    → Outcome Integrity
unfolding get section recorded_path is_other_root compare_base compare_digest base_commit
verify_record resolve entry task_id task baseline candidate observed = do
  source ← section "source" entry
  base_trouble ← compare_base (get "base_commit" source) (base_commit task)
  prepared ← section "baseline" entry
  workspace ← section "workspace" entry
  let identity =
      trouble (not (equals_text (get "task_id" entry) task_id)) other_task
      ++ (base_trouble
          ++ (trouble (is_other_root resolve (recorded_path resolve prepared) baseline)
                other_baseline
              ++ trouble (is_other_root resolve (recorded_path resolve workspace) candidate)
                  other_candidate))
  digest ← compare_digest (get "digest" prepared) observed
  ok (record {
    checked = digest.0;
    matches_prepared = digest.1;
    identity_bound = some (is_empty identity);
    recorded_digest = get "digest" prepared;
    observed_digest = observed;
    recorded_task_id = get "task_id" entry;
    recorded_base_commit = get "base_commit" source;
    task_base_commit = base_commit task;
    problems = identity ++ digest.2;
  })

-- Whether `except util.ToolError` catches an error; `PathError` and `ValidationError` are no such errors.
abbrev pub is_tool_error : Error → Bool
is_tool_error (tool_error m) = true
is_tool_error (lock_error m) = true
is_tool_error _ = false

-- `verify_baseline_integrity`; the second argument is what `workspace.load_record` gives.
unfoldable pub verify_baseline_integrity :
    (String → String)
    → Outcome Fields
    → String
    → Fields
    → Option String
    → Option String
    → Option String
    → Outcome Integrity
unfolding verify_record base_commit
verify_baseline_integrity resolve (ok m) task_id task baseline candidate observed =
    verify_record resolve m task_id task baseline candidate observed
verify_baseline_integrity resolve (err e) task_id task baseline candidate observed =
    if is_tool_error e
    then ok (record {
      checked = false;
      matches_prepared = none;
      identity_bound = none;
      recorded_digest = null;
      observed_digest = observed;
      recorded_task_id = null;
      recorded_base_commit = null;
      task_base_commit = base_commit task;
      problems = no_record e ∷ [];
    })
    else err e

-- `Path(str((record.get(key) or {}).get("absolute_path") or ""))`
unfoldable pub root_path : Fields → String
unfolding get str_or path_text
root_path m = path_text (str_or (get "absolute_path" m) "")

-- `resolve_roots`, from the workspace record: the baseline and the candidate.
unfoldable pub resolve_roots :
    (String → Bool) → (String → String) → Outcome Fields → Outcome (String × String)
unfolding section root_path
resolve_roots is_dir resolve loaded = do
  entry ← loaded
  workspace ← section "workspace" entry
  prepared ← section "baseline" entry
  require (is_dir (root_path workspace)) (tool_error "candidate workspace is missing")
  require (is_dir (root_path prepared)) (tool_error "baseline tree is missing")
  require (not (resolve (root_path prepared) == resolve (root_path workspace)))
      (tool_error "baseline and candidate roots are the same path")
  ok (root_path prepared, root_path workspace)
