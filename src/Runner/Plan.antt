-- ===== src/Runner/Plan.antt =====
-- tools/k3/runner.py: `plan` and the gate at the head of `start`. The settings, the task and the
-- workspace record are the documents that were loaded; what the file system answers is an argument.
pub mod Ready
mod Tests
use infra_loop_kda.Base.{
  String, ◌<>◌, Bool, true, false, not, ◌&&◌, Option, none, some, List, [], ◌∷◌, ◌++◌, ◌==◌,
  if◌then◌else◌, is_empty, contains, map,
}
use infra_loop_kda.Base.Text.{contains_char}
use infra_loop_kda.Base.Outcome.{Error, Outcome, ok, err, ◌>>=◌, ◌>>◌, require, tool_error}
use infra_loop_kda.Json.{Json, Fields, get, truthy}
use infra_loop_kda.Json.Repr.{str_or}
use infra_loop_kda.Paths.{Link, show_path}
use infra_loop_kda.Runner.RunId.{validate_run_id}
use infra_loop_kda.Runner.Dirs.{reserve_run_dir}
use infra_loop_kda.Runner.Baseline.{
  Trouble, Integrity, is_tool_error, verify_baseline_integrity, resolve_roots,
}
use infra_loop_kda.Runner.Command.{Roots, expected_artifacts, under}
use infra_loop_kda.Runner.Command.Resolve.{Origin, resolve_command}
use infra_loop_kda.Runner.Pipeline.{Stages, build_stages}
use infra_loop_kda.Runner.Inputs.{Tree, World, Inputs, execution_inputs}

-- What the plan meets: the file system, the workspace record as `workspace.load_record` gives it,
-- the trees that the roots hold, the hash of a document, and a fresh run identifier.
pub record Site : Type 0 where
  pub is_file : String → Bool
  pub is_dir : String → Bool
  pub is_there : List String → Bool
  pub link : List String → Link
  pub resolve : String → String
  pub loaded : Outcome Fields
  pub measured : Option (String × String) → World
  pub hash : Fields → String
  pub fresh_id : String

-- The texts of `blockers`, one constructor for each.
pub data Blocker : Type 0 where
  no_roots : Error → Blocker
  placeholders : List String → Blocker
  integrity : Trouble → Blocker
  no_wrapper : Blocker

-- The part of the plan's record that decides on the run.
pub record Plan : Type 0 where
  pub run_id : String
  pub adapter : String
  pub argv : List String
  pub origin : Option Origin
  pub roots : Option (String × String)
  pub inputs : Inputs
  pub baseline_integrity : Integrity
  pub expected : List String
  pub pipeline : Stages
  pub blockers : List Blocker

-- `not blockers`
abbrev pub is_ready : Plan → Bool
is_ready p = is_empty p.blockers

-- `ADAPTERS`
abbrev pub adapters : List String
adapters = "local-command" ∷ "site-wrapper" ∷ []

-- The roots, or the blocker for them; an error that is no `ToolError` is not caught.
unfoldable pub roots_or_blocker :
    Outcome (String × String) → Outcome (Option (String × String) × List Blocker)
roots_or_blocker (ok roots) = ok (some roots, [])
roots_or_blocker (err e) = if is_tool_error e then ok (none, no_roots e ∷ []) else err e

-- The identifier that is given and valid, or a fresh one.
unfoldable pub run_id_for : String → Option String → Outcome String
unfolding validate_run_id
run_id_for fresh none = ok fresh
run_id_for fresh (some run_id) = validate_run_id run_id

-- `"{" in item and "}" in item`
unfoldable pub is_unresolved : String → Bool
unfolding contains_char
is_unresolved item = contains_char b'{' item && contains_char b'}' item

unfoldable pub unresolved : List String → List String
unfolding is_unresolved
unresolved [] = []
unresolved (item ∷ items) =
    let rest = unresolved items in if is_unresolved item then item ∷ rest else rest

unfoldable pub placeholder_blockers : List String → List Blocker
placeholder_blockers [] = []
placeholder_blockers (item ∷ items) = placeholders (item ∷ items) ∷ []

-- What the commands are built from; the Python executable is looked up later.
abbrev pub roots_for : List String → List String → String → String → Roots
roots_for task_dir target baseline candidate = record {
  task_dir = show_path task_dir;
  baseline = baseline;
  candidate = candidate;
  output_dir = under (show_path target) "artifacts";
  scratch_dir = under (show_path target) "scratch";
  python = "python3";
}

-- The command, where there are roots.
unfoldable pub command_for :
    Site
    → Fields
    → Fields
    → List String
    → List String
    → String
    → Option (String × String)
    → Outcome (List String × Option Origin × List Blocker)
unfolding resolve_command unresolved placeholder_blockers
command_for site settings task task_dir target operation none = ok ([], none, [])
command_for site settings task task_dir target operation (some (baseline, candidate)) = do
  (argv, origin) ←
      resolve_command site.is_file settings task (roots_for task_dir target baseline candidate)
        operation
  ok (argv, some origin, placeholder_blockers (unresolved argv))

abbrev pub first_root : Option (String × String) → Option String
first_root none = none
first_root (some roots) = some roots.0

abbrev pub second_root : Option (String × String) → Option String
second_root none = none
second_root (some roots) = some roots.1

-- `(inputs.get("baseline_tree") or {}).get("digest")`
abbrev pub tree_digest : Option Tree → Option String
tree_digest none = none
tree_digest (some t) = some t.digest

-- `site_boundary`
unfoldable pub wrapper_blockers : String → Json → List Blocker
wrapper_blockers adapter wrapper =
    if adapter == "site-wrapper" && not (truthy wrapper) then no_wrapper ∷ [] else []

-- `plan`; the inspection of the toolchain, whose hash goes into the record only, is left out.
unfoldable pub plan :
    Site → Fields → Fields → List String → String → String → Option String → Outcome Plan
unfolding get str_or roots_or_blocker run_id_for reserve_run_dir command_for resolve_roots
    wrapper_blockers verify_baseline_integrity execution_inputs build_stages expected_artifacts
plan site settings task task_dir task_id operation given = do
  let adapter = str_or (get "adapter" settings) "local-command"
  require (contains adapter adapters) (tool_error ("unknown runner.adapter " <> adapter))
  roots ← roots_or_blocker (resolve_roots site.is_dir site.resolve site.loaded)
  run_id ← run_id_for site.fresh_id given
  target ← reserve_run_dir site.link site.is_there task_dir run_id
  command ← command_for site settings task task_dir target operation roots.0
  let world = site.measured roots.0
  checked ←
      verify_baseline_integrity site.resolve site.loaded task_id task (first_root roots.0)
        (second_root roots.0) (tree_digest world.baseline)
  ok (record {
    run_id = run_id;
    adapter = adapter;
    argv = command.0;
    origin = command.1;
    roots = roots.0;
    inputs = execution_inputs site.hash world task;
    baseline_integrity = checked;
    expected = expected_artifacts operation (under (show_path target) "artifacts");
    pipeline = build_stages task operation;
    blockers =
        roots.1
        ++ (command.2
            ++ (map integrity checked.problems
                ++ wrapper_blockers adapter (get "wrapper" settings)));
  })

-- The first lines of `start`: a plan that is not ready is not started.
unfoldable pub start :
    Site → Fields → Fields → List String → String → String → Option String → Outcome Plan
unfolding plan
start site settings task task_dir task_id operation given = do
  p ← plan site settings task task_dir task_id operation given
  require (is_ready p) (tool_error ("run " <> p.run_id <> " cannot start"))
  ok p
