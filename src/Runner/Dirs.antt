-- ===== src/Runner/Dirs.antt =====
-- tools/k3/runner.py: the directories of the runs, `runs_dir`, `run_dir` and `reserve_run_dir`.
use infra_loop_kda.Base.{
  String, ◌<>◌, Bool, false, not, List, [], ◌∷◌, ◌++◌, ◌≡◌, refl, ◌∙◌, ap, subst, All,
}
use infra_loop_kda.Base.Text.{split_on}
use infra_loop_kda.Base.Split.{split_on-append, split_on-no_slash}
use infra_loop_kda.Base.Outcome.{Outcome, ok, ◌>>=◌, ◌>>◌, require, tool_error, >>=-eq-ok}
use infra_loop_kda.Paths.{Link, safe_join, parts_of, drop_skipped}
use infra_loop_kda.Paths.Normal.{IsName}
use infra_loop_kda.Paths.Contained.{safe_join-PlainBelow, PlainBelow}
use infra_loop_kda.Runner.RunId.{validate_run_id, validate_run_id-IsRunId, IsRunId}
use infra_loop_kda.Json.{text}
use infra_loop_kda.Json.Repr.{repr}

abbrev pub runs_relative : String
runs_relative = "runtime/runs"

-- `runs_dir`
unfoldable pub runs_dir : (List String → Link) → List String → Outcome (List String)
runs_dir link task_dir = safe_join link task_dir runs_relative false

-- `run_dir`
unfoldable pub run_dir : (List String → Link) → List String → String → Outcome (List String)
run_dir link task_dir run_id = do
  id ← validate_run_id run_id
  safe_join link task_dir (runs_relative <> ("/" <> id)) false

parts_of-run :
    (id : String)
    → IsRunId id
    → parts_of (runs_relative <> ("/" <> id)) ≡ "runtime" ∷ "runs" ∷ id ∷ []
unfolding parts_of drop_skipped split_on
parts_of-run id v =
    rw (split_on-append, split_on-no_slash id v.no_slash, v.nonempty, v.not_dot) refl

-- A directory that `run_dir` returns is `runtime/runs/<run id>` below the task's directory, the run
-- id is a single path component, and none of the three entries is a symbolic link.
pub run_dir-below :
    (link : List String → Link) (task_dir : List String) (run_id : String) {path : List String}
    → All IsName task_dir
    → run_dir link task_dir run_id ≡ ok path
    → IsRunId run_id
      × (path ≡ task_dir ++ "runtime" ∷ "runs" ∷ run_id ∷ [])
      × PlainBelow link task_dir ("runtime" ∷ "runs" ∷ run_id ∷ [])
unfolding run_dir
run_dir-below link task_dir run_id names h =
    let (id, valid, joined) = >>=-eq-ok (validate_run_id run_id) _ h in
    let (same, v) = validate_run_id-IsRunId run_id valid in
    let (_, below, _, entries) = safe_join-PlainBelow link task_dir _ names joined in
    let parts = ap (λ r. parts_of (runs_relative <> ("/" <> r))) same ∙ parts_of-run run_id v in
    (v, below ∙ ap (λ p. task_dir ++ p) parts, subst (PlainBelow link task_dir) parts entries)

-- The directories that exist below a task, and the outcome of `mkdir(parents=True)`.
-- `reserve_run_dir`: the directory is created, unless something has its path already.
unfoldable pub reserve_run_dir :
    (List String → Link) → (List String → Bool) → List String → String → Outcome (List String)
reserve_run_dir link is_there task_dir run_id = do
  target ← run_dir link task_dir run_id
  require (not (is_there target))
      (tool_error ("run id " <> repr (text run_id) <> " already exists"))
  ok target
