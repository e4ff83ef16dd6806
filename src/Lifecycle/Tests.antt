-- ===== src/Lifecycle/Tests.antt =====
-- The gate on concrete tasks.
use infra_loop_kda.Base.{◌≡◌, ◌↔◌, refl, true, false, List, [], ◌∷◌, contains, some}
use infra_loop_kda.Json.{text, object, Fields, end, field, lookup, get, equals_text}
use infra_loop_kda.Json.Repr.{str, str_or}
use infra_loop_kda.Lifecycle.{
  startable, immutable, accepted_result, unresolved_workload, task_status, is_terminal,
  status_blockers, workload_blockers, result_blockers, Blocker, start_blockers, refused,
  startable_task, require_startable, base_commit,
}
use infra_loop_kda.Lifecycle.Gate.{start_blockers-nil, terminal-refused, classes, classes-known}

runs : Unit {0}
unfolding lookup get str str_or task_status is_terminal status_blockers workload_blockers
    result_blockers start_blockers require_startable base_commit
runs = tt

abbrev prepared : Fields
prepared = field "status" (text "prepared") (field "workload_status" (text "resolved") end)

abbrev accepted : Fields
accepted = field "status" (text "accepted") (field "optimization_status" (text "accepted") end)

prepared_starts : require_startable prepared "t" ≡ startable_task
unfolding runs
prepared_starts = refl

accepted_refused :
    require_startable accepted "t"
    ≡ refused "t" (immutable "accepted" ∷ unresolved_workload "unresolved" ∷ accepted_result ∷ [])
unfolding runs
accepted_refused = refl

nested_commit :
    base_commit (
      field "source"
        (object (field "commit" (text "abc") end))
        (field "base_commit" (text "old") end))
    ≡ some "abc"
unfolding runs
nested_commit = refl

start_blockers-nil_example : (start_blockers prepared ≡ []) ↔ (
    (contains (task_status prepared) startable ≡ true)
    × (str_or (get "workload_status" prepared) "unresolved" ≡ "resolved")
    × (equals_text (get "optimization_status" prepared) "accepted" ≡ false))
start_blockers-nil_example = start_blockers-nil prepared

terminal-refused_example :
    (rest : List Blocker) × (require_startable accepted "t"
      ≡ refused "t" (immutable (task_status accepted) ∷ rest))
unfolding runs
terminal-refused_example = terminal-refused accepted "t" refl

classes-known_example : classes "prepared" ≡ 1
classes-known_example = classes-known "prepared"
