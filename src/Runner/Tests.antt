-- ===== src/Runner/Tests.antt =====
-- The theorems on runs at concrete files and processes.
use infra_loop_kda.Base.{
  ℕ, ◌≡◌, ◌≢◌, refl, true, false, ◌&&◌, Option, none, some, List, [], ◌∷◌, ◌++◌, pos, ℤ, String,
  nat_beq, is_empty, ◌⊎◌,
}
use infra_loop_kda.Base.Text.{strip, split_on, push_char, contains_char}
use infra_loop_kda.Base.Outcome.{err, tool_error}
use infra_loop_kda.Json.{null, bool, int, text, object, Fields, end, field, get, lookup, put}
use infra_loop_kda.Json.Repr.{str, str_or, repr}
use infra_loop_kda.Paths.{
  plain, safe_join, safe_relative, is_absolute, parts_of, drop_skipped, is_below, contains_symlink,
  check_links,
}
use infra_loop_kda.Paths.Normal.{normal_parts}
use infra_loop_kda.Paths.Contained.{PlainBelow}
use infra_loop_kda.Process.{Identity, Processes, process_matches, compare_current, part}
use infra_loop_kda.Supervise.{
  Round, poll_loop, act, try_escalate, escalate, forward, handle, kill_group, update, initial,
  exit_status, drain_group, wait_drained, final_record, ending,
}
use infra_loop_kda.Supervise.Main.{
  World, Run, spawned, supervise, after_spawn, after_loop, begin, finish, running_record,
  spawn_failed,
}
use infra_loop_kda.Runner.RunId.{validate_run_id, full_match, IsRunId}
use infra_loop_kda.Runner.Dirs.{run_dir, run_dir-below}
use infra_loop_kda.Runner.Adapter.{
  absent, written, recorded, unknown, run_state, unrecorded, supervisor_gone, liveness, pid_of,
  state_of, is_in_flight, is_settled, reread, from_record, report, status, signal_pid, cancel,
  ran_to_completion,
}
use infra_loop_kda.Runner.Adapter.Laws.{
  IsCompleted, status-IsCompleted, status-supervisor_gone, cancel-confirmed,
}
use infra_loop_kda.Runner.Completion.{last_write, supervise-completed}

runs : Unit {0}
unfolding supervise after_spawn after_loop poll_loop act try_escalate escalate forward handle
    kill_group update begin finish running_record initial spawn_failed exit_status drain_group
    wait_drained final_record ending get lookup put recorded run_state unrecorded liveness state_of
    is_in_flight is_settled reread from_record report status signal_pid cancel ran_to_completion str
    str_or process_matches compare_current part strip
runs = tt

abbrev quiet_round : Option ℤ → Round
quiet_round code = record { signals = []; poll = code; now = 0; reaches = true; utc = "t" }

-- A child that returns after two rounds, in the second of which SIGTERM and SIGINT arrive.
abbrev world : List ℕ → World
world signals = record {
  cwd = "/w";
  supervisor_pid = 7;
  utc_start = "t0";
  spawn = spawned 8 8 null;
  rounds =
      quiet_round none
      ∷ record { signals = signals; poll = none; now = 5; reaches = true; utc = "t1" }
      ∷ quiet_round (some (pos 0))
      ∷ [];
  group_alive = false;
  group_later = [];
  utc_end = "t9";
  note = "n";
}

abbrev no_processes : Processes
no_processes = record { identity = λ pid. none; alive = λ pid. false }

abbrev one_process : Processes
one_process = record {
  identity = λ pid. some (record { lstart = "Mon"; command = "python3" });
  alive = λ pid. true;
}

abbrev manifest : Fields
manifest = field "pid" (int (pos 7)) (
    field "process_identity"
      (object (field "lstart" (text "Mon") (field "command" (text "python3") end))) end)

clean_run : Run
unfolding runs
clean_run = elim (supervise (world []) ("true" ∷ [])) [
  | some run ↦ run
  | none ↦ record { code = 1; writes = []; sent = [] }
]

-- The first of the two signals is forwarded, and the exit code 0 is then no completion.
cancelled_run : Option Run
unfolding runs
cancelled_run = supervise (world (15 ∷ 2 ∷ [])) ("true" ∷ [])

cancelled_run_lem :
    (run : Run) × (cancelled_run ≡ some run)
    × (run.sent ≡ 15 ∷ [])
    × (run.code ≡ 0)
    × (ran_to_completion (status no_processes manifest (last_write run.writes) absent) ≡ false)
unfolding runs cancelled_run
cancelled_run_lem = (_, refl, refl, refl, refl)

supervise-completed_example :
    ran_to_completion (status no_processes manifest (last_write clean_run.writes) absent)
    ≡ (nat_beq clean_run.code 0 && is_empty clean_run.sent)
unfolding clean_run
supervise-completed_example =
    supervise-completed no_processes manifest absent (world []) ("true" ∷ []) refl

status-IsCompleted_example :
    (m : Fields) × ((last_write clean_run.writes ≡ written m) ⊎ (absent ≡ written m))
    × IsCompleted m
unfolding clean_run
status-IsCompleted_example =
    status-IsCompleted no_processes manifest (last_write clean_run.writes) absent refl

abbrev still_running : Fields
still_running = field "state" (text "running") end

status-supervisor_gone_example :
    status no_processes manifest (written still_running) absent
    ≡ unrecorded unknown supervisor_gone (bool false)
unfolding runs
status-supervisor_gone_example =
    status-supervisor_gone no_processes manifest (written still_running) absent refl refl refl

cancel-confirmed_example :
    (pid_of (get "pid" manifest) ≡ some (pos 7))
    × (m : Fields) × (now : Identity) × (get "process_identity" manifest ≡ object m)
    × (part "lstart" m ≢ "")
    × (part "command" m ≢ "")
    × (one_process.identity (pos 7) ≡ some now)
    × (strip now.lstart ≡ part "lstart" m)
    × (strip now.command ≡ part "command" m)
unfolding runs
cancel-confirmed_example = cancel-confirmed one_process manifest refl

abbrev task_dir : List String
task_dir = "srv" ∷ "task" ∷ []

run_dir-below_example :
    IsRunId "r-1"
    × (task_dir ++ "runtime" ∷ "runs" ∷ "r-1" ∷ [] ≡ task_dir ++ "runtime" ∷ "runs" ∷ "r-1" ∷ [])
    × PlainBelow (λ p. plain) task_dir ("runtime" ∷ "runs" ∷ "r-1" ∷ [])
unfolding run_dir validate_run_id full_match safe_join safe_relative is_absolute parts_of
    drop_skipped split_on push_char contains_char normal_parts is_below contains_symlink check_links
run_dir-below_example = run_dir-below (λ p. plain) task_dir "r-1" (refl, (refl, tt)) refl

-- A run id that names another directory is refused.
escaping_id : run_dir (λ p. plain) task_dir "../x" ≡ err (tool_error "invalid run id '../x'")
unfolding run_dir validate_run_id full_match repr
escaping_id = refl
