-- ===== src/Agent/Tests.antt =====
-- A session's lock, its command lines, its loop, its end and its shim; Launch has the starts.
mod Launch
use infra_loop_kda.Base.{
  ◌≡◌, ◌≢◌, ◌⊎◌, inl, inr, refl, ℕ, ℤ, pos, negsuc, String, ◌<>◌, Bool, true, false, Option, none,
  some, List, [], ◌∷◌, ◌==◌, All, contains, if◌then◌else◌,
}
use infra_loop_kda.Base.Sorted.{sorted}
use infra_loop_kda.Base.Text.{
  strip, join, contains_text, split_on, push_char, contains_char, decimal, is_blank,
}
use infra_loop_kda.Base.Outcome.{Outcome, ok, err, lock_error}
use infra_loop_kda.Json.{
  Json, null, bool, int, text, object, Fields, end, field, get, lookup, put, set_default,
}
use infra_loop_kda.Json.Checks.{integer_of}
use infra_loop_kda.Json.Repr.{str, str_or}
use infra_loop_kda.Lifecycle.{
  task_status, status_blockers, workload_blockers, result_blockers, start_blockers,
  require_startable, startable_task,
}
use infra_loop_kda.Lock.{
  Content, nothing, unreadable, written, opened, lock_record, acquire, holder, report_holder,
  held_error, detail_of,
}
use infra_loop_kda.Paths.{parts_of, drop_skipped, is_absolute}
use infra_loop_kda.Process.{Identity, Processes, part, compare_current, process_matches, is_match}
use infra_loop_kda.Runner.Baseline.{dict_or, section}
use infra_loop_kda.Runner.Evidence.Report.{path_text}
use infra_loop_kda.Toolchain.{read_frontmatter}
use infra_loop_kda.Agent.Argv.{
  setting, option, model_arguments, branch_arguments, build_prompt, writer_options, command_of,
  argv_front, session_arguments, build_argv, build_resume_argv, strip_session_id,
}
use infra_loop_kda.Agent.Argv.Identity.{build_argv_identity}
use infra_loop_kda.Agent.Claim.{
  has_pid, identity_for, is_live, holder_fields, task_lock, Seen, Caller, locked_message, reclaim,
  after_first, acquire_task_lock,
}
use infra_loop_kda.Agent.Claim.Held.{unwritten_lock_taken}
use infra_loop_kda.Agent.Environment.{
  Disk, file_variables, text_variable, binary_variable, build_env, lowered, has_hint, is_secret,
  sorted_env, redact, redact_all, redact_env, declare_env, value_of, declared_keys, path_with,
  set_variable, update_env, or_empty, spawn_env,
}
use infra_loop_kda.Agent.Environment.Declared.{value_of-declared}
use infra_loop_kda.Agent.Loop.{
  Dir, read_active, read_ended, read_loop_dir, stored_session, is_bound, next_fallback, Loop,
  by_session, choose, newest_first, loop_state, Found, active, normal,
}
use infra_loop_kda.Agent.Loop.Bound.{IsUnbound, IsOwn, loop_state-cases}
use infra_loop_kda.Agent.Paths.{Machine, Binaries, home_problems, resolve_toolchain_paths}
use infra_loop_kda.Agent.Plan.{
  Plugin, Settings, Site, Plan, known_workspace, find_workspace, control_file, dirty_reasons,
  plan_reasons, find_plan, find_plugin, effort_reasons, session_reasons, freeze, all_reasons, plan,
}
use infra_loop_kda.Agent.Plan.Ready.{IsReady}
use infra_loop_kda.Agent.Session.{observed, is_closed, classify, session_state, is_running}
use infra_loop_kda.Agent.Shim.{
  Entry, link, all_safe, escape_quotes, quote, launcher_lines, launcher, is_isolated, entry_for,
  add_entry, build_shim_dir, Outside, marker_problems, text_of, launcher_problems, link_problems,
  is_there, entry_problems, check_entry, verify_shim,
}
use infra_loop_kda.Agent.Shim.Built.{verify_shim-build_shim_dir}
use infra_loop_kda.Agent.Start.{
  spawned, not_spawned, World, After, frozen, new_session, running_session, session_lock, with_shim,
  with_binaries, with_plan, prepare, abandon, left, write_lock, write_session, settle, not_launched,
  launch_of, launch, within_lock, with_claim, admitted, start,
}
use infra_loop_kda.Agent.Start.Locked.{IsLaunched}
use infra_loop_kda.Agent.Resume.{
  Scene, claude_session_of, open_loop, check_session, check, frozen_binaries, recorded_env, rebuild,
  resumed_session, resumed_running, relaunch_of, relaunch, resume_within, resume_claimed,
  resume_checked, resume_admitted, resume,
}
use infra_loop_kda.Agent.Resume.Gate.{IsResumed}
use infra_loop_kda.Agent.Stop.{
  wait_gone, stopped_session, left_lock, finish, signal, pid_or_refuse, unconfirmed, stop,
}
use infra_loop_kda.Agent.Stop
use infra_loop_kda.Agent.Stop.Confirmed.{IsConfirmed, stop-IsConfirmed, session_state-stop}

runs : Unit {0}
unfolding strip join contains_text split_on push_char contains_char decimal is_blank get lookup put
    set_default str str_or task_status status_blockers workload_blockers result_blockers
    start_blockers require_startable lock_record acquire holder report_holder held_error detail_of
    parts_of drop_skipped is_absolute part compare_current process_matches dict_or section path_text
    read_frontmatter setting option model_arguments branch_arguments build_prompt writer_options
    command_of argv_front session_arguments build_argv build_resume_argv strip_session_id has_pid
    identity_for is_live holder_fields task_lock locked_message reclaim after_first
    acquire_task_lock file_variables text_variable binary_variable build_env lowered has_hint
    is_secret sorted_env redact redact_all redact_env declare_env value_of read_active read_ended
    read_loop_dir stored_session is_bound next_fallback choose newest_first loop_state home_problems
    resolve_toolchain_paths known_workspace find_workspace control_file dirty_reasons plan_reasons
    find_plan find_plugin effort_reasons session_reasons freeze all_reasons plan observed is_closed
    classify session_state is_running all_safe escape_quotes quote launcher_lines launcher
    is_isolated entry_for add_entry build_shim_dir marker_problems text_of launcher_problems
    link_problems is_there entry_problems check_entry verify_shim frozen new_session running_session
    session_lock with_shim with_binaries with_plan prepare abandon left write_lock write_session
    settle not_launched launch_of path_with set_variable update_env spawn_env launch within_lock
    with_claim admitted start claude_session_of open_loop check_session check frozen_binaries
    recorded_env rebuild resumed_session resumed_running relaunch_of relaunch resume_within
    resume_claimed resume_checked resume_admitted resume wait_gone stopped_session left_lock finish
    signal pid_or_refuse unconfirmed stop
runs = tt

-- One process, 7, and none.
abbrev now : Identity
now = record { lstart = "Mon"; command = "claude" }

abbrev running_os : Processes
running_os = record { identity = λ z. some now; alive = λ z. true }

abbrev empty_os : Processes
empty_os = record { identity = λ z. none; alive = λ z. false }

abbrev identity : Json
identity = object (field "lstart" (text "Mon") (field "command" (text "claude") end))

abbrev session : Fields
session = field "uuid" (text "u0") (
    field "state" (text "running")
      (field "pid" (int (pos 7)) (field "process_identity" identity end)))

abbrev caller : Caller
caller = record {
  pid = 5;
  utc = "t0";
  path = "task.lock";
  open_first = opened;
  open_second = opened;
}

abbrev stale_record : Fields
stale_record = field "uuid" (text "u0") (field "pid" (int (pos 7)) end)

abbrev stale : Seen
stale = record {
  first = written (object stale_record);
  held = written (object stale_record);
  removed = nothing;
}

unwritten_lock_taken_example :
    (acquire_task_lock caller running_os
      (some session)
      (record { first = unreadable; held = unreadable; removed = nothing })
      "t"
      "u1").2
    ≡ ok tt
unwritten_lock_taken_example = unwritten_lock_taken caller running_os (some session) "t" "u1" refl

abbrev writer : Fields
writer = field "model" (text "opus") (field "effort" (text "max") end)

resumed_line :
    build_resume_argv writer "p" "s"
    ≡ "claude" ∷ "--resume" ∷ "s" ∷ "-p" ∷ "Continue the active RLCR loop. Do not start a new loop."
      ∷ "--plugin-dir" ∷ "p" ∷ "--output-format" ∷ "stream-json" ∷ "--verbose" ∷ "--model" ∷ "opus"
      ∷ "--effort" ∷ "max" ∷ []
unfolding runs
resumed_line = refl

build_argv_identity_example :
    strip_session_id (build_argv writer "p" "--session-id" (some "u1"))
    ≡ strip_session_id (build_argv writer "p" "--session-id" none)
build_argv_identity_example = build_argv_identity writer "p" "--session-id" "u1"

-- A loop of another session, and one of this session.
abbrev loop_at : String → String → Dir
loop_at name id = record {
  name = name;
  is_file = λ file. file == "state.md";
  text_of = λ file. some ("---\nsession_id: " <> id <> "\n---\n");
}

abbrev own_loop : Loop
own_loop = record {
  dir = loop_at "1" "u0";
  found = active "state.md" normal (field "session_id" (text "u0") end);
  bound_by = by_session;
}

loop_state-cases_example :
    IsOwn "u0" own_loop
    ⊎ (IsUnbound own_loop
        × All
            (λ loop. is_bound "u0" (read_loop_dir loop) ≡ false)
            (newest_first (loop_at "1" "u0" ∷ loop_at "2" "other" ∷ [])))
unfolding runs
loop_state-cases_example =
    loop_state-cases "u0" (λ h. cc h) (loop_at "1" "u0" ∷ loop_at "2" "other" ∷ []) refl

abbrev stop_world : Stop.World
stop_world = record {
  before = running_os;
  refused = none;
  looks = running_os ∷ [];
  kill_sent = true;
  looks_after = running_os ∷ empty_os ∷ [];
  removable = true;
  utc = "t1";
}

stopped : Stop.Stopped
unfolding runs
stopped = record {
  signals = (Stop.sigterm, negsuc 6) ∷ (Stop.sigkill, negsuc 6) ∷ [];
  session = stopped_session true "t1" session;
  lock = nothing;
  exited = true;
  escalated = true;
}

stop-IsConfirmed_example :
    IsConfirmed stop_world session (written (object stale_record)) true true stopped
unfolding runs stopped
stop-IsConfirmed_example =
    stop-IsConfirmed stop_world "t" session (written (object stale_record)) true true refl

session_state-stop_example :
    (pid : ℤ) × (integer_of (get "pid" session) ≡ some pid)
    × ((session_state running_os stopped.session).state ≡ (
        if stopped.exited
        then "stopped"
        else (if is_match (process_matches running_os pid (get "process_identity" session))
            then "running"
            else "exited")))
unfolding runs stopped
session_state-stop_example =
    session_state-stop stop_world running_os "t" session (written (object stale_record)) true true
      {r = stopped} refl

abbrev outside : Outside
outside = record { exists = λ path. true; text_at = λ path. none }

abbrev reviewer : Fields
reviewer = field "bypass_sandbox" (bool true) (field "effort" (text "it's") end)

abbrev machine : Machine
machine = record {
  which = λ name. some ("/bin/" <> name);
  expand_home = λ s. s;
  is_dir = λ s. true;
  usable_bash = some "/bin/bash";
}

abbrev binaries : Binaries
binaries = record {
  writer = some "/bin/claude";
  codex = some "/bin/codex";
  bash = some "/bin/bash";
  jq = some "/bin/jq";
}

verify_shim-build_shim_dir_example :
    verify_shim outside true "shim" binaries reviewer
      (build_shim_dir binaries reviewer (λ name. none))
    ≡ []
verify_shim-build_shim_dir_example =
    verify_shim-build_shim_dir outside "shim" reviewer binaries (λ name. none) refl refl refl

value_of-declared_example :
    value_of "CODEX_HOME" (declare_env (redact_env (("A_TOKEN", "x") ∷ ("CODEX_HOME", "/h") ∷ [])))
    ≡ (if contains "CODEX_HOME" declared_keys
        then value_of "CODEX_HOME" (("A_TOKEN", "x") ∷ ("CODEX_HOME", "/h") ∷ [])
        else none)
value_of-declared_example =
    value_of-declared "CODEX_HOME" (("A_TOKEN", "x") ∷ ("CODEX_HOME", "/h") ∷ [])
