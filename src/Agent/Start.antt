-- ===== src/Agent/Start.antt =====
-- tools/k3/agent.py: `start`, over the lock file and the session file. Of the session's record it has
-- the fields that `_session_state`, `status`, `resume` and `stop` read.
pub mod Exclusive
pub mod Locked
pub mod Settled
use infra_loop_kda.Base.{
  ℕ, ℤ, pos, String, ◌<>◌, Bool, true, false, Option, none, some, List, [], ◌∷◌, is_empty,
  if◌then◌else◌,
}
use infra_loop_kda.Base.Outcome.{Outcome, Error, ok, err, ◌>>=◌, ◌>>◌, require, tool_error}
use infra_loop_kda.Json.{
  Json, null, int, text, array, object, Items, nil, cons, Fields, end, field, put,
}
use infra_loop_kda.Lifecycle.{Started, startable_task, refused, require_startable}
use infra_loop_kda.Lock.{Content, nothing, written, Lock, release}
use infra_loop_kda.Process.{Processes}
use infra_loop_kda.Agent.Claim.{Caller, Seen, Claimed, acquire_task_lock}
use infra_loop_kda.Agent.Environment.{Env, declare_env, spawn_env}
use infra_loop_kda.Agent.Paths.{Binaries, Problem, resolve_toolchain_paths}
use infra_loop_kda.Agent.Plan.{Site, Settings, Plan, Plugin, is_ready, plan}
use infra_loop_kda.Agent.Shim.{Entries, Outside, build_shim_dir, verify_shim}

abbrev pub texts : List String → Items
texts [] = nil
texts (s ∷ ss) = cons (text s) (texts ss)

abbrev pub env_fields : Env → Fields
env_fields [] = end
env_fields ((key, value) ∷ env) = field key (text value) (env_fields env)

abbrev pub text_or_null : Option String → Json
text_or_null none = null
text_or_null (some s) = text s

abbrev pub binaries_fields : Binaries → Fields
binaries_fields b = field "writer" (text_or_null b.writer) (
    field "codex" (text_or_null b.codex)
      (field "bash" (text_or_null b.bash) (field "jq" (text_or_null b.jq) end)))

-- What the spawn gives: a pid, with what `process_identity` then returns or raises, the message of an
-- `OSError`, or another exception.
pub data Spawn : Type 0 where
  spawned : ℕ → Outcome Json → Spawn
  not_spawned : String → Spawn
  raised : Error → Spawn

-- The world of one start beside the plan's: the new id, the clock, the directory of the logs and the
-- shim with its entries, the variables of the process itself, the spawn, and what the writes return:
-- those before the spawn, that of the session after a spawn that failed, and those of the session
-- and of the lock file after one that did not.
pub record World : Type 0 where
  pub uuid : String
  pub utc : String
  pub stream : String
  pub shim : String
  pub shim_is_dir : Bool
  pub shim_entries : Entries
  pub outside : Outside
  pub environ : Env
  pub writes : Outcome (Unit {0})
  pub spawn : Spawn
  pub failure_write : Outcome (Unit {0})
  pub session_write : Outcome (Unit {0})
  pub lock_write : Outcome (Unit {0})

-- What `Popen` is called with.
pub record Launch : Type 0 where
  pub argv : List String
  pub cwd : String
  pub env : Env

-- What is on the disk for the task, and how a process was launched, if one was.
pub record After : Type 0 where
  pub lock : Content
  pub session : Option Fields
  pub launched : Option Launch
  pub result : Outcome ℕ

-- `session["frozen"]`
unfoldable pub frozen : Settings → Option Plugin → Binaries → String → Fields
frozen settings plugin binaries shim = field "writer" (object settings.writer) (
    field "reviewer" (object settings.reviewer) (
      field "plugin_absolute_path" (elim plugin [ none ↦ null | some found ↦ text found.dir ])
        (field "toolchain_paths" (object (binaries_fields binaries))
          (field "shim_dir" (text shim) end))))

-- The session before the launch.
unfoldable pub new_session : World → Settings → String → Plan → Binaries → Fields
unfolding frozen declare_env
new_session w settings task_id p binaries = field "uuid" (text w.uuid) (
    field "claude_session_id" (text w.uuid) (
      field "task_id" (text task_id) (
        field "state" (text "starting") (
          field "started_at" (text w.utc) (
            field "argv" (array (texts p.argv)) (
              field "cwd" (text_or_null p.cwd) (
                field "env" (object (env_fields (declare_env p.env))) (
                  field "logs" (object (field "stream" (text w.stream) end)) (
                    field "frozen" (object (frozen settings p.plugin binaries w.shim))
                      (field "pid" null (field "process_identity" null end)))))))))))

-- The session once the process runs.
unfoldable pub running_session : ℕ → Json → Fields → Fields
unfolding put
running_session pid identity session = put "process_group" (int (pos pid)) (
    put "process_identity" identity
      (put "state" (text "running") (put "pid" (int (pos pid)) session)))

-- The record that the lock file keeps for the session's lifetime.
unfoldable pub session_lock : String → String → ℕ → String → Fields
session_lock task_id uuid pid utc = field "task_id" (text task_id) (
    field "uuid" (text uuid) (
      field "pid" (int (pos pid))
        (field "state" (text "running") (field "acquired_at" (text utc) end))))

-- The `try` block up to the spawn, from the end: the shim, the binaries, the plan's readiness.
unfoldable pub with_shim : Settings → World → Plan → Binaries → Outcome (Plan × Binaries)
unfolding verify_shim build_shim_dir
with_shim settings w p found =
    require
      (is_empty (
        verify_shim w.outside w.shim_is_dir w.shim found settings.reviewer
          (build_shim_dir found settings.reviewer w.shim_entries)))
      (tool_error "reviewer PATH shim failed integrity checks")
    >> (w.writes >> ok (p, found))

unfoldable pub with_binaries :
    Settings → World → Plan → Binaries × List Problem → Outcome (Plan × Binaries)
unfolding with_shim
with_binaries settings w p (found, problems) =
    require (is_empty problems) (tool_error "the loop toolchain is incomplete")
    >> with_shim settings w p found

unfoldable pub with_plan : Site → Settings → World → Plan → Outcome (Plan × Binaries)
unfolding with_binaries resolve_toolchain_paths
with_plan site settings w p =
    require (is_ready p) (tool_error "the task is not ready to start")
    >> with_binaries settings w p
        (resolve_toolchain_paths site.machine settings.writer settings.reviewer)

-- The plan and the binaries that the session is made of.
unfoldable pub prepare : Site → Settings → World → Fields → ℤ → Outcome (Plan × Binaries)
unfolding plan with_plan
prepare site settings w task max_iterations =
    plan site settings task max_iterations (some w.uuid) >>= λ p. with_plan site settings w p

-- `except BaseException: lock.release()`
unfoldable pub abandon : Content → Lock → Option Fields → Error → After
unfolding release
abandon content lock session e = record {
  lock = (release content lock).0;
  session = session;
  launched = none;
  result = err e;
}

-- The process runs, and what comes after the spawn raises: nothing releases the lock.
unfoldable pub left : Content → Fields → Launch → Error → After
left content session l e = record {
  lock = content;
  session = some session;
  launched = some l;
  result = err e;
}

-- The write of the lock file.
unfoldable pub write_lock :
    World → String → Content → Launch → ℕ → Fields → Outcome (Unit {0}) → After
unfolding left session_lock
write_lock w task_id content l pid session (err e) = left content session l e
write_lock w task_id content l pid session (ok t) = record {
  lock = written (object (session_lock task_id w.uuid pid w.utc));
  session = some session;
  launched = some l;
  result = ok pid;
}

-- The write of the session, of which the disk has the old one until then.
unfoldable pub write_session :
    World → String → Content → Launch → ℕ → Fields → Fields → Outcome (Unit {0}) → After
unfolding left write_lock
write_session w task_id content l pid before session (err e) = left content before l e
write_session w task_id content l pid before session (ok t) =
    write_lock w task_id content l pid session w.lock_write

-- What follows the spawn, from the answer of `process_identity` on.
unfoldable pub settle :
    World → String → Content → Launch → ℕ → Fields → (Json → Fields) → Outcome Json → After
unfolding left write_session
settle w task_id content l pid before session_with (err e) = left content before l e
settle w task_id content l pid before session_with (ok identity) =
    write_session w task_id content l pid before (session_with identity) w.session_write

-- The session on the disk and the error where the spawn failed.
unfoldable pub not_launched : Content → Lock → Fields → Fields → Error → Outcome (Unit {0}) → After
unfolding abandon
not_launched content lock before session e (err other) = abandon content lock (some before) other
not_launched content lock before session e (ok t) = abandon content lock (some session) e

-- `str(Path(str(cwd)))`, of the plan's workspace
abbrev pub cwd_of : Option String → String
cwd_of none = "None"
cwd_of (some path) = path

-- How the process is launched.
unfoldable pub launch_of : World → Plan → Launch
unfolding spawn_env declare_env
launch_of w p = record {
  argv = p.argv;
  cwd = cwd_of p.cwd;
  env = spawn_env w.environ (declare_env p.env) w.shim;
}

-- The session is written, and the process launched.
unfoldable pub launch : World → Settings → String → Content → Lock → Plan → Binaries → Spawn → After
unfolding new_session running_session not_launched abandon settle launch_of put
launch w settings task_id content lock p binaries (not_spawned message) =
    let before = new_session w settings task_id p binaries in
    not_launched content lock before
      (put "error" (text ("failed to spawn: " <> message)) (put "state" (text "exited") before))
      (tool_error ("cannot start: " <> message)) w.failure_write
launch w settings task_id content lock p binaries (raised e) =
    abandon content lock (some (new_session w settings task_id p binaries)) e
launch w settings task_id content lock p binaries (spawned pid read) =
    let before = new_session w settings task_id p binaries in
    settle w task_id content (launch_of w p) pid before
      (λ identity. running_session pid identity before) read

unfoldable pub within_lock :
    Site → Settings → World → String → Fields → Content → Lock → Outcome (Plan × Binaries) → After
unfolding launch abandon
within_lock site settings w task_id task content lock (err e) = abandon content lock site.session e
within_lock site settings w task_id task content lock (ok (p, binaries)) =
    launch w settings task_id content lock p binaries w.spawn

-- After the attempt to take the lock.
unfoldable pub with_claim : Site → Settings → World → String → Fields → ℤ → Claimed → After
unfolding within_lock prepare
with_claim site settings w task_id task max_iterations (content, lock, err e) = record {
  lock = content;
  session = site.session;
  launched = none;
  result = err e;
}
with_claim site settings w task_id task max_iterations (content, lock, ok t) =
    within_lock site settings w task_id task content lock
      (prepare site settings w task max_iterations)

-- After `lifecycle.require_startable`.
unfoldable pub admitted :
    Caller → Seen → Site → Settings → World → String → Fields → ℤ → Started → After
unfolding with_claim acquire_task_lock
admitted c seen site settings w task_id task max_iterations (refused id blockers) = record {
  lock = seen.first;
  session = site.session;
  launched = none;
  result = err (tool_error "the task may not be started");
}
admitted c seen site settings w task_id task max_iterations startable_task =
    with_claim site settings w task_id task max_iterations
      (acquire_task_lock c site.os site.session seen task_id w.uuid)

-- `start`
unfoldable pub start : Caller → Seen → Site → Settings → World → String → Fields → ℤ → After
unfolding admitted require_startable
start c seen site settings w task_id task max_iterations =
    admitted c seen site settings w task_id task max_iterations (require_startable task task_id)
