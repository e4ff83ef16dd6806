-- ===== src/Agent/Resume.antt =====
-- tools/k3/agent.py: `resume`, but for the list of configuration drift that it reports.
pub mod Checked
pub mod Gate
use infra_loop_kda.Base.{
  ℕ, pos, ℤ, String, ◌<>◌, Bool, true, false, not, ◌&&◌, ◌||◌, Option, none, some, List, [], ◌∷◌,
  ◌==◌, is_empty, if◌then◌else◌,
}
use infra_loop_kda.Base.Outcome.{Outcome, Error, ok, err, ◌>>=◌, ◌>>◌, require, tool_error}
use infra_loop_kda.Json.{
  Json, null, bool, int, text, array, object, Fields, end, field, get, put, truthy,
}
use infra_loop_kda.Json.Repr.{str, str_or}
use infra_loop_kda.Lifecycle.{Started, startable_task, refused, require_startable}
use infra_loop_kda.Lock.{Content, written, Lock}
use infra_loop_kda.Process.{Processes}
use infra_loop_kda.Runner.Baseline.{section}
use infra_loop_kda.Runner.Evidence.Report.{path_text}
use infra_loop_kda.Agent.Argv.{build_resume_argv}
use infra_loop_kda.Agent.Claim.{Caller, Seen, Claimed, acquire_task_lock}
use infra_loop_kda.Agent.Environment.{Env, declare_env, spawn_env}
use infra_loop_kda.Agent.Loop.{Dir, Loop, is_ended, loop_state}
use infra_loop_kda.Agent.Paths.{Binaries}
use infra_loop_kda.Agent.Session.{is_running}
use infra_loop_kda.Agent.Shim.{build_shim_dir, verify_shim}
use infra_loop_kda.Agent.Start.{
  Spawn, spawned, not_spawned, raised, World, After, Launch, settle, not_launched, abandon, texts,
}

-- What one call of `resume` finds: the recorded session, the processes, the id in the session's
-- stream log, the directories, and the loops below a workspace.
pub record Scene : Type 0 where
  pub session : Option Fields
  pub os : Processes
  pub stream_session : Json
  pub is_dir : String → Bool
  pub loops : String → List Dir

-- The session that may be resumed: what is resumed, and from where.
pub record Resumable : Type 0 where
  pub session : Fields
  pub claude_session : String
  pub workspace : String
  pub loop : Loop
  pub writer : Fields
  pub plugin_dir : String
  pub frozen : Fields

-- `session.get("claude_session_id")`, or the id in the stream log
unfoldable pub claude_session_of : Scene → Fields → Outcome String
unfolding get str
claude_session_of scene session =
    if truthy (get "claude_session_id" session)
    then ok (str (get "claude_session_id" session))
    else if truthy scene.stream_session
    then ok (str scene.stream_session)
    else err (tool_error "cannot determine the Claude session id")

-- The loop, which is there and has not ended.
unfoldable pub open_loop : Option Loop → Outcome Loop
open_loop none = err (tool_error "no Humanize loop state; there is nothing to resume")
open_loop (some loop) =
    if is_ended loop.found then err (tool_error "the loop already ended") else ok loop

-- The checks from the session's record on, up to the lock.
unfoldable pub check_session : Scene → Fields → Outcome Resumable
unfolding is_running claude_session_of open_loop loop_state section get str str_or path_text
check_session scene session = do
  require (not (is_running scene.os session)) (tool_error "the session is still running")
  claude_session ← claude_session_of scene session
  let workspace = path_text (str_or (get "cwd" session) "")
  require (scene.is_dir workspace) (tool_error "recorded workspace is missing")
  loop ← open_loop (loop_state (scene.loops workspace) claude_session)
  frozen ← section "frozen" session
  writer ← section "writer" frozen
  require (truthy (object writer) && truthy (get "plugin_absolute_path" frozen))
      (tool_error "session record has no frozen writer/plugin settings")
  let plugin_dir = path_text (str (get "plugin_absolute_path" frozen))
  require (scene.is_dir plugin_dir) (tool_error "the plugin directory frozen at start is gone")
  ok (record {
    session = session;
    claude_session = claude_session;
    workspace = workspace;
    loop = loop;
    writer = writer;
    plugin_dir = plugin_dir;
    frozen = frozen;
  })

unfoldable pub check : Scene → Option Fields → Outcome Resumable
unfolding check_session
check scene none = err (tool_error "no recorded session; use 'agent start'")
check scene (some session) = check_session scene session

-- `resolved.get(name)` of the frozen paths
abbrev pub binary_of : Json → Option String
binary_of (text s) = some s
binary_of v = none

unfoldable pub frozen_binaries : Fields → Binaries
unfolding get
frozen_binaries m = record {
  writer = binary_of (get "writer" m);
  codex = binary_of (get "codex" m);
  bash = binary_of (get "bash" m);
  jq = binary_of (get "jq" m);
}

-- The recorded variables, whose values are texts.
unfoldable pub recorded_env : Fields → Env
unfolding str
recorded_env end = []
recorded_env (field key v m) = (key, str v) ∷ recorded_env m

-- The `try` block up to the spawn: the command line and the variables.
unfoldable pub rebuild : World → Resumable → Outcome (List String × Env)
unfolding build_resume_argv build_shim_dir verify_shim frozen_binaries recorded_env declare_env
    section
rebuild w r = do
  env ← section "env" r.session
  reviewer ← section "reviewer" r.frozen
  paths ← section "toolchain_paths" r.frozen
  let entries = build_shim_dir (frozen_binaries paths) reviewer w.shim_entries
  require
      (is_empty
        (verify_shim w.outside w.shim_is_dir w.shim (frozen_binaries paths) reviewer entries))
      (tool_error "reviewer PATH shim failed integrity checks while resuming")
  w.writes
      >> ok
          (build_resume_argv r.writer r.plugin_dir r.claude_session, declare_env (recorded_env env))

-- The session before the launch.
unfoldable pub resumed_session : World → Resumable → List String → Fields
unfolding put get
resumed_session w r argv = put "frozen" (object (put "shim_dir" (text w.shim) r.frozen)) (
    put "process_identity" null (
      put "pid" null (
        put "logs" (object (field "stream" (text w.stream) end)) (
          put "argv" (array (texts argv)) (
            put "resumed_at" (text w.utc) (
              put "state" (text "starting") (
                put "claude_session_id" (text r.claude_session) (
                  put "resumed_from" (get "uuid" r.session)
                    (put "uuid" (text w.uuid) r.session)))))))))

-- The resumed session once its process runs.
unfoldable pub resumed_running : ℕ → Json → Fields → Fields
unfolding put
resumed_running pid identity session =
    put "process_identity" identity
      (put "state" (text "running") (put "pid" (int (pos pid)) session))

-- How the process is launched again.
unfoldable pub relaunch_of : World → Resumable → List String × Env → Launch
unfolding spawn_env
relaunch_of w r (argv, declared) = record {
  argv = argv;
  cwd = r.workspace;
  env = spawn_env w.environ declared w.shim;
}

unfoldable pub relaunch :
    World → String → Content → Lock → Resumable → List String × Env → Spawn → After
unfolding resumed_session resumed_running relaunch_of settle not_launched abandon put
relaunch w task_id content lock r built (not_spawned message) =
    let before = resumed_session w r built.0 in
    not_launched content lock before
      (put "error" (text ("failed to resume: " <> message)) (put "state" (text "exited") before))
      (tool_error ("cannot resume: " <> message)) w.failure_write
relaunch w task_id content lock r built (raised e) =
    abandon content lock (some (resumed_session w r built.0)) e
relaunch w task_id content lock r built (spawned pid read) =
    let before = resumed_session w r built.0 in
    settle w task_id content (relaunch_of w r built) pid before
      (λ identity. resumed_running pid identity before) read

unfoldable pub resume_within :
    World → String → Content → Lock → Resumable → Outcome (List String × Env) → After
unfolding relaunch abandon
resume_within w task_id content lock r (err e) = abandon content lock (some r.session) e
resume_within w task_id content lock r (ok built) = relaunch w task_id content lock r built w.spawn

unfoldable pub resume_claimed : World → String → Resumable → Claimed → After
unfolding resume_within rebuild
resume_claimed w task_id r (content, lock, err e) = record {
  lock = content;
  session = some r.session;
  launched = none;
  result = err e;
}
resume_claimed w task_id r (content, lock, ok t) =
    resume_within w task_id content lock r (rebuild w r)

unfoldable pub resume_checked : Caller → Seen → Scene → World → String → Outcome Resumable → After
unfolding resume_claimed acquire_task_lock
resume_checked c seen scene w task_id (err e) = record {
  lock = seen.first;
  session = scene.session;
  launched = none;
  result = err e;
}
resume_checked c seen scene w task_id (ok r) =
    resume_claimed w task_id r (acquire_task_lock c scene.os (some r.session) seen task_id w.uuid)

unfoldable pub resume_admitted : Caller → Seen → Scene → World → String → Started → After
unfolding resume_checked check
resume_admitted c seen scene w task_id (refused id blockers) = record {
  lock = seen.first;
  session = scene.session;
  launched = none;
  result = err (tool_error "the task may not be started");
}
resume_admitted c seen scene w task_id startable_task =
    resume_checked c seen scene w task_id (check scene scene.session)

-- `resume`
unfoldable pub resume : Caller → Seen → Scene → World → String → Fields → After
unfolding resume_admitted require_startable
resume c seen scene w task_id task =
    resume_admitted c seen scene w task_id (require_startable task task_id)
