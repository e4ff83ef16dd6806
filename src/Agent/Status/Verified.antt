-- ===== src/Agent/Status/Verified.antt =====
-- What the outcome of `status` says of the process and of the loop.
use infra_loop_kda.Base.{
  String, Bool, true, false, Option, none, some, ◌≡◌, refl, sym, subst, if◌then◌else◌,
}
use infra_loop_kda.Base.Outcome.{ok, >>=-eq-ok, ok_injective}
use infra_loop_kda.Json.{Fields, get, truthy}
use infra_loop_kda.Json.Repr.{str, str_or}
use infra_loop_kda.Runner.Baseline.{section}
use infra_loop_kda.Runner.Evidence.Report.{path_text}
use infra_loop_kda.Agent.Loop.{Phase, Found, absent, ended, active, Loop, loop_state}
use infra_loop_kda.Agent.Session.{is_running}
use infra_loop_kda.Agent.Session.Stopped.{
  IsStopped, IsRunning, is_running-IsStopped, is_running-IsRunning,
}
use infra_loop_kda.Agent.Status.{
  Tail, Verdict, no_session, running, exited, running_no_loop, exited_no_loop, loop_ended,
  running_in, exited_in, found_verdict, loop_verdict, View, tail_stream, session_id_of, shown_loop,
  session_verdict,
}

-- The loop of the session's workspace for the session's Claude id, or, where none is recorded, for
-- the id in the stream log.
abbrev pub loop_of : View → Fields → Tail → Option Loop
loop_of view session tail = loop_state (view.loops (path_text (str_or (get "cwd" session) ""))) (
    if truthy (get "claude_session_id" session)
    then str (get "claude_session_id" session)
    else str_or tail.session_id "")

shown_loop-loop_of :
    (view : View) (session : Fields) (tail : Tail)
    → shown_loop view session tail ≡ loop_of view session tail
unfolding shown_loop session_id_of
shown_loop-loop_of view session tail = refl

-- That loop is in that phase.
abbrev pub ShownIn : View → Fields → Tail → Phase → Type 0
ShownIn view session tail phase =
    (loop : Loop) × (file : String) × (fields : Fields) × (loop_of view session tail ≡ some loop)
    × (loop.found ≡ active file phase fields)

-- What the process of the session is found to do.
abbrev pub Seen : View → Fields → Bool → Type 0
Seen view session true = IsRunning view.os session
Seen view session false = IsStopped view.os session

is_running-Seen :
    (view : View) (session : Fields) (runs : Bool)
    → is_running view.os session ≡ runs
    → Seen view session runs
is_running-Seen view session true h = is_running-IsRunning view.os session h
is_running-Seen view session false h = is_running-IsStopped view.os session h

-- What an outcome claims of a session with that stream log.
abbrev pub Claims : View → Fields → Tail → Verdict → Type 0
Claims view session tail no_session = ⊥
Claims view session tail running = IsRunning view.os session
Claims view session tail running_no_loop = IsRunning view.os session
Claims view session tail (running_in phase) =
    IsRunning view.os session × ShownIn view session tail phase
Claims view session tail exited = IsStopped view.os session
Claims view session tail exited_no_loop = IsStopped view.os session
Claims view session tail (exited_in phase) =
    IsStopped view.os session × ShownIn view session tail phase
Claims view session tail (loop_ended reason) =
    (loop : Loop) × (fields : Fields) × (loop_of view session tail ≡ some loop)
    × (loop.found ≡ ended reason fields)

module _ (view : View) (session : Fields) (tail : Tail) where
  found-Claims :
      (loop : Loop) (found : Found) (runs : Bool)
      → loop_of view session tail ≡ some loop
      → loop.found ≡ found
      → Seen view session runs
      → Claims view session tail (found_verdict runs found)
  unfolding found_verdict
  found-Claims loop absent true shown is run = run
  found-Claims loop absent false shown is run = run
  found-Claims loop (ended reason fields) runs shown is run = (loop, fields, shown, is)
  found-Claims loop (active file phase fields) true shown is run =
      (run, (loop, file, fields, shown, is))
  found-Claims loop (active file phase fields) false shown is run =
      (run, (loop, file, fields, shown, is))

  loop-Claims :
      (shown : Option Loop) (runs : Bool)
      → loop_of view session tail ≡ shown
      → Seen view session runs
      → Claims view session tail (loop_verdict runs shown)
  unfolding loop_verdict found_verdict
  loop-Claims none true is run = run
  loop-Claims none false is run = run
  loop-Claims (some loop) runs is run = found-Claims loop loop.found runs is refl run

  bare-Claims :
      (runs : Bool)
      → Seen view session runs
      → Claims view session tail (if runs then running else exited)
  bare-Claims true run = run
  bare-Claims false run = run

either_way :
    (view : View) (session : Fields) (tail : Tail) (b : Bool) (x y : Verdict)
    → Claims view session tail x
    → Claims view session tail y
    → Claims view session tail (if b then x else y)
either_way view session tail true x y h k = h
either_way view session tail false x y h k = k

-- The outcome that `status` reports of a recorded session says that it runs only where `ps` shows its
-- pid with the recorded start time and command, and that it exited only where the record says that it
-- ended, it has no pid, or `ps` does not show that; a phase or an end that it names is the one
-- in the state file of the loop that `_loop_state` takes, in the session's workspace, for the
-- session's Claude id or for the one in the session's own stream log.
pub session_verdict-Claims :
    (view : View) (session : Fields) {reported : Verdict}
    → session_verdict view session ≡ ok reported
    → (logs : Fields) × (tail : Tail) × (section "logs" session ≡ ok logs)
      × (tail_stream (view.log (path_text (str_or (get "stream" logs) ""))) ≡ ok tail)
      × Claims view session tail reported
unfolding session_verdict
session_verdict-Claims view session h =
    let (logs, logs_is, r₁) = >>=-eq-ok (section "logs" session) _ h in
    let stream = view.log (path_text (str_or (get "stream" logs) "")) in
    let (tail, tail_is, made) = >>=-eq-ok (tail_stream stream) _ r₁ in
    let runs = is_running view.os session in
    let seen = is_running-Seen view session runs refl in
    (
      logs,
      tail,
      logs_is,
      tail_is,
      subst (Claims view session tail) (ok_injective made) (
          either_way view session tail (view.is_dir (path_text (str_or (get "cwd" session) "")))
            (loop_verdict runs (shown_loop view session tail)) (if runs then running else exited)
            (loop-Claims view session tail (shown_loop view session tail) runs
              (sym (shown_loop-loop_of view session tail)) seen)
            (bare-Claims view session tail runs seen)),
    )
