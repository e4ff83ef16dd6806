-- ===== src/Agent/Resume/Checked.antt =====
-- What the checks of `resume` before the lock say of the session.
use infra_loop_kda.Base.{
  String, Bool, true, false, not, ◌&&◌, Option, none, some, ◌≡◌, refl, sym, ap, subst, Bool-cases,
  ◌⊎◌, inl, inr,
}
use infra_loop_kda.Base.Outcome.{ok, >>=-eq-ok, ok_injective, require, require-eq-ok, tool_error}
use infra_loop_kda.Json.{object, Fields, get, truthy}
use infra_loop_kda.Json.Repr.{str, str_or}
use infra_loop_kda.Runner.Baseline.{section}
use infra_loop_kda.Runner.Evidence.Report.{path_text}
use infra_loop_kda.Agent.Environment.Spawned.{over}
use infra_loop_kda.Agent.Loop.{Loop, is_ended, loop_state}
use infra_loop_kda.Agent.Session.{is_running}
use infra_loop_kda.Agent.Session.Stopped.{IsStopped, is_running-IsStopped}
use infra_loop_kda.Agent.Resume.{
  Scene, Resumable, claude_session_of, open_loop, check_session, check,
}

-- The id of the session's Claude session: the recorded one, or the one of its stream log.
abbrev pub IsClaudeSession : Scene → Fields → String → Type 0
IsClaudeSession scene session id =
    ((truthy (get "claude_session_id" session) ≡ true)
      × (id ≡ str (get "claude_session_id" session)))
    ⊎ ((truthy (get "claude_session_id" session) ≡ false)
        × (truthy scene.stream_session ≡ true)
        × (id ≡ str scene.stream_session))

-- A session that may be resumed: it is not found running, the recorded workspace and the loop that is
-- taken there for its Claude session are there, the loop has not ended, and the settings frozen at
-- the start are there.
pub record IsResumable (scene : Scene) (session : Fields) (r : Resumable) : Type 0 where
  pub same : r.session ≡ session
  pub stopped : IsStopped scene.os session
  pub claude : IsClaudeSession scene session r.claude_session
  pub workspace : r.workspace ≡ path_text (str_or (get "cwd" session) "")
  pub there : scene.is_dir r.workspace ≡ true
  pub chosen : loop_state (scene.loops r.workspace) r.claude_session ≡ some r.loop
  pub open_still : is_ended r.loop.found ≡ false
  pub frozen : section "frozen" session ≡ ok r.frozen
  pub writer : section "writer" r.frozen ≡ ok r.writer
  pub plugin : r.plugin_dir ≡ path_text (str (get "plugin_absolute_path" r.frozen))
  pub plugin_there : scene.is_dir r.plugin_dir ≡ true

not-eq_true : (b : Bool) → not b ≡ true → b ≡ false
not-eq_true false h = refl
not-eq_true true h = cc

open_loop-eq-ok :
    (o : Option Loop) {loop : Loop}
    → open_loop o ≡ ok loop
    → (o ≡ some loop) × (is_ended loop.found ≡ false)
unfolding open_loop
open_loop-eq-ok none h = cc
open_loop-eq-ok (some l) h = elim (Bool-cases (is_ended l.found)) [
  | inl over ↦ cc (rw over at h)
  | inr going ↦
      let same : l ≡ _ = ok_injective (rw going at h) in
      (ap (λ k. some k) same, subst (λ k. is_ended k.found ≡ false) same going)
]

claude_session_of-eq-ok :
    (scene : Scene) (session : Fields) {id : String}
    → claude_session_of scene session ≡ ok id
    → IsClaudeSession scene session id
unfolding claude_session_of
claude_session_of-eq-ok scene session h =
    elim (Bool-cases (truthy (get "claude_session_id" session))) [
      | inl known ↦ inl (known, sym (ok_injective (rw known at h)))
      | inr unknown ↦
          let from_log = rw unknown at h in
          elim (Bool-cases (truthy scene.stream_session)) [
            | inl logged ↦ inr (unknown, logged, sym (ok_injective (rw logged at from_log)))
            | inr silent ↦ cc (rw silent at from_log)
          ]
    ]

check_session-IsResumable :
    (scene : Scene) (session : Fields) {r : Resumable}
    → check_session scene session ≡ ok r
    → IsResumable scene session r
unfolding check_session
check_session-IsResumable scene session h =
    let (_, stopped, r₁) =
      >>=-eq-ok
        (require (not (is_running scene.os session)) (tool_error "the session is still running")) _
        h in
    let (claude, is_claude, r₂) = >>=-eq-ok (claude_session_of scene session) _ r₁ in
    let workspace = path_text (str_or (get "cwd" session) "") in
    let (_, there, r₃) =
      >>=-eq-ok (require (scene.is_dir workspace) (tool_error "recorded workspace is missing")) _
        r₂ in
    let (loop, chosen, r₄) =
      >>=-eq-ok (open_loop (loop_state (scene.loops workspace) claude)) _ r₃ in
    let (frozen, at_frozen, r₅) = >>=-eq-ok (section "frozen" session) _ r₄ in
    let (writer, at_writer, r₆) = >>=-eq-ok (section "writer" frozen) _ r₅ in
    let (_, _, r₇) =
      >>=-eq-ok
        (require (truthy (object writer) && truthy (get "plugin_absolute_path" frozen))
          (tool_error "session record has no frozen writer/plugin settings"))
        _ r₆ in
    let (_, plugin_there, made) =
      >>=-eq-ok
        (require (scene.is_dir (path_text (str (get "plugin_absolute_path" frozen))))
          (tool_error "the plugin directory frozen at start is gone"))
        _ r₇ in
    let (is_loop, going) = open_loop-eq-ok (loop_state (scene.loops workspace) claude) chosen in
    subst (IsResumable scene session) (ok_injective made) (record {
      same = refl;
      stopped = is_running-IsStopped scene.os session (not-eq_true _ (require-eq-ok _ _ stopped));
      claude = claude_session_of-eq-ok scene session is_claude;
      workspace = refl;
      there = require-eq-ok _ _ there;
      chosen = is_loop;
      open_still = going;
      frozen = at_frozen;
      writer = at_writer;
      plugin = refl;
      plugin_there = require-eq-ok _ _ plugin_there;
    })

pub checked_session :
    (scene : Scene) (session : Option Fields) {r : Resumable}
    → check scene session ≡ ok r
    → (recorded : Fields) × (session ≡ some recorded) × IsResumable scene recorded r
unfolding check
checked_session scene none h = cc
checked_session scene (some session) h = (session, refl, check_session-IsResumable scene session h)
