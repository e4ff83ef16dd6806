-- ===== src/Agent/Status.antt =====
-- tools/k3/agent.py: `_tail_stream` and the outcome that `status` reports. A line of the stream log is
-- what `json.loads` makes of it.
pub mod Verified
use infra_loop_kda.Base.{
  ℕ, zero, suc, ◌<>◌, String, Bool, true, false, not, ◌&&◌, Option, none, some, List, [], ◌∷◌, ◌++◌,
  ◌==◌, ◌-◌, length, if◌then◌else◌,
}
use infra_loop_kda.Base.Outcome.{Outcome, ok, err, ◌>>=◌, attribute_error}
use infra_loop_kda.Json.{
  Json, null, bool, int, text, array, object, Fields, end, field, get, truthy,
}
use infra_loop_kda.Json.Repr.{str, str_or}
use infra_loop_kda.Process.{Processes}
use infra_loop_kda.Runner.Baseline.{section}
use infra_loop_kda.Runner.Evidence.Report.{path_text}
use infra_loop_kda.Agent.Loop.{Dir, Phase, Found, absent, ended, active, Loop, loop_state}
use infra_loop_kda.Agent.Session.{is_running}

-- A line of the log: empty, no JSON, or a document.
pub data Line : Type 0 where
  blank unparsable : Line
  event : Json → Line

pub record Tail : Type 0 where
  pub events : ℕ
  pub types : List String
  pub session_id : Json
  pub result : Json

abbrev pub no_events : Tail
no_events = record { events = 0; types = []; session_id = null; result = null }

-- `if kind == "result": …`
unfoldable pub result_after : String → Fields → Json → Json
unfolding get
result_after kind m old =
    if kind == "result"
    then object (
        field "subtype" (get "subtype" m)
          (field "is_error" (get "is_error" m) (field "num_turns" (get "num_turns" m) end)))
    else old

-- One line that is a document; `.get` raises on one that is no `dict`.
unfoldable pub read_event : Tail → Json → Outcome Tail
unfolding result_after str_or get
read_event tail (object m) = ok (record {
  events = suc tail.events;
  types = tail.types ++ str_or (get "type" m) "" ∷ [];
  session_id =
      if truthy (get "session_id" m) && not (truthy tail.session_id)
      then get "session_id" m
      else tail.session_id;
  result = result_after (str_or (get "type" m) "") m tail.result;
})
read_event tail null = err attribute_error
read_event tail (bool b) = err attribute_error
read_event tail (int z) = err attribute_error
read_event tail (text s) = err attribute_error
read_event tail (array vs) = err attribute_error

-- The loop of `_tail_stream`.
unfoldable pub read_lines : Tail → List Line → Outcome Tail
unfolding read_event
read_lines tail [] = ok tail
read_lines tail (blank ∷ lines) = read_lines tail lines
read_lines tail (unparsable ∷ lines) = read_lines (record tail { events = suc tail.events }) lines
read_lines tail (event v ∷ lines) = read_event tail v >>= λ next. read_lines next lines

abbrev pub drop {ℓ} : {A : Type ℓ} → ℕ → List A → List A
drop zero xs = xs
drop (suc n) [] = []
drop (suc n) (x ∷ xs) = drop n xs

-- `types[-limit:]`, for a limit that is not 0
unfoldable pub last_types : ℕ → Tail → List String
last_types limit tail = drop (length tail.types - limit) tail.types

-- `_tail_stream`, of a log that may be absent.
unfoldable pub tail_stream : Option (List Line) → Outcome Tail
unfolding read_lines
tail_stream none = ok no_events
tail_stream (some lines) = read_lines no_events lines

-- The texts of `outcome`.
pub data Verdict : Type 0 where
  no_session running exited running_no_loop exited_no_loop : Verdict
  loop_ended : String → Verdict
  running_in exited_in : Phase → Verdict

unfoldable pub found_verdict : Bool → Found → Verdict
found_verdict runs absent = if runs then running_no_loop else exited_no_loop
found_verdict runs (ended reason fields) = loop_ended reason
found_verdict runs (active file phase fields) = if runs then running_in phase else exited_in phase

unfoldable pub loop_verdict : Bool → Option Loop → Verdict
unfolding found_verdict
loop_verdict runs none = found_verdict runs absent
loop_verdict runs (some loop) = found_verdict runs loop.found

-- `str(session.get("claude_session_id") or stream session id)`; no id is the empty one.
unfoldable pub session_id_of : Fields → Tail → String
unfolding get str_or
session_id_of session tail =
    if truthy (get "claude_session_id" session)
    then str (get "claude_session_id" session)
    else str_or tail.session_id ""

-- What a call of `status` finds.
pub record View : Type 0 where
  pub os : Processes
  pub log : String → Option (List Line)
  pub is_dir : String → Bool
  pub loops : String → List Dir

-- The loop that `status` shows, where the workspace is there.
unfoldable pub shown_loop : View → Fields → Tail → Option Loop
unfolding session_id_of loop_state str_or get path_text
shown_loop view session tail =
    loop_state (view.loops (path_text (str_or (get "cwd" session) ""))) (session_id_of session tail)

-- `result["outcome"]`, for a recorded session.
unfoldable pub session_verdict : View → Fields → Outcome Verdict
unfolding tail_stream shown_loop loop_verdict is_running str_or get section path_text
session_verdict view session = do
  logs ← section "logs" session
  tail ← tail_stream (view.log (path_text (str_or (get "stream" logs) "")))
  ok (
      if view.is_dir (path_text (str_or (get "cwd" session) ""))
      then loop_verdict (is_running view.os session) (shown_loop view session tail)
      else if is_running view.os session
      then running
      else exited)

-- `status`
unfoldable pub verdict : View → Option Fields → Outcome Verdict
unfolding session_verdict
verdict view none = ok no_session
verdict view (some session) = session_verdict view session
