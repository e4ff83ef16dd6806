-- ===== src/Agent/Session/Stopped.antt =====
-- What it means that `_session_state` finds a session running, or does not.
use infra_loop_kda.Base.{
  ℤ, String, true, false, Option, none, some, ◌==◌, ◌≡◌, ◌≢◌, ◌⊎◌, inl, inr, refl, sym, ap, subst,
  eq_iff, Bool-cases,
}
use infra_loop_kda.Json.{Json, null, bool, int, text, array, object, Fields, get, equals_text}
use infra_loop_kda.Json.Checks.{integer_of}
use infra_loop_kda.Json.Repr.{str}
use infra_loop_kda.Process.{
  Processes, Match, malformed, not_recorded, incomplete, not_running, unreadable, recycled,
  other_command, matches, is_match, process_matches,
}
use infra_loop_kda.Process.Laws.{IsSame, IsSame-matches, process_matches_lem}
use infra_loop_kda.Agent.Session.{observed, is_closed, classify, session_state, is_running}

-- The session's record says that it ended, or has no pid, or the process that `ps` shows under the
-- pid, if any, is not the recorded one.
pub data IsStopped (os : Processes) (session : Fields) : Type 0 where
  recorded_end :
      (get "state" session ≡ text "exited") ⊎ (get "state" session ≡ text "stopped")
      → IsStopped os session
  no_number : integer_of (get "pid" session) ≡ none → IsStopped os session
  another :
      (z : ℤ)
      → integer_of (get "pid" session) ≡ some z
      → ¬ IsSame os z (get "process_identity" session)
      → IsStopped os session

equals_text-eq : (v : Json) (s : String) → equals_text v s ≡ true → v ≡ text s
equals_text-eq (text a) s h = ap text ((eq_iff a s).0 h)
equals_text-eq null s h = cc
equals_text-eq (bool b) s h = cc
equals_text-eq (int z) s h = cc
equals_text-eq (array vs) s h = cc
equals_text-eq (object m) s h = cc

is_closed-cases : (v : Json) → is_closed v ≡ true → (v ≡ text "exited") ⊎ (v ≡ text "stopped")
unfolding is_closed
is_closed-cases v h = elim (Bool-cases (equals_text v "exited")) [
  | inl e ↦ inl (equals_text-eq v "exited" e)
  | inr n ↦ inr (equals_text-eq v "stopped" (rw n at h))
]

observed-another :
    (os : Processes) (session : Fields) (pid : Option ℤ)
    → integer_of (get "pid" session) ≡ pid
    → ((observed os pid (get "process_identity" session)).state == "running") ≡ false
    → IsStopped os session
unfolding observed
observed-another os session none at h = no_number at
observed-another os session (some z) at h =
    another z at (λ same. cc (rw (IsSame-matches os z (get "process_identity" session) same) at h))

pub is_running-IsStopped :
    (os : Processes) (session : Fields) → is_running os session ≡ false → IsStopped os session
unfolding is_running session_state classify
is_running-IsStopped os session h = elim (Bool-cases (is_closed (get "state" session))) [
  | inl closed ↦ recorded_end (is_closed-cases (get "state" session) closed)
  | inr going ↦ observed-another os session (integer_of (get "pid" session)) refl (rw going at h)
]

-- The process of the session's record runs under its pid.
pub record IsRunning (os : Processes) (session : Fields) : Type 0 where
  pub pid : ℤ
  pub pid_is : integer_of (get "pid" session) ≡ some pid
  pub same : IsSame os pid (get "process_identity" session)

is_match-eq : (m : Match) → is_match m ≡ true → m ≡ matches
is_match-eq matches h = refl
is_match-eq malformed h = cc
is_match-eq not_recorded h = cc
is_match-eq incomplete h = cc
is_match-eq not_running h = cc
is_match-eq unreadable h = cc
is_match-eq recycled h = cc
is_match-eq other_command h = cc

not_blank : (s : String) → s ≢ "" → (s == "") ≡ false
not_blank s h = elim (Bool-cases (s == "")) [ inl e ↦ absurd (h ((eq_iff s "").0 e)) | inr n ↦ n ]

matches-IsSame :
    (os : Processes) (pid : ℤ) (recorded : Json)
    → is_match (process_matches os pid recorded) ≡ true
    → IsSame os pid recorded
matches-IsSame os pid recorded h =
    let (m, now, is, start, command, runs, same_start, same_command) =
      process_matches_lem os pid recorded (is_match-eq _ h) in
    record {
      fields = m;
      is_dict = is;
      now = now;
      runs = runs;
      start_known = not_blank _ start;
      command_known = not_blank _ command;
      same_start = same_start;
      same_command = same_command;
    }

observed-IsRunning :
    (os : Processes) (session : Fields) (pid : Option ℤ)
    → integer_of (get "pid" session) ≡ pid
    → ((observed os pid (get "process_identity" session)).state == "running") ≡ true
    → IsRunning os session
unfolding observed
observed-IsRunning os session none at h = cc
observed-IsRunning os session (some z) at h =
    elim (Bool-cases (is_match (process_matches os z (get "process_identity" session)))) [
      | inl e ↦ record {
        pid = z;
        pid_is = at;
        same = matches-IsSame os z (get "process_identity" session) e;
      }
      | inr n ↦ cc (rw n at h)
    ]

closed-not_running : (v : Json) → is_closed v ≡ true → (str v == "running") ≡ false
unfolding str
closed-not_running v h = elim (is_closed-cases v h) [
  | inl e ↦ subst (λ k. (str k == "running") ≡ false) (sym e) refl
  | inr e ↦ subst (λ k. (str k == "running") ≡ false) (sym e) refl
]

pub is_running-IsRunning :
    (os : Processes) (session : Fields) → is_running os session ≡ true → IsRunning os session
unfolding is_running session_state classify
is_running-IsRunning os session h = elim (Bool-cases (is_closed (get "state" session))) [
  | inl closed ↦ cc (rw closed at h, closed-not_running (get "state" session) closed)
  | inr going ↦ observed-IsRunning os session (integer_of (get "pid" session)) refl (rw going at h)
]
