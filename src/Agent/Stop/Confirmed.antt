-- ===== src/Agent/Stop/Confirmed.antt =====
-- `stop` signals the recorded process and no other, and says what it saw of its end.
use infra_loop_kda.Base.{
  ℤ, String, Bool, true, false, Option, none, some, List, [], ◌∷◌, ◌==◌, ◌≡◌, ◌⊎◌, inl, inr, refl,
  sym, ◌∙◌, ap, subst, All, Bool-cases, if◌then◌else◌,
}
use infra_loop_kda.Base.Outcome.{ok, >>=-eq-ok, ok_injective}
use infra_loop_kda.Json.{Json, null, text, Fields, get, put}
use infra_loop_kda.Json.Laws.{get-put}
use infra_loop_kda.Json.Checks.{integer_of}
use infra_loop_kda.Lock.{Content}
use infra_loop_kda.Process.{Processes, is_match, process_matches}
use infra_loop_kda.Agent.Session.{classify, session_state, session_state_lem}
use infra_loop_kda.Agent.Stop.{
  Signal, sigkill, target_of, wait_gone, World, Stopped, stopped_session, left_lock, finish, signal,
  pid_or_refuse, unconfirmed, stop,
}

-- The process was seen to be gone, or replaced, at one of the looks.
abbrev pub SeenGone : ℤ → Json → List Processes → Type 0
SeenGone pid recorded [] = ⊥
SeenGone pid recorded (os ∷ looks) =
    (is_match (process_matches os pid recorded) ≡ false) ⊎ SeenGone pid recorded looks

wait_gone-SeenGone :
    (pid : ℤ) (recorded : Json) (looks : List Processes)
    → wait_gone pid recorded looks ≡ true
    → SeenGone pid recorded looks
unfolding wait_gone
wait_gone-SeenGone pid recorded [] h = cc
wait_gone-SeenGone pid recorded (os ∷ looks) h =
    elim (Bool-cases (is_match (process_matches os pid recorded))) [
      | inl there ↦ inr (wait_gone-SeenGone pid recorded looks (rw there at h))
      | inr gone ↦ inl gone
    ]

-- What a call of `stop` that returns has done.
pub record IsConfirmed (w : World) (session : Fields) (content : Content)
    (signal_group escalate : Bool) (r : Stopped) : Type 0 where
  pub pid : ℤ
  pub recorded_pid : integer_of (get "pid" session) ≡ some pid
  pub confirmed : is_match (process_matches w.before pid (get "process_identity" session)) ≡ true
  pub targets : All (λ s. s.1 ≡ target_of signal_group pid) r.signals
  pub ending :
      ((r.exited ≡ true)
        × (SeenGone pid (get "process_identity" session) w.looks
            ⊎ ((escalate ≡ true) × SeenGone pid (get "process_identity" session) w.looks_after)))
      ⊎ ((r.exited ≡ false) × (r.lock ≡ content))
  pub written : r.session ≡ stopped_session r.exited w.utc session

kill_target :
    (sent : Bool) (target : ℤ)
    → All {A = Signal × ℤ} (λ s. s.1 ≡ target) (if sent then (sigkill, target) ∷ [] else [])
kill_target true target = (refl, tt)
kill_target false target = tt

finish-IsConfirmed :
    (w : World) (session : Fields) (content : Content) (signal_group escalate : Bool) (pid : ℤ)
    → integer_of (get "pid" session) ≡ some pid
    → is_match (process_matches w.before pid (get "process_identity" session)) ≡ true
    → (exited : Bool) → exited ≡ wait_gone pid (get "process_identity" session) w.looks
    → IsConfirmed w session content signal_group escalate
        (finish w session content pid (target_of signal_group pid) escalate exited)
unfolding finish left_lock
finish-IsConfirmed w session content signal_group escalate pid at confirmed true seen = record {
  pid = pid;
  recorded_pid = at;
  confirmed = confirmed;
  targets = (refl, tt);
  ending = inl (refl, inl (wait_gone-SeenGone pid _ w.looks (sym seen)));
  written = refl;
}
finish-IsConfirmed w session content signal_group false pid at confirmed false seen = record {
  pid = pid;
  recorded_pid = at;
  confirmed = confirmed;
  targets = (refl, tt);
  ending = inr (refl, refl);
  written = refl;
}
finish-IsConfirmed w session content signal_group true pid at confirmed false seen = record {
  pid = pid;
  recorded_pid = at;
  confirmed = confirmed;
  targets = (refl, kill_target w.kill_sent (target_of signal_group pid));
  ending = elim (Bool-cases (wait_gone pid (get "process_identity" session) w.looks_after)) [
    | inl h ↦ inl (h, inr (refl, wait_gone-SeenGone pid _ w.looks_after h))
    | inr h ↦ inr (h, rw h refl)
  ];
  written = refl;
}

signal-IsConfirmed :
    (w : World) (session : Fields) (content : Content) (signal_group escalate : Bool) (pid : ℤ)
    (refused : Option String) {r : Stopped}
    → integer_of (get "pid" session) ≡ some pid
    → is_match (process_matches w.before pid (get "process_identity" session)) ≡ true
    → signal w session content signal_group escalate pid refused ≡ ok r
    → IsConfirmed w session content signal_group escalate r
unfolding signal
signal-IsConfirmed w session content signal_group escalate pid (some m) at confirmed h = cc
signal-IsConfirmed w session content signal_group escalate pid none at confirmed h =
    subst (IsConfirmed w session content signal_group escalate) (ok_injective h)
      (finish-IsConfirmed w session content signal_group escalate pid at confirmed _ refl)

pid_or_refuse-eq_ok : (o : Option ℤ) {pid : ℤ} → pid_or_refuse o ≡ ok pid → o ≡ some pid
unfolding pid_or_refuse
pid_or_refuse-eq_ok none h = cc
pid_or_refuse-eq_ok (some pid) h = cc

unconfirmed-ne-ok : (pid : ℤ) {r : Stopped} → unconfirmed pid ≡ ok r → ⊥
unfolding unconfirmed
unconfirmed-ne-ok pid h = cc

-- A call of `stop` that returns has sent its signals to the recorded pid, or to its group, and only
-- after the process had the recorded start time and command. It says that the process exited only if
-- it saw it gone or replaced, at a look after the first signal or, where it may escalate, after the
-- second. Else the lock file is left as it was. The session is written with what was seen.
pub stop-IsConfirmed :
    (w : World) (task_id : String) (session : Fields) (content : Content)
    (signal_group escalate : Bool) {r : Stopped}
    → stop w task_id (some session) content signal_group escalate ≡ ok r
    → IsConfirmed w session content signal_group escalate r
unfolding stop
stop-IsConfirmed w task_id session content signal_group escalate h =
    let (pid, found, next) = >>=-eq-ok (pid_or_refuse (integer_of (get "pid" session))) _ h in
    let at = pid_or_refuse-eq_ok (integer_of (get "pid" session)) found in
    elim (Bool-cases (is_match (process_matches w.before pid (get "process_identity" session)))) [
      | inl is ↦
          signal-IsConfirmed w session content signal_group escalate pid w.refused at is
            (rw is at next)
      | inr other ↦ absurd (unconfirmed-ne-ok pid (rw other at next))
    ]

-- The fields of the session that `stop` writes.
module _ (exited : Bool) (utc : String) (session : Fields) where
  state-stopped_session :
      get "state" (stopped_session exited utc session)
      ≡ text (if exited then "stopped" else "running")
  unfolding stopped_session
  state-stopped_session = get-put "stopped_at" "state" _ _ ∙ get-put "state" "state" _ session

  kept-stopped_session :
      (key : String)
      → ("stopped_at" == key) ≡ false
      → ("state" == key) ≡ false
      → get key (stopped_session exited utc session) ≡ get key session
  unfolding stopped_session
  kept-stopped_session key h k =
      let changed = put "state" (text (if exited then "stopped" else "running")) session in
      get-put "stopped_at" key (if exited then text utc else null) changed
      ∙ (rw h (
          get-put "state" key (text (if exited then "stopped" else "running")) session ∙ rw k refl))

classify-stopped :
    (os : Processes) (exited : Bool) (recorded_pid recorded : Json) (pid : ℤ)
    → integer_of recorded_pid ≡ some pid
    → (classify os (text (if exited then "stopped" else "running")) recorded_pid recorded).state ≡ (
        if exited
        then "stopped"
        else (if is_match (process_matches os pid recorded) then "running" else "exited"))
unfolding classify
classify-stopped os true recorded_pid recorded pid h = refl
classify-stopped os false recorded_pid recorded pid h = rw h refl

-- What `_session_state` says of the session that a call of `stop` has written: it is stopped if the
-- call saw the process exit, and else it runs as long as the process is the recorded one.
pub session_state-stop :
    (w : World) (os : Processes) (task_id : String) (session : Fields) (content : Content)
    (signal_group escalate : Bool) {r : Stopped}
    → stop w task_id (some session) content signal_group escalate ≡ ok r
    → (pid : ℤ) × (integer_of (get "pid" session) ≡ some pid)
      × ((session_state os r.session).state ≡ (
          if r.exited
          then "stopped"
          else (if is_match (process_matches os pid (get "process_identity" session))
              then "running"
              else "exited")))
session_state-stop w os task_id session content signal_group escalate {r} h =
    let c = stop-IsConfirmed w task_id session content signal_group escalate h in
    let fields = stopped_session r.exited w.utc session in
    (
      c.pid,
      c.recorded_pid,
      ap (λ m. (session_state os m).state) c.written
          ∙ ap (λ s. s.state) (session_state_lem os fields)
          ∙ ap (λ v. (classify os v (get "pid" fields) (get "process_identity" fields)).state)
              (state-stopped_session r.exited w.utc session)
          ∙ rw
              (
                kept-stopped_session r.exited w.utc session "pid" refl refl,
                kept-stopped_session r.exited w.utc session "process_identity" refl refl,
              )
              (classify-stopped os r.exited (get "pid" session) (get "process_identity" session)
                c.pid c.recorded_pid),
    )
