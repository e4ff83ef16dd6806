-- ===== src/Runner/Completion.antt =====
-- What `status` makes of the records that the supervisor writes.
use infra_loop_kda.Base.{
  some_injective, ℕ, suc, ◌≡◌, refl, Bool, true, false, not, ◌&&◌, Option, none, some, List, [],
  ◌∷◌, if◌then◌else◌, arith, ◌∙◌, sym, pos, negsuc, ℤ, String, nat_beq, is_empty, subst,
}
use infra_loop_kda.Json.{Json, bool, int, text, object, Fields, end, field, get, lookup, truthy}
use infra_loop_kda.Json.Laws.{get-put}
use infra_loop_kda.Json.Repr.{str_or, str}
use infra_loop_kda.Process.{Processes}
use infra_loop_kda.Supervise.{Loop, initial, exit_status, drain_group, final_record}
use infra_loop_kda.Supervise.Main.{
  World, Run, Spawn, not_found, os_failure, spawned, supervise, after_spawn, after_loop, finish,
  begin, spawn_failed, running_record,
}
use infra_loop_kda.Supervise.Polling.{IsOrdered, quiet, forwarded, poll_loop-IsOrdered}
use infra_loop_kda.Supervise.Ending.{Ended, final_record-Ended, end_state}
use infra_loop_kda.Runner.Adapter.{
  StatusFile, absent, written, recorded, Detail, run_state, state_of, is_in_flight, from_record,
  ran_to_completion, reread, report, status,
}

-- The status file after these writes, the last one first.
abbrev pub last_write : List Fields → StatusFile
last_write [] = absent
last_write (m ∷ ms) = written m

state_of-text :
    (m : Fields) (c : ℤ) (b : Bool)
    → get "state" m ≡ text (end_state c b)
    → state_of m ≡ end_state c b
unfolding state_of str_or str
state_of-text m c true e = rw e refl
state_of-text m (pos n) false e = rw e refl
state_of-text m (negsuc n) false e = rw e refl

-- A record with a final state is not in flight and is not empty.
report-final :
    (alive : Bool) (d : Detail) (m : Fields) (second : StatusFile)
    → truthy (object m) ≡ true
    → is_in_flight m ≡ false
    → report alive d m second ≡ from_record alive d m
unfolding report reread
report-final alive d m second t f = rw (t, f) refl

completed : (code : ℤ) (was_sent : Bool) → Bool
completed (pos n) was_sent = nat_beq n 0 && not was_sent
completed (negsuc n) was_sent = false

module _ (alive : Bool) (d : Detail) (m last : Fields) where
  ended-is_in_flight :
      (code : ℤ) (was_sent : Bool)
      → state_of last ≡ end_state code was_sent
      → is_in_flight last ≡ false
  unfolding is_in_flight
  ended-is_in_flight code true e = rw e refl
  ended-is_in_flight (pos n) false e = rw e refl
  ended-is_in_flight (negsuc n) false e = rw e refl

  Ended-completed :
      (code : ℤ) (was_sent : Bool)
      → Ended code was_sent m last
      → get "cancelled" m ≡ bool was_sent
      → ran_to_completion (from_record alive d last) ≡ completed code was_sent
  unfolding from_record ran_to_completion completed run_state
  Ended-completed (pos n) true e c =
      let s = state_of-text last (pos n) true e.state in
      rw (ended-is_in_flight (pos n) true s, s) (ground arith)
  Ended-completed (pos n) false e c =
      let s = state_of-text last (pos n) false e.state in
      rw (ended-is_in_flight (pos n) false s, s, e.code_is, e.normally, e.kept, c) (ground arith)
  Ended-completed (negsuc n) true e c =
      let s = state_of-text last (negsuc n) true e.state in
      rw (ended-is_in_flight (negsuc n) true s, s) refl
  Ended-completed (negsuc n) false e c =
      let s = state_of-text last (negsuc n) false e.state in
      rw (ended-is_in_flight (negsuc n) false s, s) refl

-- Exit status 0, and no signal to the group.
abbrev is_clean : Run → Bool
is_clean run = nat_beq run.code 0 && is_empty run.sent

completed-quiet : (code : ℤ) → completed code false ≡ nat_beq (exit_status code) 0
unfolding completed exit_status
completed-quiet (pos n) = ground arith
completed-quiet (negsuc n) = ground arith

completed-sent : (code : ℤ) → completed code true ≡ false
unfolding completed
completed-sent (pos n) = ground arith
completed-sent (negsuc n) = refl

ordered-completed :
    (code : ℤ) (s : Loop)
    → IsOrdered s
    → (completed code s.cancel_sent ≡ (nat_beq (exit_status code) 0 && is_empty s.sent))
      × (get "cancelled" s.status ≡ bool s.cancel_sent)
ordered-completed code s (quiet q) =
    (simp (q.not_sent, q.none_sent, completed-quiet) (ground arith), simp q.not_sent q.unmarked)
ordered-completed code s (forwarded f) = (
  simp (f.was_sent, completed-sent) (sent_case s.escalated f.signum f.all_sent),
  simp f.was_sent f.marked,
)
  where
    sent_case :
        (b : Bool) (k : ℕ)
        → s.sent ≡ (if b then 9 ∷ k ∷ [] else k ∷ [])
        → false ≡ (nat_beq (exit_status code) 0 && is_empty s.sent)
    sent_case b k e = ground arith

named-truthy : (m : Fields) {s : String} → get "state" m ≡ text s → truthy (object m) ≡ true
unfolding get lookup
named-truthy end e = cc
named-truthy (field k v m) e = refl

get-spawn_failed :
    (code : ℕ) (message : String) (w : World) (m : Fields)
    → (failed : Fields) × ((spawn_failed code message w m).writes ≡ failed ∷ m ∷ [])
      × (get "state" failed ≡ text "failed-to-spawn")
      × (get "exit_code" failed ≡ int (pos code))
unfolding spawn_failed
get-spawn_failed code message w m = (_, refl, simp get-put, simp get-put)

state_of-failed :
    (m : Fields) → get "state" m ≡ text "failed-to-spawn" → state_of m ≡ "failed-to-spawn"
unfolding state_of str_or str
state_of-failed m e = rw e refl

failed-is_in_flight : (m : Fields) → state_of m ≡ "failed-to-spawn" → is_in_flight m ≡ false
unfolding is_in_flight
failed-is_in_flight m e = rw e refl

failed-completed :
    (alive : Bool) (d : Detail) (m : Fields) (code : ℕ)
    → state_of m ≡ "failed-to-spawn"
    → get "exit_code" m ≡ int (pos (suc code))
    → ran_to_completion (from_record alive d m) ≡ false
unfolding from_record ran_to_completion
failed-completed alive d m code e c = rw (failed-is_in_flight m e, c) (ground arith)

spawn_failed-unclean :
    (code : ℕ) (message : String) (w : World) (m : Fields)
    → is_clean (spawn_failed (suc code) message w m) ≡ false
unfolding spawn_failed
spawn_failed-unclean code message w m = ground arith

begin-IsOrdered :
    (command : List String) (cwd utc : String) (supervisor pid pgid : ℕ) (identity : Json)
    (writes : List Fields)
    → IsOrdered
        (begin (running_record pid pgid identity (initial command cwd supervisor utc)) writes)
unfolding begin running_record initial get lookup
begin-IsOrdered command cwd utc supervisor pid pgid identity writes =
    quiet
      (record { not_sent = refl; none_sent = refl; not_escalated = refl; unmarked = simp get-put })

module _ (os : Processes) (manifest : Fields) (second : StatusFile) where
  status-final :
      (m : Fields) (b : Bool)
      → truthy (object m) ≡ true
      → is_in_flight m ≡ false
      → ((alive : Bool) (d : Detail) → ran_to_completion (from_record alive d m) ≡ b)
      → ran_to_completion (status os manifest (written m) second) ≡ b
  unfolding status recorded
  status-final m b t f all = rw (report-final _ _ m second t f) (all _ _)

  finish-completed :
      (w : World) (pgid : ℕ) (code : ℤ) (s : Loop)
      → IsOrdered s
      → let run = finish w pgid (code, s) in
        ran_to_completion (status os manifest (last_write run.writes) second) ≡ is_clean run
  unfolding finish
  finish-completed w pgid code s o =
      let drained = drain_group (some pgid) s.cancel_sent w.group_alive w.group_later in
      let last = final_record code s.cancel_sent drained w.utc_end w.note s.status in
      let e = final_record-Ended code s.cancel_sent drained w.utc_end w.note s.status in
      let (clean, marked) = ordered-completed code s o in
      status-final last (nat_beq (exit_status code) 0 && is_empty s.sent)
        (named-truthy last e.state)
        (ended-is_in_flight false Detail.no_pid s.status last code s.cancel_sent
          (state_of-text last code s.cancel_sent e.state))
        (λ alive d. Ended-completed alive d s.status last code s.cancel_sent e marked ∙ clean)

  spawn_failed-completed :
      (code : ℕ) (message : String) (w : World) (m : Fields)
      → let run = spawn_failed (suc code) message w m in
        ran_to_completion (status os manifest (last_write run.writes) second) ≡ false
  spawn_failed-completed code message w m =
      let (failed, is, state, exit) = get-spawn_failed (suc code) message w m in
      let s = state_of-failed failed state in
      subst (λ ws. ran_to_completion (status os manifest (last_write ws) second) ≡ false) (sym is)
        (status-final failed false (named-truthy failed state) (failed-is_in_flight failed s)
          (λ alive d. failed-completed alive d failed code s exit))

  -- `status` of the files that a run leaves agrees with the run.
  abbrev Agrees : Run → Type 0
  Agrees run = ran_to_completion (status os manifest (last_write run.writes) second) ≡ is_clean run

  spawn_failed-Agrees :
      (code : ℕ) (message : String) (w : World) (m : Fields)
      → Agrees (spawn_failed (suc code) message w m)
  spawn_failed-Agrees code message w m =
      spawn_failed-completed code message w m ∙ sym (spawn_failed-unclean code message w m)

  after_loop-Agrees :
      (w : World) (pgid : ℕ) (ended : Option (ℤ × Loop)) {run : Run}
      → ((code : ℤ) (s : Loop) → ended ≡ some (code, s) → IsOrdered s)
      → after_loop w pgid ended ≡ some run
      → Agrees run
  unfolding after_loop
  after_loop-Agrees w pgid none o h = cc
  after_loop-Agrees w pgid (some (code, s)) o h =
      subst Agrees (some_injective h) (finish-completed w pgid code s (o code s refl))

  after_spawn-Agrees :
      (w : World) (command : List String) (spawn : Spawn) {run : Run}
      → after_spawn w (initial command w.cwd w.supervisor_pid w.utc_start) spawn ≡ some run
      → Agrees run
  unfolding after_spawn
  after_spawn-Agrees w command (not_found message) h =
      subst Agrees (some_injective h) (spawn_failed-Agrees 126 message w _)
  after_spawn-Agrees w command (os_failure message) h =
      subst Agrees (some_injective h) (spawn_failed-Agrees 125 message w _)
  after_spawn-Agrees w command (spawned pid pgid identity) h =
      after_loop-Agrees w pgid _
        (λ code s e.
          poll_loop-IsOrdered (some pgid) w.rounds _ e
            (begin-IsOrdered command w.cwd w.utc_start w.supervisor_pid pid pgid identity _))
        h

  -- Once the supervisor has returned, `status` says of the file that it left that the run completed
  -- exactly when the supervisor's exit status is 0 and no signal was sent to the process group,
  -- whatever the outcome of the spawn, the signals that arrived and the state of the processes.
  pub supervise-completed :
      (w : World) (command : List String) {run : Run}
      → supervise w command ≡ some run
      → ran_to_completion (status os manifest (last_write run.writes) second)
        ≡ (nat_beq run.code 0 && is_empty run.sent)
  unfolding supervise
  supervise-completed w command h = after_spawn-Agrees w command w.spawn h
