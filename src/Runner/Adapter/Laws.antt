-- ===== src/Runner/Adapter/Laws.antt =====
-- A run counts as completed only by a record that says so, and only a confirmed process is signalled.
use infra_loop_kda.Base.{
  ℤ, Bool, true, false, Option, none, some, ◌≡◌, ◌⊎◌, inl, inr, refl, arith, Bool-cases, subst, ◌≢◌,
  ◌∙◌, ap,
}
use infra_loop_kda.Base.Outcome.{ok}
use infra_loop_kda.Json.{
  Json, null, bool, object, Fields, end, field, get, lookup, truthy, equals_nat,
}
use infra_loop_kda.Json.Repr.{str_or}
use infra_loop_kda.Base.Text.{strip}
use infra_loop_kda.Process.{Processes, Match, is_match, process_matches, matches, Identity, part}
use infra_loop_kda.Process.Laws.{process_matches_lem}
use infra_loop_kda.Runner.Adapter.{
  StatusFile, absent, malformed, written, recorded, RunState, exited, unknown, run_state, Detail,
  supervisor_gone, signal_pid, unrecorded, liveness, pid_of, state_of, is_in_flight, is_settled,
  reread, from_record, report, never_recorded, status, cancel, ran_to_completion, running,
}

-- A record of a command that ran to its end with exit code 0 and was not cancelled.
pub record IsCompleted (m : Fields) : Type 0 where
  pub state : run_state (state_of m) ≡ exited
  pub code : equals_nat (get "exit_code" m) 0 ≡ true
  pub normally : truthy (get "exited_normally" m) ≡ true
  pub not_cancelled : truthy (get "cancelled" m) ≡ false

unrecorded-not_completed :
    (s : RunState) (d : Detail) (v : Json) → ran_to_completion (unrecorded s d v) ≡ false
unfolding ran_to_completion unrecorded
unrecorded-not_completed s d v = ground arith

from_record-IsCompleted :
    (alive : Bool) (d : Detail) (m : Fields)
    → ran_to_completion (from_record alive d m) ≡ true
    → IsCompleted m
unfolding ran_to_completion from_record unrecorded
from_record-IsCompleted alive d m h = record {
  state = ground arith;
  code = ground arith;
  normally = ground arith;
  not_cancelled = ground arith;
}

reread-cases :
    (alive : Bool) (first : Fields) (second : StatusFile)
    → (reread alive first second ≡ first) ⊎ (reread alive first second ≡ recorded second)
unfolding reread
reread-cases alive first second = ground arith

end-not-IsCompleted : ¬ IsCompleted end
unfolding run_state state_of get lookup str_or
end-not-IsCompleted c = cc c.state

matches_of : (r : Match) → is_match r ≡ true → r ≡ matches
matches_of r h = ground arith

cancel-matches :
    (os : Processes) (manifest : Fields) {pid : ℤ}
    → cancel os manifest ≡ ok pid
    → (pid_of (get "pid" manifest) ≡ some pid)
      × (process_matches os pid (get "process_identity" manifest) ≡ matches)
unfolding cancel
cancel-matches os manifest {pid} h = go (pid_of (get "pid" manifest)) refl h
  where
    go :
        (o : Option ℤ)
        → pid_of (get "pid" manifest) ≡ o
        → signal_pid os manifest o ≡ ok pid
        → (pid_of (get "pid" manifest) ≡ some pid)
          × (process_matches os pid (get "process_identity" manifest) ≡ matches)
    go none e k = cc
    go (some z) e k =
        let b : is_match (process_matches os z (get "process_identity" manifest)) ≡ true =
          ground arith in
        let same : z ≡ pid = ground arith in
        (
          e ∙ ap some same,
          subst (λ w. process_matches os w (get "process_identity" manifest) ≡ matches) same
              (matches_of _ b),
        )

recorded-written : (f : StatusFile) → IsCompleted (recorded f) → f ≡ written (recorded f)
unfolding recorded
recorded-written absent c = absurd (end-not-IsCompleted c)
recorded-written malformed c = absurd (end-not-IsCompleted c)
recorded-written (written m) c = refl

report-IsCompleted :
    (alive : Bool) (d : Detail) (m : Fields) (second : StatusFile)
    → ran_to_completion (report alive d m second) ≡ true
    → IsCompleted (reread alive m second)
unfolding report
report-IsCompleted alive d m second h = elim (Bool-cases (truthy (object m))) [
  | inl has ↦ from_record-IsCompleted alive d (reread alive m second) (rw has at h)
  | inr empty ↦ absurd (
      ground (
        arith,
        unrecorded-not_completed running d null,
        unrecorded-not_completed unknown never_recorded (bool false),
      ))
]

is_in_flight-record : (m : Fields) → is_in_flight m ≡ true → truthy (object m) ≡ true
unfolding is_in_flight get lookup str_or
is_in_flight-record end h = cc
is_in_flight-record (field k v m) h = refl

report-gone :
    (d : Detail) (m : Fields) (second : StatusFile)
    → is_in_flight m ≡ true
    → is_settled (recorded second) ≡ false
    → report false d m second ≡ unrecorded unknown supervisor_gone (bool false)
unfolding report reread from_record
report-gone d m second flying unsettled =
    rw (is_in_flight-record m flying, flying, unsettled, flying) refl

module _ (os : Processes) (manifest : Fields) (first second : StatusFile) where
  abbrev now_alive : Bool
  now_alive = (liveness os (get "pid" manifest) (get "process_identity" manifest)).0

  -- A run is reported to have run to completion only where one of the two reads of the status file
  -- found a record that says so: state exited, exit code 0, a normal exit, and no cancellation.
  pub status-IsCompleted :
      ran_to_completion (status os manifest first second) ≡ true
      → (m : Fields) × ((first ≡ written m) ⊎ (second ≡ written m)) × IsCompleted m
  unfolding status
  status-IsCompleted h =
      let c = report-IsCompleted now_alive _ (recorded first) second h in
      elim (reread-cases now_alive (recorded first) second) [
        | inl e ↦
            let c' = subst IsCompleted e c in (recorded first, inl (recorded-written first c'), c')
        | inr e ↦
            let c' = subst IsCompleted e c in
            (recorded second, inr (recorded-written second c'), c')
      ]

  -- Where the process is gone and both reads leave the run in flight, its outcome is unknown.
  pub status-supervisor_gone :
      now_alive ≡ false
      → is_in_flight (recorded first) ≡ true
      → is_settled (recorded second) ≡ false
      → status os manifest first second ≡ unrecorded unknown supervisor_gone (bool false)
  unfolding status
  status-supervisor_gone gone flying unsettled =
      rw gone (report-gone _ (recorded first) second flying unsettled)

-- `cancel` signals a pid only if it is the recorded one, the recorded identity is complete, and the
-- process that runs under the pid has the recorded start time and command.
pub cancel-confirmed :
    (os : Processes) (manifest : Fields) {pid : ℤ}
    → cancel os manifest ≡ ok pid
    → (pid_of (get "pid" manifest) ≡ some pid)
      × (m : Fields) × (now : Identity) × (get "process_identity" manifest ≡ object m)
      × (part "lstart" m ≢ "")
      × (part "command" m ≢ "")
      × (os.identity pid ≡ some now)
      × (strip now.lstart ≡ part "lstart" m)
      × (strip now.command ≡ part "command" m)
cancel-confirmed os manifest {pid} h =
    let (known, match) = cancel-matches os manifest h in
    let (m, now, is, start, command, runs, same_start, same_command) =
      process_matches_lem os pid (get "process_identity" manifest) match in
    (known, m, now, is, start, command, runs, same_start, same_command)
