-- ===== src/Supervise/Main.antt =====
-- tools/k3/supervise.py: `main` around the polling loop, from the spawn to the exit status.
use infra_loop_kda.Base.{ℕ, ℤ, pos, String, Bool, false, Option, none, some, List, [], ◌∷◌}
use infra_loop_kda.Json.{Json, bool, int, text, Fields}
use infra_loop_kda.Supervise.{
  Loop, Round, drain_group, exit_status, final_record, initial, poll_loop, update,
}

-- What `subprocess.Popen` and the calls right after it give.
pub data Spawn : Type 0 where
  not_found os_failure : String → Spawn
  spawned : ℕ → ℕ → Json → Spawn

-- What the run meets: the moment of the start, the spawn, the rounds, the group at the end.
pub record World : Type 0 where
  pub cwd : String
  pub supervisor_pid : ℕ
  pub utc_start : String
  pub spawn : Spawn
  pub rounds : List Round
  pub group_alive : Bool
  pub group_later : List Bool
  pub utc_end : String
  pub note : String

-- The exit status of the supervisor, and the records that it wrote, last first.
pub record Run : Type 0 where
  pub code : ℕ
  pub writes : List Fields
  pub sent : List ℕ

unfoldable pub spawn_failed : ℕ → String → World → Fields → Run
unfolding update
spawn_failed code message w m =
    let failed =
      update
        (("state", text "failed-to-spawn")
          ∷ ("finished_at", text w.utc_end)
          ∷ ("exit_code", int (pos code))
          ∷ ("error", text message)
          ∷ ("exited_normally", bool false)
          ∷ [])
        m in
    record { code = code; writes = failed ∷ m ∷ []; sent = [] }

-- The record once the child runs.
unfoldable pub running_record : ℕ → ℕ → Json → Fields → Fields
unfolding update
running_record pid pgid identity m =
    update
      (("state", text "running")
        ∷ ("child_pid", int (pos pid))
        ∷ ("child_pgid", int (pos pgid))
        ∷ ("child_identity", identity)
        ∷ [])
      m

-- The loop's variables when it begins.
unfoldable pub begin : Fields → List Fields → Loop
begin m writes = record {
  cancel = none;
  cancel_sent = false;
  escalated = false;
  escalate_at = none;
  status = m;
  writes = m ∷ writes;
  sent = [];
}

-- From the end of the loop to the return.
unfoldable pub finish : World → ℕ → ℤ × Loop → Run
finish w pgid (code, s) =
    let drained = drain_group (some pgid) s.cancel_sent w.group_alive w.group_later in
    let last = final_record code s.cancel_sent drained w.utc_end w.note s.status in
    record { code = exit_status code; writes = last ∷ s.writes; sent = s.sent }

unfoldable pub after_loop : World → ℕ → Option (ℤ × Loop) → Option Run
after_loop w pgid none = none
after_loop w pgid (some ended) = some (finish w pgid ended)

-- What follows the attempt to spawn; `m` is the record written before it.
unfoldable pub after_spawn : World → Fields → Spawn → Option Run
after_spawn w m (not_found message) = some (spawn_failed 127 message w m)
after_spawn w m (os_failure message) = some (spawn_failed 126 message w m)
after_spawn w m (spawned pid pgid identity) =
    after_loop w pgid
      (poll_loop (some pgid) w.rounds (begin (running_record pid pgid identity m) (m ∷ [])))

-- `main`, after the test of its arguments; `none` while the child runs.
unfoldable pub supervise : World → List String → Option Run
supervise w command = after_spawn w (initial command w.cwd w.supervisor_pid w.utc_start) w.spawn

-- `main(argv)`
unfoldable pub main : World → List String → Option Run
main w (status_path ∷ first ∷ rest) = supervise w (first ∷ rest)
main w _ = some (record { code = 2; writes = []; sent = [] })
