-- ===== src/Supervise/Tests.antt =====
-- Runs of the supervisor.
use infra_loop_kda.Base.{ℕ, ◌≡◌, refl, true, Option, none, some, List, [], ◌∷◌, negsuc, ℤ}
use infra_loop_kda.Json.{null, Fields, get, lookup, put}
use infra_loop_kda.Supervise.{
  Round, Loop, poll_loop, act, try_escalate, escalate, forward, handle, kill_group, update, initial,
  exit_status, drain_group, wait_drained, final_record, ending,
}
use infra_loop_kda.Supervise.Main.{
  World, supervise, main, after_spawn, after_loop, begin, finish, running_record, spawn_failed,
}
use infra_loop_kda.Supervise.Polling.{IsOrdered, poll_loop-IsOrdered}

pub runs : Unit {0}
unfolding supervise main after_spawn after_loop poll_loop act try_escalate escalate forward handle
    kill_group update begin finish running_record initial spawn_failed exit_status drain_group
    wait_drained final_record ending get lookup put
runs = tt

abbrev round : List ℕ → Option ℤ → Round
round signals code = record {
  signals = signals;
  poll = code;
  now = 20001;
  reaches = true;
  utc = "t";
}

abbrev start : Fields
start = running_record 8 8 null (initial ("true" ∷ []) "/w" 7 "t0")

-- SIGTERM and SIGINT arrive, the deadline passes, and the command is killed.
ended : Loop
unfolding runs
ended =
    elim (poll_loop (some 8)
      (round (15 ∷ 2 ∷ []) none
        ∷ record { signals = []; poll = none; now = 40001; reaches = true; utc = "t" }
        ∷ round [] (some (negsuc 8))
        ∷ [])
      (begin start [])) [ some (code, s) ↦ s | none ↦ begin start [] ]

ended-sent : ended.sent ≡ 9 ∷ 15 ∷ []
unfolding ended
ended-sent = refl

poll_loop-IsOrdered_example : IsOrdered ended
unfolding ended
poll_loop-IsOrdered_example =
    poll_loop-IsOrdered (some 8)
      (round (15 ∷ 2 ∷ []) none
        ∷ record { signals = []; poll = none; now = 40001; reaches = true; utc = "t" }
        ∷ round [] (some (negsuc 8))
        ∷ [])
      (begin start []) refl
      (IsOrdered.quiet
        (record { not_sent = refl; none_sent = refl; not_escalated = refl; unmarked = refl }))

usage_error :
    (w : World) → main w ("status.json" ∷ []) ≡ some (record { code = 2; writes = []; sent = [] })
unfolding main
usage_error w = refl
