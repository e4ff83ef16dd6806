-- ===== src/Agent/Claim/Held.antt =====
-- When `_acquire_task_lock` takes the lock and when it refuses.
use infra_loop_kda.Base.{String, ◌<>◌, true, Option, ◌≡◌, refl}
use infra_loop_kda.Base.Outcome.{Outcome, Error, ok, lock_error}
use infra_loop_kda.Json.{Json, object, Fields, end, get, lookup}
use infra_loop_kda.Json.Checks.{integer_of}
use infra_loop_kda.Process.{Processes}
use infra_loop_kda.Lock.{
  nothing, unreadable, written, Lock, opened, lock_record, acquire, report_holder, held_error,
  holder, detail_of,
}
use infra_loop_kda.Agent.Claim.Gone.{IsGone}
use infra_loop_kda.Agent.Claim.{
  is_live, holder_fields, Seen, Caller, Claimed, reclaim, after_first, acquire_task_lock,
}

-- A lock that was taken: the file has this process's record.
pub record IsTaken (c : Caller) (lock : Lock) (claimed : Claimed) : Type 0 where
  pub content : claimed.0 ≡ written (object (lock_record c.pid c.utc lock.payload))
  pub held : claimed.1 ≡ record lock { held = true }

-- The error for a holder that says nothing.
held_message : String → Error
unfolding detail_of
held_message path = lock_error (
    "task is locked by pid "
    <> detail_of "pid" end
    <> " since "
    <> detail_of "acquired_at" end
    <> " ("
    <> path
    <> "); stop it or remove the lock deliberately")

-- The second way to the lock: the record that the code read, an empty one where it read nothing,
-- names no process that is there, and the path is free after its removal.
pub record IsStale (os : Processes) (session : Option Fields) (seen : Seen) : Type 0 where
  pub record_of : Fields
  pub read : holder_fields seen.held ≡ ok record_of
  pub stale : IsGone os session (integer_of (get "pid" record_of))
  pub free : seen.removed ≡ nothing

-- The lock file of a process that is between creating it and writing its record is empty, so it
-- cannot be read: another start removes it and takes the lock too, although the holder runs.
pub unwritten_lock_taken :
    (c : Caller) (os : Processes) (session : Option Fields) (task_id uuid : String)
    → c.open_second ≡ opened
    → (acquire_task_lock c os session
        (record { first = unreadable; held = unreadable; removed = nothing })
        task_id
        uuid).2
      ≡ ok tt
unfolding acquire_task_lock after_first acquire report_holder held_error reclaim holder_fields
    holder is_live get lookup
unwritten_lock_taken c os session task_id uuid h = rw h refl
