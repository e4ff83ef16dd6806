-- ===== src/Lock.antt =====
-- tools/k3/util.py: `FileLock`, over one path of the file system.
pub mod Exclusive
pub mod Mutex
pub mod Refined
mod Tests
use infra_loop_kda.Base.{
  ℕ, pos, String, ◌<>◌, Bool, true, false, Option, none, some, List, [], ◌∷◌, if◌then◌else◌,
}
use infra_loop_kda.Base.Outcome.{Outcome, ok, err, lock_error, attribute_error}
use infra_loop_kda.Json.{
  Json, null, int, text, object, Fields, end, get, lookup, put, set_default, truthy,
}
use infra_loop_kda.Json.Repr.{str}

-- What is at the path: nothing, or a file with the document that it is parsed into; `unreadable` is
-- a file that cannot be opened, or whose text is no JSON.
pub data Content : Type 0 where
  nothing unreadable : Content
  written : Json → Content

-- One lock object.
pub record Lock : Type 0 where
  pub payload : Fields
  pub held : Bool

-- `__init__`
abbrev pub create : Fields → Lock
create payload = record { payload = payload; held = false }

-- `holder`
unfoldable pub holder : Content → Option Json
holder (written v) = some v
holder _ = none

-- `existing.get(key, "?")`, formatted
unfoldable pub detail_of : String → Fields → String
unfolding lookup str
detail_of key m = elim (lookup key m) [ none ↦ "?" | some v ↦ str v ]

-- The message for a lock that exists, from `self.holder() or {}`.
unfoldable pub held_error : String → Fields → Outcome (Unit {0})
unfolding detail_of
held_error path m = err (
    lock_error (
      "task is locked by pid "
      <> detail_of "pid" m
      <> " since "
      <> detail_of "acquired_at" m
      <> " ("
      <> path
      <> "); stop it or remove the lock deliberately"))

unfoldable pub report_holder : String → Option Json → Outcome (Unit {0})
unfolding held_error
report_holder path (some (object m)) = held_error path m
report_holder path none = held_error path end
report_holder path (some v) = if truthy v then err attribute_error else held_error path end

-- The record that is written.
unfoldable pub lock_record : ℕ → String → Fields → Fields
unfolding set_default
lock_record pid utc payload =
    set_default "acquired_at" (text utc) (set_default "pid" (int (pos pid)) payload)

-- What `os.open` with `O_CREAT | O_EXCL` gives where there is no file: a failure has its message.
pub data Opened : Type 0 where
  opened : Opened
  failed : String → Opened

-- `acquire`: what is at the path, the lock and the result afterwards.
unfoldable pub acquire :
    ℕ → String → String → Opened → Content → Lock → Content × Lock × Outcome (Unit {0})
unfolding lock_record holder report_holder
acquire pid utc path (failed message) nothing lock =
    (nothing, lock, err (lock_error ("cannot create lock " <> path <> ": " <> message)))
acquire pid utc path opened nothing lock =
    (written (object (lock_record pid utc lock.payload)), record lock { held = true }, ok tt)
acquire pid utc path o unreadable lock = (unreadable, lock, report_holder path (holder unreadable))
acquire pid utc path o (written v) lock = (written v, lock, report_holder path (holder (written v)))

-- `release`
unfoldable pub release : Content → Lock → Content × Lock
release content lock =
    if lock.held then (nothing, record lock { held = false }) else (content, lock)
