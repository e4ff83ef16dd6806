-- ===== src/Agent/Claim.antt =====
-- tools/k3/agent.py: `_acquire_task_lock`, over one lock file. Other processes may change the file
-- between the reads, so what is at the path at each of them is an argument.
pub mod Gone
pub mod Held
use infra_loop_kda.Base.{
  ℕ, ℤ, int_beq, String, ◌<>◌, Bool, true, false, ◌&&◌, Option, none, some, ◌≡◌, refl,
  if◌then◌else◌,
}
use infra_loop_kda.Base.Outcome.{
  Outcome, ok, err, tool_error, path_error, lock_error, validation_error, type_error, value_error,
  key_error, attribute_error,
}
use infra_loop_kda.Json.{Json, null, text, object, Fields, end, field, get, truthy}
use infra_loop_kda.Json.Checks.{integer_of}
use infra_loop_kda.Json.Repr.{str}
use infra_loop_kda.Process.{Processes, is_match, process_matches}
use infra_loop_kda.Lock.{Content, nothing, Lock, create, Opened, acquire, holder}

-- `session.get("pid") == holder_pid` for a number.
unfoldable pub has_pid : ℤ → Json → Bool
has_pid z v = elim (integer_of v) [ none ↦ false | some pid ↦ int_beq pid z ]

-- `recorded_identity`
unfoldable pub identity_for : Option Fields → ℤ → Json
unfolding has_pid get
identity_for none z = null
identity_for (some session) z =
    if has_pid z (get "pid" session) then get "process_identity" session else null

pub identity_for_lem :
    (session : Fields) (z : ℤ)
    → identity_for (some session) z
      ≡ (if has_pid z (get "pid" session) then get "process_identity" session else null)
unfolding identity_for
identity_for_lem session z = refl

-- `live`, for the pid that the lock file holds. With no identity a live pid counts as live.
unfoldable pub is_live : Processes → Option Fields → Option ℤ → Bool
unfolding identity_for
is_live os session none = false
is_live os session (some z) =
    if truthy (identity_for session z)
    then is_match (process_matches os z (identity_for session z))
    else os.alive z

-- `lock.holder() or {}`, of which the code then takes `.get`.
unfoldable pub holder_fields : Content → Outcome Fields
unfolding holder
holder_fields content = elim (holder content) [
  | none ↦ ok end
  | some v ↦ elim v [
    | object m ↦ ok m
    | other ↦ if truthy other then err attribute_error else ok end
  ]
]

-- The lock object that `_acquire_task_lock` makes.
unfoldable pub task_lock : String → String → Lock
task_lock task_id uuid = create (
    field "task_id" (text task_id) (field "uuid" (text uuid) (field "state" (text "starting") end)))

-- What is at the path when the code looks at it: for the first `acquire`, for `holder`, and for the
-- second `acquire`, after the file was removed.
pub record Seen : Type 0 where
  pub first : Content
  pub held : Content
  pub removed : Content

-- The moment at which the lock is taken.
pub record Caller : Type 0 where
  pub pid : ℕ
  pub utc : String
  pub path : String
  pub open_first : Opened
  pub open_second : Opened

abbrev pub Claimed : Type 0
Claimed = Content × Lock × Outcome (Unit {0})

-- The message, to where it goes on with the answer of the process check.
unfoldable pub locked_message : Fields → String
unfolding get str
locked_message m =
    "task is locked by uuid " <> str (get "uuid" m) <> " (pid " <> str (get "pid" m) <> ")"

-- From the holder's record on.
unfoldable pub reclaim : Caller → Processes → Option Fields → Seen → Lock → Outcome Fields → Claimed
unfolding is_live get acquire locked_message
reclaim c os session seen lock (err e) = (seen.held, lock, err e)
reclaim c os session seen lock (ok m) =
    if is_live os session (integer_of (get "pid" m))
    then (seen.held, lock, err (lock_error (locked_message m)))
    else acquire c.pid c.utc c.path c.open_second seen.removed lock

pub reclaim-ok :
    (c : Caller) (os : Processes) (session : Option Fields) (seen : Seen) (lock : Lock) (m : Fields)
    → is_live os session (integer_of (get "pid" m)) ≡ true
    → reclaim c os session seen lock (ok m) ≡ (seen.held, lock, err (lock_error (locked_message m)))
unfolding reclaim
reclaim-ok c os session seen lock m h = rw h refl

-- `except util.LockError: pass`
unfoldable pub after_first : Caller → Processes → Option Fields → Seen → Claimed → Claimed
unfolding reclaim holder_fields
after_first c os session seen (content, lock, ok t) = (content, lock, ok t)
after_first c os session seen (content, lock, err (lock_error message)) =
    reclaim c os session seen lock (holder_fields seen.held)
after_first c os session seen (content, lock, err e) = (content, lock, err e)

-- `_acquire_task_lock`: what is at the path afterwards, the lock and the outcome.
unfoldable pub acquire_task_lock :
    Caller → Processes → Option Fields → Seen → String → String → Claimed
unfolding after_first acquire task_lock
acquire_task_lock c os session seen task_id uuid =
    after_first c os session seen
      (acquire c.pid c.utc c.path c.open_first seen.first (task_lock task_id uuid))
