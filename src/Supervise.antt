-- ===== src/Supervise.antt =====
-- tools/k3/supervise.py: the parts of `main`. It spawns one command, polls it, forwards a cancellation to its
-- process group and records how it ended. What the operating system answers is an argument: the
-- outcome of the spawn, a round of the polling loop, the group when it is drained, and the clock.
pub mod Main
pub mod Polling
pub mod Ending
mod Tests
use infra_loop_kda.Base.{
  ℕ, suc, ◌+◌, ◌<>◌, ℤ, pos, negsuc, String, Bool, true, false, not, ◌&&◌, Option, none, some, List,
  [], ◌∷◌, ◌++◌, if◌then◌else◌, leb,
}
use infra_loop_kda.Json.{
  Json, null, bool, int, text, array, object, Items, nil, cons, Fields, end, field, put,
}

-- `_CANCEL["signum"]` after the signals that arrived: the handler keeps the first one.
unfoldable pub handle : Option ℕ → List ℕ → Option ℕ
handle cancel [] = cancel
handle none (signum ∷ rest) = handle (some signum) rest
handle (some first) (signum ∷ rest) = handle (some first) rest

-- `_killpg`: whether the signal was sent, from what `os.killpg` would do.
unfoldable pub kill_group : Option ℕ → Bool → Bool
kill_group none sent = false
kill_group (some pgid) sent = sent

-- `record.update({...})`
unfoldable pub update : List (String × Json) → Fields → Fields
update [] m = m
update ((k, v) ∷ kvs) m = update kvs (put k v m)

abbrev pub texts : List String → Items
texts [] = nil
texts (s ∷ ss) = cons (text s) (texts ss)

-- One round of the loop: what arrived since the last one, what `poll` says, the two readings of the
-- monotonic clock (in milliseconds), whether `killpg` would reach the group, the time of day.
pub record Round : Type 0 where
  pub signals : List ℕ
  pub poll : Option ℤ
  pub now : ℕ
  pub reaches : Bool
  pub utc : String

-- `ESCALATE_AFTER`, in milliseconds
abbrev pub escalate_after : ℕ
escalate_after = 20000

-- The variables of the loop, with the records that were written to the status file, last first.
pub record Loop : Type 0 where
  pub cancel : Option ℕ
  pub cancel_sent : Bool
  pub escalated : Bool
  pub escalate_at : Option ℕ
  pub status : Fields
  pub writes : List Fields
  -- the signals that `_killpg` was called with in the loop, last first; 9 is SIGKILL
  pub sent : List ℕ

-- `escalate_at is not None and time.monotonic() >= escalate_at`
abbrev pub is_due : Option ℕ → ℕ → Bool
is_due none now = false
is_due (some at) now = leb at now

-- The branch that forwards a cancellation.
unfoldable pub forward : Option ℕ → ℕ → Round → Loop → Loop
unfolding update kill_group
forward pgid signum r s =
    let status =
      update
        (("state", text "cancelling")
          ∷ ("received_signal", int (pos signum))
          ∷ ("cancel_requested_at", text r.utc)
          ∷ ("cancelled", bool true)
          ∷ ("signalled_process_group", bool (kill_group pgid r.reaches))
          ∷ [])
        s.status in
    record s {
      cancel_sent = true;
      escalate_at = some (r.now + escalate_after);
      status = status;
      writes = status ∷ s.writes;
      sent = signum ∷ s.sent;
    }

-- The branch that escalates to SIGKILL.
unfoldable pub escalate : Option ℕ → Round → Loop → Loop
unfolding kill_group
escalate pgid r s =
    let status = put "escalated_to_sigkill" (bool (kill_group pgid r.reaches)) s.status in
    record s { escalated = true; status = status; writes = status ∷ s.writes; sent = 9 ∷ s.sent }

-- The `elif` with its condition.
unfoldable pub try_escalate : Option ℕ → Round → Loop → Loop
try_escalate pgid r s =
    if s.cancel_sent && not s.escalated && is_due s.escalate_at r.now then escalate pgid r s else s

-- The body of the loop after `poll` has returned `None`.
unfoldable pub act : Option ℕ → Round → Option ℕ → Loop → Loop
act pgid r none s = try_escalate pgid r s
act pgid r (some signum) s =
    if not s.cancel_sent then forward pgid signum r s else try_escalate pgid r s

-- The loop: `none` while the child still runs when the rounds are over, else the return code and
-- the variables at the `break`.
unfoldable pub poll_loop : Option ℕ → List Round → Loop → Option (ℤ × Loop)
poll_loop pgid [] s = none
poll_loop pgid (r ∷ rounds) s =
    let s' = record s { cancel = handle s.cancel r.signals } in
    let rest = poll_loop pgid rounds (act pgid r s'.cancel s') in
    elim r.poll [ some code ↦ some (code, s') | none ↦ rest ]

-- The details that `_drain_group` returns.
pub data Drained : Type 0 where
  no_group group_empty left_running drained_after_kill still_members : Drained

abbrev pub detail_text : Drained → String
detail_text no_group = "no process group recorded"
detail_text group_empty = "process group is empty"
detail_text left_running =
    "descendants remain in the child's process group after a normal exit; they were reported, not killed"
detail_text drained_after_kill = "process group drained after SIGKILL"
detail_text still_members = "process group still has members after SIGKILL"

-- The loop of `_drain_group`: the answers of `_group_alive` until the deadline.
unfoldable pub wait_drained : List Bool → Bool × Drained
wait_drained [] = (false, still_members)
wait_drained (alive ∷ later) = elim alive [
  | false ↦ (true, drained_after_kill)
  | true ↦ wait_drained later
]

-- `_drain_group`, from the first answer of `_group_alive` and those after SIGKILL.
unfoldable pub drain_group : Option ℕ → Bool → Bool → List Bool → Bool × Drained
unfolding wait_drained
drain_group none kill alive later = (true, no_group)
drain_group (some pgid) kill false later = (true, group_empty)
drain_group (some pgid) false true later = (false, left_running)
drain_group (some pgid) true true later = wait_drained later

-- `record` as `main` first writes it.
unfoldable pub initial : List String → String → ℕ → String → Fields
initial command cwd supervisor_pid utc = field "schema" (text "k3ctl/run-status/3") (
    field "state" (text "starting") (
      field "argv" (array (texts command)) (
        field "cwd" (text cwd) (
          field "supervisor_pid" (int (pos supervisor_pid)) (
            field "child_pid" null (
              field "child_pgid" null (
                field "child_identity" null (
                  field "started_at" (text utc) (
                    field "finished_at" null (
                      field "exit_code" null (
                        field "signal" null (
                          field "received_signal" null (
                            field "exited_normally" null (
                              field "cancelled" (bool false) (
                                field "escalated_to_sigkill" (bool false) (
                                  field "descendants_cleared" null
                                    (field "descendants_detail" null end)))))))))))))))))

-- `-returncode` of a command that a signal ended
unfoldable pub signal_of : ℤ → ℕ
signal_of (pos n) = n
signal_of (negsuc n) = suc n

-- The update on the return code, after the loop.
unfoldable pub ending : ℤ → Bool → List (String × Json)
ending (negsuc n) cancel_sent =
    ("state", text (if cancel_sent then "cancelled" else "signalled"))
    ∷ ("signal", int (pos (suc n)))
    ∷ ("exit_code", int (negsuc n))
    ∷ ("exited_normally", bool false)
    ∷ []
ending (pos n) cancel_sent =
    ("state", text (if cancel_sent then "cancelled" else "exited"))
    ∷ ("exit_code", int (pos n))
    ∷ ("exited_normally", bool (not cancel_sent))
    ∷ []

-- The record that is written last.
unfoldable pub final_record : ℤ → Bool → Bool × Drained → String → String → Fields → Fields
unfolding update ending
final_record code cancel_sent drained utc note m = put "note" (text note) (
    update (ending code cancel_sent) (
      update
        (("finished_at", text utc)
          ∷ ("descendants_cleared", bool drained.0)
          ∷ ("descendants_detail", text (detail_text drained.1))
          ∷ [])
        m))

-- `return returncode if returncode >= 0 else 128 + (-returncode)`
unfoldable pub exit_status : ℤ → ℕ
exit_status (pos n) = n
exit_status (negsuc n) = 128 + suc n
