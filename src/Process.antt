-- ===== src/Process.antt =====
-- tools/k3/util.py, the part on processes: `process_matches` over what `ps` and `kill` say of a pid.
pub mod Laws
mod Tests
use infra_loop_kda.Base.{
  ℤ, String, Bool, true, false, not, ◌&&◌, ◌||◌, Option, none, some, ◌==◌, if◌then◌else◌,
}
use infra_loop_kda.Base.Text.{strip}
use infra_loop_kda.Json.{Json, object, Fields, get, truthy}
use infra_loop_kda.Json.Repr.{str_or}

-- What the operating system knows of the processes at one moment: the line of `ps` for a pid, split
-- by `process_identity` into start time and command, and whether a signal 0 reaches the pid.
pub record Identity : Type 0 where
  pub lstart : String
  pub command : String

pub record Processes : Type 0 where
  pub identity : ℤ → Option Identity
  pub alive : ℤ → Bool

-- The answers of `process_matches`, one constructor for each return; `malformed` is the
-- `AttributeError` for a record that is true and no `dict`.
pub data Match : Type 0 where
  malformed not_recorded incomplete not_running unreadable recycled other_command matches : Match

abbrev pub is_match : Match → Bool
is_match matches = true
is_match _ = false

-- `str(identity.get(key) or "").strip()`
unfoldable pub part : String → Fields → String
part key m = strip (str_or (get key m) "")

-- The comparison with the process that runs now.
unfoldable pub compare_current : String → String → Option Identity → Match
compare_current start command none = not_running
compare_current start command (some now) =
    if strip now.lstart == "" || strip now.command == ""
    then unreadable
    else if not (strip now.lstart == start)
    then recycled
    else if not (strip now.command == command)
    then other_command
    else matches

-- `process_matches`
unfoldable pub process_matches : Processes → ℤ → Json → Match
process_matches os pid (object m) =
    if not (truthy (object m))
    then not_recorded
    else if part "lstart" m == "" || part "command" m == ""
    then incomplete
    else compare_current (part "lstart" m) (part "command" m) (os.identity pid)
process_matches os pid v = if truthy v then malformed else not_recorded
