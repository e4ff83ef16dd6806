-- ===== src/Process/Laws.antt =====
-- `process_matches` agrees only with a full record of the process that runs under the pid.
use infra_loop_kda.Base.{
  ℤ, Bool, true, false, if◌then◌else◌, ◌==◌, String, ◌≡◌, ◌≢◌, refl, sym, subst, eq_refl, some,
  none, arith, eq_iff, Option,
}
use infra_loop_kda.Base.Text.{strip}
use infra_loop_kda.Json.{Json, object, Fields, end, field, get, lookup, truthy}
use infra_loop_kda.Json.Repr.{str_or}
use infra_loop_kda.Process.{
  Identity, Processes, malformed, not_recorded, matches, is_match, part, compare_current,
  process_matches,
}

compare_current-matches :
    (start command : String) (current : Option Identity)
    → compare_current start command current ≡ matches
    → (now : Identity) × (current ≡ some now)
      × (strip now.lstart ≡ start)
      × (strip now.command ≡ command)
unfolding compare_current
compare_current-matches start command none h = cc
compare_current-matches start command (some now) h = (
  now,
  refl,
  ground (arith, eq_iff (strip now.lstart) start),
  ground (arith, eq_iff (strip now.command) command),
)

no_dict : (b : Bool) → (if b then malformed else not_recorded) ≢ matches
no_dict true h = cc
no_dict false h = cc

-- `process_matches` says that a pid matches only if the record is a `dict` with a start time and a
-- command that are not blank, and a process runs under the pid with the same start time and command.
pub process_matches_lem :
    (os : Processes) (pid : ℤ) (recorded : Json)
    → process_matches os pid recorded ≡ matches
    → (m : Fields) × (now : Identity) × (recorded ≡ object m)
      × (part "lstart" m ≢ "")
      × (part "command" m ≢ "")
      × (os.identity pid ≡ some now)
      × (strip now.lstart ≡ part "lstart" m)
      × (strip now.command ≡ part "command" m)
unfolding process_matches
process_matches_lem os pid (object m) h =
    let (now, running, start, command) =
      compare_current-matches (part "lstart" m) (part "command" m) (os.identity pid)
        (ground arith) in
    (
      m,
      now,
      refl,
      ground (arith, eq_iff (part "lstart" m) ""),
      ground (arith, eq_iff (part "command" m) ""),
      running,
      start,
      command,
    )
process_matches_lem os pid v h = absurd (no_dict (truthy v) h)

-- The process that runs under the pid is the recorded one: `ps` shows the start time and the command
-- that are recorded, neither of them blank.
pub record IsSame (os : Processes) (pid : ℤ) (recorded : Json) : Type 0 where
  pub fields : Fields
  pub is_dict : recorded ≡ object fields
  pub now : Identity
  pub runs : os.identity pid ≡ some now
  pub start_known : (part "lstart" fields == "") ≡ false
  pub command_known : (part "command" fields == "") ≡ false
  pub same_start : strip now.lstart ≡ part "lstart" fields
  pub same_command : strip now.command ≡ part "command" fields

compare_current-same :
    (start command : String) (now : Identity)
    → (start == "") ≡ false
    → (command == "") ≡ false
    → strip now.lstart ≡ start
    → strip now.command ≡ command
    → compare_current start command (some now) ≡ matches
unfolding compare_current
compare_current-same start command now a b same_start same_command =
    rw (same_start, same_command, a, b, eq_refl start, eq_refl command) refl

part-end : (key : String) → (part key end == "") ≡ true
unfolding part get lookup str_or strip
part-end key = refl

truthy-part : (key : String) (m : Fields) → (part key m == "") ≡ false → truthy (object m) ≡ true
truthy-part key end h = cc (part-end key, h)
truthy-part key (field k v m) h = refl

-- The recorded process is recognized.
pub IsSame-matches :
    (os : Processes) (pid : ℤ) (recorded : Json)
    → IsSame os pid recorded
    → is_match (process_matches os pid recorded) ≡ true
unfolding process_matches
IsSame-matches os pid recorded s =
    subst (λ v. is_match (process_matches os pid v) ≡ true) (sym s.is_dict)
      (rw
        (
          truthy-part "lstart" s.fields s.start_known,
          s.start_known,
          s.command_known,
          s.runs,
          compare_current-same (part "lstart" s.fields) (part "command" s.fields) s.now
              s.start_known s.command_known s.same_start s.same_command,
        )
        refl)

-- A recorded identity is not nothing.
pub IsSame-truthy :
    (os : Processes) (pid : ℤ) (recorded : Json) → IsSame os pid recorded → truthy recorded ≡ true
IsSame-truthy os pid recorded s =
    subst (λ v. truthy v ≡ true) (sym s.is_dict) (truthy-part "lstart" s.fields s.start_known)
