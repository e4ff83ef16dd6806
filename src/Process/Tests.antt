-- ===== src/Process/Tests.antt =====
-- `process_matches` on one running process.
use infra_loop_kda.Base.{◌≡◌, ◌≢◌, refl, true, some, pos}
use infra_loop_kda.Base.Text.{strip}
use infra_loop_kda.Json.{Json, object, text, Fields, end, field, get, lookup}
use infra_loop_kda.Json.Repr.{str, str_or}
use infra_loop_kda.Process.{Identity, Processes, recycled, part, compare_current, process_matches}
use infra_loop_kda.Process.Laws.{process_matches_lem}

runs : Unit {0}
unfolding process_matches compare_current part get lookup str str_or strip
runs = tt

abbrev interpreter : Processes
interpreter = record {
  identity = λ pid. some (record { lstart = " Mon"; command = "python3" });
  alive = λ pid. true;
}

abbrev started : Json
started = object (field "lstart" (text "Mon") (field "command" (text "python3 ") end))

-- A process that began at another time has got the pid since.
recycled_pid :
    process_matches interpreter
      (pos 7)
      (object (field "lstart" (text "Sun") (field "command" (text "python3") end)))
    ≡ recycled
unfolding runs
recycled_pid = refl

process_matches_lem_example :
    (m : Fields) × (now : Identity) × (started ≡ object m)
    × (part "lstart" m ≢ "")
    × (part "command" m ≢ "")
    × (interpreter.identity (pos 7) ≡ some now)
    × (strip now.lstart ≡ part "lstart" m)
    × (strip now.command ≡ part "command" m)
unfolding runs
process_matches_lem_example = process_matches_lem interpreter (pos 7) started refl
