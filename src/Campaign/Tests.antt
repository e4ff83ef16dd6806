-- ===== src/Campaign/Tests.antt =====
-- Runs of a campaign from `new` to its promotion, and the theorems at concrete records.
use infra_loop_kda.Base.{
  ◌++◌, ◌+◌, ◌≢◌, String, ◌≡◌, ◌↔◌, refl, true, false, List, [], ◌∷◌, none, some, pos, arith, ℕ,
  ◌≤◌, All, Option,
}
use infra_loop_kda.Base.Text.{is_blank, contains_text, strip, join}
use infra_loop_kda.Base.Outcome.{Outcome, ok, err, tool_error}
use infra_loop_kda.Json.{
  Json, text, object, Fields, end, field, lookup, get, put, append, set_default, values, count,
}
use infra_loop_kda.Json.Number.{to_int, to_int_or_zero}
use infra_loop_kda.Json.Repr.{str, str_or}
use infra_loop_kda.Campaign.{
  new, initial, transition, advance, transitions, validate, missing_keys, candidate_errors,
  list_errors, history_event, items_of, require_valid,
}
use infra_loop_kda.Campaign.Candidate.{
  add_candidate, check_candidate, attach, finish, with_repro_count, require_fields, field_text,
  has_candidate, budget_left, load, save, is_open,
}
use infra_loop_kda.Campaign.Trail.{
  Reachable, created, moved, extended, HasTrail, Reachable-HasTrail,
}
use infra_loop_kda.Campaign.Keeps.{SameIdentity}
use infra_loop_kda.Campaign.Promotion.{promoted-verified, final_campaign}
use infra_loop_kda.Campaign.Results.{
  transition-validate, add_candidate-validate, load-save, new-validate,
}
use infra_loop_kda.Campaign.Padded.{padded_twice}

-- What the runs below compute with.
runs : Unit {0}
unfolding new initial contains_text transition advance transitions validate missing_keys
    candidate_errors list_errors history_event require_valid add_candidate check_candidate attach
    finish with_repro_count require_fields field_text has_candidate budget_left load save lookup get
    put append set_default to_int to_int_or_zero str str_or is_blank strip join
runs = tt

abbrev start : Outcome Fields
start = new "t0" "c1" "task" "abc" "w" "g1" (pos 2)

opened : Fields
unfolding runs
opened = initial "t0" "c1" "task" "abc" "w" "g1" (pos 2)

running : Fields
unfolding runs opened
running = advance "t1" opened "running" "orchestrator" none

-- A candidate whose identifier is given.
abbrev candidate : String → Fields
candidate id = field "candidate_id" (text id) (
    field "search_lane" (text "tuner") (
      field "diagnosis_ref" (text "d1")
        (field "limiter_class" (text "occupancy") (field "gate_version" (text "g1") end))))

attached : Fields
unfolding runs running
attached = elim (add_candidate running (candidate "k1")).1 [ ok m ↦ m | err e ↦ end ]

ready : Fields
unfolding runs attached
ready = advance "t2" attached "candidate_ready" "agent" none

checked : Fields
unfolding runs ready
checked = advance "t3" ready "verified" "evaluator" (some "gates passed")

promoted : Fields
unfolding runs checked
promoted = advance "t4" checked "promoted" "human" none

opened_Reachable : Reachable opened
unfolding runs opened
opened_Reachable = created "t0" "c1" "task" "abc" "w" "g1" (pos 2) refl

running-Reachable : Reachable running
unfolding running
running-Reachable = moved "t1" opened "running" "orchestrator" none opened_Reachable refl

attached-Reachable : Reachable attached
unfolding attached
attached-Reachable = extended running (candidate "k1") running-Reachable refl

ready-Reachable : Reachable ready
unfolding ready
ready-Reachable = moved "t2" attached "candidate_ready" "agent" none attached-Reachable refl

checked-Reachable : Reachable checked
unfolding checked
checked-Reachable =
    moved "t3" ready "verified" "evaluator" (some "gates passed") ready-Reachable refl

promoted-Reachable : Reachable promoted
unfolding promoted
promoted-Reachable = moved "t4" checked "promoted" "human" none checked-Reachable refl

Reachable-HasTrail_example : HasTrail checked
Reachable-HasTrail_example = Reachable-HasTrail checked-Reachable

promoted-verified_example :
    (earlier : List Json) × (now : String) × (actor : String) × (reason : Option String)
    × (now' : String) × (actor' : String) × (reason' : Option String) × (values
          (items_of (get "history" promoted))
        ≡ (earlier ++ history_event (text "candidate_ready") "verified" now actor reason ∷ [])
          ++ history_event (text "verified") "promoted" now' actor' reason' ∷ [])
unfolding promoted
promoted-verified_example = promoted-verified promoted-Reachable refl

final_campaign_example :
    (transition "t5" promoted "running" "agent" none ≢ ok running)
    × ((add_candidate promoted (candidate "k2")).1 ≢ ok running)
unfolding promoted
final_campaign_example =
    final_campaign promoted "promoted" refl refl "t5" "running" "agent" none (candidate "k2")
      running

transition-validate_example :
    (validate running ≡ ok [])
    × (get "status" running ≡ text "running")
    × SameIdentity opened running
unfolding running
transition-validate_example = transition-validate "t1" opened "running" "orchestrator" none refl

add_candidate-validate_example :
    (validate attached ≡ ok [])
    × (get "status" attached ≡ get "status" running)
    × SameIdentity running attached
    × (count (items_of (get "candidates" attached))
        ≡ count (items_of (get "candidates" running)) + 1)
    × ((limit : ℕ) × (to_int (get "max_candidates" running) ≡ ok (pos limit))
        × (count (items_of (get "candidates" attached)) ≤ limit))
    × (is_open (get "status" running) ≡ true)
    × (get "gate_version" running ≡ text (field_text "gate_version" (candidate "k1")))
unfolding attached
add_candidate-validate_example = add_candidate-validate running (candidate "k1") refl

load-save_example : load "campaign.json" (object running) ≡ ok running
unfolding running
load-save_example = load-save "campaign.json" running refl

new-validate_example :
    (validate opened ≡ ok [])
    ↔ All (λ s. is_blank s ≡ false) ("c1" ∷ "task" ∷ "abc" ∷ "w" ∷ "g1" ∷ [])
unfolding opened
new-validate_example = new-validate "t0" "c1" "task" "abc" "w" "g1" (pos 2) refl

-- `new` accepts an identifier of one space, and `validate` then reports it.
new_blank :
    (new "t0" " " "task" "abc" "w" "g1" (pos 2)
      ≡ ok (initial "t0" " " "task" "abc" "w" "g1" (pos 2)))
    × (validate (initial "t0" " " "task" "abc" "w" "g1" (pos 2)) ≡ ok ("missing campaign_id" ∷ []))
unfolding runs
new_blank = (refl, refl)

padded_once : Fields
unfolding runs running
padded_once = elim (add_candidate running (candidate " k1")).1 [ ok m ↦ m | err e ↦ end ]

padded_twice_example :
    (m'' : Fields) × ((add_candidate padded_once (candidate " k1")).1 ≡ ok m'')
    × (count (items_of (get "candidates" m'')) ≡ count (items_of (get "candidates" running)) + 2)
unfolding padded_once
padded_twice_example =
    padded_twice running (candidate " k1") " k1" 2 refl refl refl refl (omega arith)

-- The same identifier without white space is refused, and the default is set all the same.
duplicate :
    add_candidate attached (candidate "k1")
    ≡ (with_repro_count (candidate "k1"), err (tool_error "duplicate candidate_id: k1"))
unfolding attached
duplicate = refl

skipped_gate :
    transition "t2" running "promoted" "agent" none
    ≡ err (tool_error "invalid campaign transition: running -> promoted")
unfolding running
skipped_gate = refl
