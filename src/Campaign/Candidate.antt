-- ===== src/Campaign/Candidate.antt =====
-- tools/k3/campaign.py: `add_candidate`, `load` and `save`.
use infra_loop_kda.Base.{
  ℕ, ◌<>◌, ℤ, pos, ltb, String, Bool, true, false, not, List, [], ◌∷◌, ◌==◌, if◌then◌else◌,
  is_empty,
}
use infra_loop_kda.Base.Text.{strip, join}
use infra_loop_kda.Base.Outcome.{
  Outcome, ok, err, ◌>>=◌, ◌>>◌, require, tool_error, attribute_error,
}
use infra_loop_kda.Json.{
  Json, int, array, object, Items, nil, cons, Fields, get, put, append, count, set_default,
  equals_text,
}
use infra_loop_kda.Json.Number.{to_int}
use infra_loop_kda.Json.Repr.{str_or}
use infra_loop_kda.Campaign.{validate, require_valid, items_of}

-- `record["status"] in (RUNNING, CANDIDATE_READY)`
abbrev pub is_open : Json → Bool
is_open (Json.text s) = if s == "running" then true else s == "candidate_ready"
is_open _ = false

-- `any(c.get("candidate_id") == candidate_id for c in candidates)`; a candidate that is no `dict`
-- has no `get`.
unfoldable pub has_candidate : String → Items → Outcome Bool
unfolding get
has_candidate id nil = ok false
has_candidate id (cons (object c) vs) =
    let rest = has_candidate id vs in
    if equals_text (get "candidate_id" c) id then ok true else rest
has_candidate id (cons _ vs) = err attribute_error

-- `len(candidates) >= int(max_candidates)`
unfoldable pub budget_left : ℕ → ℤ → Bool
budget_left n (pos limit) = ltb n limit
budget_left n (ℤ.negsuc k) = false

-- `str(candidate.get(key) or "").strip()`
unfoldable pub field_text : String → Fields → String
unfolding str_or strip get
field_text key c = strip (str_or (get key c) "")

unfoldable pub require_fields : List String → Fields → Outcome (Unit {0})
unfolding field_text
require_fields [] c = ok tt
require_fields (key ∷ keys) c = do
  require (not (field_text key c == "")) (tool_error ("candidate." <> key <> " is required"))
  require_fields keys c

abbrev pub lanes : List String
lanes = "search_lane" ∷ "diagnosis_ref" ∷ "limiter_class" ∷ []

-- The checks before the candidate is touched. They give the trimmed identifier.
unfoldable pub check_candidate : Fields → Fields → Outcome String
unfolding require_valid budget_left field_text require_fields to_int get
check_candidate m c = do
  require_valid m
  require (is_open (get "status" m)) (tool_error "candidates can only be attached while running")
  limit ← to_int (get "max_candidates" m)
  require (budget_left (count (items_of (get "candidates" m))) limit)
      (tool_error "candidate budget exhausted")
  require (not (field_text "candidate_id" c == "")) (tool_error "candidate_id is required")
  require_fields lanes c
  require (equals_text (get "gate_version" m) (field_text "gate_version" c))
      (tool_error "candidate gate_version must match campaign gate_version")
  ok (field_text "candidate_id" c)

-- The end of `add_candidate`, on the candidate with its default.
unfoldable pub attach : String → Fields → Fields → Outcome Fields
unfolding has_candidate append put get
attach id m c =
    let vs = items_of (get "candidates" m) in
    do
      taken ← has_candidate id vs
      require (not taken) (tool_error ("duplicate candidate_id: " <> id))
      ok (
          put "candidate_count" (int (pos (count (append vs (object c)))))
            (put "candidates" (array (append vs (object c))) m))

-- `candidate.setdefault("repro_count", 0)`
unfoldable pub with_repro_count : Fields → Fields
unfolding set_default
with_repro_count c = set_default "repro_count" (int (pos 0)) c

-- What follows the checks. `candidate.setdefault` writes to the caller's `dict`, also where the
-- call then raises: the first part of the result is that `dict` after the call.
unfoldable pub finish : Fields → Fields → Outcome String → Fields × Outcome Fields
unfolding with_repro_count attach
finish m c (err e) = (c, err e)
finish m c (ok id) = (with_repro_count c, attach id m (with_repro_count c))

-- `add_candidate`
unfoldable pub add_candidate : Fields → Fields → Fields × Outcome Fields
unfolding check_candidate finish
add_candidate m c = finish m c (check_candidate m c)

-- `load`, from what `util.read_json` gave; `path` is the file's name.
unfoldable pub load : String → Json → Outcome Fields
unfolding validate join
load path (object m) = do
  errors ← validate m
  require (is_empty errors) (tool_error ("invalid campaign " <> path <> ": " <> join "; " errors))
  ok m
load path v = err (tool_error ("campaign file must contain a JSON object: " <> path))

-- `save`: the document that is handed to `util.write_json`.
unfoldable pub save : Fields → Outcome Json
unfolding require_valid
save m = do require_valid m; ok (object m)
