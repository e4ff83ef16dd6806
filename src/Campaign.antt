-- ===== src/Campaign.antt =====
-- tools/k3/campaign.py: the record of an optimization campaign and its transitions; its
-- candidates and its file are in the modules below.
-- A record is the `dict` that the functions pass on; the clock's text is an argument.
pub mod Candidate
pub mod Valid
pub mod Keeps
pub mod Attach
pub mod Trail
pub mod Promotion
pub mod Results
pub mod Padded
mod Tests
use infra_loop_kda.Base.{
  ℕ, ◌<>◌, ℤ, pos, is_negative, int_beq, ltb, String, Bool, true, false, not, ◌||◌, Option, none,
  some, List, [], ◌∷◌, ◌++◌, ◌==◌, if◌then◌else◌, contains, is_empty,
}
use infra_loop_kda.Base.Text.{is_blank, contains_text, join}
use infra_loop_kda.Base.Outcome.{Outcome, ok, ◌>>=◌, ◌>>◌, require, tool_error}
use infra_loop_kda.Json.{
  Json, null, int, text, array, object, Items, nil, cons, Fields, end, field, get, put, append,
  count, equals_nat,
}
use infra_loop_kda.Json.Number.{to_int_or_zero}
unfoldable pub use infra_loop_kda.Json.Checks.{note, is_missing, is_nonempty_list, items_of}
use infra_loop_kda.Json.Repr.{str, str_or, repr}

abbrev pub known : List String
known =
    "prepared" ∷ "running" ∷ "candidate_ready" ∷ "verified" ∷ "promoted" ∷ "rejected" ∷ "blocked"
    ∷ []

-- `TRANSITIONS[current]`; the module asks it for known states only.
unfoldable pub transitions : String → List String
transitions current =
    if current == "prepared"
    then "running" ∷ "blocked" ∷ []
    else if current == "running"
    then "candidate_ready" ∷ "blocked" ∷ []
    else if current == "candidate_ready"
    then "running" ∷ "verified" ∷ "blocked" ∷ []
    else if current == "verified"
    then "promoted" ∷ "rejected" ∷ "blocked" ∷ []
    else if current == "blocked"
    then "prepared" ∷ "running" ∷ []
    else []

abbrev identity_keys : List String
identity_keys = "campaign_id" ∷ "task_id" ∷ "base_commit" ∷ "workload_hash" ∷ "gate_version" ∷ []

-- An entry of `history`; `reason` is left out where it is `None` or empty.
unfoldable pub history_event : Json → String → String → String → Option String → Json
history_event from target now actor reason =
    let event =
      field "from" from
        (field "to" (text target) (field "at" (text now) (field "actor" (text actor) end))) in
    elim reason [
      | none ↦ object event
      | some why ↦ object (if why == "" then event else put "reason" (text why) event)
    ]

-- The record that `new` returns.
unfoldable pub initial : String → String → String → String → String → String → ℤ → Fields
unfolding history_event
initial now campaign_id task_id base_commit workload_hash gate_version max_candidates =
    field "schema_version" (int (pos 1)) (
      field "campaign_id" (text campaign_id) (
        field "task_id" (text task_id) (
          field "base_commit" (text base_commit) (
            field "workload_hash" (text workload_hash) (
              field "gate_version" (text gate_version) (
                field "max_candidates" (int max_candidates) (
                  field "status" (text "prepared") (
                    field "candidate_count" (int (pos 0)) (
                      field "candidates" (array nil) (
                        field "history"
                          (array (cons (history_event null "prepared" now "orchestrator" none) nil))
                          end))))))))))

-- `new`
unfoldable pub new : String → String → String → String → String → String → ℤ → Outcome Fields
new now campaign_id task_id base_commit workload_hash gate_version max_candidates = do
  require
      (not (campaign_id == "" || contains_text "/" campaign_id || contains_text ".." campaign_id))
      (tool_error "campaign_id must be a single safe identifier")
  require (not (task_id == "" || base_commit == "" || workload_hash == "" || gate_version == ""))
      (tool_error "task, base, workload and gate identities are required")
  require (not (is_negative max_candidates || int_beq max_candidates (pos 0)))
      (tool_error "max_candidates must be positive")
  ok (initial now campaign_id task_id base_commit workload_hash gate_version max_candidates)

-- `status not in KNOWN`, for a value of any type
abbrev pub is_known : Json → Bool
is_known (text s) = contains s known
is_known _ = false

unfoldable pub missing_keys : List String → Fields → List String
unfolding is_missing note
missing_keys [] m = []
missing_keys (key ∷ keys) m = note (is_missing key m) ("missing " <> key) ++ missing_keys keys m

-- `limit < 1 or len(candidates) > limit`
unfoldable pub exceeds : ℕ → ℤ → Bool
exceeds n (pos limit) = ltb limit 1 || ltb limit n
exceeds n (ℤ.negsuc k) = true

-- The checks on a list of candidates, by its length and `max_candidates`.
unfoldable pub list_errors : Fields → ℕ → Outcome (List String)
unfolding get to_int_or_zero exceeds note
list_errors m n = do
  limit ← to_int_or_zero (get "max_candidates" m)
  ok (
      note (not (equals_nat (get "candidate_count" m) n))
        "candidate_count does not match candidates"
      ++ note (exceeds n limit) "candidate count exceeds max_candidates")

unfoldable pub candidate_errors : Fields → Json → Outcome (List String)
unfolding list_errors
candidate_errors m (array vs) = list_errors m (count vs)
candidate_errors m _ = ok ("candidates must be a list" ∷ [])

-- `validate`; it raises where `int` does on `max_candidates`.
unfoldable pub validate : Fields → Outcome (List String)
unfolding missing_keys candidate_errors repr get note
validate m = do
  candidates ← candidate_errors m (get "candidates" m)
  ok (
      note (not (equals_nat (get "schema_version" m) 1)) "schema_version must be 1"
      ++ (note (not (is_known (get "status" m)))
            ("unknown campaign status: " <> repr (get "status" m))
          ++ (missing_keys identity_keys m
              ++ (candidates
                  ++ note (not (is_nonempty_list (get "history" m)))
                      "history must be a non-empty list"))))

-- The first lines of `transition`, `add_candidate`, `load` and `save`.
unfoldable pub require_valid : Fields → Outcome (Unit {0})
unfolding validate join
require_valid m = do
  errors ← validate m
  require (is_empty errors) (tool_error ("invalid campaign: " <> join "; " errors))

-- The copy that `transition` returns.
unfoldable pub advance : String → Fields → String → String → Option String → Fields
unfolding str history_event put append get
advance now m target actor reason =
    put "history"
      (array (
        append (items_of (get "history" m))
          (history_event (text (str (get "status" m))) target now actor reason)))
      (put "status" (text target) m)

-- `transition`
unfoldable pub transition : String → Fields → String → String → Option String → Outcome Fields
unfolding require_valid transitions advance
transition now m target actor reason = do
  require_valid m
  let current = str (get "status" m)
  require (contains target known) (tool_error ("unknown campaign status: " <> target))
  require (contains target (transitions current))
      (tool_error ("invalid campaign transition: " <> current <> " -> " <> target))
  ok (advance now m target actor reason)
