-- ===== src/Runner/Evidence.antt =====
-- tools/k3/runner.py: what a report directory must contain, `_collect_sidecars` and
-- `_schema_requirements`. `required` maps a file name to the hash that is recorded for it, or `None`.
pub mod Named
pub mod Summary
pub mod Report
pub mod Inspected
pub mod Complete
pub mod Asked
pub mod Gate
mod Tests
use infra_loop_kda.Base.{
  ℕ, suc, ℤ, pos, negsuc, String, ◌<>◌, Bool, true, false, not, ◌&&◌, ◌||◌, Option, none, some,
  List, [], ◌∷◌, ◌++◌, ◌==◌, if◌then◌else◌, contains, ltb,
}
use infra_loop_kda.Base.Sorted.{sorted}
use infra_loop_kda.Base.Text.{ends_with, decimal}
use infra_loop_kda.Base.Outcome.{Outcome, ok, err, ◌>>=◌, type_error}
use infra_loop_kda.Json.{
  Json, null, bool, int, text, array, object, Items, nil, cons, Fields, end, field, get, lookup,
  put, set_default, truthy, equals_text,
}
use infra_loop_kda.Json.Checks.{integer_of}
use infra_loop_kda.Paths.{is_absolute}

-- `required` and `provenance`
pub record Walk : Type 0 where
  pub required : Fields
  pub provenance : Fields

abbrev pub is_object : Json → Bool
is_object (object m) = true
is_object _ = false

-- `digest if isinstance(digest, str) else None`
abbrev pub recorded_hash : Json → Json
recorded_hash (text s) = text s
recorded_hash _ = null

-- The entries of `reports_sha256`.
unfoldable pub add_hashes : Fields → Fields → Fields
unfolding put
add_hashes end required = required
add_hashes (field name digest m) required = add_hashes m (put name (recorded_hash digest) required)

unfoldable pub add_manifest : Json → Walk → Walk
unfolding add_hashes
add_manifest (object m) walk = record walk { required = add_hashes m walk.required }
add_manifest _ walk = walk

-- `SIDECAR_SUFFIXES`
unfoldable pub is_sidecar : String → Bool
unfolding ends_with
is_sidecar s = ends_with ".json" s || ends_with ".csv" s

-- The branch for a text.
unfoldable pub collect_text : String → String → Walk → Walk
unfolding is_absolute is_sidecar put set_default
collect_text s key walk =
    if s == ""
    then walk
    else if is_absolute s
    then record walk { provenance = put (if key == "" then s else key) (text s) walk.provenance }
    else if is_sidecar s
    then record walk { required = set_default s null walk.required }
    else walk

-- `_collect_sidecars`; what it adds to its two arguments is threaded through.
unfoldable mutual
  unfolding collect_text add_manifest

  pub collect_sidecars : Json → String → Walk → Walk
  collect_sidecars (object m) key walk = collect_fields m walk
  collect_sidecars (array vs) key walk = collect_items vs key walk
  collect_sidecars (text s) key walk = collect_text s key walk
  collect_sidecars null key walk = walk
  collect_sidecars (bool b) key walk = walk
  collect_sidecars (int z) key walk = walk

  pub collect_items : Items → String → Walk → Walk
  collect_items nil key walk = walk
  collect_items (cons v vs) key walk = collect_items vs key (collect_sidecars v key walk)

  pub collect_fields : Fields → Walk → Walk
  collect_fields end walk = walk
  collect_fields (field name v m) walk =
      let below = collect_sidecars v name walk in
      let listed = add_manifest v walk in
      collect_fields m (if name == "reports_sha256" && is_object v then listed else below)

pub data Schema : Type 0 where
  precision benchmark unknown_schema : Schema

-- `key in summary`
unfoldable pub has_key : String → Fields → Bool
unfolding lookup
has_key key m = elim (lookup key m) [ none ↦ false | some v ↦ true ]

-- `"%02d"`
unfoldable pub two_digits : ℤ → String
unfolding decimal
two_digits (pos n) = if ltb n 10 then "0" <> decimal n else decimal n
two_digits (negsuc n) = "-" <> decimal (suc n)

-- The name of a worker report, where the entry has a trial and an implementation.
unfoldable pub trial_name : Option ℤ → Json → List String
unfolding two_digits
trial_name (some trial) (text implementation) =
    ("trial-" <> two_digits trial <> "." <> implementation <> ".json") ∷ []
trial_name _ _ = []

unfoldable pub entry_names : Json → List String
unfolding get trial_name
entry_names (object m) = trial_name (integer_of (get "trial" m)) (get "implementation" m)
entry_names _ = []

unfoldable pub trial_names : Items → List String
unfolding entry_names
trial_names nil = []
trial_names (cons v vs) = entry_names v ++ trial_names vs

-- The entries of `summary.get("execution_order") or []`; the keys of a `dict` and the characters of
-- a text are texts, which the loop skips.
unfoldable pub order_of : Json → Outcome Items
order_of (array vs) = ok vs
order_of (object m) = ok nil
order_of (text s) = ok nil
order_of null = ok nil
order_of (bool b) = if b then err type_error else ok nil
order_of (int z) = if truthy (int z) then err type_error else ok nil

-- `set(names)`, as a list without repetition
unfoldable pub unique : List String → List String
unique [] = []
unique (x ∷ xs) = let rest = unique xs in if contains x rest then rest else x ∷ rest

-- `_schema_requirements`
unfoldable pub schema_requirements : Fields → Outcome (Schema × List String)
unfolding get has_key order_of trial_names unique sorted
schema_requirements summary =
    if equals_text (get "kind" summary) "accuracy_only_precision_diagnostic"
    then ok (precision, "per-field.csv" ∷ [])
    else if has_key "execution_order" summary
        || has_key "phase" summary
        || has_key "sources" summary
    then (do
      order ← order_of (get "execution_order" summary)
      ok (benchmark, sorted (unique ("correctness.json" ∷ trial_names order))))
    else ok (unknown_schema, [])
