-- ===== src/Tuning.antt =====
-- tools/k3/tuning.py: the check of a tuning manifest and its expansion into numbered trials. The
-- digest of a configuration, `util.sha256_json`, is an argument.
pub mod Grid
pub mod Manifest
mod Tests
use infra_loop_kda.Base.{
  ℕ, suc, pos, String, ◌<>◌, Bool, true, false, not, ◌&&◌, ◌||◌, List, [], ◌∷◌, ◌++◌, map,
  if◌then◌else◌, ltb, nat_beq, is_empty,
}
use infra_loop_kda.Base.Sorted.{sorted}
use infra_loop_kda.Base.Text.{join}
use infra_loop_kda.Base.Outcome.{Outcome, ok, err, ◌>>=◌, ◌>>◌, require, tool_error}
use infra_loop_kda.Json.{
  keys_of, Json, int, text, object, Items, Fields, end, field, get, put, values, equals_nat,
}
use infra_loop_kda.Json.Checks.{note, is_missing, is_nonempty_list, is_integer, items_of}

-- The loop on the items of a search space.
unfoldable pub space_errors : Fields → List String
unfolding note
space_errors end = []
space_errors (field k v m) =
    note (not (is_nonempty_list v)) ("search_space." <> k <> " must be a non-empty list")
    ++ space_errors m

unfoldable pub search_errors : Json → List String
unfolding space_errors
search_errors (object (field k v m)) = space_errors (field k v m)
search_errors _ = "search_space must be a non-empty object" ∷ []

-- `validate_manifest`
unfoldable pub validate_manifest : Fields → List String
unfolding note is_missing search_errors get
validate_manifest m =
    note (not (equals_nat (get "schema_version" m) 1)) "schema_version must be 1"
    ++ (note (is_missing "kernel" m) "kernel is required"
        ++ (search_errors (get "search_space" m)
            ++ (note (is_missing "gate_version" m) "gate_version is required"
                ++ note (not (is_integer (get "seed" m))) "seed must be an integer")))

-- The first lines of `expand` and the last of `load`.
unfoldable pub require_valid : Fields → Outcome (Unit {0})
unfolding validate_manifest join
require_valid m =
    require (is_empty (validate_manifest m))
      (tool_error ("invalid tuning manifest: " <> join "; " (validate_manifest m)))

-- `manifest["search_space"]` of a manifest that was found valid
abbrev pub space_of : Json → Fields
space_of (object m) = m
space_of _ = end

-- `[manifest["search_space"][key] for key in keys]`
unfoldable pub choices : Fields → List String → List (List Json)
unfolding get
choices space [] = []
choices space (k ∷ ks) = values (items_of (get k space)) ∷ choices space ks

-- Each of the values before each of the combinations.
unfoldable pub prefixed : List Json → List (List Json) → List (List Json)
prefixed [] rests = []
prefixed (v ∷ vs) rests = map (λ rest. v ∷ rest) rests ++ prefixed vs rests

-- `itertools.product`; the last list varies fastest.
unfoldable pub product : List (List Json) → List (List Json)
unfolding prefixed
product [] = [] ∷ []
product (vs ∷ vss) = prefixed vs (product vss)

-- `dict(zip(keys, combination))`, added to what is there.
unfoldable pub dict_of : List String → List Json → Fields → Fields
unfolding put
dict_of (k ∷ ks) (v ∷ vs) m = dict_of ks vs (put k v m)
dict_of _ _ m = m

-- One element of the result.
unfoldable pub trial : (Fields → String) → Fields → List String → ℕ → List Json → Json
unfolding dict_of get
trial hash m keys index combination =
    let config = dict_of keys combination end in
    object (
      field "trial" (int (pos index)) (
        field "seed" (get "seed" m) (
          field "kernel" (get "kernel" m) (
            field "gate_version" (get "gate_version" m)
              (field "config" (object config) (field "config_hash" (text (hash config)) end))))))

-- The loop on `enumerate(...)`, from an index on.
unfoldable pub number : (Fields → String) → Fields → List String → ℕ → List (List Json) → List Json
unfolding trial
number hash m keys index [] = []
number hash m keys index (c ∷ cs) = trial hash m keys index c ∷ number hash m keys (suc index) cs

-- `expand`
unfoldable pub expand : (Fields → String) → Fields → Outcome (List Json)
unfolding require_valid sorted choices product number
expand hash m = do
  require_valid m
  let space = space_of (get "search_space" m)
  let keys = sorted (keys_of space)
  ok (number hash m keys 0 (product (choices space keys)))

-- `load`, from the document that `util.read_json` parsed.
unfoldable pub load : String → Json → Outcome Fields
unfolding require_valid
load path (object m) = do require_valid m; ok m
load path _ = err (tool_error ("tuning manifest must be a JSON object: " <> path))
