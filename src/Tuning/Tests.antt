-- ===== src/Tuning/Tests.antt =====
-- A grid of two parameters.
use infra_loop_kda.Base.{◌≤◌, length, ◌≡◌, refl, ℤ, pos, List, [], ◌∷◌, map, String}
use infra_loop_kda.Base.Outcome.{ok, err}
use infra_loop_kda.Base.Text.{is_blank}
use infra_loop_kda.Json.{
  Json, null, int, text, array, object, nil, cons, Fields, end, field, get, lookup, put,
}
use infra_loop_kda.Json.Checks.{note, is_missing}
use infra_loop_kda.Json.Repr.{str, str_or}
use infra_loop_kda.Tuning.{
  require_valid, space_errors, search_errors, validate_manifest, choices, prefixed, product,
  dict_of, trial, number, expand,
}
use infra_loop_kda.Tuning.Manifest.{IsManifest, expand-nonempty, validate_manifest-IsManifest}
use infra_loop_kda.Tuning.Grid.{IsGrid, expand-IsGrid}
use infra_loop_kda.Base.Sorted.{insert, sorted}

runs : Unit {0}
unfolding require_valid insert sorted space_errors search_errors validate_manifest choices prefixed
    product dict_of trial number expand get lookup put note is_missing is_blank str str_or
runs = tt

abbrev manifest : Fields
manifest = field "schema_version" (int (pos 1)) (
    field "kernel" (text "kda") (
      field "gate_version" (text "g1") (
        field "seed" (int (pos 7)) (
          field "search_space"
            (object (
              field "warps" (array (cons (int (pos 4)) (cons (int (pos 8)) nil)))
                (field "block" (array (cons (int (pos 64)) nil)) end)))
            end))))

abbrev digest : Fields → String
digest m = "0"

abbrev config : ℤ → Fields
config warps = field "block" (int (pos 64)) (field "warps" (int warps) end)

trials : List Json
unfolding runs
trials = elim (expand digest manifest) [ ok ts ↦ ts | err e ↦ [] ]

expand_two :
    map (λ t. elim t [ object m ↦ get "config" m | _ ↦ null ]) trials
    ≡ object (config (pos 4)) ∷ object (config (pos 8)) ∷ []
unfolding runs trials
expand_two = refl

expand-IsGrid_example : IsGrid digest manifest trials
unfolding runs trials
expand-IsGrid_example = expand-IsGrid digest manifest refl

expand-nonempty_example : 1 ≤ length trials
unfolding runs trials
expand-nonempty_example = expand-nonempty digest manifest refl

validate_manifest-IsManifest_example : IsManifest manifest
unfolding runs
validate_manifest-IsManifest_example = validate_manifest-IsManifest manifest refl
