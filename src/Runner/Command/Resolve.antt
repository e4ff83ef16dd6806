-- ===== src/Runner/Command/Resolve.antt =====
-- tools/k3/runner.py: `resolve_command`, with the substitutions in a configured command.
use package.text.Mathlib.Text.{starts_with}
use infra_loop_kda.Base.{
  ℕ, zero, suc, ◌-◌, String, ◌<>◌, Bool, Option, none, some, List, [], ◌∷◌, ◌==◌, if◌then◌else◌,
  map,
}
use infra_loop_kda.Base.Outcome.{Outcome, ok, err, tool_error}
use infra_loop_kda.Json.{Json, text, array, object, Items, nil, cons, Fields, get, lookup}
use infra_loop_kda.Runner.Command.{Roots, builtin_commands, python_executable}

abbrev characters : String → ℕ
characters String.[] = 0
characters (String.◌∷◌ c s) = suc (characters s)

-- `s.replace(token, replacement)` for a token that is not empty; the number is of the characters of
-- a token found before that are still to be passed over.
unfoldable pub replace_from : String → String → ℕ → String → String
replace_from token replacement skip String.[] = ""
replace_from token replacement (suc k) (String.◌∷◌ c s) = replace_from token replacement k s
replace_from token replacement zero (String.◌∷◌ c s) =
    let found = starts_with (String.◌∷◌ c s) token in
    let rest = replace_from token replacement (if found then characters token - 1 else 0) s in
    if found then replacement <> rest else String.◌∷◌ c rest

-- The loop on `substitutions.items()`.
unfoldable pub substitute : List (String × String) → String → String
unfolding replace_from
substitute [] item = item
substitute ((token, replacement) ∷ rest) item =
    substitute rest (replace_from token replacement 0 item)

unfoldable pub substitutions : Roots → List (String × String)
substitutions r =
    ("{baseline_root}", r.baseline)
    ∷ ("{candidate_root}", r.candidate)
    ∷ ("{source_root}", r.candidate)
    ∷ ("{output_dir}", r.output_dir)
    ∷ ("{scratch_dir}", r.scratch_dir)
    ∷ ("{task_dir}", r.task_dir)
    ∷ ("{python}", r.python)
    ∷ []

pub data Origin : Type 0 where
  configured builtin : Origin

-- The texts of a list, where all elements are texts.
unfoldable pub all_texts : Items → Option (List String)
all_texts nil = some []
all_texts (cons (text s) vs) = elim (all_texts vs) [ none ↦ none | some ss ↦ some (s ∷ ss) ]
all_texts (cons v vs) = none

unfoldable pub text_list : Json → Option (List String)
unfolding all_texts
text_list (array vs) = all_texts vs
text_list _ = none

-- The branch of a configured command.
unfoldable pub configured_command :
    String → Roots → Option (List String) → Outcome (List String × Origin)
unfolding substitute substitutions
configured_command operation r none =
    err (tool_error ("runner.commands." <> operation <> " must be a list of strings (argv)"))
configured_command operation r (some []) =
    err (tool_error ("runner.commands." <> operation <> " is empty"))
configured_command operation r (some (item ∷ items)) =
    ok (map (substitute (substitutions r)) (item ∷ items), configured)

unfoldable pub find_command : String → List (String × List String) → Option (List String)
find_command operation [] = none
find_command operation ((name, argv) ∷ commands) =
    let rest = find_command operation commands in if name == operation then some argv else rest

unfoldable pub builtin_command : String → Option (List String) → Outcome (List String × Origin)
builtin_command operation none = err (tool_error ("no command for operation " <> operation))
builtin_command operation (some argv) = ok (argv, builtin)

-- `configured[operation]`, where it is there
unfoldable pub configured_value : String → Json → Option Json
unfolding lookup
configured_value operation (object m) = lookup operation m
configured_value operation _ = none

-- `resolve_command`, which looks the Python executable up itself.
unfoldable pub resolve_command :
    (String → Bool) → Fields → Fields → Roots → String → Outcome (List String × Origin)
unfolding get configured_value text_list configured_command builtin_command find_command
    builtin_commands python_executable
resolve_command is_file settings task roots operation =
    let r = record roots { python = python_executable settings } in
    elim (configured_value operation (get "commands" settings)) [
      | some v ↦ configured_command operation r (text_list v)
      | none ↦ builtin_command operation (find_command operation (builtin_commands is_file task r))
    ]
