-- ===== src/Config/Tests.antt =====
-- A configuration with a placeholder and two tasks.
use infra_loop_kda.Base.{◌≡◌, refl, ◌++◌, [], ◌∷◌, All, length, none}
use infra_loop_kda.Base.Text.{split_on, push_char, contains_char, decimal}
use infra_loop_kda.Base.Outcome.{ok, err, tool_error}
use infra_loop_kda.Json.{
  null, text, array, object, Items, nil, cons, values, Fields, end, field, get, lookup,
}
use infra_loop_kda.Json.Repr.{str}
use infra_loop_kda.Paths.{
  plain, parts_of, drop_skipped, is_absolute, safe_relative, contains_symlink, is_below,
  check_links, safe_join,
}
use infra_loop_kda.Paths.Normal.{normal_parts, IsName}
use infra_loop_kda.Paths.Contained.{PlainBelow}
use infra_loop_kda.Config.{
  is_placeholder, find_placeholders, tasks_of, find_task, task_entry, task_dir, active_task,
  active_task_id,
}
use infra_loop_kda.Config.Located.{IsFirst, task_dir-PlainBelow}
use infra_loop_kda.Config.Filled.{texts_of, placeholder_count, length-find_placeholders}
use infra_loop_kda.Config.Settings.{
  merge_defaults, default_runner, runner_settings, merged_value, lookup-merge_defaults,
}

abbrev first_task : Fields
first_task = field "id" (text "a") (field "path" (text "tasks//a") end)

abbrev tasks : Items
tasks = cons null (cons (object first_task) nil)

abbrev config : Fields
config = field "tasks" (array tasks) (field "site" (object (field "host" (text "<host>") end)) end)

runs : Unit {0}
unfolding runner_settings get lookup str is_placeholder contains_char find_placeholders decimal
    tasks_of find_task task_entry task_dir active_task active_task_id safe_join safe_relative
    is_absolute parts_of drop_skipped split_on push_char normal_parts is_below contains_symlink
    check_links texts_of
runs = tt

reported : find_placeholders (object config) "" ≡ "site.host" ∷ []
unfolding runs
reported = refl

located : task_dir (λ p. plain) ("srv" ∷ []) config "a" ≡ ok ("srv" ∷ "tasks" ∷ "a" ∷ [])
unfolding runs
located = refl

unselected :
    active_task_id config none
    ≡ err (tool_error "no task selected: pass --task or set active_task in the configuration")
unfolding runs
unselected = refl

length-find_placeholders_example :
    length (find_placeholders (object config) "") ≡ placeholder_count (texts_of (object config))
length-find_placeholders_example = length-find_placeholders (object config) ""

task_dir-PlainBelow_example :
    (tasks : Items) × (entry : Fields) × (tasks_of (lookup "tasks" config) ≡ ok tasks)
    × IsFirst "a" (values tasks) entry
    × ("srv" ∷ "tasks" ∷ "a" ∷ [] ≡ "srv" ∷ [] ++ parts_of (str (get "path" entry)))
    × All IsName (parts_of (str (get "path" entry)))
    × PlainBelow (λ p. plain) ("srv" ∷ []) (parts_of (str (get "path" entry)))
unfolding runs
task_dir-PlainBelow_example =
    task_dir-PlainBelow (λ p. plain) ("srv" ∷ []) config "a" (refl, tt) refl

abbrev runner_override : Fields
runner_override =
    field "workdir" (text "w") (field "environment" (object (field "A" (text "1") end)) end)

-- The default environment is an object, and so is the override: of a key that only the override has,
-- the merged environment takes the value.
merged_runner :
    runner_settings (field "runner" (object runner_override) end)
    ≡ field "adapter"
        (text "local-command")
        (field "workdir" (text "w") (field "environment" (object (field "A" (text "1") end)) end))
unfolding runs
merged_runner = refl

lookup-merge_defaults_example :
    lookup "environment" (merge_defaults default_runner (object runner_override))
    ≡ merged_value (lookup "environment" default_runner) (lookup "environment" runner_override)
unfolding runs
lookup-merge_defaults_example =
    lookup-merge_defaults "environment" default_runner runner_override (refl, (refl, tt))
