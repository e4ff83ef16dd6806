-- ===== src/Config.antt =====
-- tools/k3/config.py: the search for placeholders in a configuration, and the accessors that find a
-- task, its directory and the active task. Settings has the defaults of a settings block.
pub mod Located
pub mod Filled
pub mod Settings
mod Tests
use infra_loop_kda.Base.{
  ℕ, suc, String, ◌<>◌, Bool, true, false, not, ◌&&◌, Option, none, some, List, [], ◌∷◌, ◌++◌, ◌==◌,
  if◌then◌else◌,
}
use infra_loop_kda.Base.Text.{contains_char, decimal}
use infra_loop_kda.Base.Outcome.{Outcome, ok, err, ◌>>=◌, tool_error, type_error}
use infra_loop_kda.Json.{
  Json, null, bool, int, text, array, object, Items, nil, cons, Fields, end, field, get, lookup,
  equals_text,
}
use infra_loop_kda.Json.Repr.{str, repr}
use infra_loop_kda.Paths.{Link, safe_join}

-- `"<" in value and ">" in value`
unfoldable pub is_placeholder : String → Bool
unfolding contains_char
is_placeholder s = contains_char b'<' s && contains_char b'>' s

-- `"%s.%s" % (prefix, key) if prefix else str(key)`
abbrev pub child_prefix : String → String → String
child_prefix prefix key = if prefix == "" then key else prefix <> "." <> key

-- `find_placeholders`
unfoldable mutual
  unfolding is_placeholder decimal

  pub find_placeholders : Json → String → List String
  find_placeholders (object m) prefix = field_placeholders m prefix
  find_placeholders (array vs) prefix = item_placeholders vs prefix 0
  find_placeholders (text s) prefix = if is_placeholder s then prefix ∷ [] else []
  find_placeholders null prefix = []
  find_placeholders (bool b) prefix = []
  find_placeholders (int z) prefix = []

  pub field_placeholders : Fields → String → List String
  field_placeholders end prefix = []
  field_placeholders (field key v m) prefix =
      find_placeholders v (child_prefix prefix key) ++ field_placeholders m prefix

  pub item_placeholders : Items → String → ℕ → List String
  item_placeholders nil prefix index = []
  item_placeholders (cons v vs) prefix index =
      find_placeholders v (prefix <> "[" <> decimal index <> "]")
      ++ item_placeholders vs prefix (suc index)

-- The elements of `config.get("tasks", [])`; the keys of a `dict` and the characters of a text are
-- texts, which the loop skips.
unfoldable pub tasks_of : Option Json → Outcome Items
tasks_of none = ok nil
tasks_of (some (array vs)) = ok vs
tasks_of (some (object m)) = ok nil
tasks_of (some (text s)) = ok nil
tasks_of (some v) = err type_error

-- The loop of `task_entry`.
unfoldable pub find_task : String → Items → Outcome Fields
unfolding get repr
find_task task_id nil = err (
    tool_error
      ("task " <> repr (text task_id) <> " is not registered in the project configuration"))
find_task task_id (cons (object m) vs) =
    let rest = find_task task_id vs in if equals_text (get "id" m) task_id then ok m else rest
find_task task_id (cons v vs) = find_task task_id vs

-- `task_entry`
unfoldable pub task_entry : Fields → String → Outcome Fields
unfolding lookup tasks_of find_task
task_entry config task_id = do tasks ← tasks_of (lookup "tasks" config); find_task task_id tasks

-- `task_dir`
unfoldable pub task_dir :
    (List String → Link) → List String → Fields → String → Outcome (List String)
unfolding task_entry get str
task_dir link root config task_id = do
  entry ← task_entry config task_id
  safe_join link root (str (get "path" entry)) false

unfoldable pub active_task : Json → Outcome String
active_task (text s) =
    if s == ""
    then err (tool_error "no task selected: pass --task or set active_task in the configuration")
    else ok s
active_task v =
    err (tool_error "no task selected: pass --task or set active_task in the configuration")

-- `active_task_id`
unfoldable pub active_task_id : Fields → Option String → Outcome String
unfolding get active_task
active_task_id config none = active_task (get "active_task" config)
active_task_id config (some explicit) =
    if explicit == "" then active_task (get "active_task" config) else ok explicit
