-- ===== src/Agent/Argv.antt =====
-- tools/k3/agent.py: the prompt and the command lines of a session, and what of a command line
-- belongs to the plan's identity. A path is its text.
pub mod Identity
use infra_loop_kda.Base.{
  ℤ, String, ◌<>◌, Bool, true, false, Option, none, some, List, [], ◌∷◌, ◌++◌, ◌==◌, if◌then◌else◌,
}
use infra_loop_kda.Base.Text.{strip, join}
use infra_loop_kda.Json.{Json, int, Fields, get, truthy}
use infra_loop_kda.Json.Repr.{str, str_or}

-- `str(m.get(key) or "").strip()`
unfoldable pub setting : String → Fields → String
unfolding strip str_or get
setting key m = strip (str_or (get key m) "")

-- `if value: argv += [flag, value]`
unfoldable pub option : String → String → List String
option flag value = if value == "" then [] else flag ∷ value ∷ []

-- The model and effort of the reviewer, as one argument.
unfoldable pub model_arguments : String → String → List String
model_arguments model effort =
    if model == ""
    then []
    else "--codex-model" ∷ (if effort == "" then model else model <> ":" <> effort) ∷ []

unfoldable pub branch_arguments : Json → List String
unfolding str
branch_arguments branch = if truthy branch then "--base-branch" ∷ str branch ∷ [] else []

-- `build_prompt`
unfoldable pub build_prompt : String → Fields → Json → ℤ → String → Bool → String
unfolding setting model_arguments branch_arguments join str
build_prompt plan_relative reviewer base_branch max_iterations start_command skip_quiz = join " " (
    start_command
    ∷ plan_relative
    ∷ (model_arguments (setting "model" reviewer) (setting "effort" reviewer)
        ++ (branch_arguments base_branch
            ++ ((if skip_quiz then "--skip-quiz" ∷ [] else [])
                ++ "--max" ∷ str (int max_iterations) ∷ []))))

-- The options that come last on both command lines.
unfoldable pub writer_options : Fields → List String
unfolding setting option
writer_options writer =
    option "--model" (setting "model" writer)
    ++ (option "--effort" (setting "effort" writer)
        ++ option "--permission-mode" (setting "permission_mode" writer))

-- `str(writer.get("command") or "claude")`
unfoldable pub command_of : Fields → String
unfolding str_or get
command_of writer = str_or (get "command" writer) "claude"

-- What stands before the session's id.
unfoldable pub argv_front : Fields → String → String → List String
unfolding command_of
argv_front writer plugin_dir prompt =
    command_of writer
    ∷ "-p"
    ∷ prompt
    ∷ "--plugin-dir"
    ∷ plugin_dir
    ∷ "--output-format"
    ∷ "stream-json"
    ∷ []

unfoldable pub session_arguments : Option String → List String
session_arguments none = []
session_arguments (some id) = if id == "" then [] else "--session-id" ∷ id ∷ []

-- `build_argv`
unfoldable pub build_argv : Fields → String → String → Option String → List String
unfolding argv_front session_arguments writer_options
build_argv writer plugin_dir prompt session_id =
    argv_front writer plugin_dir prompt
    ++ "--verbose" ∷ (session_arguments session_id ++ writer_options writer)

-- `build_resume_argv`
unfoldable pub build_resume_argv : Fields → String → String → List String
unfolding command_of writer_options
build_resume_argv writer plugin_dir claude_session_id =
    command_of writer
    ∷ "--resume"
    ∷ claude_session_id
    ∷ "-p"
    ∷ "Continue the active RLCR loop. Do not start a new loop."
    ∷ "--plugin-dir"
    ∷ plugin_dir
    ∷ "--output-format"
    ∷ "stream-json"
    ∷ "--verbose"
    ∷ writer_options writer

-- `strip_session_id`; the index moves by two where the flag is, and may pass the end.
unfoldable pub strip_session_id : List String → List String
strip_session_id [] = []
strip_session_id (x ∷ []) = if x == "--session-id" then [] else x ∷ []
strip_session_id (x ∷ y ∷ argv) =
    let skipped = strip_session_id argv in
    let kept = x ∷ strip_session_id (y ∷ argv) in if x == "--session-id" then skipped else kept
