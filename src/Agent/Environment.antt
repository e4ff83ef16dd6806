-- ===== src/Agent/Environment.antt =====
-- tools/k3/agent.py: `build_env`, `redact_env`, `shim_env` and what `start` declares of a plan's
-- environment. An environment is the list of its variables in the order of the `dict`.
pub mod Declared
pub mod Spawned
use Prim.Native.Char.{code}
use infra_loop_kda.Base.{
  ℕ, ◌+◌, String, ◌<>◌, Bool, true, false, ◌&&◌, ◌||◌, Option, none, some, List, [], ◌∷◌, ◌++◌,
  ◌==◌, leb, nat_beq, any, contains, if◌then◌else◌,
}
use infra_loop_kda.Base.Text.{strip}
use infra_loop_kda.Base.Sorted.{text_leb}
use infra_loop_kda.Json.{Json, null, bool, int, text, array, object, Fields, get}
use infra_loop_kda.Agent.Shim.{is_true}

abbrev pub Env : Type 0
Env = List (String × String)

abbrev pub declared_keys : List String
declared_keys =
    "CLAUDE_PROJECT_DIR" ∷ "K3_NO_COMMIT_REVIEW" ∷ "K3_PLAN_FILE" ∷ "K3_PLAN_SHA256"
    ∷ "K3_PLAN_SNAPSHOT" ∷ "K3_PLAN_SNAPSHOT_SHA256" ∷ "CODEX_HOME"
    ∷ "HUMANIZE_CODEX_BYPASS_SANDBOX" ∷ "KDA_REVIEWER_REAL_BIN" ∷ "KDA_REVIEWER_MODEL"
    ∷ "KDA_REVIEWER_EFFORT" ∷ "KDA_REVIEWER_DISABLE_APPS" ∷ []

abbrev pub secret_hints : List String
secret_hints = "token" ∷ "secret" ∷ "key" ∷ "password" ∷ "credential" ∷ "cookie" ∷ []

-- `util.sha256_file` and `configured_codex_home`.
pub record Disk : Type 0 where
  pub sha256_file : String → String
  pub expand_home : String → String

unfoldable pub file_variables : Disk → String → String → Option String → Env
file_variables disk name hash none = []
file_variables disk name hash (some path) = (name, path) ∷ (hash, disk.sha256_file path) ∷ []

-- `if isinstance(value, str) and value.strip(): env[name] = …`
unfoldable pub text_variable : String → (String → String) → Json → Env
unfolding strip
text_variable name prepare (text s) = if strip s == "" then [] else (name, prepare s) ∷ []
text_variable name prepare null = []
text_variable name prepare (bool b) = []
text_variable name prepare (int z) = []
text_variable name prepare (array vs) = []
text_variable name prepare (object m) = []

-- `if value is True: env[name] = "true"`
abbrev pub flag_variable : String → Json → Env
flag_variable name value = if is_true value then (name, "true") ∷ [] else []

unfoldable pub binary_variable : Option String → Env
binary_variable none = []
binary_variable (some path) = if path == "" then [] else ("KDA_REVIEWER_REAL_BIN", path) ∷ []

-- `build_env`
unfoldable pub build_env :
    Disk → String → Bool → Option String → Option String → Fields → Option String → Env
unfolding file_variables text_variable binary_variable get strip
build_env disk workspace no_commit live_plan snapshot reviewer binary =
    ("CLAUDE_PROJECT_DIR", workspace)
    ∷ ("K3_NO_COMMIT_REVIEW", if no_commit then "true" else "false")
    ∷ (file_variables disk "K3_PLAN_FILE" "K3_PLAN_SHA256" live_plan
        ++ (file_variables disk "K3_PLAN_SNAPSHOT" "K3_PLAN_SNAPSHOT_SHA256" snapshot
            ++ (text_variable "CODEX_HOME" disk.expand_home (get "codex_home" reviewer)
                ++ (flag_variable "HUMANIZE_CODEX_BYPASS_SANDBOX" (get "bypass_sandbox" reviewer)
                    ++ (binary_variable binary
                        ++ (text_variable "KDA_REVIEWER_MODEL" strip (get "model" reviewer)
                            ++ (text_variable "KDA_REVIEWER_EFFORT" strip (get "effort" reviewer)
                                ++ flag_variable "KDA_REVIEWER_DISABLE_APPS"
                                    (get "disable_apps" reviewer))))))))

-- The code points of `key.lower()`, for an ASCII key.
unfoldable pub lowered : String → List ℕ
lowered String.[] = []
lowered (String.◌∷◌ c s) =
    (if leb b'A' (code c) && leb (code c) b'Z' then code c + 32 else code c) ∷ lowered s

is_front : List ℕ → List ℕ → Bool
is_front [] cs = true
is_front (h ∷ hint) [] = false
is_front (h ∷ hint) (c ∷ cs) = nat_beq h c && is_front hint cs

-- `hint in lowered`
unfoldable pub has_hint : List ℕ → List ℕ → Bool
unfolding is_front
has_hint [] hint = is_front hint []
has_hint (c ∷ cs) hint = is_front hint (c ∷ cs) || has_hint cs hint

-- `any(hint in lowered for hint in SECRET_HINTS)`
unfoldable pub is_secret : String → Bool
unfolding lowered has_hint
is_secret key = any (λ hint. has_hint (lowered key) (lowered hint)) secret_hints

insert_variable : String × String → Env → Env
insert_variable variable [] = variable ∷ []
insert_variable variable (other ∷ env) =
    let rest = insert_variable variable env in
    if text_leb variable.0 other.0 then variable ∷ other ∷ env else other ∷ rest

-- `sorted(env.items())`; the keys of a `dict` are distinct.
unfoldable pub sorted_env : Env → Env
unfolding insert_variable
sorted_env [] = []
sorted_env (variable ∷ env) = insert_variable variable (sorted_env env)

unfoldable pub redact : String → String → String
unfolding is_secret
redact key value = if is_secret key then "<redacted>" else value

unfoldable pub redact_all : Env → Env
unfolding redact
redact_all [] = []
redact_all ((key, value) ∷ env) = (key, redact key value) ∷ redact_all env

-- `redact_env`
unfoldable pub redact_env : Env → Env
unfolding redact_all sorted_env
redact_env env = redact_all (sorted_env env)

-- `{key: value for key, value in env.items() if key in DECLARED_ENV_KEYS}`
unfoldable pub declare_env : Env → Env
declare_env [] = []
declare_env ((key, value) ∷ env) =
    let rest = declare_env env in if contains key declared_keys then (key, value) ∷ rest else rest

unfoldable pub value_of : String → Env → Option String
value_of key [] = none
value_of key ((other, value) ∷ env) = if other == key then some value else value_of key env

-- `shim_env`, where `outer` is the PATH of the process itself: an empty one counts as none.
unfoldable pub path_with : String → String → String → String
path_with shim own outer =
    if own == "" then (if outer == "" then shim else shim <> ":" <> outer) else shim <> ":" <> own

-- `env[key] = value`
unfoldable pub set_variable : String → String → Env → Env
set_variable key value [] = (key, value) ∷ []
set_variable key value ((other, old) ∷ env) =
    let rest = set_variable key value env in
    if other == key then (other, value) ∷ env else (other, old) ∷ rest

-- `spawn_env.update(declared)`, but for the order of the variables; declared keys are distinct.
unfoldable pub update_env : Env → Env → Env
unfolding set_variable
update_env env [] = env
update_env env ((key, value) ∷ declared) = set_variable key value (update_env env declared)

abbrev pub or_empty : Option String → String
or_empty none = ""
or_empty (some s) = s

-- `dict(os.environ)` with the declared variables, and `shim_env`.
unfoldable pub spawn_env : Env → Env → String → Env
unfolding update_env set_variable value_of path_with
spawn_env environ declared shim =
    set_variable "PATH"
      (path_with shim (or_empty (value_of "PATH" (update_env environ declared)))
        (or_empty (value_of "PATH" environ)))
      (update_env environ declared)
