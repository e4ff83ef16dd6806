-- ===== src/Agent/Shim.antt =====
-- tools/k3/agent.py: `build_shim_dir` and `verify_shim`, over the entries of the shim's directory.
pub mod Built
use Prim.Native.Char.{Char, code}
use infra_loop_kda.Base.{
  ℕ, String, ◌<>◌, Bool, true, false, not, ◌&&◌, ◌||◌, Option, none, some, List, [], ◌∷◌, ◌++◌,
  ◌==◌, leb, nat_beq, if◌then◌else◌,
}
use infra_loop_kda.Base.Text.{join, contains_text, contains_char}
use infra_loop_kda.Json.{Json, bool, Fields, get, truthy}
use infra_loop_kda.Json.Repr.{str_or}
use infra_loop_kda.Agent.Paths.{Binaries}

-- An entry of the directory: a symbolic link with its target, or a file with its text; `none` is a
-- file whose text cannot be read.
pub data Entry : Type 0 where
  link : String → Entry
  file : Option String → Entry

abbrev pub Entries : Type 0
Entries = String → Option Entry

-- A character that `shlex.quote` leaves bare: `[\w@%+=:,./-]` in ASCII.
abbrev is_safe : ℕ → Bool
is_safe c =
    (leb b'a' c && leb c b'z')
    || (leb b'A' c && leb c b'Z')
    || (leb b'+' c && leb c b':')
    || nat_beq c b'_'
    || nat_beq c b'@'
    || nat_beq c b'%'
    || nat_beq c b'='

unfoldable pub all_safe : String → Bool
all_safe String.[] = true
all_safe (String.◌∷◌ c s) = is_safe (code c) && all_safe s

-- `s.replace("'", "'\"'\"'")`
unfoldable pub escape_quotes : String → String
escape_quotes String.[] = ""
escape_quotes (String.◌∷◌ c s) =
    (if nat_beq (code c) 39 then "'\"'\"'" else String.◌∷◌ c String.[]) <> escape_quotes s

-- `shlex.quote`
unfoldable pub quote : String → String
unfolding all_safe escape_quotes
quote s = if s == "" then "''" else if all_safe s then s else "'" <> escape_quotes s <> "'"

-- `lines`, of the reviewer's launcher.
unfoldable pub launcher_lines : String → String → List String
unfolding quote
launcher_lines model effort =
    "#!/usr/bin/env bash"
    ∷ "set -eu"
    ∷ "real_bin=${KDA_REVIEWER_REAL_BIN:?KDA_REVIEWER_REAL_BIN is not set}"
    ∷ "args=()"
    ∷ "args+=(--dangerously-bypass-approvals-and-sandbox)"
    ∷ ("args+=(--model " <> (quote model <> ")"))
    ∷ ("args+=(-c " <> (quote ("model_reasoning_effort=\"" <> (effort <> "\"")) <> ")"))
    ∷ "if [ \"${KDA_REVIEWER_DISABLE_APPS:-false}\" = true ]; then"
    ∷ "  args+=(--disable apps)"
    ∷ "fi"
    ∷ "exec \"$real_bin\" \"${args[@]}\" \"$@\""
    ∷ ""
    ∷ []

-- The text of the launcher.
unfoldable pub launcher : String → String → String
unfolding join launcher_lines
launcher model effort = join "\n" (launcher_lines model effort)

-- `value is True`
abbrev pub is_true : Json → Bool
is_true (bool b) = b
is_true _ = false

-- `isolated_reviewer`
unfoldable pub is_isolated : Fields → Bool
unfolding get
is_isolated reviewer =
    truthy (get "codex_home" reviewer)
    || is_true (get "bypass_sandbox" reviewer)
    || is_true (get "disable_apps" reviewer)

-- What is put under a name.
unfoldable pub entry_for : Fields → String → String → Entry
unfolding is_isolated launcher str_or get
entry_for reviewer name source =
    if name == "codex" && is_isolated reviewer
    then file (
        some (
          launcher (str_or (get "model" reviewer) "gpt-6-astra")
            (str_or (get "effort" reviewer) "ultra")))
    else link source

abbrev pub set_entry : String → Entry → Entries → Entries
set_entry name entry entries = λ other. if name == other then some entry else entries other

-- One round of the loop; a source that is `None` or empty is passed over.
unfoldable pub add_entry : Fields → String → Option String → Entries → Entries
unfolding entry_for
add_entry reviewer name none entries = entries
add_entry reviewer name (some source) entries =
    if source == "" then entries else set_entry name (entry_for reviewer name source) entries

-- `build_shim_dir`, from the entries that were there.
unfoldable pub build_shim_dir : Binaries → Fields → Entries → Entries
unfolding add_entry
build_shim_dir resolved reviewer entries =
    add_entry reviewer "jq" resolved.jq
      (add_entry reviewer "bash" resolved.bash (add_entry reviewer "codex" resolved.codex entries))

-- The texts of `problems`.
pub data ShimProblem : Type 0 where
  no_directory unreadable : ShimProblem
  no_entry : String → ShimProblem
  no_marker : String → ShimProblem
  points_at : String → String → ShimProblem

abbrev pub markers : List String
markers =
    "--dangerously-bypass-approvals-and-sandbox" ∷ "--model" ∷ "model_reasoning_effort"
    ∷ "--disable apps" ∷ []

unfoldable pub marker_problems : List String → String → List ShimProblem
unfolding contains_text
marker_problems [] content = []
marker_problems (marker ∷ others) content =
    (if contains_text marker content then [] else no_marker marker ∷ [])
    ++ marker_problems others content

-- What is outside the directory: which paths exist, and the text behind one.
pub record Outside : Type 0 where
  pub exists : String → Bool
  pub text_at : String → Option String

-- `link.read_text()` follows a symbolic link.
unfoldable pub text_of : Outside → Entry → Option String
text_of outside (file content) = content
text_of outside (link target) = outside.text_at target

unfoldable pub launcher_problems : Option String → List ShimProblem
unfolding marker_problems
launcher_problems none = unreadable ∷ []
launcher_problems (some content) = marker_problems markers content

-- The comparison with the recorded binary; a file that is no link stands for its own path.
unfoldable pub link_problems : String → String → String → Entry → List ShimProblem
link_problems path name expected (link target) =
    if target == expected then [] else points_at name target ∷ []
link_problems path name expected (file content) =
    if path == expected then [] else points_at name path ∷ []

-- `link.exists()` follows a symbolic link too.
unfoldable pub is_there : Outside → Option Entry → Bool
is_there outside none = false
is_there outside (some (link target)) = outside.exists target
is_there outside (some (file content)) = true

unfoldable pub entry_problems :
    Outside → String → Fields → String → String → Option Entry → List ShimProblem
unfolding text_of launcher_problems link_problems is_isolated
entry_problems outside directory reviewer name expected none = no_entry name ∷ []
entry_problems outside directory reviewer name expected (some entry) =
    if name == "codex" && is_isolated reviewer
    then launcher_problems (text_of outside entry)
    else link_problems (directory <> "/" <> name) name expected entry

-- One round of the loop of `verify_shim`.
unfoldable pub check_entry :
    Outside → String → Fields → Entries → String → Option String → List ShimProblem
unfolding is_there entry_problems
check_entry outside directory reviewer entries name none = []
check_entry outside directory reviewer entries name (some expected) =
    if expected == ""
    then []
    else if is_there outside (entries name)
    then entry_problems outside directory reviewer name expected (entries name)
    else no_entry name ∷ []

-- `verify_shim`
unfoldable pub verify_shim :
    Outside → Bool → String → Binaries → Fields → Entries → List ShimProblem
unfolding check_entry
verify_shim outside is_dir directory resolved reviewer entries =
    if is_dir
    then check_entry outside directory reviewer entries "codex" resolved.codex
      ++ (check_entry outside directory reviewer entries "bash" resolved.bash
          ++ check_entry outside directory reviewer entries "jq" resolved.jq)
    else no_directory ∷ []
