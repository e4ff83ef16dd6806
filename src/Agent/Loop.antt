-- ===== src/Agent/Loop.antt =====
-- tools/k3/agent.py: `_read_loop_dir` and `_loop_state`, over the directories of the plugin's loops.
pub mod Bound
use infra_loop_kda.Base.{
  String, ◌<>◌, Bool, true, false, not, ◌&&◌, ◌||◌, Option, none, some, List, [], ◌∷◌, ◌==◌,
  if◌then◌else◌,
}
use infra_loop_kda.Base.Sorted.{text_leb}
use infra_loop_kda.Base.Text.{strip}
use infra_loop_kda.Json.{Fields, end, get}
use infra_loop_kda.Json.Repr.{str_or}
use infra_loop_kda.Toolchain.{read_frontmatter}

-- A directory below `.humanize/rlcr`: which of its entries are files, and their texts.
pub record Dir : Type 0 where
  pub name : String
  pub is_file : String → Bool
  pub text_of : String → Option String

pub data Phase : Type 0 where
  finalize methodology_analysis normal : Phase

pub data Binding : Type 0 where
  by_session newest_unbound newest : Binding

-- What is read of a loop: the state file, the phase or the reason that it ended for, and the fields.
pub data Found : Type 0 where
  absent : Found
  ended : String → Fields → Found
  active : String → Phase → Fields → Found

abbrev pub reasons : List String
reasons = "complete" ∷ "cancel" ∷ "maxiter" ∷ "stop" ∷ "unexpected" ∷ []

abbrev pub active_files : List (String × Phase)
active_files =
    ("finalize-state.md", finalize)
    ∷ ("methodology-analysis-state.md", methodology_analysis)
    ∷ ("state.md", normal)
    ∷ []

-- The second loop of `_read_loop_dir`.
unfoldable pub read_active : Dir → List (String × Phase) → Found
unfolding read_frontmatter
read_active loop [] = absent
read_active loop ((name, phase) ∷ files) =
    if loop.is_file name
    then active name phase (read_frontmatter (loop.text_of name))
    else read_active loop files

-- The first loop.
unfoldable pub read_ended : Dir → List String → Found
unfolding read_frontmatter read_active
read_ended loop [] = read_active loop active_files
read_ended loop (reason ∷ others) =
    if loop.is_file (reason <> "-state.md")
    then ended reason (read_frontmatter (loop.text_of (reason <> "-state.md")))
    else read_ended loop others

-- `_read_loop_dir`
unfoldable pub read_loop_dir : Dir → Found
unfolding read_ended
read_loop_dir loop = read_ended loop reasons

abbrev pub fields_of : Found → Fields
fields_of absent = end
fields_of (ended reason fields) = fields
fields_of (active file phase fields) = fields

abbrev pub is_present : Found → Bool
is_present absent = false
is_present (ended reason fields) = true
is_present (active file phase fields) = true

abbrev pub is_ended : Found → Bool
is_ended absent = false
is_ended (ended reason fields) = true
is_ended (active file phase fields) = false

-- `str(info["fields"].get("session_id") or "").strip()`
unfoldable pub stored_session : Found → String
unfolding strip str_or get
stored_session found = strip (str_or (get "session_id" (fields_of found)) "")

-- The loop that `_loop_state` returns, with its directory and how it was bound.
pub record Loop : Type 0 where
  pub dir : Dir
  pub found : Found
  pub bound_by : Binding

abbrev pub fallback_binding : String → Binding
fallback_binding stored = if stored == "" then newest_unbound else newest

-- `session_id and stored == session_id`, for a loop that is present
unfoldable pub is_bound : String → Found → Bool
unfolding stored_session
is_bound session found =
    is_present found && (not (session == "") && stored_session found == session)

-- `fallback` after a loop that is not bound.
unfoldable pub next_fallback : String → Option Loop → Dir → Option Loop
unfolding stored_session read_loop_dir
next_fallback session (some l) loop = some l
next_fallback session none loop =
    if is_present (read_loop_dir loop)
      && (session == "" || stored_session (read_loop_dir loop) == "")
    then some (record {
      dir = loop;
      found = read_loop_dir loop;
      bound_by = fallback_binding (stored_session (read_loop_dir loop));
    })
    else none

-- The loop over the candidates, newest first.
unfoldable pub choose : String → Option Loop → List Dir → Option Loop
unfolding read_loop_dir is_bound next_fallback
choose session fallback [] = fallback
choose session fallback (loop ∷ loops) =
    let rest = choose session (next_fallback session fallback loop) loops in
    if is_bound session (read_loop_dir loop)
    then some (record { dir = loop; found = read_loop_dir loop; bound_by = by_session })
    else rest

insert_newest : Dir → List Dir → List Dir
insert_newest loop [] = loop ∷ []
insert_newest loop (other ∷ loops) =
    let rest = insert_newest loop loops in
    if text_leb other.name loop.name then loop ∷ other ∷ loops else other ∷ rest

-- `sorted(…, key=lambda item: item.name, reverse=True)`
unfoldable pub newest_first : List Dir → List Dir
unfolding insert_newest
newest_first [] = []
newest_first (loop ∷ loops) = insert_newest loop (newest_first loops)

-- `_loop_state`; no session id is the empty one.
unfoldable pub loop_state : List Dir → String → Option Loop
unfolding choose newest_first
loop_state loops session = choose session none (newest_first loops)
