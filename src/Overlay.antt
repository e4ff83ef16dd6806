-- ===== src/Overlay.antt =====
-- tools/k3/overlay.py: the edits of the overlay, `build`, `verify` and `resolve_plugin_dir`. The set of
-- edits (`_edits`) and the guard's text are arguments, and so are the hashes.
pub mod Anchor
pub mod Stored
pub mod Edited
pub mod Built
pub mod Sound
mod Tests
use infra_loop_kda.Base.{
  String, ◌<>◌, Bool, true, false, not, ◌&&◌, ◌||◌, Option, none, some, List, [], ◌∷◌, ◌++◌, ◌==◌,
  map, is_empty, contains, if◌then◌else◌,
}
use infra_loop_kda.Base.Outcome.{Outcome, ok, err, ◌>>=◌, tool_error}
use infra_loop_kda.Json.{Json, null, text, object, Fields, end, field, get, truthy, equals_text}
use infra_loop_kda.Runner.Baseline.{section}
use infra_loop_kda.Overlay.Anchor.{Edit, apply}

-- The files of a plugin, by their relative paths.
abbrev pub Tree : Type 0
Tree = String → Option String

abbrev pub write : String → String → Tree → Tree
write relpath content tree = λ other. if relpath == other then some content else tree other

-- `util.sha256_text`, of which a file's hash in `util.tree_hashes` is the hash of its text, and
-- `util.tree_digest` of all hashes.
pub record Hashes : Type 0 where
  pub sha256 : String → String
  pub digest : Tree → String

abbrev pub guard_relpath : String
guard_relpath = "hooks/lib/k3-no-commit.sh"

-- `overlay_hashes.get(relpath)`
unfoldable pub hash_at : Hashes → Tree → String → Option String
hash_at h tree relpath = elim (tree relpath) [
  | none ↦ none
  | some content ↦ some (h.sha256 content)
]

-- `grouped`: the paths in the order of their first edit, and the edits of one.
unfoldable pub relpaths : List String → List Edit → List String
relpaths seen [] = []
relpaths seen (edit ∷ edits) =
    let later = relpaths (edit.relpath ∷ seen) edits in
    let rest = relpaths seen edits in
    if contains edit.relpath seen then rest else edit.relpath ∷ later

unfoldable pub group : String → List Edit → List Edit
group relpath [] = []
group relpath (edit ∷ edits) =
    let rest = group relpath edits in if edit.relpath == relpath then edit ∷ rest else rest

unfoldable pub apply_all : List Edit → String → Outcome String
apply_all [] content = ok content
apply_all (edit ∷ edits) content = apply edit content >>= λ next. apply_all edits next

-- `changed`: the hash that the overlay's file has.
abbrev pub Changed : Type 0
Changed = List (String × String)

unfoldable pub store : Hashes → Tree → String → String → String → Tree × Changed
store h tree relpath original edited =
    if edited == original
    then (tree, [])
    else (write relpath edited tree, (relpath, h.sha256 edited) ∷ [])

-- One round of the loop over the groups.
unfoldable pub edit_file :
    Hashes → List Edit → Tree → String → Option String → Outcome (Tree × Changed)
unfolding apply_all group store
edit_file h edits tree relpath none =
    err (tool_error ("overlay target is missing from the pinned plugin: " <> relpath))
edit_file h edits tree relpath (some original) = do
  edited ← apply_all (group relpath edits) original
  ok (store h tree relpath original edited)

unfoldable pub edit_files : Hashes → List Edit → List String → Tree → Outcome (Tree × Changed)
unfolding edit_file
edit_files h edits [] tree = ok (tree, [])
edit_files h edits (relpath ∷ rest) tree = do
  first ← edit_file h edits tree relpath (tree relpath)
  others ← edit_files h edits rest first.0
  ok (others.0, first.1 ++ others.1)

-- The record, of which `verify` reads these fields; a path that is not recorded is the empty one.
pub record Record : Type 0 where
  pub tree_digest : String
  pub upstream_digest : String
  pub edit_digest : String
  pub changed : Changed
  pub added : Changed
  pub patch_path : String
  pub patch_sha : String

-- What a build has: the plugin and the record of its directory, and what is at the path that the
-- record names for the patch.
pub record Build : Type 0 where
  pub plugin : Tree
  pub patch : Option String
  pub recorded : Record

-- The text of the guard after the edits.
abbrev pub text_at : Tree → String → String
text_at tree relpath = elim (tree relpath) [ none ↦ "" | some content ↦ content ]

-- What `build` makes in a new directory, whose path from the root is given; the text of the patch is what `difflib` makes of the two trees.
unfoldable pub make :
    Hashes → (Tree → Tree → String) → String → String → String → List Edit → Tree → Outcome Build
unfolding edit_files relpaths
make h diff directory edit_digest guard edits upstream = do
  made ← edit_files h edits (relpaths [] edits) (write guard_relpath guard upstream)
  ok (record {
    plugin = made.0;
    patch = some (diff upstream made.0);
    recorded = record {
      tree_digest = h.digest made.0;
      upstream_digest = h.digest upstream;
      edit_digest = edit_digest;
      changed = made.1;
      added = (guard_relpath, h.sha256 (text_at made.0 guard_relpath)) ∷ [];
      patch_path = directory <> "/overlay.patch";
      patch_sha = h.sha256 (diff upstream made.0);
    };
  })

-- The texts of `problems`.
pub data Problem : Type 0 where
  no_record no_plugin overlay_changed no_upstream upstream_changed edits_changed no_patch
        patch_changed :
      Problem
  file_missing file_differs : String → Problem

abbrev pub when : Bool → Problem → List Problem
when true problem = problem ∷ []
when false problem = []

-- `recorded and current != recorded`
abbrev pub drifted : String → String → Bool
drifted recorded current = not (recorded == "") && not (current == recorded)

-- One recorded file against the hashes of the tree.
unfoldable pub file_problems : Option String → String → String → List Problem
file_problems none relpath recorded = file_missing relpath ∷ []
file_problems (some actual) relpath recorded =
    when (not (actual == recorded)) (file_differs relpath)

unfoldable pub files_problems : Hashes → Tree → Changed → List Problem
unfolding file_problems hash_at
files_problems h tree [] = []
files_problems h tree ((relpath, recorded) ∷ files) =
    file_problems (hash_at h tree relpath) relpath recorded ++ files_problems h tree files

-- `_upstream_dir` may raise; then its tree is not there.
unfoldable pub upstream_problems : Hashes → String → Option Tree → List Problem
upstream_problems h recorded none = no_upstream ∷ []
upstream_problems h recorded (some upstream) =
    when (drifted recorded (h.digest upstream)) upstream_changed

unfoldable pub file_patch : Hashes → String → Option String → List Problem
file_patch h recorded none = no_patch ∷ []
file_patch h recorded (some patch) = when (not (h.sha256 patch == recorded)) patch_changed

-- `if patch_info.get("path"): …`
unfoldable pub patch_problems : Hashes → String → String → Option String → List Problem
unfolding file_patch
patch_problems h path recorded patch = if path == "" then [] else file_patch h recorded patch

-- `verify`, of a build whose record and plugin directory are there.
unfoldable pub verify : Hashes → Option Tree → String → Build → List Problem
unfolding files_problems upstream_problems patch_problems
verify h upstream edit_digest b =
    when (drifted b.recorded.tree_digest (h.digest b.plugin)) overlay_changed
    ++ (files_problems h b.plugin b.recorded.changed
        ++ (files_problems h b.plugin b.recorded.added
            ++ (upstream_problems h b.recorded.upstream_digest upstream
                ++ (when (drifted b.recorded.edit_digest edit_digest) edits_changed
                    ++ patch_problems h b.recorded.patch_path b.recorded.patch_sha b.patch))))

-- The build directory: it may be absent, or lack its record or its plugin.
pub data Found : Type 0 where
  absent : Found
  broken : Problem → Found
  built : Build → Found

-- `build`: a directory that is there is used when it verifies, and never replaced.
unfoldable pub build :
    Hashes
    → (Tree → Tree → String)
    → String
    → String
    → String
    → List Edit
    → Bool
    → Tree
    → Found
    → Outcome Build
unfolding make verify
build h diff directory edit_digest guard edits false upstream found =
    err (tool_error "overlay workspace is not ignored by Git")
build h diff directory edit_digest guard edits true upstream absent =
    make h diff directory edit_digest guard edits upstream
build h diff directory edit_digest guard edits true upstream (broken problem) =
    err (tool_error "an overlay build already exists but does not verify")
build h diff directory edit_digest guard edits true upstream (built b) =
    if is_empty (verify h (some upstream) edit_digest b)
    then ok b
    else err (tool_error "an overlay build already exists but does not verify")

-- The plugin that a session loads, and whether it is the overlay.
pub data Chosen : Type 0 where
  pinned : Tree → Chosen
  overlay : Build → Chosen

-- `resolve_plugin_dir`
unfoldable pub resolve_plugin : Hashes → Bool → Option Tree → String → Found → Outcome Chosen
unfolding verify
resolve_plugin h false none edit_digest found =
    err (tool_error "pinned Humanize plugin is not present")
resolve_plugin h false (some upstream) edit_digest found = ok (pinned upstream)
resolve_plugin h true upstream edit_digest absent =
    err (tool_error "no overlay built; run: k3ctl overlay build --config <config>")
resolve_plugin h true upstream edit_digest (broken problem) =
    err (tool_error "no-commit overlay is enabled but does not verify")
resolve_plugin h true upstream edit_digest (built b) =
    if is_empty (verify h upstream edit_digest b)
    then ok (overlay b)
    else err (tool_error "no-commit overlay is enabled but does not verify")
