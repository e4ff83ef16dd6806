-- ===== src/Runner/Evidence/Report.antt =====
-- tools/k3/runner.py: `artifact_report`. What each declared path is, is an argument.
use infra_loop_kda.Base.{
  ℕ, zero, suc, pos, String, ◌<>◌, Bool, false, not, ◌&&◌, Option, none, some, List, [], ◌∷◌, ◌++◌,
  ◌==◌, if◌then◌else◌, is_empty, map,
}
use infra_loop_kda.Base.Text.{ends_with, join}
use infra_loop_kda.Base.Outcome.{Outcome, ok, err, ◌>>=◌, type_error}
use infra_loop_kda.Json.{
  Json, null, bool, int, text, array, object, Items, nil, cons, Fields, end, field, get, put,
  keys_of, equals_text, truthy,
}
use infra_loop_kda.Paths.{parts_of, is_absolute}
use infra_loop_kda.Runner.Evidence.Summary.{
  Loaded, loaded, invalid, File, Problem, Info, inspect_summary,
}

-- A declared path: nothing, a regular file, or a directory with its `tree_hashes` (their number and
-- their digest) and its files by name.
pub data Item : Type 0 where
  nothing : Item
  plain_file : (size : ℕ) (sha256 : String) (document : Loaded) → Item
  folder : (file_count : ℕ) (digest : String) (file : String → File) → Item

-- The texts of `missing` and `incomplete`, one constructor for each.
pub data Missing : Type 0 where
  absent file_is_empty directory_is_empty : String → Missing

pub data Incomplete : Type 0 where
  item_unreadable : String → String → Incomplete
  item_not_passed : String → Json → Incomplete
  in_directory : String → Problem → Incomplete

-- The variables of the loop.
pub record Findings : Type 0 where
  pub present : Fields
  pub missing : List Missing
  pub incomplete : List Incomplete
  pub summaries : List (String × Info)

-- `str(Path(raw))`
unfoldable pub path_text : String → String
unfolding is_absolute parts_of join
path_text raw =
    if is_absolute raw
    then "/" <> join "/" (parts_of raw)
    else if is_empty (parts_of raw)
    then "."
    else join "/" (parts_of raw)

abbrev last_part : List String → String
last_part [] = ""
last_part (part ∷ []) = part
last_part (part ∷ next ∷ parts) = last_part (next ∷ parts)

-- `Path(raw).name`
unfoldable pub name_of : String → String
unfolding parts_of
name_of raw = last_part (parts_of raw)

-- `str(Path(base) / Path(raw).name)`
unfoldable pub remapped : Option String → String → String
unfolding path_text name_of
remapped none raw = path_text raw
remapped (some base) raw = path_text (base <> "/" <> name_of raw)

-- `item.suffix == ".json"`
unfoldable pub is_json : String → Bool
unfolding name_of ends_with
is_json raw = ends_with ".json" (name_of raw) && not (name_of raw == ".json")

unfoldable pub texts_of : Items → Outcome (List String)
texts_of nil = ok []
texts_of (cons (text s) vs) = do rest ← texts_of vs; ok (s ∷ rest)
texts_of (cons v vs) = err type_error

abbrev pub characters_of : String → List String
characters_of String.[] = []
characters_of (String.◌∷◌ c s) = (String.◌∷◌ c String.[]) ∷ characters_of s

-- The elements of `manifest.get("expected_artifacts") or []`, each of which must be a path.
unfoldable pub declared_paths : Json → Outcome (List String)
unfolding texts_of
declared_paths (array vs) = texts_of vs
declared_paths (object m) = ok (keys_of m)
declared_paths (text s) = ok (characters_of s)
declared_paths null = ok []
declared_paths (bool b) = if b then err type_error else ok []
declared_paths (int z) = if truthy (int z) then err type_error else ok []

-- `status_value is not None and status_value != "passed"`
abbrev pub is_failed : Json → Bool
is_failed null = false
is_failed v = not (equals_text v "passed")

-- What the status of a single-file report adds to `incomplete` and to the entry.
unfoldable pub read_file : String → Fields → Loaded → List Incomplete × Fields
unfolding get put
read_file item entry (invalid message) = (item_unreadable item message ∷ [], entry)
read_file item entry (loaded payload) = (
  if is_failed (get "status" payload) then item_not_passed item (get "status" payload) ∷ [] else [],
  put "status" (get "status" payload) entry,
)

abbrev pub file_entry : ℕ → String → Fields
file_entry size sha256 =
    field "kind" (text "file") (field "sha256" (text sha256) (field "bytes" (int (pos size)) end))

-- The branch for a regular file that is not empty.
unfoldable pub add_file : String → ℕ → String → Loaded → Findings → Findings
unfolding is_json read_file put
add_file item size sha256 document found =
    let (problems, entry) = read_file item (file_entry size sha256) document in
    if is_json item
    then record found {
      incomplete = found.incomplete ++ problems;
      present = put item (object entry) found.present;
    }
    else record found { present = put item (object (file_entry size sha256)) found.present }

-- The branch for a directory that is not empty.
unfoldable pub add_folder : String → ℕ → String → Info → Findings → Findings
unfolding put
add_folder item file_count digest info found = record found {
  summaries = found.summaries ++ (item, info) ∷ [];
  present =
      put item
        (object (
          field "kind" (text "directory") (
            field "file_count" (int (pos file_count))
              (field "digest" (text digest) (field "summary_status" info.status end)))))
        found.present;
  incomplete = found.incomplete ++ map (in_directory item) info.problems;
}

abbrev pub add_missing : Missing → Findings → Findings
add_missing m found = record found { missing = found.missing ++ m ∷ [] }

-- One round of the loop.
unfoldable pub add_item : String → Item → Findings → Outcome Findings
unfolding add_file add_folder inspect_summary
add_item item nothing found = ok (add_missing (absent item) found)
add_item item (plain_file zero sha256 document) found = ok (add_missing (file_is_empty item) found)
add_item item (plain_file (suc n) sha256 document) found =
    ok (add_file item (suc n) sha256 document found)
add_item item (folder zero digest file) found = ok (add_missing (directory_is_empty item) found)
add_item item (folder (suc n) digest file) found = do
  info ← inspect_summary file
  ok (add_folder item (suc n) digest info found)

unfoldable pub add_items : (String → Item) → List String → Findings → Outcome Findings
unfolding add_item
add_items disk [] found = ok found
add_items disk (item ∷ items) found = do
  next ← add_item item (disk item) found
  add_items disk items next

-- The `dict` that `artifact_report` returns; its `complete` is a function of it.
pub record Report : Type 0 where
  pub declared : List String
  pub base : Option String
  pub found : Findings

-- `bool(declared) and not missing and not incomplete`
unfoldable pub is_complete : Report → Bool
is_complete report =
    not (is_empty report.declared)
    && is_empty report.found.missing
    && is_empty report.found.incomplete

abbrev pub no_findings : Findings
no_findings = record { present = end; missing = []; incomplete = []; summaries = [] }

-- `artifact_report`
unfoldable pub artifact_report : (String → Item) → Fields → Option String → Outcome Report
unfolding get declared_paths remapped add_items
artifact_report disk manifest base = do
  paths ← declared_paths (get "expected_artifacts" manifest)
  let declared = map (remapped base) paths
  found ← add_items disk declared no_findings
  ok (record { declared = declared; base = base; found = found })
