-- ===== src/Paths.antt =====
-- tools/k3/paths.py: relative paths that stay below a root. A path is read as the list of its
-- components; the root is given as `root.resolve()` gives it, by the names from `/` down.
pub mod Normal
pub mod Contained
mod Tests
use infra_loop_kda.Paths.Normal.{normal_parts}
use Prim.Native.Char.{code}
use Prim.Native.String
use infra_loop_kda.Base.{
  String, ◌<>◌, Bool, true, false, not, ◌&&◌, ◌||◌, Option, none, some, List, [], ◌∷◌, ◌++◌, ◌==◌,
  if◌then◌else◌, contains, nat_beq,
}
use infra_loop_kda.Base.Text.{split_on, contains_char, join}
use infra_loop_kda.Base.Outcome.{Outcome, ok, err, ◌>>=◌, ◌>>◌, require, path_error}

-- `Path(raw).parts` of a relative path: empty components and `.` are dropped.
abbrev pub is_skipped : String → Bool
is_skipped part = part == "" || part == "."

unfoldable pub drop_skipped : List String → List String
drop_skipped [] = []
drop_skipped (part ∷ parts) =
    let rest = drop_skipped parts in if is_skipped part then rest else part ∷ rest

unfoldable pub parts_of : String → List String
parts_of raw = drop_skipped (split_on b'/' raw)

-- `Path(raw).is_absolute()`
unfoldable pub is_absolute : String → Bool
is_absolute String.[] = false
is_absolute (String.◌∷◌ c s) = nat_beq (code c) b'/'

-- `safe_relative`; the result is the components of the path.
unfoldable pub safe_relative : String → Outcome (List String)
safe_relative raw = do
  require (not (raw == "")) (path_error "empty path")
  require (not (is_absolute raw)) (path_error ("path must be relative: " <> raw))
  require (not (contains ".." (parts_of raw)))
      (path_error ("path must not traverse upwards: " <> raw))
  require (not (contains_char 0 raw)) (path_error "path contains a NUL byte")
  ok (parts_of raw)

-- What `is_symlink` answers for a path; `unreadable` is an `OSError`.
pub data Link : Type 0 where
  plain symlink unreadable : Link

abbrev is_plain : Link → Bool
is_plain plain = true
is_plain _ = false

-- The text of the path below `/` with these components.
abbrev pub show_path : List String → String
show_path parts = "/" <> join "/" parts

-- `contains_symlink`, below the components walked so far.
unfoldable pub contains_symlink : (List String → Link) → List String → List String → Option String
contains_symlink link current [] = none
contains_symlink link current (part ∷ parts) =
    let below = current ++ part ∷ [] in
    let rest = contains_symlink link below parts in
    if is_plain (link below) then rest else some (show_path below)

-- `resolved.relative_to(root)` succeeds.
unfoldable pub is_below : List String → List String → Bool
is_below [] path = true
is_below (r ∷ root) [] = false
is_below (r ∷ root) (p ∷ path) = r == p && is_below root path

-- The check on links, where it is asked for.
unfoldable pub check_links : Bool → Option String → Outcome (Unit {0})
check_links true found = ok tt
check_links false none = ok tt
check_links false (some at) = err (path_error ("path traverses a symbolic link: " <> at))

-- `safe_join`; the result is the components of the path below `/`.
unfoldable pub safe_join :
    (List String → Link) → List String → String → Bool → Outcome (List String)
safe_join link root raw allow_symlink = do
  relative ← safe_relative raw
  require (is_below root (normal_parts true (root ++ relative)))
      (path_error ("path escapes the project root: " <> raw))
  check_links allow_symlink (contains_symlink link root relative)
  ok (normal_parts true (root ++ relative))
