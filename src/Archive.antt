-- ===== src/Archive.antt =====
-- tools/k3/gitq.py: the checks of `_safe_extract` on the members of an archive, before the archive
-- is extracted.
pub mod Inside
mod Tests
use infra_loop_kda.Base.{
  String, ◌<>◌, Bool, true, false, not, ◌&&◌, ◌||◌, List, [], ◌∷◌, ◌++◌, ◌==◌, if◌then◌else◌,
}
use infra_loop_kda.Base.Text.{split_on}
use infra_loop_kda.Base.Outcome.{Outcome, ok, err, ◌>>=◌, ◌>>◌, require, tool_error}
use infra_loop_kda.Paths.{is_absolute}
use infra_loop_kda.Paths.Normal.{normal_parts}

-- The kinds of `tarfile.TarInfo` that the code tells apart; a link has its target.
pub data Kind : Type 0 where
  file directory device fifo : Kind
  symbolic_link hard_link : String → Kind

pub record Member : Type 0 where
  pub name : String
  pub kind : Kind

-- The components of `posixpath.normpath`, and whether a normal path of these components is `..` or
-- begins with `../`.
abbrev pub normal : String → List String
normal name = normal_parts (is_absolute name) (split_on b'/' name)

abbrev pub climbs : List String → Bool
climbs [] = false
climbs (c ∷ cs) = c == ".."

-- `posixpath.dirname` of a normal relative path
abbrev pub parent : List String → List String
parent [] = []
parent (c ∷ []) = []
parent (c ∷ d ∷ cs) = c ∷ parent (d ∷ cs)

-- The components of `normpath(join(base, link_target))`, for a target that is not absolute.
unfoldable pub resolved : List String → String → List String
unfolding normal_parts split_on
resolved path target = normal_parts false (parent path ++ split_on b'/' target)

-- `_link_escapes`, for the components of a normal relative path.
unfoldable pub link_escapes : List String → String → Bool
unfolding is_absolute resolved
link_escapes path target = if is_absolute target then true else climbs (resolved path target)

-- `member.isdev() or member.isfifo()`; a FIFO is a device for `tarfile`.
abbrev pub is_special : Kind → Bool
is_special device = true
is_special fifo = true
is_special _ = false

-- The test on links.
unfoldable pub has_bad_link : Kind → List String → Bool
unfolding link_escapes
has_bad_link (symbolic_link target) path = link_escapes path target
has_bad_link (hard_link target) path = link_escapes path target
has_bad_link _ path = false

-- One round of the loop.
unfoldable pub check_member : Member → Outcome (Unit {0})
unfolding is_absolute normal_parts split_on has_bad_link
check_member member = do
  require (not (is_absolute member.name || climbs (normal member.name)))
      (tool_error ("archive member escapes the destination: " <> member.name))
  require (not (is_special member.kind))
      (tool_error ("archive member is a special file, refusing: " <> member.name))
  require (not (has_bad_link member.kind (normal member.name)))
      (tool_error ("archive member " <> member.name <> " links outside the archive root"))
  ok tt

-- The loop on `handle.getmembers()`; `extractall` follows when it returns.
unfoldable pub safe_extract : List Member → Outcome (Unit {0})
unfolding check_member
safe_extract [] = ok tt
safe_extract (member ∷ members) = do check_member member; safe_extract members
