-- ===== src/Paths/Tests.antt =====
-- Paths that stay below a root, and some that are refused.
use infra_loop_kda.Base.{◌≡◌, refl, true, false, List, [], ◌∷◌, ◌++◌, String, All}
use infra_loop_kda.Base.Text.{split_on, push_char, contains_char, join}
use infra_loop_kda.Base.Outcome.{ok, err, path_error, ◌>>=◌}
use infra_loop_kda.Paths.{
  plain, symlink, parts_of, drop_skipped, is_absolute, safe_relative, contains_symlink, is_below,
  check_links, safe_join,
}
use infra_loop_kda.Paths.Normal.{normal_parts, IsName}
use infra_loop_kda.Paths.Contained.{PlainBelow, safe_join_exits, safe_join-PlainBelow}

runs : Unit {0}
unfolding safe_join safe_relative is_absolute parts_of drop_skipped split_on push_char contains_char
    normal_parts is_below contains_symlink check_links
runs = tt

abbrev root : List String
root = "srv" ∷ "repo" ∷ []

traversal :
    safe_join (λ p. plain) root "a/../../x" false
    ≡ err (path_error "path must not traverse upwards: a/../../x")
unfolding runs
traversal = refl

linked :
    safe_join (λ p. symlink) root "a/b" false
    ≡ err (path_error "path traverses a symbolic link: /srv/repo/a")
unfolding runs join
linked = refl

safe_join_exits_example : safe_join (λ p. symlink) root "a//./b" true ≡ (
    check_links true (contains_symlink (λ p. symlink) root ("a" ∷ "b" ∷ [])) >>= λ _.
    ok (root ++ "a" ∷ "b" ∷ []))
unfolding runs
safe_join_exits_example = safe_join_exits (λ p. symlink) root "a//./b" (refl, (refl, tt)) true refl

safe_join-PlainBelow_example :
    (is_absolute "a//./b" ≡ false)
    × (root ++ "a" ∷ "b" ∷ [] ≡ root ++ parts_of "a//./b")
    × All IsName (parts_of "a//./b")
    × PlainBelow (λ p. plain) root (parts_of "a//./b")
unfolding runs
safe_join-PlainBelow_example =
    safe_join-PlainBelow (λ p. plain) root "a//./b" (refl, (refl, tt)) refl
