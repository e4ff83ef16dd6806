-- ===== src/Overlay/Tests.antt =====
-- The overlay of a small plugin.
use infra_loop_kda.Base.{String, ◌<>◌, true, false, none, some, [], ◌∷◌, ◌≡◌, refl}
use infra_loop_kda.Base.Text.{contains_text}
use infra_loop_kda.Base.Outcome.{err, tool_error}
use infra_loop_kda.Overlay.Anchor.{Edit, apply, count_from}
use infra_loop_kda.Overlay.Anchor.Once.{apply-once}
use infra_loop_kda.Overlay.{
  Tree, Hashes, Build, Problem, write, text_at, build, verify, resolve_plugin, absent, built,
  overlay, guard_relpath,
}
use infra_loop_kda.Overlay.Built.{build-verify}
use infra_loop_kda.Overlay.Sound.{IsChosen, resolve_plugin-IsChosen}

abbrev hashes : Hashes
hashes = record {
  sha256 = λ s. "h:" <> s;
  digest = λ tree. "d:" <> (text_at tree "a.sh" <> text_at tree guard_relpath);
}

abbrev plugin : Tree
plugin = write "a.sh" "if low; then" (λ p. none)

abbrev widen : Edit
widen = record { relpath = "a.sh"; anchor = "low"; replacement = "low|max"; note = "widen" }

abbrev narrow : Edit
narrow = record { relpath = "a.sh"; anchor = "max"; replacement = "ultra"; note = "then narrow" }

abbrev edited : Tree
edited = write "a.sh" "if low|ultra; then" (write guard_relpath "guard" plugin)

abbrev made : Build
made = record {
  plugin = edited;
  patch = some "patch";
  recorded = record {
    tree_digest = "d:if low|ultra; thenguard";
    upstream_digest = "d:if low; then";
    edit_digest = "e";
    changed = ("a.sh", "h:if low|ultra; then") ∷ [];
    added = (guard_relpath, "h:guard") ∷ [];
    patch_path = "b/overlay.patch";
    patch_sha = "h:patch";
  };
}

apply-once_example :
    (before : String) × (after : String) × ("if low; then" ≡ before <> ("low" <> after))
    × ("if low|max; then" ≡ before <> ("low|max" <> after))
    × (contains_text "low" after ≡ false)
unfolding apply
apply-once_example = apply-once widen "if low; then" "if low|max; then" refl refl

twice : apply widen "low low" ≡ err (tool_error "overlay anchor did not match exactly once in a.sh")
unfolding apply
twice = refl

overlapping : count_from "aa" 0 "aaa" ≡ 1
unfolding count_from
overlapping = refl

build-verify_example : verify hashes (some plugin) "e" made ≡ []
unfolding build apply
build-verify_example =
    build-verify hashes (λ a b. "patch") "b" "e" "guard" (widen ∷ narrow ∷ []) true plugin absent
      made refl

tampered :
    verify hashes (some plugin) "e" (record {
      plugin = write "a.sh" "if true; then" edited;
      patch = made.patch;
      recorded = made.recorded;
    })
    ≡ Problem.overlay_changed ∷ Problem.file_differs "a.sh" ∷ []
unfolding verify
tampered = refl

resolve_plugin-IsChosen_example : IsChosen hashes (some plugin) "e" true (overlay made)
unfolding resolve_plugin
resolve_plugin-IsChosen_example =
    resolve_plugin-IsChosen hashes true (some plugin) "e" (built made) (overlay made) refl
