-- ===== src/Overlay/Sound.antt =====
-- What a session is promised of the overlay that it loads.
use infra_loop_kda.Base.{
  String, Bool, true, false, not, Option, none, some, List, [], ◌∷◌, ◌==◌, ◌≡◌, ◌⊎◌, inl, inr,
  Bool-cases, refl, subst, arith, is_empty, if◌then◌else◌, eq_iff, append-eq_nil,
}
use infra_loop_kda.Base.Outcome.{Error, ok, err, ok_injective}
use infra_loop_kda.Overlay.{
  Tree, Hashes, Build, Problem, Changed, Found, Chosen, hash_at, when, drifted, file_problems,
  files_problems, upstream_problems, patch_problems, file_patch, verify, resolve_plugin, absent,
  broken, built, pinned, overlay,
}

-- Each recorded file is there, with the hash that is recorded of it.
abbrev pub AllMatch : Hashes → Tree → Changed → Type 0
AllMatch h tree [] = Unit
AllMatch h tree ((p, recorded) ∷ files) =
    ((content : String) × (tree p ≡ some content) × (h.sha256 content ≡ recorded))
    × AllMatch h tree files

-- No digest is recorded, or the one found now.
abbrev pub Matches : String → String → Type 0
Matches recorded current = (recorded ≡ "") ⊎ (current ≡ recorded)

pub record IsIntact (h : Hashes) (upstream : Option Tree) (edit_digest : String) (b : Build)
    : Type 0 where
  pub plugin : Matches b.recorded.tree_digest (h.digest b.plugin)
  pub changed : AllMatch h b.plugin b.recorded.changed
  pub added : AllMatch h b.plugin b.recorded.added
  pub tree : Tree
  pub there : upstream ≡ some tree
  pub pin : Matches b.recorded.upstream_digest (h.digest tree)
  pub edits : Matches b.recorded.edit_digest edit_digest
  pub patch :
      (b.recorded.patch_path ≡ "")
      ⊎ ((text : String) × (b.patch ≡ some text) × (h.sha256 text ≡ b.recorded.patch_sha))

when-nil : (b : Bool) (p : Problem) → when b p ≡ [] → b ≡ false
when-nil true p h = cc
when-nil false p h = refl

drifted-Matches :
    (recorded current : String) (p : Problem)
    → when (drifted recorded current) p ≡ []
    → Matches recorded current
drifted-Matches recorded current p h =
    let quiet = when-nil (drifted recorded current) p h in
    elim (Bool-cases (recorded == "")) [
      | inl none_recorded ↦ inl ((eq_iff recorded "").0 none_recorded)
      | inr known ↦ inr ((eq_iff current recorded).0 (ground arith))
    ]

file_problems-found :
    (h : Hashes) (p recorded : String) (found : Option String)
    → file_problems (elim found [ none ↦ none | some content ↦ some (h.sha256 content) ]) p recorded
      ≡ []
    → (content : String) × (found ≡ some content) × (h.sha256 content ≡ recorded)
unfolding file_problems
file_problems-found h p recorded none e = cc
file_problems-found h p recorded (some content) e =
    let quiet = when-nil (not (h.sha256 content == recorded)) _ e in
    (content, refl, (eq_iff (h.sha256 content) recorded).0 (ground arith))

files_problems-AllMatch :
    (h : Hashes) (tree : Tree) (files : Changed)
    → files_problems h tree files ≡ []
    → AllMatch h tree files
unfolding files_problems hash_at
files_problems-AllMatch h tree [] e = tt
files_problems-AllMatch h tree ((p, recorded) ∷ files) e =
    let (first, rest) = append-eq_nil (file_problems (hash_at h tree p) p recorded) _ e in
    (file_problems-found h p recorded (tree p) first, files_problems-AllMatch h tree files rest)

upstream_problems-found :
    (h : Hashes) (recorded : String) (upstream : Option Tree)
    → upstream_problems h recorded upstream ≡ []
    → (tree : Tree) × (upstream ≡ some tree) × Matches recorded (h.digest tree)
unfolding upstream_problems
upstream_problems-found h recorded none e = cc
upstream_problems-found h recorded (some tree) e =
    (tree, refl, drifted-Matches recorded (h.digest tree) _ e)

file_patch-found :
    (h : Hashes) (recorded : String) (patch : Option String)
    → file_patch h recorded patch ≡ []
    → (text : String) × (patch ≡ some text) × (h.sha256 text ≡ recorded)
unfolding file_patch
file_patch-found h recorded none e = cc
file_patch-found h recorded (some text) e =
    let quiet = when-nil (not (h.sha256 text == recorded)) _ e in
    (text, refl, (eq_iff (h.sha256 text) recorded).0 (ground arith))

patch_problems-found :
    (h : Hashes) (path recorded : String) (patch : Option String)
    → patch_problems h path recorded patch ≡ []
    → (path ≡ "") ⊎ ((text : String) × (patch ≡ some text) × (h.sha256 text ≡ recorded))
unfolding patch_problems
patch_problems-found h path recorded patch e = elim (Bool-cases (path == "")) [
  | inl unnamed ↦ inl ((eq_iff path "").0 unnamed)
  | inr named ↦ inr (file_patch-found h recorded patch (rw named at e))
]

verify-IsIntact :
    (h : Hashes) (upstream : Option Tree) (edit_digest : String) (b : Build)
    → verify h upstream edit_digest b ≡ []
    → IsIntact h upstream edit_digest b
unfolding verify
verify-IsIntact h upstream edit_digest b e =
    let (plugin, e) = append-eq_nil _ _ e in
    let (changed, e) = append-eq_nil _ _ e in
    let (added, e) = append-eq_nil _ _ e in
    let (pin, e) = append-eq_nil _ _ e in
    let (edits, patch) = append-eq_nil _ _ e in
    let (tree, there, pin) = upstream_problems-found h b.recorded.upstream_digest upstream pin in
    record {
      plugin = drifted-Matches _ _ _ plugin;
      changed = files_problems-AllMatch h b.plugin b.recorded.changed changed;
      added = files_problems-AllMatch h b.plugin b.recorded.added added;
      tree = tree;
      there = there;
      pin = pin;
      edits = drifted-Matches _ _ _ edits;
      patch = patch_problems-found h b.recorded.patch_path b.recorded.patch_sha b.patch patch;
    }

-- What is promised of the plugin that is loaded.
pub data IsChosen (h : Hashes) (upstream : Option Tree) (edit_digest : String)
    : Bool → Chosen → Type 0 where
  is_pinned :
      {tree : Tree} → upstream ≡ some tree → IsChosen h upstream edit_digest false (pinned tree)
  is_overlay :
      {b : Build}
      → IsIntact h upstream edit_digest b
      → IsChosen h upstream edit_digest true (overlay b)

checked :
    (problems : List Problem) (b : Build) (e : Error) {chosen : Chosen}
    → (if is_empty problems then ok (overlay b) else err e) ≡ ok chosen
    → (problems ≡ []) × (overlay b ≡ chosen)
checked [] b e h = (refl, ok_injective h)
checked (p ∷ problems) b e h = cc

-- The plugin that a session loads is the pinned tree where the overlay is off, and else a build whose
-- recorded files are there with the recorded hashes, whose digests of the plugin, of the upstream
-- tree beside it and of the edits are those found now as far as they are recorded, and whose patch,
-- if a path is recorded for it, is there with the recorded hash.
pub resolve_plugin-IsChosen :
    (h : Hashes) (enabled : Bool) (upstream : Option Tree) (edit_digest : String) (found : Found)
    (chosen : Chosen)
    → resolve_plugin h enabled upstream edit_digest found ≡ ok chosen
    → IsChosen h upstream edit_digest enabled chosen
unfolding resolve_plugin
resolve_plugin-IsChosen h false none edit_digest found chosen e = cc
resolve_plugin-IsChosen h false (some tree) edit_digest found chosen e =
    subst (IsChosen h (some tree) edit_digest false) (ok_injective e) (is_pinned refl)
resolve_plugin-IsChosen h true upstream edit_digest absent chosen e = cc
resolve_plugin-IsChosen h true upstream edit_digest (broken problem) chosen e = cc
resolve_plugin-IsChosen h true upstream edit_digest (built b) chosen e =
    let (clean, same) = checked (verify h upstream edit_digest b) b _ e in
    subst (IsChosen h upstream edit_digest true) same
      (is_overlay (verify-IsIntact h upstream edit_digest b clean))
