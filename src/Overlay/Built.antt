-- ===== src/Overlay/Built.antt =====
-- What `build` makes is a build that `verify` has no complaint about.
use infra_loop_kda.Base.{
  String, ◌<>◌, Bool, true, false, some, List, [], ◌∷◌, ◌==◌, ◌≡◌, refl, sym, ◌∙◌, ap, subst,
  is_empty, if◌then◌else◌, Bool-cases, inl, inr, eq_refl,
}
use infra_loop_kda.Base.Outcome.{Error, ok, err, >>=-eq-ok, ok_injective}
use infra_loop_kda.Overlay.Anchor.{Edit}
use infra_loop_kda.Overlay.{
  Tree, Hashes, Build, Problem, Found, write, relpaths, edit_files, make, build, when, drifted,
  files_problems, verify, upstream_problems, patch_problems, file_patch, guard_relpath, text_at,
  absent, broken, built,
}
use infra_loop_kda.Overlay.Stored.{write_same, file_problems-same}
use infra_loop_kda.Overlay.Edited.{relpaths-Distinct, edit_files-recorded, edit_files-present}

text_at-some :
    (tree : Tree) (p : String) {content : String} → tree p ≡ some content → text_at tree p ≡ content
text_at-some tree p e = rw (text_at, e) refl

-- The test on the problems of a build that is there.
taken :
    (problems : List Problem) (there b : Build) (e : Error)
    → (if is_empty problems then ok there else err e) ≡ ok b
    → (problems ≡ []) × (there ≡ b)
taken [] there b e h = (refl, ok_injective h)
taken (p ∷ problems) there b e h = cc

module _ (h : Hashes) where
  added-recorded :
      (tree : Tree) (p : String) {content : String}
      → tree p ≡ some content
      → files_problems h tree ((p, h.sha256 (text_at tree p)) ∷ []) ≡ []
  added-recorded tree p {content = content} there =
      ap (λ t. files_problems h tree ((p, h.sha256 t) ∷ [])) (text_at-some tree p there)
      ∙ file_problems-same h tree p content there

  undrifted : (a : String) (problem : Problem) → when (drifted a a) problem ≡ []
  undrifted a problem = elim (Bool-cases (a == "")) [
    | inl e ↦ rw e refl
    | inr e ↦ rw (e, eq_refl a) refl
  ]

  patch_problems-made :
      (path patch : String) → patch_problems h path (h.sha256 patch) (some patch) ≡ []
  unfolding patch_problems file_patch
  patch_problems-made path patch = elim (Bool-cases (path == "")) [
    | inl e ↦ rw e refl
    | inr e ↦ rw (e, eq_refl (h.sha256 patch)) refl
  ]

  make-verify :
      (diff : Tree → Tree → String) (directory edit_digest guard : String) (edits : List Edit)
      (upstream : Tree) {b : Build}
      → make h diff directory edit_digest guard edits upstream ≡ ok b
      → verify h (some upstream) edit_digest b ≡ []
  unfolding make verify upstream_problems
  make-verify diff directory edit_digest guard edits upstream e =
      let start = write guard_relpath guard upstream in
      let (made, edited, stored) = >>=-eq-ok (edit_files h edits (relpaths [] edits) start) _ e in
      let recorded =
        edit_files-recorded h edits (relpaths [] edits) start (relpaths-Distinct [] edits) edited in
      let (now, there) =
        edit_files-present h edits (relpaths [] edits) start guard_relpath
          (write_same guard_relpath guard upstream) edited in
      rw
        (
          sym (ok_injective stored),
          undrifted (h.digest made.0) Problem.overlay_changed,
          recorded,
          added-recorded made.0 guard_relpath there,
          undrifted (h.digest upstream) Problem.upstream_changed,
          undrifted edit_digest Problem.edits_changed,
          patch_problems-made (directory <> "/overlay.patch") (diff upstream made.0),
        )
        refl

-- A build that `build` returns, new or found, is one that `verify` finds no problem in.
pub build-verify :
    (h : Hashes) (diff : Tree → Tree → String) (directory edit_digest guard : String)
    (edits : List Edit) (ignored : Bool) (upstream : Tree) (found : Found) (b : Build)
    → build h diff directory edit_digest guard edits ignored upstream found ≡ ok b
    → verify h (some upstream) edit_digest b ≡ []
unfolding build
build-verify h diff directory edit_digest guard edits false upstream found b e = cc
build-verify h diff directory edit_digest guard edits true upstream absent b e =
    make-verify h diff directory edit_digest guard edits upstream e
build-verify h diff directory edit_digest guard edits true upstream (broken problem) b e = cc
build-verify h diff directory edit_digest guard edits true upstream (built there) b e =
    let (clean, same) = taken (verify h (some upstream) edit_digest there) there b _ e in
    subst (λ c. verify h (some upstream) edit_digest c ≡ []) same clean
