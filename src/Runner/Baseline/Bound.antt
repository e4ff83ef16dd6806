-- ===== src/Runner/Baseline/Bound.antt =====
-- What a run without integrity problems is bound to, and which roots are measured.
use infra_loop_kda.Base.{
  ◌≡◌, ◌≢◌, refl, sym, ap, subst, ◌∙◌, String, Bool, true, false, not, Option, none, some, List, [],
  ◌∷◌, ◌++◌, ◌==◌, append-eq_nil, is_empty, eq_iff, arith, inl, inr, Bool-cases, if◌then◌else◌,
}
use infra_loop_kda.Base.Outcome.{Outcome, ok, err, >>=-eq-ok, ok_injective, require, require-eq-ok}
use infra_loop_kda.Json.{
  Json, null, bool, int, text, array, object, nil, cons, Fields, end, field, get, lookup, truthy,
  equals_text,
}
use infra_loop_kda.Json.Repr.{str_or}
use infra_loop_kda.Base.Text.{split_on}
use infra_loop_kda.Paths.{is_absolute, parts_of, drop_skipped}
use infra_loop_kda.Runner.Evidence.Report.{path_text}
use infra_loop_kda.Lifecycle.{base_commit}
use infra_loop_kda.Runner.Baseline.{
  dict_or, section, recorded_path, is_other_root, is_same_commit, not_hashed, no_digest, Trouble,
  Integrity, trouble, compare_digest, compare_base, verify_record, is_tool_error,
  verify_baseline_integrity, root_path, resolve_roots,
}

one_trouble : (b : Bool) → (if b then not_hashed ∷ [] else no_digest ∷ []) ≡ [] → false ≡ true
one_trouble true h = cc
one_trouble false h = cc

compare_digest-clean :
    (recorded : Json) (observed : Option String) {checked : Bool} {matches : Option Bool}
    {ts : List Trouble}
    → compare_digest recorded observed ≡ ok (checked, matches, ts)
    → ts ≡ []
    → (digest : String) × (observed ≡ some digest)
      × (digest ≢ "")
      × (equals_text recorded digest ≡ true)
      × (checked ≡ true)
      × (matches ≡ some true)
unfolding compare_digest
compare_digest-clean recorded none h e =
    cc (one_trouble (truthy recorded) (ap (λ r. r.2) (ok_injective h) ∙ e))
compare_digest-clean recorded (some digest) h e =
    (digest, refl, ground (arith, eq_iff digest ""), ground arith, ground arith, ground arith)

trouble-eq_nil : (bad : Bool) (t : Trouble) → trouble bad t ≡ [] → bad ≡ false
trouble-eq_nil true t h = cc
trouble-eq_nil false t h = refl

compare_base-clean :
    (recorded : Json) (current : Option String) {ts : List Trouble}
    → compare_base recorded current ≡ ok ts
    → ts ≡ []
    → is_same_commit recorded current ≡ true
unfolding compare_base
compare_base-clean recorded current h e = ground arith

-- The run is bound to the workspace that was prepared for its task.
pub record IsBound (resolve : String → String) (entry : Fields) (task_id : String) (task : Fields)
    (baseline candidate observed : Option String) : Type 0 where
  pub source : Fields
  pub source_is : section "source" entry ≡ ok source
  pub prepared : Fields
  pub prepared_is : section "baseline" entry ≡ ok prepared
  pub workspace : Fields
  pub workspace_is : section "workspace" entry ≡ ok workspace
  pub same_task : equals_text (get "task_id" entry) task_id ≡ true
  pub same_base : is_same_commit (get "base_commit" source) (base_commit task) ≡ true
  pub same_baseline : is_other_root resolve (recorded_path resolve prepared) baseline ≡ false
  pub same_candidate : is_other_root resolve (recorded_path resolve workspace) candidate ≡ false
  pub digest : String
  pub observed_is : observed ≡ some digest
  pub hashed : digest ≢ ""
  pub unchanged : equals_text (get "digest" prepared) digest ≡ true

verify_record-IsBound :
    (resolve : String → String) (entry : Fields) (task_id : String) (task : Fields)
    (baseline candidate observed : Option String) {r : Integrity}
    → verify_record resolve entry task_id task baseline candidate observed ≡ ok r
    → r.problems ≡ []
    → IsBound resolve entry task_id task baseline candidate observed
      × (r.checked ≡ true)
      × (r.matches_prepared ≡ some true)
      × (r.identity_bound ≡ some true)
unfolding verify_record
verify_record-IsBound resolve entry task_id task baseline candidate observed {r} h p =
    let (source, source_is, h₁) = >>=-eq-ok (section "source" entry) _ h in
    let (base, base_is, h₂) =
      >>=-eq-ok (compare_base (get "base_commit" source) (base_commit task)) _ h₁ in
    let (prepared, prepared_is, h₃) = >>=-eq-ok (section "baseline" entry) _ h₂ in
    let (workspace, workspace_is, h₄) = >>=-eq-ok (section "workspace" entry) _ h₃ in
    let ((checked, matches, ts), digest_is, made) =
      >>=-eq-ok (compare_digest (get "digest" prepared) observed) _ h₄ in
    let other_task_test =
      trouble (not (equals_text (get "task_id" entry) task_id)) Trouble.other_task in
    let other_baseline_test =
      trouble (is_other_root resolve (recorded_path resolve prepared) baseline)
        Trouble.other_baseline in
    let other_candidate_test =
      trouble (is_other_root resolve (recorded_path resolve workspace) candidate)
        Trouble.other_candidate in
    let identity = other_task_test ++ (base ++ (other_baseline_test ++ other_candidate_test)) in
    let clean : identity ++ ts ≡ [] = ap (λ i. i.problems) (ok_injective made) ∙ p in
    let (no_identity, no_digest_trouble) = append-eq_nil identity ts clean in
    let (a, bc) = append-eq_nil other_task_test _ no_identity in
    let (b, cd) = append-eq_nil base _ bc in
    let (c, d) = append-eq_nil other_baseline_test _ cd in
    let (digest, observed_is, hashed, unchanged, is_checked, is_matched) =
      compare_digest-clean (get "digest" prepared) observed digest_is no_digest_trouble in
    (
      record {
        source = source;
        source_is = source_is;
        prepared = prepared;
        prepared_is = prepared_is;
        workspace = workspace;
        workspace_is = workspace_is;
        same_task = ground (arith, trouble-eq_nil _ _ a);
        same_base = compare_base-clean (get "base_commit" source) (base_commit task) base_is b;
        same_baseline = trouble-eq_nil _ _ c;
        same_candidate = trouble-eq_nil _ _ d;
        digest = digest;
        observed_is = observed_is;
        hashed = hashed;
        unchanged = unchanged;
      },
      sym (ap (λ i. i.checked) (ok_injective made)) ∙ is_checked,
      sym (ap (λ i. i.matches_prepared) (ok_injective made)) ∙ is_matched,
      sym (ap (λ i. i.identity_bound) (ok_injective made))
          ∙ ap (λ ts. some (is_empty ts)) no_identity,
    )

-- Where the verification reports no problem, the workspace record was loaded and belongs to the
-- task, it records the task's present base commit, the baseline and the candidate are the recorded
-- ones as far as they are recorded, and the baseline's hash is known and the recorded one; the
-- result says then that it was checked, that it matches and that the identity is bound.
pub verify_baseline_integrity-IsBound :
    (resolve : String → String) (loaded : Outcome Fields) (task_id : String) (task : Fields)
    (baseline candidate observed : Option String) {r : Integrity}
    → verify_baseline_integrity resolve loaded task_id task baseline candidate observed ≡ ok r
    → r.problems ≡ []
    → (entry : Fields) × (loaded ≡ ok entry)
      × IsBound resolve entry task_id task baseline candidate observed
      × (r.checked ≡ true)
      × (r.matches_prepared ≡ some true)
      × (r.identity_bound ≡ some true)
unfolding verify_baseline_integrity
verify_baseline_integrity-IsBound resolve (ok entry) task_id task baseline candidate observed h p =
    let (bound, checked, matched, is_bound) =
      verify_record-IsBound resolve entry task_id task baseline candidate observed h p in
    (entry, refl, bound, checked, matched, is_bound)
verify_baseline_integrity-IsBound resolve (err e) task_id task baseline candidate observed h p =
    elim (Bool-cases (is_tool_error e)) [
      | inl t ↦ cc (ap (λ i. i.problems) (ok_injective (rw t at h)) ∙ p)
      | inr n ↦ cc (rw n at h)
    ]

-- The two roots that `resolve_roots` returns are directories that resolve to different paths, and
-- they are the recorded ones.
pub resolve_roots_lem :
    (is_dir : String → Bool) (resolve : String → String) (loaded : Outcome Fields)
    {baseline candidate : String}
    → resolve_roots is_dir resolve loaded ≡ ok (baseline, candidate)
    → (is_dir baseline ≡ true)
      × (is_dir candidate ≡ true)
      × (resolve baseline ≢ resolve candidate)
      × ((entry : Fields) × (prepared : Fields) × (workspace : Fields) × (loaded ≡ ok entry)
          × (section "baseline" entry ≡ ok prepared)
          × (section "workspace" entry ≡ ok workspace)
          × (baseline ≡ root_path prepared)
          × (candidate ≡ root_path workspace))
unfolding resolve_roots
resolve_roots_lem is_dir resolve loaded {baseline} {candidate} h =
    let (entry, loaded_is, h₁) = >>=-eq-ok loaded _ h in
    let (workspace, workspace_is, h₂) = >>=-eq-ok (section "workspace" entry) _ h₁ in
    let (prepared, prepared_is, h₃) = >>=-eq-ok (section "baseline" entry) _ h₂ in
    let (_, candidate_dir, h₄) = >>=-eq-ok (require (is_dir (root_path workspace)) _) _ h₃ in
    let (_, baseline_dir, h₅) = >>=-eq-ok (require (is_dir (root_path prepared)) _) _ h₄ in
    let (_, distinct, made) =
      >>=-eq-ok (require (not (resolve (root_path prepared) == resolve (root_path workspace))) _) _
        h₅ in
    let same = ok_injective made in
    let b : root_path prepared ≡ baseline = ap (λ r. r.0) same in
    let c : root_path workspace ≡ candidate = ap (λ r. r.1) same in
    let apart : (resolve (root_path prepared) == resolve (root_path workspace)) ≡ false =
      ground (arith, require-eq-ok _ _ distinct) in
    (
      subst (λ p. is_dir p ≡ true) b (require-eq-ok _ _ baseline_dir),
      subst (λ p. is_dir p ≡ true) c (require-eq-ok _ _ candidate_dir),
      λ e.
          let there : resolve (root_path prepared) ≡ resolve (root_path workspace) =
            ap resolve b ∙ e ∙ sym (ap resolve c) in
          ground (arith, eq_iff (resolve (root_path prepared)) (resolve (root_path workspace))),
      (entry, prepared, workspace, loaded_is, prepared_is, workspace_is, sym b, sym c),
    )

section-absent :
    (key : String) (entry : Fields) → truthy (get key entry) ≡ false → section key entry ≡ ok end
unfolding section dict_or
section-absent key entry h = go (get key entry) h
  where
    go : (v : Json) → truthy v ≡ false → dict_or v ≡ ok end
    go (object end) h = refl
    go (object (field k v m)) h = cc
    go null h = refl
    go (bool b) h = rw h refl
    go (int z) h = rw h refl
    go (text s) h = rw h refl
    go (array nil) h = refl
    go (array (cons v vs)) h = cc

root_path-end : root_path end ≡ "."
unfolding root_path get lookup str_or path_text is_absolute parts_of drop_skipped split_on
root_path-end = refl

-- A workspace record that names no candidate is not refused, as long as the working directory is
-- there and is not the baseline: the candidate is then ".", the working directory.
pub unrecorded_candidate :
    (is_dir : String → Bool) (resolve : String → String) (entry : Fields) {prepared : Fields}
    → truthy (get "workspace" entry) ≡ false
    → section "baseline" entry ≡ ok prepared
    → is_dir "." ≡ true
    → is_dir (root_path prepared) ≡ true
    → (resolve (root_path prepared) == resolve ".") ≡ false
    → resolve_roots is_dir resolve (ok entry) ≡ ok (root_path prepared, ".")
unfolding resolve_roots
unrecorded_candidate is_dir resolve entry {prepared} absent prepared_is here there apart =
    rw (section-absent "workspace" entry absent, prepared_is, root_path-end, here, there, apart)
      refl
