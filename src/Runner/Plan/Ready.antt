-- ===== src/Runner/Plan/Ready.antt =====
-- What a run that is started is bound to.
use infra_loop_kda.Base.{
  ◌≡◌, ◌≢◌, refl, sym, ap, subst, ◌∙◌, String, Bool, true, false, not, Option, some, List, [], ◌∷◌,
  ◌++◌, is_empty, contains, map, append-eq_nil, All, Bool-cases, ◌⊎◌, inl, inr, if◌then◌else◌,
}
use infra_loop_kda.Base.Outcome.{Outcome, ok, err, >>=-eq-ok, ok_injective, require, require-eq-ok}
use infra_loop_kda.Json.{Json, Fields, get, truthy}
use infra_loop_kda.Json.Repr.{str_or}
use infra_loop_kda.Runner.Evidence.Report.{path_text}
use infra_loop_kda.Runner.Baseline.{
  Trouble, is_tool_error, section, root_path, resolve_roots, verify_baseline_integrity,
}
use infra_loop_kda.Runner.Baseline.Bound.{
  IsBound, verify_baseline_integrity-IsBound, resolve_roots_lem,
}
use infra_loop_kda.Runner.Command.Resolve.{Origin, resolve_command}
use infra_loop_kda.Runner.Command.Output.{resolve_command-IsRunnable}
use infra_loop_kda.Runner.Dirs.{reserve_run_dir}
use infra_loop_kda.Runner.Plan.{
  Site, Blocker, integrity, Plan, is_ready, adapters, roots_or_blocker, run_id_for, is_unresolved,
  unresolved, placeholder_blockers, roots_for, command_for, first_root, second_root, tree_digest,
  wrapper_blockers, plan, start,
}

-- The run may start: two distinct directories that are the prepared ones, a command without
-- placeholders, and an adapter that is known and has its wrapper if it needs one.
pub record IsStartable (site : Site) (settings task : Fields) (task_id : String) (p : Plan)
    : Type 0 where
  pub baseline : String
  pub candidate : String
  pub roots_are : p.roots ≡ some (baseline, candidate)
  pub baseline_dir : site.is_dir baseline ≡ true
  pub candidate_dir : site.is_dir candidate ≡ true
  pub distinct : site.resolve baseline ≢ site.resolve candidate
  pub entry : Fields
  pub loaded : site.loaded ≡ ok entry
  pub prepared : Fields
  pub prepared_is : section "baseline" entry ≡ ok prepared
  pub workspace : Fields
  pub workspace_is : section "workspace" entry ≡ ok workspace
  pub baseline_path : baseline ≡ path_text (str_or (get "absolute_path" prepared) "")
  pub candidate_path : candidate ≡ path_text (str_or (get "absolute_path" workspace) "")
  pub bound :
      IsBound site.resolve entry task_id task
        (some baseline)
        (some candidate)
        (tree_digest (site.measured (some (baseline, candidate))).baseline)
  pub command : p.argv ≢ []
  pub filled : All (λ item. is_unresolved item ≡ false) p.argv
  pub known : contains p.adapter adapters ≡ true
  pub wrapped : (p.adapter ≢ "site-wrapper") ⊎ (truthy (get "wrapper" settings) ≡ true)

root_path-recorded : (m : Fields) → root_path m ≡ path_text (str_or (get "absolute_path" m) "")
unfolding root_path
root_path-recorded m = refl

roots_or_blocker-clean :
    (o : Outcome (String × String)) {r : Option (String × String)} {bs : List Blocker}
    → roots_or_blocker o ≡ ok (r, bs)
    → bs ≡ []
    → (roots : String × String) × (o ≡ ok roots) × (r ≡ some roots)
unfolding roots_or_blocker
roots_or_blocker-clean (ok roots) h e = (roots, refl, sym (ap (λ p. p.0) (ok_injective h)))
roots_or_blocker-clean (err x) h e = elim (Bool-cases (is_tool_error x)) [
  | inl t ↦ cc (ap (λ p. p.1) (ok_injective (rw t at h)) ∙ e)
  | inr n ↦ cc (rw n at h)
]

unresolved-All :
    (items : List String) → unresolved items ≡ [] → All (λ item. is_unresolved item ≡ false) items
unfolding unresolved
unresolved-All [] h = tt
unresolved-All (item ∷ items) h = elim (Bool-cases (is_unresolved item)) [
  | inl u ↦ cc (rw u at h)
  | inr n ↦ (n, unresolved-All items (rw n at h))
]

placeholder-clean : (items : List String) → placeholder_blockers items ≡ [] → items ≡ []
unfolding placeholder_blockers
placeholder-clean [] h = refl
placeholder-clean (item ∷ items) h = cc

command_for-clean :
    (site : Site) (settings task : Fields) (task_dir target : List String)
    (operation baseline candidate : String) {argv : List String} {origin : Option Origin}
    {bs : List Blocker}
    → command_for site settings task task_dir target operation (some (baseline, candidate))
      ≡ ok (argv, origin, bs)
    → bs ≡ []
    → (argv ≢ []) × All (λ item. is_unresolved item ≡ false) argv
unfolding command_for
command_for-clean site settings task task_dir target operation baseline candidate {argv} h e =
    let ((found, origin), found_is, made) =
      >>=-eq-ok
        (resolve_command site.is_file settings task (roots_for task_dir target baseline candidate)
          operation)
        _ h in
    let same = ok_injective made in
    let argv_is : found ≡ argv = ap (λ p. p.0) same in
    let clean : placeholder_blockers (unresolved found) ≡ [] = ap (λ p. p.2) same ∙ e in
    let (full, _) =
      resolve_command-IsRunnable site.is_file settings task
        (roots_for task_dir target baseline candidate) operation found_is in
    (
      subst (λ a. a ≢ []) argv_is full,
      subst (All (λ item. is_unresolved item ≡ false)) argv_is
          (unresolved-All found (placeholder-clean (unresolved found) clean)),
    )

map-eq_nil : (ts : List Trouble) → map integrity ts ≡ [] → ts ≡ []
map-eq_nil [] h = refl
map-eq_nil (t ∷ ts) h = cc

empty_nil : (bs : List Blocker) → is_empty bs ≡ true → bs ≡ []
empty_nil [] h = refl
empty_nil (b ∷ bs) h = cc

wrapper-clean :
    (adapter : String) (wrapper : Json)
    → wrapper_blockers adapter wrapper ≡ []
    → (adapter ≢ "site-wrapper") ⊎ (truthy wrapper ≡ true)
unfolding wrapper_blockers
wrapper-clean adapter wrapper h = elim (Bool-cases (truthy wrapper)) [
  | inl there ↦ inr there
  | inr none_there ↦
      inl (λ is. go (truthy wrapper) none_there (subst (λ a. wrapper_blockers a wrapper ≡ []) is h))
]
  where
    go : (b : Bool) → b ≡ false → (if not b then Blocker.no_wrapper ∷ [] else []) ≢ []
    go true e h = cc
    go false e h = cc

plan-IsStartable :
    (site : Site) (settings task : Fields) (task_dir : List String) (task_id operation : String)
    (given : Option String) {q : Plan}
    → plan site settings task task_dir task_id operation given ≡ ok q
    → q.blockers ≡ []
    → IsStartable site settings task task_id q
unfolding plan
plan-IsStartable site settings task task_dir task_id operation given planned clean =
    let adapter = str_or (get "adapter" settings) "local-command" in
    let (_, known, h₁) = >>=-eq-ok (require (contains adapter adapters) _) _ planned in
    let ((roots, root_blockers), roots_is, h₂) =
      >>=-eq-ok (roots_or_blocker (resolve_roots site.is_dir site.resolve site.loaded)) _ h₁ in
    let (run_id, run_id_is, h₃) = >>=-eq-ok (run_id_for site.fresh_id given) _ h₂ in
    let (target, target_is, h₄) =
      >>=-eq-ok (reserve_run_dir site.link site.is_there task_dir run_id) _ h₃ in
    let ((argv, origin, command_blockers), command_is, h₅) =
      >>=-eq-ok (command_for site settings task task_dir target operation roots) _ h₄ in
    let (checked, checked_is, made) =
      >>=-eq-ok
        (verify_baseline_integrity site.resolve site.loaded task_id task (first_root roots)
          (second_root roots) (tree_digest (site.measured roots).baseline))
        _ h₅ in
    let q_is = ok_injective made in
    let all_clean : root_blockers
          ++ (command_blockers
              ++ (map integrity checked.problems
                  ++ wrapper_blockers adapter (get "wrapper" settings)))
        ≡ [] =
      ap (λ p. p.blockers) q_is ∙ clean in
    let (a, bcd) = append-eq_nil root_blockers _ all_clean in
    let (b, cd) = append-eq_nil command_blockers _ bcd in
    let (c, d) = append-eq_nil (map integrity checked.problems) _ cd in
    let ((baseline, candidate), resolved, some_roots) = roots_or_blocker-clean _ roots_is a in
    let (baseline_dir, candidate_dir, distinct, named) =
      resolve_roots_lem site.is_dir site.resolve site.loaded resolved in
    let (
      entry, prepared, workspace, loaded, prepared_is, workspace_is, baseline_path, candidate_path,
    ) =
      named in
    let command_at =
      subst
        (λ r.
          command_for site settings task task_dir target operation r
          ≡ ok (argv, origin, command_blockers))
        some_roots command_is in
    let (full, filled) =
      command_for-clean site settings task task_dir target operation baseline candidate command_at
        b in
    let checked_at =
      subst
        (λ r.
          verify_baseline_integrity site.resolve site.loaded task_id task (first_root r)
            (second_root r) (tree_digest (site.measured r).baseline)
          ≡ ok checked)
        some_roots checked_is in
    let (entry', loaded', bound, _, _, _) =
      verify_baseline_integrity-IsBound site.resolve site.loaded task_id task (some baseline)
        (some candidate) _ checked_at (map-eq_nil checked.problems c) in
    subst (IsStartable site settings task task_id) q_is (record {
      baseline = baseline;
      candidate = candidate;
      roots_are = some_roots;
      baseline_dir = baseline_dir;
      candidate_dir = candidate_dir;
      distinct = distinct;
      entry = entry;
      loaded = loaded;
      prepared = prepared;
      prepared_is = prepared_is;
      workspace = workspace;
      workspace_is = workspace_is;
      baseline_path = baseline_path ∙ root_path-recorded prepared;
      candidate_path = candidate_path ∙ root_path-recorded workspace;
      bound =
          subst
            (λ e.
              IsBound site.resolve e task_id task (some baseline) (some candidate)
                (tree_digest (site.measured (some (baseline, candidate))).baseline))
            (ok_injective (sym loaded' ∙ loaded)) bound;
      command = full;
      filled = filled;
      known = require-eq-ok (contains adapter adapters) _ known;
      wrapped = wrapper-clean adapter (get "wrapper" settings) d;
    })

-- A run that `start` goes on with is bound to the workspace that was prepared for its task: its
-- roots are two different directories, which are the `absolute_path` of the record's baseline and of
-- its workspace, or the working directory where the record has no such path; the record belongs to
-- the task, the baseline has the recorded hash and the task's base commit; its command has an
-- argument at least and none with a placeholder left; its adapter is a known one, and the site
-- adapter has a wrapper.
pub start-IsStartable :
    (site : Site) (settings task : Fields) (task_dir : List String) (task_id operation : String)
    (given : Option String) {p : Plan}
    → start site settings task task_dir task_id operation given ≡ ok p
    → IsStartable site settings task task_id p
unfolding start
start-IsStartable site settings task task_dir task_id operation given h =
    let (q, planned, h₀) =
      >>=-eq-ok (plan site settings task task_dir task_id operation given) _ h in
    let (_, ready, same) = >>=-eq-ok (require (is_ready q) _) _ h₀ in
    let clean = empty_nil q.blockers (require-eq-ok (is_ready q) _ ready) in
    subst (IsStartable site settings task task_id) (ok_injective same)
      (plan-IsStartable site settings task task_dir task_id operation given planned clean)
