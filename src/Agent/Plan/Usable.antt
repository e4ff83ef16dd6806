-- ===== src/Agent/Plan/Usable.antt =====
-- What it means that the plan has no reason against the workspace or its plan file.
use infra_loop_kda.Base.{
  ℕ, String, Bool, true, false, not, Option, none, some, List, [], ◌∷◌, ◌≡◌, refl, sym, ◌∙◌, ap,
  subst, arith, map, append-eq_nil, Bool-cases, inl, inr, some_injective,
}
use infra_loop_kda.Base.Outcome.{Outcome, ok, err, >>=-eq-ok, ok_injective}
use infra_loop_kda.Json.{Json, Fields, get, truthy, equals_text}
use infra_loop_kda.Json.Repr.{str_or}
use infra_loop_kda.Process.{Processes}
use infra_loop_kda.Runner.Baseline.{section, is_tool_error}
use infra_loop_kda.Runner.Evidence.Report.{path_text}
use infra_loop_kda.Agent.Session.Stopped.{IsStopped, is_running-IsStopped}
use infra_loop_kda.Agent.Plan.{
  Reason, Site, Workspace, when, known_workspace, find_workspace, control_file, visible, lines_of,
  dirty_reasons, plan_relative, plan_reasons, find_plan, session_reasons, no_commit, no_base_branch,
  plan_tracked, already_running,
}

-- No session, or one that is not found running.
abbrev pub NotRunning : Processes → Option Fields → Type 0
NotRunning os none = Unit
NotRunning os (some session) = IsStopped os session

-- A workspace that a loop may be started in.
pub record IsUsable (site : Site) (entry : Fields) (workspace : String) (base : Json) : Type 0 where
  pub is_dir : site.is_dir workspace ≡ true
  pub clone : equals_text (get "mode" entry) "clone" ≡ true
  pub commit : site.head_exists workspace ≡ true
  pub branch : truthy base ≡ true

pub record IsPlanned (site : Site) (workspace : String) : Type 0 where
  pub there : site.is_file (control_file workspace "plan.md") ≡ true
  pub untracked : site.is_tracked workspace plan_relative ≡ false
  pub clean : visible (lines_of (site.porcelain workspace)) ≡ 0

pub when-nil : (b : Bool) (r : Reason) → when b r ≡ [] → b ≡ false
when-nil true r h = cc
when-nil false r h = refl

pub map-eq_nil {ℓ} : {A : Type ℓ} (f : A → Reason) (xs : List A) → map f xs ≡ [] → xs ≡ []
map-eq_nil f [] h = refl
map-eq_nil f (x ∷ xs) h = cc

pub not-eq_false : (b : Bool) → not b ≡ false → b ≡ true
not-eq_false true h = refl
not-eq_false false h = cc

pub dirty_reasons-nil : (n : ℕ) → dirty_reasons n ≡ [] → n ≡ 0
unfolding dirty_reasons
dirty_reasons-nil n h = ground arith

pub session_reasons-nil :
    (os : Processes) (session : Option Fields)
    → session_reasons os session ≡ []
    → NotRunning os session
unfolding session_reasons
session_reasons-nil os none h = tt
session_reasons-nil os (some session) h =
    is_running-IsStopped os session (when-nil _ already_running h)

pub known_workspace-IsUsable :
    (site : Site) (entry : Fields) (path : String) (branch : Json)
    → (known_workspace site entry path branch).reasons ≡ []
    → IsUsable site entry path branch
      × (known_workspace site entry path branch
          ≡ record { reasons = []; path = some path; branch = branch; control = some path })
unfolding known_workspace
known_workspace-IsUsable site entry path branch h = elim (Bool-cases (site.is_dir path)) [
  | inr gone ↦ cc (rw gone at h)
  | inl there ↦ elim (Bool-cases (equals_text (get "mode" entry) "clone")) [
    | inr other ↦ cc (rw (there, other) at h)
    | inl clone ↦
        let (c, b) =
          append-eq_nil (when (not (site.head_exists path)) no_commit) _ (rw (there, clone) at h) in
        let commit = not-eq_false _ (when-nil (not (site.head_exists path)) no_commit c) in
        let based = not-eq_false _ (when-nil (not (truthy branch)) no_base_branch b) in
        (
          record { is_dir = there; clone = clone; commit = commit; branch = based },
          rw (there, clone, commit, based) refl,
        )
  ]
]

pub plan_reasons-IsPlanned :
    (site : Site) (workspace : String)
    → (plan_reasons site workspace).1 ≡ []
    → IsPlanned site workspace × ((plan_reasons site workspace).0 ≡ true)
unfolding plan_reasons
plan_reasons-IsPlanned site workspace h =
    elim (Bool-cases (site.is_file (control_file workspace "plan.md"))) [
      | inr gone ↦ cc (rw gone at h)
      | inl there ↦
          let (t, d) =
            append-eq_nil (when (site.is_tracked workspace plan_relative) plan_tracked) _
              (rw there at h) in
          (
            record {
              there = there;
              untracked = when-nil _ plan_tracked t;
              clean = dirty_reasons-nil _ d;
            },
            rw there refl,
          )
    ]

-- The parts of the plan that are found without a reason against a start.
pub record Found (site : Site) (w : Workspace) : Type 0 where
  pub entry : Fields
  pub loaded : site.loaded ≡ ok entry
  pub info : Fields
  pub info_is : section "workspace" entry ≡ ok info
  pub workspace : String
  pub workspace_is : workspace ≡ path_text (str_or (get "absolute_path" info) "")
  pub base : Json
  pub base_is : base ≡ get "review_base_branch" info
  pub usable : IsUsable site entry workspace base
  pub found :
      w ≡ record { reasons = []; path = some workspace; branch = base; control = some workspace }

pub find_workspace-Found :
    (site : Site) (loaded : Outcome Fields) {w : Workspace}
    → site.loaded ≡ loaded
    → find_workspace site loaded ≡ ok w
    → w.reasons ≡ []
    → Found site w
unfolding find_workspace
find_workspace-Found site (err e) is h clean = elim (Bool-cases (is_tool_error e)) [
  | inl caught ↦ cc (ap (λ v. v.reasons) (ok_injective (rw caught at h)) ∙ clean)
  | inr raised ↦ cc (rw raised at h)
]
find_workspace-Found site (ok entry) is h clean =
    let (info, info_is, made) = >>=-eq-ok (section "workspace" entry) _ h in
    let path = path_text (str_or (get "absolute_path" info) "") in
    let branch = get "review_base_branch" info in
    let same = ok_injective made in
    let (usable, known) =
      known_workspace-IsUsable site entry path branch (ap (λ v. v.reasons) same ∙ clean) in
    record {
      entry = entry;
      loaded = is;
      info = info;
      info_is = info_is;
      workspace = path;
      workspace_is = refl;
      base = branch;
      base_is = refl;
      usable = usable;
      found = sym same ∙ known;
    }

pub find_plan-IsPlanned :
    (site : Site) (control : Option String) (workspace : String)
    → control ≡ some workspace
    → (find_plan site control).1 ≡ []
    → IsPlanned site workspace × ((find_plan site control).0 ≡ true)
unfolding find_plan
find_plan-IsPlanned site none workspace is h = cc
find_plan-IsPlanned site (some path) workspace is h =
    let same : path ≡ workspace = some_injective is in
    let (planned, there) = plan_reasons-IsPlanned site path h in
    (subst (IsPlanned site) same planned, there)
