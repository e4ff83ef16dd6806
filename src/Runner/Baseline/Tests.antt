-- ===== src/Runner/Baseline/Tests.antt =====
-- A prepared workspace.
use infra_loop_kda.Base.{
  ◌≡◌, ◌≢◌, refl, String, Bool, true, false, ◌==◌, ◌||◌, none, some, List, [], ◌∷◌,
}
use infra_loop_kda.Base.Text.{split_on, push_char, join}
use infra_loop_kda.Base.Outcome.{Outcome, ok, err}
use infra_loop_kda.Json.{text, object, Fields, end, field, get, lookup}
use infra_loop_kda.Json.Repr.{str, str_or}
use infra_loop_kda.Lifecycle.{base_commit}
use infra_loop_kda.Paths.{is_absolute, parts_of, drop_skipped}
use infra_loop_kda.Runner.Evidence.Report.{path_text}
use infra_loop_kda.Runner.Baseline.{
  dict_or, section, recorded_path, is_other_root, require_slice, compare_digest, compare_base,
  verify_record, Trouble, verify_baseline_integrity, root_path, resolve_roots, Integrity,
  other_base, changed,
}
use infra_loop_kda.Runner.Baseline.Bound.{
  IsBound, verify_baseline_integrity-IsBound, resolve_roots_lem, unrecorded_candidate,
}

runs : Unit {0}
unfolding split_on push_char join get lookup str str_or base_commit is_absolute parts_of
    drop_skipped path_text dict_or section recorded_path is_other_root require_slice compare_digest
    compare_base verify_record verify_baseline_integrity root_path resolve_roots
runs = tt

abbrev entry : Fields
entry = field "task_id" (text "t") (
    field "source" (object (field "base_commit" (text "abc") end)) (
      field "baseline" (object (field "absolute_path" (text "/b") (field "digest" (text "d0") end)))
        (field "workspace" (object (field "absolute_path" (text "/c") end)) end)))

abbrev task : String → Fields
task commit = field "base_commit" (text commit) end

abbrev same : String → String
same path = path

result : Outcome Integrity
unfolding runs
result =
    verify_baseline_integrity same (ok entry) "t" (task "abc") (some "/b") (some "/c") (some "d0")

integrity : Integrity
unfolding runs
integrity =
    elim (verify_baseline_integrity same (ok entry) "t" (task "abc") (some "/b") (some "/c")
      (some "d0")) [
        | ok r ↦ r
        | err e ↦ record {
          checked = false;
          matches_prepared = none;
          identity_bound = none;
          recorded_digest = text "";
          observed_digest = none;
          recorded_task_id = text "";
          recorded_base_commit = text "";
          task_base_commit = none;
          problems = [];
        }
      ]

problems_of : Outcome Integrity → List Trouble
problems_of o = elim o [ ok r ↦ r.problems | err e ↦ [] ]

-- Another base commit and another tree.
unbound :
    problems_of (
      verify_baseline_integrity same
        (ok entry)
        "t"
        (task "xyz")
        (some "/b")
        (some "/c")
        (some "d1"))
    ≡ other_base ∷ changed ∷ []
unfolding runs problems_of
unbound = refl

verify_baseline_integrity-IsBound_example :
    (e : Fields) × (ok entry ≡ ok e)
    × IsBound same e "t" (task "abc") (some "/b") (some "/c") (some "d0")
    × (integrity.checked ≡ true)
    × (integrity.matches_prepared ≡ some true)
    × (integrity.identity_bound ≡ some true)
unfolding runs integrity
verify_baseline_integrity-IsBound_example =
    verify_baseline_integrity-IsBound same (ok entry) "t" (task "abc") (some "/b") (some "/c")
      (some "d0") {r = integrity} refl refl

abbrev is_dir : String → Bool
is_dir path = path == "/b" || path == "/c" || path == "."

resolve_roots_lem_example :
    (is_dir "/b" ≡ true)
    × (is_dir "/c" ≡ true)
    × (same "/b" ≢ same "/c")
    × ((e : Fields) × (prepared : Fields) × (workspace : Fields) × (ok entry ≡ ok e)
        × (section "baseline" e ≡ ok prepared)
        × (section "workspace" e ≡ ok workspace)
        × ("/b" ≡ root_path prepared)
        × ("/c" ≡ root_path workspace))
unfolding runs
resolve_roots_lem_example = resolve_roots_lem is_dir same (ok entry) refl

abbrev half : Fields
half = field "baseline" (object (field "absolute_path" (text "/b") end)) end

unrecorded_candidate_example : resolve_roots is_dir same (ok half) ≡ ok ("/b", ".")
unfolding runs
unrecorded_candidate_example = unrecorded_candidate is_dir same half refl refl refl refl refl
