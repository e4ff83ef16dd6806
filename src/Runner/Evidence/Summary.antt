-- ===== src/Runner/Evidence/Summary.antt =====
-- tools/k3/runner.py: `_inspect_summary`. The files of the directory are an argument.
use infra_loop_kda.Base.{
  ℕ, zero, suc, ◌+◌, ℤ, pos, negsuc, String, ◌<>◌, Bool, true, false, not, Option, none, some, List,
  [], ◌∷◌, ◌++◌, if◌then◌else◌, is_empty,
}
use infra_loop_kda.Base.Sorted.{sorted}
use infra_loop_kda.Base.Text.{ends_with}
use infra_loop_kda.Base.Outcome.{Outcome, ok, ◌>>=◌}
use infra_loop_kda.Json.{
  Json, null, Fields, end, field, get, put, set_default, keys_of, equals_text, truthy,
}
use infra_loop_kda.Json.Checks.{integer_of}
use infra_loop_kda.Runner.Evidence.{Walk, Schema, collect_fields, schema_requirements}

-- What `config.load_json` makes of a file: an object, or a `ValidationError` with its message.
pub data Loaded : Type 0 where
  loaded : Fields → Loaded
  invalid : String → Loaded

-- A path: no regular file, or one with its size, its hash and its document.
pub data File : Type 0 where
  no_file : File
  regular : (size : ℕ) (sha256 : String) (document : Loaded) → File

-- The texts of `problems`, one constructor for each.
pub data Problem : Type 0 where
  no_summary : Problem
  unreadable : String → String → Problem
  not_passed : String → Json → Problem
  no_cases : String → String → ℤ → Problem
  files_missing files_differ : List String → Problem

-- The `dict` that `_inspect_summary` returns.
pub record Info : Type 0 where
  pub summary_present : Bool
  pub gate_present : Bool
  pub schema : Option Schema
  pub status : Json
  pub gate_status : Json
  pub case_counts : Fields
  pub required_sidecars : Fields
  pub verified_hashes : ℕ
  pub referenced_missing : List String
  pub hash_mismatches : List String
  pub provenance : Fields
  pub problems : List Problem

-- `info` where nothing was found.
unfoldable pub start_info : Info
start_info = record {
  summary_present = false;
  gate_present = false;
  schema = none;
  status = null;
  gate_status = null;
  case_counts = end;
  required_sidecars = end;
  verified_hashes = 0;
  referenced_missing = [];
  hash_mismatches = [];
  provenance = end;
  problems = [];
}

-- `value <= 0`
abbrev pub is_positive : ℤ → Bool
is_positive (pos zero) = false
is_positive (pos (suc n)) = true
is_positive (negsuc n) = false

-- The value of a key that ends in `case_count`, where it is an integer.
unfoldable pub case_count : String → Json → Option ℤ
unfolding ends_with
case_count key v = if ends_with "case_count" key then integer_of v else none

-- The problem that a count makes.
unfoldable pub count_problem : String → String → Option ℤ → List Problem
count_problem file key none = []
count_problem file key (some z) = if is_positive z then [] else no_cases file key z ∷ []

-- The loops on the counts of one of the two files: the problems, and what is kept of the counts.
unfoldable pub count_problems : String → Fields → List Problem
unfolding case_count count_problem
count_problems file end = []
count_problems file (field key v m) =
    count_problem file key (case_count key v) ++ count_problems file m

unfoldable pub summary_counts : Fields → Fields → Fields
unfolding case_count put
summary_counts end counts = counts
summary_counts (field key v m) counts =
    let kept : Fields = elim (case_count key v) [ none ↦ counts | some z ↦ put key v counts ] in
    summary_counts m kept

unfoldable pub gate_counts : Fields → Fields → Fields
unfolding case_count set_default
gate_counts end counts = counts
gate_counts (field key v m) counts =
    let kept : Fields = elim (case_count key v) [
      | none ↦ counts
      | some z ↦ set_default key v counts
    ] in
    gate_counts m kept

-- `required.setdefault(name, None)` for the names of the schema.
unfoldable pub add_required : List String → Fields → Fields
unfolding set_default
add_required [] required = required
add_required (name ∷ names) required = add_required names (set_default name null required)

-- `status not in (None, "passed")`
abbrev pub is_failed_gate : Json → Bool
is_failed_gate null = false
is_failed_gate v = not (equals_text v "passed")

-- The branch of the gate file, which adds to `info` and to the walk.
unfoldable pub inspect_gate : File → Info × Walk → Info × Walk
unfolding get collect_fields count_problems gate_counts
inspect_gate no_file (info, walk) = (info, walk)
inspect_gate (regular size sha (invalid message)) (info, walk) = (
  record info {
    gate_present = true;
    problems = info.problems ++ unreadable "correctness.json" message ∷ [];
  },
  walk,
)
inspect_gate (regular size sha (loaded gate)) (info, walk) = (
  record info {
    gate_present = true;
    gate_status = get "status" gate;
    case_counts = gate_counts gate info.case_counts;
    problems =
        info.problems
        ++ ((if is_failed_gate (get "status" gate)
              then not_passed "correctness.json" (get "status" gate) ∷ []
              else [])
            ++ count_problems "correctness.json" gate);
  },
  collect_fields gate walk,
)

-- What the loop on the required files finds of one of them.
pub data Found : Type 0 where
  missing empty_file unhashed verified differs : Found

unfoldable pub check_file : File → Json → Found
check_file no_file digest = missing
check_file (regular zero sha document) digest = empty_file
check_file (regular (suc n) sha document) digest =
    if not (truthy digest) then unhashed else if equals_text digest sha then verified else differs

-- What the loop adds to `referenced_missing` and to `hash_mismatches`; the two hashes that follow the
-- name in the second are left out.
abbrev pub missing_name : String → Found → List String
missing_name name missing = name ∷ []
missing_name name empty_file = (name <> " (empty)") ∷ []
missing_name name _ = []

abbrev pub differing_name : String → Found → List String
differing_name name differs = name ∷ []
differing_name name _ = []

abbrev pub verified_count : Found → ℕ
verified_count verified = 1
verified_count _ = 0

unfoldable pub missing_names : (String → File) → Fields → List String → List String
unfolding check_file get
missing_names file required [] = []
missing_names file required (name ∷ names) =
    missing_name name (check_file (file name) (get name required))
    ++ missing_names file required names

unfoldable pub differing_names : (String → File) → Fields → List String → List String
unfolding check_file get
differing_names file required [] = []
differing_names file required (name ∷ names) =
    differing_name name (check_file (file name) (get name required))
    ++ differing_names file required names

unfoldable pub verified_total : (String → File) → Fields → List String → ℕ
unfolding check_file get
verified_total file required [] = 0
verified_total file required (name ∷ names) =
    verified_count (check_file (file name) (get name required)) + verified_total file required names

-- The two problems at the end.
unfoldable pub file_problems : List String → List String → List Problem
file_problems absent differing =
    (if is_empty absent then [] else files_missing absent ∷ [])
    ++ (if is_empty differing then [] else files_differ differing ∷ [])

-- The loop on the required files, and the end.
unfoldable pub check_files : (String → File) → Info × Walk → Info
unfolding missing_names differing_names verified_total file_problems sorted
check_files file (info, walk) =
    let names = sorted (keys_of walk.required) in
    let absent = missing_names file walk.required names in
    let differing = differing_names file walk.required names in
    record info {
      required_sidecars = walk.required;
      provenance = walk.provenance;
      verified_hashes = verified_total file walk.required names;
      referenced_missing = absent;
      hash_mismatches = differing;
      problems = info.problems ++ file_problems absent differing;
    }

-- The branch of a summary that could be read, up to the gate.
unfoldable pub read_summary : Fields → Schema → List String → Info × Walk
unfolding get count_problems summary_counts collect_fields add_required start_info
read_summary summary schema names =
    let walk = collect_fields summary (record { required = end; provenance = end }) in
    (
      record start_info {
        summary_present = true;
        schema = some schema;
        status = get "status" summary;
        case_counts = summary_counts summary end;
        problems =
            (if equals_text (get "status" summary) "passed"
              then []
              else not_passed "summary.json" (get "status" summary) ∷ [])
            ++ count_problems "summary.json" summary;
      },
      record walk { required = add_required names walk.required },
    )

-- `_inspect_summary`, from the summary file on.
unfoldable pub inspect : (String → File) → File → Outcome Info
unfolding schema_requirements read_summary inspect_gate check_files start_info
inspect file no_file = ok (record start_info { problems = no_summary ∷ [] })
inspect file (regular size sha (invalid message)) = ok (record start_info {
  summary_present = true;
  problems = unreadable "summary.json" message ∷ [];
})
inspect file (regular size sha (loaded summary)) = do
  (schema, names) ← schema_requirements summary
  ok (check_files file (inspect_gate (file "correctness.json") (read_summary summary schema names)))

unfoldable pub inspect_summary : (String → File) → Outcome Info
unfolding inspect
inspect_summary file = inspect file (file "summary.json")
