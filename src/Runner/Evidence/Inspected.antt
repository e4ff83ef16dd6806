-- ===== src/Runner/Evidence/Inspected.antt =====
-- What an inspected report directory without problems says of its files.
use infra_loop_kda.Base.{
  ℕ, zero, suc, ℤ, ◌≡◌, refl, ap, subst, ◌∙◌, inl, inr, String, true, false, Option, none, some,
  List, [], ◌∷◌, is_empty, append-eq_nil, All, arith, Bool-cases, if◌then◌else◌,
}
use infra_loop_kda.Base.Sorted.{sorted}
use infra_loop_kda.Base.Outcome.{ok, >>=-eq-ok, ok_injective}
use infra_loop_kda.Json.{Json, Fields, end, field, get, keys_of, equals_text, truthy}
use infra_loop_kda.Runner.Evidence.{Walk, Schema, schema_requirements}
use infra_loop_kda.Runner.Evidence.Summary.{
  Loaded, loaded, invalid, File, no_file, regular, Problem, Info, is_positive, case_count,
  count_problem, count_problems, is_failed_gate, inspect_gate, check_file, missing_name,
  differing_name, missing_names, differing_names, file_problems, check_files, read_summary, inspect,
  inspect_summary, not_passed,
}

-- Every case count of a document is positive.
abbrev pub IsCounted : Fields → Type 0
IsCounted end = Unit
IsCounted (field key v m) =
    ((z : ℤ) → case_count key v ≡ some z → is_positive z ≡ true) × IsCounted m

count_problem-positive :
    (file key : String) (o : Option ℤ)
    → count_problem file key o ≡ []
    → (z : ℤ) → o ≡ some z
    → is_positive z ≡ true
unfolding count_problem
count_problem-positive file key none h z e = cc
count_problem-positive file key (some y) h z e = elim (Bool-cases (is_positive y)) [
  | inl p ↦ subst (λ o. elim o [ none ↦ true | some x ↦ is_positive x ] ≡ true) e p
  | inr n ↦ cc (rw n at h)
]

count_problems-IsCounted : (file : String) (m : Fields) → count_problems file m ≡ [] → IsCounted m
unfolding count_problems
count_problems-IsCounted file end h = tt
count_problems-IsCounted file (field key v m) h =
    let (a, b) = append-eq_nil (count_problem file key (case_count key v)) _ h in
    (count_problem-positive file key (case_count key v) a, count_problems-IsCounted file m b)

-- A file that is there, is not empty, and has the hash that is recorded for it, if one is.
abbrev pub IsThere : File → Json → Type 0
IsThere f digest =
    (size : ℕ) × (sha256 : String) × (document : Loaded) × (f ≡ regular (suc size) sha256 document)
    × (truthy digest ≡ true → equals_text digest sha256 ≡ true)

check_file-IsThere :
    (name : String) (f : File) (digest : Json)
    → missing_name name (check_file f digest) ≡ []
    → differing_name name (check_file f digest) ≡ []
    → IsThere f digest
unfolding check_file
check_file-IsThere name no_file digest h k = cc
check_file-IsThere name (regular zero sha document) digest h k = cc
check_file-IsThere name (regular (suc n) sha document) digest h k =
    (n, sha, document, refl, λ t. ground arith)

names-IsThere :
    (file : String → File) (required : Fields) (names : List String)
    → missing_names file required names ≡ []
    → differing_names file required names ≡ []
    → All (λ name. IsThere (file name) (get name required)) names
unfolding missing_names differing_names
names-IsThere file required [] h k = tt
names-IsThere file required (name ∷ names) h k =
    let (a, b) =
      append-eq_nil (missing_name name (check_file (file name) (get name required))) _ h in
    let (c, d) =
      append-eq_nil (differing_name name (check_file (file name) (get name required))) _ k in
    (
      check_file-IsThere name (file name) (get name required) a c,
      names-IsThere file required names b d,
    )

-- The gate file, where it is there, can be read, has no status but "passed", and counts cases.
abbrev pub IsGate : File → Type 0
IsGate no_file = Unit
IsGate (regular size sha256 document) =
    (gate : Fields) × (document ≡ loaded gate)
    × (is_failed_gate (get "status" gate) ≡ false)
    × IsCounted gate

inspect_gate-IsGate :
    (f : File) (info : Info) (walk : Walk)
    → (inspect_gate f (info, walk)).0.problems ≡ []
    → (info.problems ≡ []) × IsGate f
unfolding inspect_gate
inspect_gate-IsGate no_file info walk h = (h, tt)
inspect_gate-IsGate (regular size sha (invalid message)) info walk h =
    let (a, b) = append-eq_nil info.problems _ h in cc
inspect_gate-IsGate (regular size sha (loaded gate)) info walk h =
    let (a, b) = append-eq_nil info.problems _ h in
    let (c, d) =
      append-eq_nil
        (if is_failed_gate (get "status" gate)
          then not_passed "correctness.json" (get "status" gate) ∷ []
          else [])
        _ b in
    (a, (gate, refl, ground arith, count_problems-IsCounted "correctness.json" gate d))

check_files-IsThere :
    (file : String → File) (info : Info) (walk : Walk)
    → (check_files file (info, walk)).problems ≡ []
    → (info.problems ≡ [])
      × All (λ name. IsThere (file name) (get name walk.required)) (sorted (keys_of walk.required))
unfolding check_files file_problems
check_files-IsThere file info walk h =
    let names = sorted (keys_of walk.required) in
    let (a, b) = append-eq_nil info.problems _ h in
    let (c, d) =
      append-eq_nil
        (if is_empty (missing_names file walk.required names)
          then []
          else Problem.files_missing (missing_names file walk.required names) ∷ [])
        _ b in
    (a, names-IsThere file walk.required names (no_elements _ c) (none_differ _ d))
  where
    no_elements :
        (xs : List String)
        → (if is_empty xs then [] else Problem.files_missing xs ∷ []) ≡ []
        → xs ≡ []
    no_elements [] e = refl
    no_elements (x ∷ xs) e = cc

    none_differ :
        (xs : List String)
        → (if is_empty xs then [] else Problem.files_differ xs ∷ []) ≡ []
        → xs ≡ []
    none_differ [] e = refl
    none_differ (x ∷ xs) e = cc

-- What is collected of the two documents, and of the schema.
abbrev pub walk_of : (String → File) → Fields → Schema → List String → Walk
walk_of file summary schema names =
    (inspect_gate (file "correctness.json") (read_summary summary schema names)).1

-- Evidence: a summary that records a pass and has positive counts, a gate that did not fail, and
-- every file that the two documents or the schema ask for.
pub record IsEvidence (file : String → File) : Type 0 where
  pub size : ℕ
  pub sha256 : String
  pub summary : Fields
  pub is : file "summary.json" ≡ regular size sha256 (loaded summary)
  pub passed : equals_text (get "status" summary) "passed" ≡ true
  pub counted : IsCounted summary
  pub gate : IsGate (file "correctness.json")
  pub schema : Schema
  pub names : List String
  pub asked : schema_requirements summary ≡ ok (schema, names)
  pub there :
      All
        (λ name. IsThere (file name) (get name (walk_of file summary schema names).required))
        (sorted (keys_of (walk_of file summary schema names).required))

inspect-IsEvidence :
    (file : String → File) (f : File) {info : Info}
    → file "summary.json" ≡ f
    → inspect file f ≡ ok info
    → info.problems ≡ []
    → IsEvidence file
unfolding inspect read_summary
inspect-IsEvidence file no_file is h p = cc (ok_injective h)
inspect-IsEvidence file (regular size sha (invalid message)) is h p = cc (ok_injective h)
inspect-IsEvidence file (regular size sha (loaded summary)) {info} is h p =
    let ((schema, names), asked, made) = >>=-eq-ok (schema_requirements summary) _ h in
    let fine : (check_files file
          (inspect_gate (file "correctness.json") (read_summary summary schema names))).problems
        ≡ [] =
      ap (λ i. i.problems) (ok_injective made) ∙ p in
    let read = read_summary summary schema names in
    let gated = inspect_gate (file "correctness.json") read in
    let (clean, there) = check_files-IsThere file gated.0 gated.1 fine in
    let (first, gate) = inspect_gate-IsGate (file "correctness.json") read.0 read.1 clean in
    let (a, b) =
      append-eq_nil
        (if equals_text (get "status" summary) "passed"
          then []
          else not_passed "summary.json" (get "status" summary) ∷ [])
        _ first in
    record {
      size = size;
      sha256 = sha;
      summary = summary;
      is = is;
      passed = ground arith;
      counted = count_problems-IsCounted "summary.json" summary b;
      gate = gate;
      schema = schema;
      names = names;
      asked = asked;
      there = there;
    }

-- A report directory in which the inspection finds no problem has a readable summary with the status
-- "passed" and positive case counts; a gate file that is there can be read, has no status but
-- "passed" and positive case counts; and each file that is named by one of the two or asked for by
-- the schema is there, is not empty, and has the recorded hash where one is recorded.
pub inspect_summary-IsEvidence :
    (file : String → File) {info : Info}
    → inspect_summary file ≡ ok info
    → info.problems ≡ []
    → IsEvidence file
unfolding inspect_summary
inspect_summary-IsEvidence file h p = inspect-IsEvidence file (file "summary.json") refl h p
