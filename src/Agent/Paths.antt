-- ===== src/Agent/Paths.antt =====
-- tools/k3/agent.py: `resolve_toolchain_paths`. What is on PATH and on the disk, and the check of bash,
-- are arguments; the settings are the two `dict`s that the code takes.
use infra_loop_kda.Base.{
  String, Bool, ◌||◌, Option, none, some, List, [], ◌∷◌, ◌++◌, ◌==◌, ◌≡◌, refl, append-eq_nil,
  if◌then◌else◌,
}
use infra_loop_kda.Base.Text.{strip}
use infra_loop_kda.Json.{Json, null, bool, int, text, array, object, Fields, get}
use infra_loop_kda.Json.Repr.{str_or}

-- The binaries, by the names in `resolved`.
pub record Binaries : Type 0 where
  pub writer : Option String
  pub codex : Option String
  pub bash : Option String
  pub jq : Option String

-- The texts of `problems`.
pub data Problem : Type 0 where
  no_writer no_reviewer : String → Problem
  no_codex_home : String → Problem
  bash_unusable jq_missing : Problem

-- `util.which`, `configured_codex_home`, `Path.is_dir`, and the path of
-- `toolchain.bash_check` if its status is OK.
pub record Machine : Type 0 where
  pub which : String → Option String
  pub expand_home : String → String
  pub is_dir : String → Bool
  pub usable_bash : Option String

-- `if path is None: problems.append(problem)`
abbrev pub missing : Option String → Problem → List Problem
missing none problem = problem ∷ []
missing (some path) problem = []

-- `isinstance(value, str) and value.strip()`, and then the directory.
unfoldable pub home_problems : Machine → Json → List Problem
unfolding strip
home_problems machine (text s) =
    if strip s == "" || machine.is_dir (machine.expand_home s)
    then []
    else no_codex_home (machine.expand_home s) ∷ []
home_problems machine null = []
home_problems machine (bool b) = []
home_problems machine (int z) = []
home_problems machine (array vs) = []
home_problems machine (object m) = []

abbrev pub writer_command : Fields → String
unfolding str_or get
writer_command writer = str_or (get "command" writer) "claude"

abbrev pub reviewer_command : Fields → String
unfolding str_or get
reviewer_command reviewer = str_or (get "command" reviewer) "codex"

-- `resolve_toolchain_paths`
unfoldable pub resolve_toolchain_paths : Machine → Fields → Fields → Binaries × List Problem
unfolding home_problems str_or get
resolve_toolchain_paths machine writer reviewer =
    let writer_path = machine.which (str_or (get "command" writer) "claude") in
    let reviewer_path = machine.which (str_or (get "command" reviewer) "codex") in
    (
      record {
        writer = writer_path;
        codex = reviewer_path;
        bash = machine.usable_bash;
        jq = machine.which "jq";
      },
      missing writer_path (no_writer (str_or (get "command" writer) "claude"))
          ++ (missing reviewer_path (no_reviewer (str_or (get "command" reviewer) "codex"))
              ++ (home_problems machine (get "codex_home" reviewer)
                  ++ (missing machine.usable_bash bash_unusable
                      ++ missing (machine.which "jq") jq_missing))),
    )

-- Without a problem, every binary is there: the ones that PATH has for the configured commands and
-- for jq, and the bash that was checked.
pub record IsResolved (machine : Machine) (writer reviewer : Fields) (found : Binaries)
    : Type 0 where
  pub writer_path : String
  pub codex_path : String
  pub bash_path : String
  pub jq_path : String
  pub writer_is : machine.which (str_or (get "command" writer) "claude") ≡ some writer_path
  pub codex_is : machine.which (str_or (get "command" reviewer) "codex") ≡ some codex_path
  pub bash_is : machine.usable_bash ≡ some bash_path
  pub jq_is : machine.which "jq" ≡ some jq_path
  pub found_are : found ≡ record {
    writer = some writer_path;
    codex = some codex_path;
    bash = some bash_path;
    jq = some jq_path;
  }

missing-nil :
    (path : Option String) (problem : Problem)
    → missing path problem ≡ []
    → (s : String) × (path ≡ some s)
missing-nil none problem h = cc
missing-nil (some s) problem h = (s, refl)

pub resolve_toolchain_paths-IsResolved :
    (machine : Machine) (writer reviewer : Fields)
    → (resolve_toolchain_paths machine writer reviewer).1 ≡ []
    → IsResolved machine writer reviewer (resolve_toolchain_paths machine writer reviewer).0
unfolding resolve_toolchain_paths
resolve_toolchain_paths-IsResolved machine writer reviewer h =
    let (h₁, r₁) = append-eq_nil (missing (machine.which _) _) _ h in
    let (h₂, r₂) = append-eq_nil (missing (machine.which _) _) _ r₁ in
    let (h₃, r₃) = append-eq_nil (home_problems machine (get "codex_home" reviewer)) _ r₂ in
    let (h₄, h₅) = append-eq_nil (missing machine.usable_bash bash_unusable) _ r₃ in
    let (w, is_w) = missing-nil _ _ h₁ in
    let (c, is_c) = missing-nil _ _ h₂ in
    let (b, is_b) = missing-nil machine.usable_bash bash_unusable h₄ in
    let (j, is_j) = missing-nil (machine.which "jq") jq_missing h₅ in
    record {
      writer_path = w;
      codex_path = c;
      bash_path = b;
      jq_path = j;
      writer_is = is_w;
      codex_is = is_c;
      bash_is = is_b;
      jq_is = is_j;
      found_are = rw (is_w, is_c, is_b, is_j) refl;
    }
