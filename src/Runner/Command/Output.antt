-- ===== src/Runner/Command/Output.antt =====
-- Every built-in command writes the artifact that is expected of it, and a resolved command is an
-- argument vector that can be run.
use infra_loop_kda.Base.{
  ◌≡◌, ◌≢◌, ◌⊎◌, refl, sym, ap, subst, ◌∙◌, inl, inr, String, Bool, true, false, Option, none, some,
  List, [], ◌∷◌, ◌++◌, ◌==◌, All, All-append, Bool-cases, eq_iff, some_injective, arith,
  if◌then◌else◌,
}
use infra_loop_kda.Base.Outcome.{Outcome, ok, ok_injective}
use infra_loop_kda.Json.{Json, Fields, get}
use infra_loop_kda.Json.Repr.{str_or}
use infra_loop_kda.Runner.Command.{
  Roots, under, workloads_path, guarded, preflight_argv, correctness_argv, compare_argv,
  profile_argv, preflight_commands, correctness_commands, benchmark_commands, precision_commands,
  profile_commands, prefill_commands, builtin_commands, expected_artifacts, python_executable,
}
use infra_loop_kda.Runner.Command.Resolve.{
  Origin, configured, configured_command, find_command, builtin_command, configured_value,
  text_list, resolve_command,
}

-- An element of a list.
pub data In (s : String) : List String → Type 0 where
  here : (ss : List String) → In s (s ∷ ss)
  there : (t : String) (ss : List String) → In s ss → In s (t ∷ ss)

In-append : (s : String) (xs ys : List String) → In s xs → In s (xs ++ ys)
In-append s _ ys (here ss) = here (ss ++ ys)
In-append s _ ys (there t ss i) = there t (ss ++ ys) (In-append s ss ys i)

-- A command with what its name expects in a directory: it can be run, and each expected artifact is
-- one of its arguments.
pub record IsRunnable (output_dir : String) (command : String × List String) : Type 0 where
  pub not_empty : command.1 ≢ []
  pub writes : All (λ artifact. In artifact command.1) (expected_artifacts command.0 output_dir)

In-preflight :
    (r : Roots) (workloads report : String)
    → In (under r.output_dir report) (preflight_argv r workloads report)
unfolding preflight_argv
In-preflight r workloads report =
    there _ _ (there _ _ (there _ _ (there _ _ (there _ _ (there _ _ (there _ _ (here _)))))))

In-compare :
    (r : Roots) (workloads script out : String)
    → In (under r.output_dir out) (compare_argv r workloads script out)
unfolding compare_argv
In-compare r workloads script out = there _ _ (
    there _ _
      (there _ _ (there _ _ (there _ _ (there _ _ (there _ _ (there _ _ (there _ _ (here _)))))))))

In-not_nil : (s : String) (xs : List String) → In s xs → xs ≢ []
In-not_nil s _ (here ss) e = cc
In-not_nil s _ (there t ss i) e = cc

-- A command with one expected artifact.
one_artifact :
    (output_dir name : String) (argv : List String) (artifact : String)
    → expected_artifacts name output_dir ≡ artifact ∷ []
    → In artifact argv
    → IsRunnable output_dir (name, argv)
one_artifact output_dir name argv artifact e i = record {
  not_empty = In-not_nil artifact argv i;
  writes = subst (All (λ a. In a argv)) (sym e) (i, tt);
}

guarded-All :
    (P : String × List String → Type 0) (b : Bool) (commands : List (String × List String))
    → All P commands
    → All P (guarded b commands)
unfolding guarded
guarded-All P true commands a = a
guarded-All P false commands a = tt

In-correctness :
    (r : Roots) (workloads : String)
    → In (under r.output_dir "correctness.json") (correctness_argv r workloads)
unfolding correctness_argv
In-correctness r workloads =
    there _ _ (there _ _ (there _ _ (there _ _ (there _ _ (there _ _ (there _ _ (here _)))))))

profile-IsRunnable :
    (r : Roots) (workloads : String) → IsRunnable r.output_dir ("profile", profile_argv r workloads)
unfolding profile_argv expected_artifacts
profile-IsRunnable r workloads = record { not_empty = λ e. cc; writes = tt }

module _ (is_file : String → Bool) (r : Roots) (workloads : String) where
  preflight-All : All (IsRunnable r.output_dir) (preflight_commands is_file r workloads)
  unfolding preflight_commands expected_artifacts
  preflight-All = guarded-All (IsRunnable r.output_dir) (is_file _) (_ ∷ _ ∷ []) (
    one_artifact r.output_dir "preflight" _ _ refl (In-preflight r workloads "preflight.json"),
    (
      one_artifact r.output_dir "preflight-static" _ _ refl
          (In-append _ _ _ (In-preflight r workloads "preflight-static.json")),
      tt,
    ),
  )

  correctness-All : All (IsRunnable r.output_dir) (correctness_commands is_file r workloads)
  unfolding correctness_commands expected_artifacts
  correctness-All =
      guarded-All (IsRunnable r.output_dir) (is_file _) (_ ∷ [])
        (one_artifact r.output_dir "correctness" _ _ refl (In-correctness r workloads), tt)

  benchmark-All : All (IsRunnable r.output_dir) (benchmark_commands is_file r workloads)
  unfolding benchmark_commands expected_artifacts
  benchmark-All = guarded-All (IsRunnable r.output_dir) (is_file _) (_ ∷ _ ∷ []) (
    one_artifact r.output_dir "benchmark" _ _ refl
        (In-append _ _ _ (In-compare r workloads _ "benchmark")),
    (
      one_artifact r.output_dir "correctness-only" _ _ refl
          (In-append _ _ _ (In-compare r workloads _ "correctness-only")),
      tt,
    ),
  )

  precision-All : All (IsRunnable r.output_dir) (precision_commands is_file r workloads)
  unfolding precision_commands expected_artifacts
  precision-All = guarded-All (IsRunnable r.output_dir) (is_file _) (_ ∷ []) (
    one_artifact r.output_dir "precision" _ _ refl
        (In-append _ _ _ (In-compare r workloads _ "precision")),
    tt,
  )

  profile-All : All (IsRunnable r.output_dir) (profile_commands is_file r workloads)
  unfolding profile_commands
  profile-All =
      guarded-All (IsRunnable r.output_dir) (is_file _) (_ ∷ [])
        (profile-IsRunnable r workloads, tt)

  prefill-All : All (IsRunnable r.output_dir) (prefill_commands is_file r workloads)
  unfolding prefill_commands
  prefill-All =
      let P = IsRunnable r.output_dir in
      let last =
        All-append P (precision_commands is_file r workloads) (profile_commands is_file r workloads)
          precision-All profile-All in
      All-append P (preflight_commands is_file r workloads) _ preflight-All (
        All-append P (correctness_commands is_file r workloads) _ correctness-All
          (All-append P (benchmark_commands is_file r workloads) _ benchmark-All last))

-- Every built-in command can be run, and each artifact that `expected_artifacts` names for it is one
-- of its arguments.
pub builtin_commands-IsRunnable :
    (is_file : String → Bool) (task : Fields) (r : Roots)
    → All (IsRunnable r.output_dir) (builtin_commands is_file task r)
unfolding builtin_commands
builtin_commands-IsRunnable is_file task r = go (str_or (get "kind" task) "" == "prefill")
  where
    go :
        (b : Bool)
        → All (IsRunnable r.output_dir) (
            if b
            then prefill_commands is_file r (workloads_path r.task_dir (get "workload_file" task))
            else [])
    go true = prefill-All is_file r (workloads_path r.task_dir (get "workload_file" task))
    go false = tt

find_command-All :
    (P : String × List String → Type 0) (operation : String)
    (commands : List (String × List String))
    → All P commands
    → {argv : List String} → find_command operation commands ≡ some argv
    → P (operation, argv)
unfolding find_command
find_command-All P operation [] a h = cc
find_command-All P operation ((name, argv) ∷ commands) a {argv = found} h =
    elim (Bool-cases (name == operation)) [
      | inl e ↦
          let is : argv ≡ found = some_injective (rw e at h) in
          subst P (ap (λ n. (n, argv)) ((eq_iff name operation).0 e) ∙ ap (λ v. (operation, v)) is)
            a.0
      | inr n ↦ find_command-All P operation commands a.1 (rw n at h)
    ]

-- A command that `resolve_command` finds has an argument at least, its program. A built-in one has
-- each expected artifact of the operation among its arguments.
pub resolve_command-IsRunnable :
    (is_file : String → Bool) (settings task : Fields) (r : Roots) (operation : String)
    {argv : List String} {origin : Origin}
    → resolve_command is_file settings task r operation ≡ ok (argv, origin)
    → (argv ≢ [])
      × ((origin ≡ configured)
          ⊎ All (λ artifact. In artifact argv) (expected_artifacts operation r.output_dir))
unfolding resolve_command configured_command builtin_command
resolve_command-IsRunnable is_file settings task r operation {argv} {origin} h =
    let r' = record r { python = python_executable settings } in
    go (configured_value operation (get "commands" settings))
      (find_command operation (builtin_commands is_file task r')) refl h
  where
    from_configured :
        (o : Option (List String))
        → configured_command operation (record r { python = python_executable settings }) o
          ≡ ok (argv, origin)
        → (argv ≢ []) × (origin ≡ configured)
    from_configured none e = cc
    from_configured (some []) e = cc
    from_configured (some (item ∷ items)) e = (λ empty. cc, ground arith)

    go :
        (v : Option Json) (o : Option (List String))
        → find_command operation
            (builtin_commands is_file task (record r { python = python_executable settings }))
          ≡ o
        → elim v as (λ _. Outcome (List String × Origin)) [
          | some w ↦
              configured_command operation
                (record r { python = python_executable settings })
                (text_list w)
          | none ↦ builtin_command operation o
        ]
          ≡ ok (argv, origin)
        → (argv ≢ [])
          × ((origin ≡ configured)
              ⊎ All (λ artifact. In artifact argv) (expected_artifacts operation r.output_dir))
    go (some w) o found e = let (full, is) = from_configured (text_list w) e in (full, inl is)
    go none none found e = cc
    go none (some given) found e =
        let same : given ≡ argv = ap (λ p. p.0) (ok_injective e) in
        let good =
          find_command-All (IsRunnable r.output_dir) operation _
            (builtin_commands-IsRunnable is_file task
              (record r { python = python_executable settings }))
            found in
        (
          subst (λ a. a ≢ []) same good.not_empty,
          inr (
              subst
                (λ a. All (λ artifact. In artifact a) (expected_artifacts operation r.output_dir))
                same good.writes),
        )
