-- ===== src/Runner/Inputs/Bound.antt =====
-- The identity of a run is bound to what is measured.
use infra_loop_kda.Base.{
  ◌≡◌, ◌≢◌, refl, sym, ap, ◌∙◌, ℕ, zero, suc, nat_beq, Bool-cases, inl, inr, arith, String, true,
  false, Option, none, some, [], ◌∷◌, ◌==◌, append-eq_nil, eq_iff, if◌then◌else◌,
}
use infra_loop_kda.Json.{Json, null, text, object, Fields, end, field, get, lookup, put, truthy}
use infra_loop_kda.Json.Laws.{lookup-put}
use infra_loop_kda.Json.Repr.{str}
use infra_loop_kda.Runner.Inputs.{
  Tree, World, tree_json, tree_warning, workload_hash, workload_json, workload_warning, harness_of,
  differs, differs_warning, no_harness, payload, execution_inputs, harness_json, add_harness,
}

pub digest_of : Option Tree → Option String
digest_of none = none
digest_of (some t) = some t.digest

tree_json-digest : (a b : Option Tree) → tree_json a ≡ tree_json b → digest_of a ≡ digest_of b
unfolding digest_of
tree_json-digest none none h = refl
tree_json-digest none (some b) h = cc
tree_json-digest (some a) none h = cc
tree_json-digest (some a) (some b) h = cc

workload_json-hash :
    (n m : Json) (a b : Option String) → workload_json n a ≡ workload_json m b → a ≡ b
unfolding workload_json
workload_json-hash n m none none h = refl
workload_json-hash n m none (some b) h = cc
workload_json-hash n m (some a) none h = cc
workload_json-hash n m (some a) (some b) h = cc

harness_json_injective : (m m' : Fields) → harness_json m ≡ harness_json m' → m ≡ m'
harness_json_injective end end h = refl
harness_json_injective end (field k v m) h = cc
harness_json_injective (field k v m) end h = cc
harness_json_injective (field k v m) (field k' v' m') h = cc

value_of : Fields → Json
value_of end = null
value_of (field k v m) = v

rest_of : Fields → Fields
rest_of end = end
rest_of (field k v m) = m

-- The digest of a harness directory that is there and has files.
abbrev pub harness_digest : Option Tree → Option String
harness_digest none = none
harness_digest (some t) = if nat_beq t.file_count 0 then none else some t.digest

abbrev entry_of : Option String → Option Json → Option Json
entry_of none before = before
entry_of (some digest) before = some (text digest)

lookup-add_harness :
    (name key : String) (t : Option Tree) (m : Fields)
    → lookup key (add_harness name t m)
      ≡ (if name == key then entry_of (harness_digest t) (lookup key m) else lookup key m)
unfolding add_harness
lookup-add_harness name key none m = elim (Bool-cases (name == key)) [
  | inl e ↦ rw e refl
  | inr e ↦ rw e refl
]
lookup-add_harness name key (some t) m = counted t.file_count
  where
    counted :
        (n : ℕ)
        → lookup key (elim n as (λ _. Fields) [ zero ↦ m | suc k ↦ put name (text t.digest) m ]) ≡ (
            if name == key
            then entry_of (if nat_beq n 0 then none else some t.digest) (lookup key m)
            else lookup key m)
    counted zero = elim (Bool-cases (name == key)) [ inl e ↦ rw e refl | inr e ↦ rw e refl ]
    counted (suc k) =
        let there : nat_beq (suc k) 0 ≡ false = ground arith in
        rw there (lookup-put name key (text t.digest) m)

entry_of_injective : (a b : Option String) → entry_of a none ≡ entry_of b none → a ≡ b
entry_of_injective none none h = refl
entry_of_injective none (some b) h = cc
entry_of_injective (some a) none h = cc
entry_of_injective (some a) (some b) h = cc

-- What the harness has of each directory.
module _ (w : World) where
  lookup-bench : lookup "bench" (harness_of w) ≡ entry_of (harness_digest w.bench) none
  unfolding harness_of lookup
  lookup-bench =
      let inner = add_harness "bench" w.bench end in
      lookup-add_harness "scripts" "bench" w.scripts (add_harness "precision" w.precision inner)
      ∙ lookup-add_harness "precision" "bench" w.precision inner
      ∙ lookup-add_harness "bench" "bench" w.bench end

  lookup-precision : lookup "precision" (harness_of w) ≡ entry_of (harness_digest w.precision) none
  unfolding harness_of lookup
  lookup-precision =
      let inner = add_harness "bench" w.bench end in
      lookup-add_harness "scripts" "precision" w.scripts (add_harness "precision" w.precision inner)
      ∙ lookup-add_harness "precision" "precision" w.precision inner
      ∙ ap (entry_of (harness_digest w.precision))
          (lookup-add_harness "bench" "precision" w.bench end)

  lookup-scripts : lookup "scripts" (harness_of w) ≡ entry_of (harness_digest w.scripts) none
  unfolding harness_of lookup
  lookup-scripts =
      let inner = add_harness "bench" w.bench end in
      lookup-add_harness "scripts" "scripts" w.scripts (add_harness "precision" w.precision inner)
      ∙ ap (entry_of (harness_digest w.scripts)) (
          lookup-add_harness "precision" "scripts" w.precision inner
          ∙ lookup-add_harness "bench" "scripts" w.bench end)

-- The hash of the workload file that the task names.
abbrev pub measured_workload : World → Json → Option String
measured_workload w name = if truthy name then w.workload (str name) else none

workload_hash-measured : (w : World) (name : Json) → workload_hash w name ≡ measured_workload w name
unfolding workload_hash
workload_hash-measured w name = refl

-- Two runs whose payloads are equal, which is what is hashed for their identity, have measured
-- candidate trees with equal digests, baseline trees with equal digests, workload files with equal
-- hashes, and, for each of the directories "bench", "precision" and "scripts" that has files,
-- directories with equal digests; what one of the runs lacks, the other lacks too.
pub payload-determines :
    (w w' : World) (task task' : Fields)
    → payload w task ≡ payload w' task'
    → (digest_of w.candidate ≡ digest_of w'.candidate)
      × (digest_of w.baseline ≡ digest_of w'.baseline)
      × (measured_workload w (get "workload_file" task)
          ≡ measured_workload w' (get "workload_file" task'))
      × (harness_digest w.bench ≡ harness_digest w'.bench)
      × (harness_digest w.precision ≡ harness_digest w'.precision)
      × (harness_digest w.scripts ≡ harness_digest w'.scripts)
unfolding payload value_of rest_of
payload-determines w w' task task' h =
    let harness : harness_of w ≡ harness_of w' =
      harness_json_injective _ _ (ap (λ m. value_of (rest_of (rest_of (rest_of m)))) h) in
    (
      tree_json-digest w.candidate w'.candidate (ap value_of h),
      tree_json-digest w.baseline w'.baseline (ap (λ m. value_of (rest_of m)) h),
      sym (workload_hash-measured w (get "workload_file" task))
          ∙ workload_json-hash (get "workload_file" task) (get "workload_file" task') _ _
              (ap (λ m. value_of (rest_of (rest_of m))) h)
          ∙ workload_hash-measured w' (get "workload_file" task'),
      entry_of_injective _ _ (sym (lookup-bench w) ∙ ap (lookup "bench") harness ∙ lookup-bench w'),
      entry_of_injective _ _
          (sym (lookup-precision w) ∙ ap (lookup "precision") harness ∙ lookup-precision w'),
      entry_of_injective _ _
          (sym (lookup-scripts w) ∙ ap (lookup "scripts") harness ∙ lookup-scripts w'),
    )

-- What a measurement without warnings has.
pub record IsComplete (w : World) (task : Fields) : Type 0 where
  pub candidate : Tree
  pub candidate_is : w.candidate ≡ some candidate
  pub baseline : Tree
  pub baseline_is : w.baseline ≡ some baseline
  pub distinct : candidate.digest ≢ baseline.digest
  pub hash : String
  pub hash_is : workload_hash w (get "workload_file" task) ≡ some hash
  pub harness : harness_of w ≢ end

tree_there :
    (label : String) (t : Option Tree) → tree_warning label t ≡ [] → (s : Tree) × (t ≡ some s)
tree_there label none h = cc
tree_there label (some s) h = (s, refl)

hash_there : (o : Option String) → workload_warning o ≡ [] → (s : String) × (o ≡ some s)
hash_there none h = cc
hash_there (some s) h = (s, refl)

harness_there : (m : Fields) → (if truthy (object m) then [] else no_harness ∷ []) ≡ [] → m ≢ end
harness_there end h e = cc
harness_there (field k v m) h e = cc

digests_differ :
    (c b : Option Tree) (c' b' : Tree)
    → c ≡ some c'
    → b ≡ some b'
    → differs_warning (differs c b) ≡ []
    → c'.digest ≢ b'.digest
unfolding differs
digests_differ c b c' b' is_c is_b h same =
    let equal : (c'.digest == b'.digest) ≡ true = (eq_iff c'.digest b'.digest).1 same in
    cc (rw (is_c, is_b, equal) at h)

-- Inputs without a warning have both trees, with different digests, a workload file that was hashed,
-- and a harness directory with files.
pub execution_inputs-IsComplete :
    (hash : Fields → String) (w : World) (task : Fields)
    → (execution_inputs hash w task).warnings ≡ []
    → IsComplete w task
unfolding execution_inputs
execution_inputs-IsComplete hash w task h =
    let (a, h₁) = append-eq_nil (tree_warning "candidate" w.candidate) _ h in
    let (b, h₂) = append-eq_nil (tree_warning "baseline" w.baseline) _ h₁ in
    let (c, h₃) =
      append-eq_nil (workload_warning (workload_hash w (get "workload_file" task))) _ h₂ in
    let (d, e) =
      append-eq_nil (if truthy (object (harness_of w)) then [] else no_harness ∷ []) _ h₃ in
    let (candidate, candidate_is) = tree_there "candidate" w.candidate a in
    let (baseline, baseline_is) = tree_there "baseline" w.baseline b in
    let (file, file_is) = hash_there (workload_hash w (get "workload_file" task)) c in
    record {
      candidate = candidate;
      candidate_is = candidate_is;
      baseline = baseline;
      baseline_is = baseline_is;
      distinct =
          digests_differ w.candidate w.baseline candidate baseline candidate_is baseline_is e;
      hash = file;
      hash_is = file_is;
      harness = harness_there (harness_of w) d;
    }
