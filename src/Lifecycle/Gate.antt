-- ===== src/Lifecycle/Gate.antt =====
-- When a task may start a loop, and the classes of its states.
use infra_loop_kda.Base.{
  String, Bool, ◌≡◌, ◌↔◌, refl, true, false, List, [], ◌∷◌, ◌++◌, ◌==◌, arith, eq_iff, contains,
  all, append-eq_nil, contains-all, Bool-cases, nat_beq, ℕ, ◌+◌, if◌then◌else◌, ◌⊎◌, inl, inr,
}
use infra_loop_kda.Json.{Json, Fields, get, equals_text}
use infra_loop_kda.Json.Repr.{str_or}
use infra_loop_kda.Lifecycle.{
  startable, terminal, held, verified, known, task_status, is_terminal, Blocker, immutable,
  status_blockers, workload_blockers, result_blockers, start_blockers, refused, require_startable,
}

status_blockers-nil : (s : String) → status_blockers s ≡ [] → contains s startable ≡ true
unfolding status_blockers
status_blockers-nil s h = ground arith

abbrev StartableCases : String → Type 0
StartableCases s =
    (s ≡ "prepared") ⊎ (s ≡ "ready") ⊎ (s ≡ "candidate_running") ⊎ (s ≡ "in_progress")

startable-cases : (s : String) → contains s startable ≡ true → StartableCases s
startable-cases s h = ground (
  arith,
  eq_iff "prepared" s,
  eq_iff "ready" s,
  eq_iff "candidate_running" s,
  eq_iff "in_progress" s,
)

startable-status_blockers : (s : String) → StartableCases s → status_blockers s ≡ []
unfolding status_blockers
startable-status_blockers s (inl e) = rw e refl
startable-status_blockers s (inr (inl e)) = rw e refl
startable-status_blockers s (inr (inr (inl e))) = rw e refl
startable-status_blockers s (inr (inr (inr e))) = rw e refl

workload_blockers-nil : (s : String) → (workload_blockers s ≡ []) ↔ (s ≡ "resolved")
unfolding workload_blockers
workload_blockers-nil s = ground (arith, eq_iff s "resolved")

result_blockers-nil : (v : Json) → (result_blockers v ≡ []) ↔ (equals_text v "accepted" ≡ false)
unfolding result_blockers
result_blockers-nil v = ground arith

-- A task has no start blocker exactly when its status is one of the four startable ones, its
-- workload status is "resolved" and its optimization status is not "accepted".
pub start_blockers-nil :
    (task : Fields)
    → (start_blockers task ≡ []) ↔ (
        (contains (task_status task) startable ≡ true)
        × (str_or (get "workload_status" task) "unresolved" ≡ "resolved")
        × (equals_text (get "optimization_status" task) "accepted" ≡ false))
unfolding start_blockers
start_blockers-nil task = (
  λ h.
      let (a, rest) = append-eq_nil _ _ h in
      let (b, c) = append-eq_nil _ _ rest in
      (status_blockers-nil _ a, (workload_blockers-nil _).0 b, (result_blockers-nil _).0 c),
  λ h.
      rw
        (
          startable-status_blockers _ (startable-cases _ h.0),
          (workload_blockers-nil _).1 h.1,
          (result_blockers-nil _).1 h.2,
        )
        refl,
)

-- A task in a terminal state is never let through: the first reason is that it is immutable.
pub terminal-refused :
    (task : Fields) (task_id : String)
    → is_terminal task ≡ true
    → (rest : List Blocker) × (require_startable task task_id
        ≡ refused task_id (immutable (task_status task) ∷ rest))
unfolding is_terminal require_startable start_blockers status_blockers
terminal-refused task task_id h = (
  workload_blockers (str_or (get "workload_status" task) "unresolved")
      ++ result_blockers (get "optimization_status" task),
  rw h refl,
)

-- How many of the five classes hold a status.
pub classes : String → ℕ
classes s =
    let n : Bool → ℕ = λ b. if b then 1 else 0 in
    n (contains s startable)
    + n (contains s terminal)
    + n (contains s held)
    + n (contains s verified)
    + n (s == "scaffolded")

one_class : all (λ s. nat_beq (classes s) 1) known ≡ true
unfolding classes
one_class = refl

outside :
    (s : String) (xs : List String)
    → all (λ x. contains x known) xs ≡ true
    → contains s known ≡ false
    → contains s xs ≡ false
outside s xs sub no_s = elim (Bool-cases (contains s xs)) [
  | inl found ↦ cc (contains-all (λ x. contains x known) s xs sub found)
  | inr missing ↦ missing
]

not_scaffolded : (s : String) → contains s known ≡ false → (s == "scaffolded") ≡ false
not_scaffolded s h = ground (arith, eq_iff s "scaffolded", eq_iff "scaffolded" s)

nat_beq-eq : (a b : ℕ) → nat_beq a b ≡ true → a ≡ b
nat_beq-eq a b h = ground arith

-- A known state lies in exactly one of the classes startable, terminal, held, verified and
-- scaffolded, and an unknown one in none of them.
pub classes-known : (s : String) → classes s ≡ (if contains s known then 1 else 0)
unfolding classes
classes-known s = elim (Bool-cases (contains s known)) [
  | inl known_s ↦
      rw known_s
        (nat_beq-eq _ _ (contains-all (λ x. nat_beq (classes x) 1) s known one_class known_s))
  | inr unknown ↦
      rw
        (
          unknown,
          outside s startable refl unknown,
          outside s terminal refl unknown,
          outside s held refl unknown,
          outside s verified refl unknown,
          not_scaffolded s unknown,
        )
        refl
]
