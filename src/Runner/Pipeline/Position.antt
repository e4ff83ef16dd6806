-- ===== src/Runner/Pipeline/Position.antt =====
-- Where a run stands in its pipeline.
use infra_loop_kda.Base.{
  ℕ, zero, suc, ◌+◌, ◌≡◌, refl, sym, ap, inl, inr, String, true, false, none, some, List, [], ◌∷◌,
  ◌==◌, map, contains, get_elem?, Bool-cases, eq_iff, some_injective,
}
use infra_loop_kda.Json.{Fields}
use infra_loop_kda.Runner.Pipeline.{stage_of, index, pipeline_for, build_stages}

index-get_elem? :
    (operation : String) (names : List String)
    → contains operation names ≡ true
    → get_elem? names (index operation names) ≡ some operation
unfolding index
index-get_elem? operation [] h = cc
index-get_elem? operation (name ∷ names) h = elim (Bool-cases (name == operation)) [
  | inl e ↦ rw e (ap some ((eq_iff name operation).0 e))
  | inr n ↦ rw n (index-get_elem? operation names (rw n at h))
]

get_elem?-map :
    (operation : String) (names : List String) (i : ℕ) {name : String}
    → get_elem? names i ≡ some name
    → get_elem? (map (stage_of operation) names) i ≡ some (stage_of operation name)
get_elem?-map operation [] i h = cc
get_elem?-map operation (x ∷ names) zero h =
    ap (λ n. some (stage_of operation n)) (some_injective h)
get_elem?-map operation (x ∷ names) (suc i) h = get_elem?-map operation names i h

-- A position in the pipeline is that of a stage for this run: the stage before it in the count is
-- named by the operation and marked as this run. There is a position exactly where the operation is
-- in the pipeline.
pub build_stages_position :
    (task : Fields) (operation : String)
    → ((n : ℕ)
        → (build_stages task operation).position ≡ some n
        → (i : ℕ) × (n ≡ i + 1)
          × (get_elem? (build_stages task operation).pipeline i ≡ some operation)
          × (get_elem? (build_stages task operation).stages i ≡ some (stage_of operation operation))
          × ((stage_of operation operation).is_this_run ≡ true))
      × ((build_stages task operation).position ≡ none
          → (build_stages task operation).in_pipeline ≡ false)
unfolding build_stages stage_of
build_stages_position task operation = (
  λ n h. elim (Bool-cases (contains operation (pipeline_for task))) [
    | inl e ↦
        let at = index-get_elem? operation (pipeline_for task) e in
        (
          index operation (pipeline_for task),
          sym (some_injective (rw e at h)),
          at,
          get_elem?-map operation (pipeline_for task) _ at,
          (eq_iff operation operation).1 refl,
        )
    | inr m ↦ cc (rw m at h)
  ],
  λ h. elim (Bool-cases (contains operation (pipeline_for task))) [
    | inl e ↦ cc (rw e at h)
    | inr m ↦ m
  ],
)
