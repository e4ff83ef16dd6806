-- ===== src/Runner/Evidence/Gate.antt =====
-- The files that the schema of a report asks for are among the required ones, so they are there in a
-- report directory without problems.
use infra_loop_kda.Base.{
  ℕ, suc, ◌≡◌, refl, sym, ap, subst, ◌∙◌, ◌≢◌, ◌⊎◌, inl, inr, String, Bool, true, false, ◌||◌, List,
  [], ◌∷◌, ◌==◌, All, Bool-cases, eq_iff, eq_refl, contains, if◌then◌else◌,
}
use infra_loop_kda.Base.Sorted.{insert, sorted, text_leb}
use infra_loop_kda.Base.Outcome.{Outcome, ok, err, ◌>>=◌, ok_injective}
use infra_loop_kda.Json.{Json, Items, Fields, get, equals_text}
use infra_loop_kda.Runner.Evidence.{
  Schema, precision, benchmark, unknown_schema, has_key, unique, trial_names, order_of,
  schema_requirements,
}
use infra_loop_kda.Runner.Evidence.Summary.{
  Loaded, loaded, File, no_file, regular, Info, is_failed_gate, inspect_summary,
}
use infra_loop_kda.Runner.Evidence.Inspected.{
  IsEvidence, IsGate, IsCounted, IsThere, walk_of, inspect_summary-IsEvidence,
}
use infra_loop_kda.Runner.Evidence.Asked.{walk_of-Asked}

cons-contains :
    (k x : String) (xs : List String)
    → (x == k) ≡ true ⊎ (contains k xs ≡ true)
    → contains k (x ∷ xs) ≡ true
cons-contains k x xs (inl e) = rw e refl
cons-contains k x xs (inr c) = elim (Bool-cases (x == k)) [ inl e ↦ rw e refl | inr n ↦ rw n c ]

insert-contains :
    (k x : String) (xs : List String)
    → (x == k) ≡ true ⊎ (contains k xs ≡ true)
    → contains k (insert x xs) ≡ true
unfolding insert
insert-contains k x [] (inl e) = rw e refl
insert-contains k x [] (inr h) = cc
insert-contains k x (y ∷ ys) h = elim (Bool-cases (text_leb x y)) [
  | inl e ↦ rw e (cons-contains k x (y ∷ ys) h)
  | inr n ↦ rw n (elim (Bool-cases (y == k)) [
    | inl e ↦ rw e refl
    | inr d ↦ rw d (insert-contains k x ys (elim h [ inl e ↦ inl e | inr c ↦ inr (rw d at c) ]))
  ])
]

sorted-contains :
    (k : String) (xs : List String) → contains k xs ≡ true → contains k (sorted xs) ≡ true
unfolding sorted
sorted-contains k [] h = h
sorted-contains k (x ∷ xs) h =
    insert-contains k x (sorted xs) (elim (Bool-cases (x == k)) [
      | inl e ↦ inl e
      | inr n ↦ inr (sorted-contains k xs (rw n at h))
    ])

unique-contains : (k : String) (xs : List String) → contains k (unique (k ∷ xs)) ≡ true
unfolding unique
unique-contains k xs = elim (Bool-cases (contains k (unique xs))) [
  | inl e ↦ rw e e
  | inr n ↦ rw n (rw (eq_refl k) refl)
]

-- What holds of every element holds of one that is found.
All-element :
    (P : String → Type 0) (k : String) (xs : List String) → All P xs → contains k xs ≡ true → P k
All-element P k [] a h = cc
All-element P k (x ∷ xs) a h = elim (Bool-cases (x == k)) [
  | inl e ↦ subst P ((eq_iff x k).0 e) a.0
  | inr n ↦ All-element P k xs a.1 (rw n at h)
]

abbrev answer : Bool → Bool → Outcome Items → Outcome (Schema × List String)
answer is_precision is_benchmark order =
    if is_precision
    then ok (precision, "per-field.csv" ∷ [])
    else if is_benchmark
    then (do
      entries ← order
      ok (benchmark, sorted (unique ("correctness.json" ∷ trial_names entries))))
    else ok (unknown_schema, [])

-- The schema of a benchmark asks for the gate file.
benchmark-names :
    (summary : Fields) {schema : Schema} {names : List String}
    → schema_requirements summary ≡ ok (schema, names)
    → schema ≡ benchmark
    → contains "correctness.json" names ≡ true
unfolding schema_requirements
benchmark-names summary {schema} {names} h is =
    go (equals_text (get "kind" summary) "accuracy_only_precision_diagnostic")
      (has_key "execution_order" summary || has_key "phase" summary || has_key "sources" summary)
      (order_of (get "execution_order" summary)) h
  where
    go :
        (is_precision is_benchmark : Bool) (order : Outcome Items)
        → answer is_precision is_benchmark order ≡ ok (schema, names)
        → contains "correctness.json" names ≡ true
    go true b order h = cc
    go false false order h = cc
    go false true (err e) h = cc
    go false true (ok entries) h =
        let found : contains "correctness.json"
              (sorted (unique ("correctness.json" ∷ trial_names entries)))
            ≡ true =
          sorted-contains "correctness.json" _
            (unique-contains "correctness.json" (trial_names entries)) in
        subst (λ p. contains "correctness.json" p.1 ≡ true) (ok_injective h) found

doc_of : {a b : ℕ} {s t : String} {d d' : Loaded} → regular a s d ≡ regular b t d' → d ≡ d'
doc_of h = cc

-- What holds of each text that is found in a list.
All_of :
    (P : String → Type 0) (xs : List String)
    → ((x : String) → contains x xs ≡ true → P x)
    → All P xs
All_of P [] h = tt
All_of P (x ∷ xs) h = (
  h x (cons-contains x x xs (inl (eq_refl x))),
  All_of P xs (λ y found. h y (cons-contains y x xs (inr found))),
)

benchmark_or_not :
    {A : Type 0} (schema : Schema) → (schema ≡ benchmark → A) → (schema ≢ benchmark) ⊎ A
benchmark_or_not precision f = inl (λ h. cc)
benchmark_or_not benchmark f = inr (f refl)
benchmark_or_not unknown_schema f = inl (λ h. cc)

-- In a report directory in which the inspection finds no problem, every file that the summary's
-- schema asks for is there and is not empty, whatever the summary names; and if the schema is the
-- benchmark's, the gate file can be read, has no status but "passed" and has positive case counts.
pub inspect_summary-schema :
    (file : String → File) {info : Info}
    → inspect_summary file ≡ ok info
    → info.problems ≡ []
    → (e : IsEvidence file) × All (λ name. (digest : Json) × IsThere (file name) digest) e.names
      × ((e.schema ≢ benchmark)
          ⊎ ((size : ℕ) × (sha256 : String) × (gate : Fields) × (file "correctness.json"
                ≡ regular (suc size) sha256 (loaded gate))
              × (is_failed_gate (get "status" gate) ≡ false)
              × IsCounted gate))
inspect_summary-schema file h p =
    let e = inspect_summary-IsEvidence file h p in
    let there : (name : String)
        → contains name e.names ≡ true
        → (digest : Json) × IsThere (file name) digest =
      λ name asked. (
        get name (walk_of file e.summary e.schema e.names).required,
        All-element _ name _ e.there
            (sorted-contains name _ (walk_of-Asked file e.summary e.schema e.names name asked)),
      ) in
    (
      e,
      All_of (λ name. (digest : Json) × IsThere (file name) digest) e.names there,
      benchmark_or_not e.schema (λ is.
          gate_there (file "correctness.json") e.gate
            (there "correctness.json" (benchmark-names e.summary e.asked is))),
    )
  where
    gate_there :
        (f : File)
        → IsGate f
        → (digest : Json) × IsThere f digest
        → (size : ℕ) × (sha256 : String) × (gate : Fields) × (f
            ≡ regular (suc size) sha256 (loaded gate))
          × (is_failed_gate (get "status" gate) ≡ false)
          × IsCounted gate
    gate_there no_file g (digest, (n, sha, document, is, _)) = cc
    gate_there (regular size sha document) (gate, same, passed, counted)
          (digest, (n, sha', document', is, _)) =
        (
          n,
          sha',
          gate,
          is ∙ ap (λ d. regular (suc n) sha' d) (sym (doc_of is) ∙ same),
          passed,
          counted,
        )
