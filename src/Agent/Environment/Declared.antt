-- ===== src/Agent/Environment/Declared.antt =====
-- What of a plan's environment reaches the process that `start` and `resume` launch.
use infra_loop_kda.Base.{
  String, Bool, true, false, not, Option, none, some, [], ◌∷◌, ◌==◌, ◌≡◌, refl, sym, ◌∙◌, ap, subst,
  arith, eq_iff, Bool-cases, inl, inr, contains, contains-all, if◌then◌else◌, all,
}
use infra_loop_kda.Base.Sorted.{text_leb}
use infra_loop_kda.Agent.Environment.{
  Env, declared_keys, is_secret, insert_variable, sorted_env, redact, redact_all, redact_env,
  declare_env, value_of,
}

text_leb_refl : (s : String) → text_leb s s ≡ true
text_leb_refl String.[] = refl
text_leb_refl (String.◌∷◌ c s) = ground (arith, text_leb_refl s)

text_leb_equal : (s t : String) → false ≡ text_leb s t → s ≡ t → ⊥
text_leb_equal s t h e =
    let self : text_leb s t ≡ true = subst (λ u. text_leb s u ≡ true) e (text_leb_refl s) in
    cc (h, self)

-- Two tests that do not both hold may be swapped.
swap :
    (first second other : Option String) (a b : Bool)
    → (a ≡ true → b ≡ true → ⊥)
    → (if b then second else (if a then first else other))
      ≡ (if a then first else (if b then second else other))
swap first second other true true h = absurd (h refl refl)
swap first second other true false h = refl
swap first second other false true h = refl
swap first second other false false h = refl

value_of-insert_variable :
    (key other value : String) (env : Env)
    → value_of key (insert_variable (other, value) env)
      ≡ (if other == key then some value else value_of key env)
unfolding insert_variable value_of
value_of-insert_variable key other value [] = refl
value_of-insert_variable key other value ((name, v) ∷ env) =
    elim (Bool-cases (text_leb other name)) [
      | inl first ↦ rw first refl
      | inr later ↦
          rw (later, value_of-insert_variable key other value env)
            (swap (some value) (some v) (value_of key env) (other == key) (name == key) (λ is also.
              text_leb_equal other name (sym later)
                ((eq_iff other key).0 is ∙ sym ((eq_iff name key).0 also))))
    ]

value_of-sorted_env : (key : String) (env : Env) → value_of key (sorted_env env) ≡ value_of key env
unfolding sorted_env value_of
value_of-sorted_env key [] = refl
value_of-sorted_env key ((name, v) ∷ env) =
    value_of-insert_variable key name v (sorted_env env)
    ∙ ap (λ o. if name == key then some v else o) (value_of-sorted_env key env)

all_plain : all (λ k. not (is_secret k)) declared_keys ≡ true
unfolding is_secret
all_plain = refl

declared-not-secret :
    (key : String) → contains key declared_keys ≡ true → not (is_secret key) ≡ true
declared-not-secret key h = contains-all (λ k. not (is_secret k)) key declared_keys all_plain h

value_of-redact_all :
    (key : String) (env : Env)
    → not (is_secret key) ≡ true
    → value_of key (redact_all env) ≡ value_of key env
unfolding value_of redact_all redact
value_of-redact_all key [] h = refl
value_of-redact_all key ((name, v) ∷ env) h = elim (Bool-cases (name == key)) [
  | inl is ↦
      let plain : is_secret name ≡ false =
        subst (λ k. is_secret k ≡ false) (sym ((eq_iff name key).0 is)) (ground arith) in
      rw (is, plain) refl
  | inr other ↦ rw other (value_of-redact_all key env h)
]

declare_found :
    (key name v : String) (env : Env)
    → (name == key) ≡ true
    → value_of key (declare_env env)
      ≡ (if contains key declared_keys then value_of key env else none)
    → value_of key (declare_env ((name, v) ∷ env))
      ≡ (if contains key declared_keys then value_of key ((name, v) ∷ env) else none)
unfolding value_of declare_env
declare_found key name v env is rest =
    let same : name ≡ key = (eq_iff name key).0 is in
    elim (Bool-cases (contains key declared_keys)) [
      | inl declared ↦
          let named : contains name declared_keys ≡ true =
            subst (λ k. contains k declared_keys ≡ true) (sym same) declared in
          rw (declared, named, is) refl
      | inr other ↦
          let named : contains name declared_keys ≡ false =
            subst (λ k. contains k declared_keys ≡ false) (sym same) other in
          rw (other, named) (rw other at rest)
    ]

value_of-declare_env :
    (key : String) (env : Env)
    → value_of key (declare_env env)
      ≡ (if contains key declared_keys then value_of key env else none)
unfolding value_of declare_env
value_of-declare_env key [] = elim (Bool-cases (contains key declared_keys)) [
  | inl declared ↦ rw declared refl
  | inr other ↦ rw other refl
]
value_of-declare_env key ((name, v) ∷ env) = elim (Bool-cases (name == key)) [
  | inl is ↦ declare_found key name v env is (value_of-declare_env key env)
  | inr another ↦ elim (Bool-cases (contains name declared_keys)) [
    | inl declared ↦ rw (declared, another) (value_of-declare_env key env)
    | inr other ↦ rw (other, another) (value_of-declare_env key env)
  ]
]

-- The variables that a launched session is given, which are read back from the plan's redacted
-- record, are those of the plan itself: each declared key has its value unredacted, whatever the
-- environment, and no other key is there.
pub value_of-declared :
    (key : String) (env : Env)
    → value_of key (declare_env (redact_env env))
      ≡ (if contains key declared_keys then value_of key env else none)
unfolding redact_env
value_of-declared key env =
    value_of-declare_env key (redact_all (sorted_env env))
    ∙ elim (Bool-cases (contains key declared_keys)) [
      | inl declared ↦ rw declared (
          value_of-redact_all key (sorted_env env) (declared-not-secret key declared)
          ∙ value_of-sorted_env key env)
      | inr other ↦ rw other refl
    ]
