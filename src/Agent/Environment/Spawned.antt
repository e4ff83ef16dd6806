-- ===== src/Agent/Environment/Spawned.antt =====
-- The variables of a launched process, by their keys.
use infra_loop_kda.Base.{
  String, Bool, true, false, Option, none, some, [], ◌∷◌, ◌==◌, ◌≡◌, refl, sym, ap, ◌∙◌, Bool-cases,
  inl, inr, eq_iff, if◌then◌else◌,
}
use infra_loop_kda.Agent.Environment.{
  Env, value_of, set_variable, update_env, or_empty, path_with, spawn_env,
}

-- The first value if there is one, and else the other.
abbrev pub over : Option String → Option String → Option String
over none other = other
over (some value) other = some value

differs :
    (other name key : String)
    → (other == key) ≡ true
    → (other == name) ≡ false
    → (name == key) ≡ false
differs other name key here apart = elim (Bool-cases (name == key)) [
  | inr other_key ↦ other_key
  | inl e ↦
      let both : other ≡ name = (eq_iff other key).0 here ∙ sym ((eq_iff name key).0 e) in
      absurd (cc ((eq_iff other name).1 both, apart))
]

value_of-set_variable :
    (key name value : String) (env : Env)
    → value_of key (set_variable name value env)
      ≡ (if name == key then some value else value_of key env)
unfolding value_of set_variable
value_of-set_variable key name value [] = refl
value_of-set_variable key name value ((other, old) ∷ env) = elim (Bool-cases (other == name)) [
  | inl same ↦ rw (same, (eq_iff other name).0 same) (again (name == key))
  | inr apart ↦ rw apart (elim (Bool-cases (other == key)) [
    | inl here ↦ rw (here, differs other name key here apart) refl
    | inr there ↦ rw there (value_of-set_variable key name value env)
  ])
]
  where
    again :
        (b : Bool)
        → (if b then some value else value_of key env)
          ≡ (if b then some value else (if b then some old else value_of key env))
    again true = refl
    again false = refl

value_of-update_env :
    (key : String) (env declared : Env)
    → value_of key (update_env env declared) ≡ over (value_of key declared) (value_of key env)
unfolding value_of update_env
value_of-update_env key env [] = refl
value_of-update_env key env ((name, value) ∷ declared) =
    value_of-set_variable key name value (update_env env declared)
    ∙ (ap (λ v. if name == key then some value else v) (value_of-update_env key env declared)
        ∙ pushed (name == key))
  where
    pushed :
        (b : Bool)
        → (if b then some value else over (value_of key declared) (value_of key env))
          ≡ over (if b then some value else value_of key declared) (value_of key env)
    pushed true = refl
    pushed false = refl

-- A process gets PATH with the shim in front, a declared variable with its declared value, and every
-- other variable from the outer environment.
pub value_of-spawn_env :
    (key : String) (environ declared : Env) (shim : String)
    → value_of key (spawn_env environ declared shim) ≡ (
        if "PATH" == key
        then some (
            path_with shim
              (or_empty (over (value_of "PATH" declared) (value_of "PATH" environ)))
              (or_empty (value_of "PATH" environ)))
        else over (value_of key declared) (value_of key environ))
unfolding spawn_env
value_of-spawn_env key environ declared shim =
    rw
      (
        sym (value_of-update_env "PATH" environ declared),
        sym (value_of-update_env key environ declared),
      )
      (value_of-set_variable key "PATH" _ (update_env environ declared))
