-- ===== src/Tuning/Manifest.antt =====
-- Which manifests `validate_manifest` accepts, and that an accepted one has trials.
use infra_loop_kda.Base.{
  ℕ, ◌*◌, ◌≤◌, ◌≡◌, ◌≢◌, refl, sym, ap, subst, ◌∙◌, inl, inr, String, Bool, true, false, not, List,
  [], ◌∷◌, length, append-eq_nil, All, arith, ◌==◌, Bool-cases, contains, eq_refl,
}
use infra_loop_kda.Base.Outcome.{ok, >>=-eq-ok}
use infra_loop_kda.Json.{
  Json, array, object, cons, Fields, end, field, get, lookup, values, equals_nat,
}
use infra_loop_kda.Json.Checks.{note, is_missing, is_nonempty_list, is_integer, items_of}
use infra_loop_kda.Tuning.{
  space_errors, search_errors, validate_manifest, require_valid, choices, expand,
}
use infra_loop_kda.Tuning.Grid.{size, values_of, expand-IsGrid}
use infra_loop_kda.Base.Sorted.{sorted, All-sorted}
use infra_loop_kda.Json.{keys_of}

-- Every parameter of a search space has a list of values, and there is a parameter.
abbrev pub IsSpace : Json → Type 0
IsSpace v = (m : Fields) × (v ≡ object m) × (m ≢ end) × (space_errors m ≡ [])

note-eq_nil : (bad : Bool) (message : String) → note bad message ≡ [] → bad ≡ false
unfolding note
note-eq_nil bad message h = ground arith

get-here : (key k : String) (v : Json) (m : Fields) → (key == k) ≡ true → get k (field key v m) ≡ v
unfolding get lookup
get-here key k v m e = rw (get, e) refl

get-later :
    (key k : String) (v : Json) (m : Fields) → (key == k) ≡ false → get k (field key v m) ≡ get k m
unfolding get lookup
get-later key k v m n = rw (get, n) refl

-- A parameter that is listed has a list of values.
listed-nonempty :
    (m : Fields)
    → space_errors m ≡ []
    → (k : String) → contains k (keys_of m) ≡ true
    → is_nonempty_list (get k m) ≡ true
unfolding space_errors
listed-nonempty end h k c = cc
listed-nonempty (field key v m) h k c =
    let (a, b) = append-eq_nil (note (not (is_nonempty_list v)) _) (space_errors m) h in
    let here : is_nonempty_list v ≡ true =
      ground (arith, note-eq_nil (not (is_nonempty_list v)) _ a) in
    elim (Bool-cases (key == k)) [
      | inl e ↦ ap is_nonempty_list (get-here key k v m e) ∙ here
      | inr n ↦ ap is_nonempty_list (get-later key k v m n) ∙ listed-nonempty m b k (ground arith)
    ]

All-contains :
    (xs whole : List String)
    → ((k : String) → contains k xs ≡ true → contains k whole ≡ true)
    → All (λ k. contains k whole ≡ true) xs
All-contains [] whole h = tt
All-contains (x ∷ xs) whole h =
    let here : contains x (x ∷ xs) ≡ true = rw (eq_refl x) refl in
    (h x here, All-contains xs whole (λ k c. h k (ground arith)))

values-nonempty : (v : Json) → is_nonempty_list v ≡ true → 1 ≤ length (values (items_of v))
values-nonempty (array (cons v vs)) h = omega arith
values-nonempty _ h = cc

-- A valid manifest has a parameter, a list of values for each, a kernel, a gate version and a seed.
pub record IsManifest (m : Fields) : Type 0 where
  pub schema : equals_nat (get "schema_version" m) 1 ≡ true
  pub kernel : is_missing "kernel" m ≡ false
  pub gate_version : is_missing "gate_version" m ≡ false
  pub seed : is_integer (get "seed" m) ≡ true
  pub key : String
  pub value : Json
  pub others : Fields
  pub space : get "search_space" m ≡ object (field key value others)
  pub each :
      All (λ k. is_nonempty_list (get k (field key value others)) ≡ true) (key ∷ keys_of others)

search-Space :
    (v : Json)
    → search_errors v ≡ []
    → (key : String) × (value : Json) × (m : Fields) × (v ≡ object (field key value m))
      × (space_errors (field key value m) ≡ [])
unfolding search_errors
search-Space (object (field key value m)) h = (key, value, m, refl, h)
search-Space _ h = cc

-- A manifest without errors has a schema version of 1, a kernel and a gate version that are not
-- blank, an integer as its seed, and a search space with a parameter, in which each parameter has a
-- list of values that is not empty.
pub validate_manifest-IsManifest : (m : Fields) → validate_manifest m ≡ [] → IsManifest m
unfolding validate_manifest
validate_manifest-IsManifest m h =
    let (a, h₁) = append-eq_nil (note _ "schema_version must be 1") _ h in
    let (b, h₂) = append-eq_nil (note _ "kernel is required") _ h₁ in
    let (c, h₃) = append-eq_nil (search_errors (get "search_space" m)) _ h₂ in
    let (d, e) = append-eq_nil (note _ "gate_version is required") _ h₃ in
    let (key, value, others, is, fine) = search-Space _ c in
    let space = field key value others in
    record {
      schema = ground (arith, note-eq_nil (not (equals_nat (get "schema_version" m) 1)) _ a);
      kernel = note-eq_nil _ _ b;
      gate_version = note-eq_nil _ _ d;
      seed = ground (arith, note-eq_nil (not (is_integer (get "seed" m))) _ e);
      key = key;
      value = value;
      others = others;
      space = is;
      each =
          nonempty space (keys_of space) (All-contains (keys_of space) (keys_of space) (λ k c. c))
            fine;
    }
  where
    nonempty :
        (space : Fields) (ks : List String)
        → All (λ k. contains k (keys_of space) ≡ true) ks
        → space_errors space ≡ []
        → All (λ k. is_nonempty_list (get k space) ≡ true) ks
    nonempty space [] a fine = tt
    nonempty space (k ∷ ks) a fine = (listed-nonempty space fine k a.0, nonempty space ks a.1 fine)

size-choices :
    (m : Fields) (ks : List String)
    → All (λ k. is_nonempty_list (get k m) ≡ true) ks
    → 1 ≤ size (choices m ks)
unfolding choices
size-choices m [] h = omega arith
size-choices m (k ∷ ks) h = one_product _ _ (values-nonempty (get k m) h.0) (size-choices m ks h.1)
  where
    one_product : (a b : ℕ) → 1 ≤ a → 1 ≤ b → 1 ≤ a * b
    one_product a b p q = grind arith

-- `expand` returns one trial at least.
pub expand-nonempty :
    (hash : Fields → String) (m : Fields) {trials : List Json}
    → expand hash m ≡ ok trials
    → 1 ≤ length trials
unfolding expand require_valid
expand-nonempty hash m h =
    let (_, valid, _) = >>=-eq-ok (require_valid m) _ h in
    let no_errors : validate_manifest m ≡ [] = ground arith in
    let v = validate_manifest-IsManifest m no_errors in
    let counted = (expand-IsGrid hash m h).counted in
    let space = field v.key v.value v.others in
    let some_choice : 1 ≤ size (values_of m) = rw v.space (
      size-choices space (sorted (keys_of space))
        (All-sorted (λ k. is_nonempty_list (get k space) ≡ true) (keys_of space) v.each)) in
    subst (λ n. 1 ≤ n) (sym counted) some_choice
