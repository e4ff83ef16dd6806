-- ===== src/Tuning/Grid.antt =====
-- What `expand` enumerates: every choice of one value for each parameter.
use infra_loop_kda.Base.{
  ℕ, zero, suc, ◌*◌, ◌≡◌, refl, sym, ap, subst, ◌∙◌, ◌↔◌, ◌⊎◌, inl, inr, pos, ◌==◌, if◌then◌else◌,
  String, Option, none, some, List, [], ◌∷◌, ◌++◌, map, length, length-append, length-map,
  get_elem?, arith,
}
use infra_loop_kda.Base.Outcome.{ok, >>=-eq-ok, ok_injective}
use infra_loop_kda.Json.{Json, int, text, object, Fields, end, get, lookup, put, values}
use infra_loop_kda.Json.Laws.{lookup-put}
use infra_loop_kda.Json.Checks.{items_of}
use infra_loop_kda.Tuning.{
  space_of, choices, prefixed, product, dict_of, trial, number, expand, require_valid,
}
use infra_loop_kda.Base.Sorted.{sorted}
use infra_loop_kda.Json.{keys_of}

-- An element occurs in a list.
abbrev pub Has {ℓ} : {A : Type ℓ} → A → List A → Type ℓ
Has {A = A} a xs = (i : ℕ) × (get_elem? xs i ≡ some a)

-- One value from each list.
pub data Picks : List Json → List (List Json) → Type 0 where
  done : Picks [] []
  pick :
      (v : Json) (vs : List Json) (xs : List Json) (xss : List (List Json))
      → Has v xs
      → Picks vs xss
      → Picks (v ∷ vs) (xs ∷ xss)

-- The number of choices.
abbrev pub size : List (List Json) → ℕ
size [] = 1
size (xs ∷ xss) = length xs * size xss

length-prefixed :
    (vs : List Json) (rests : List (List Json))
    → length (prefixed vs rests) ≡ length vs * length rests
unfolding prefixed
length-prefixed [] rests = omega arith
length-prefixed (v ∷ vs) rests =
    length-append (map (λ rest. v ∷ rest) rests) (prefixed vs rests)
    ∙ omega (arith, length-map (λ rest. v ∷ rest) rests, length-prefixed vs rests)

length-product : (xss : List (List Json)) → length (product xss) ≡ size xss
unfolding product
length-product [] = refl
length-product (xs ∷ xss) =
    length-prefixed xs (product xss) ∙ ap (λ n. length xs * n) (length-product xss)

module _ {ℓ} {A : Type ℓ} where
  Has-append_left : (a : A) (xs ys : List A) → Has a xs → Has a (xs ++ ys)
  Has-append_left a (x ∷ xs) ys (zero, h) = (zero, h)
  Has-append_left a (x ∷ xs) ys (suc i, h) =
      let (j, k) = Has-append_left a xs ys (i, h) in (suc j, k)
  Has-append_left a [] ys (i, h) = cc

  Has-append_right : (a : A) (xs ys : List A) → Has a ys → Has a (xs ++ ys)
  Has-append_right a [] ys h = h
  Has-append_right a (x ∷ xs) ys h = let (j, k) = Has-append_right a xs ys h in (suc j, k)

  Has-append_split : (a : A) (xs ys : List A) → Has a (xs ++ ys) → Has a xs ⊎ Has a ys
  Has-append_split a [] ys h = inr h
  Has-append_split a (x ∷ xs) ys (zero, h) = inl (zero, h)
  Has-append_split a (x ∷ xs) ys (suc i, h) = elim (Has-append_split a xs ys (i, h)) [
    | inl (j, k) ↦ inl (suc j, k)
    | inr k ↦ inr k
  ]

Has-map :
    (v : Json) (c : List Json) (rests : List (List Json))
    → Has c rests
    → Has (v ∷ c) (map (λ rest. v ∷ rest) rests)
Has-map v c [] (i, h) = cc
Has-map v c (r ∷ rests) (zero, h) = (zero, ap some (ap (λ rest. v ∷ rest) cc))
Has-map v c (r ∷ rests) (suc i, h) = let (j, k) = Has-map v c rests (i, h) in (suc j, k)

Has-map_split :
    (v : Json) (c : List Json) (rests : List (List Json))
    → Has c (map (λ rest. v ∷ rest) rests)
    → (c' : List Json) × (c ≡ v ∷ c') × Has c' rests
Has-map_split v c [] (i, h) = cc
Has-map_split v c (r ∷ rests) (zero, h) = (r, cc, (zero, refl))
Has-map_split v c (r ∷ rests) (suc i, h) =
    let (c', e, (j, k)) = Has-map_split v c rests (i, h) in (c', e, (suc j, k))

Has-prefixed :
    (v : Json) (vs : List Json) (c : List Json) (rests : List (List Json))
    → Has v vs
    → Has c rests
    → Has (v ∷ c) (prefixed vs rests)
unfolding prefixed
Has-prefixed v [] c rests (i, h) k = cc
Has-prefixed v (w ∷ vs) c rests (zero, h) k =
    let e : w ≡ v = cc in
    rw e (
      Has-append_left (v ∷ c) (map (λ rest. v ∷ rest) rests) (prefixed vs rests)
        (Has-map v c rests k))
Has-prefixed v (w ∷ vs) c rests (suc i, h) k =
    Has-append_right (v ∷ c) (map (λ rest. w ∷ rest) rests) (prefixed vs rests)
      (Has-prefixed v vs c rests (i, h) k)

Has-prefixed_split :
    (vs : List Json) (c : List Json) (rests : List (List Json))
    → Has c (prefixed vs rests)
    → (v : Json) × (c' : List Json) × (c ≡ v ∷ c') × Has v vs × Has c' rests
unfolding prefixed
Has-prefixed_split [] c rests (i, h) = cc
Has-prefixed_split (w ∷ vs) c rests h =
    elim (Has-append_split c (map (λ rest. w ∷ rest) rests) (prefixed vs rests) h) [
      | inl k ↦ let (c', e, m) = Has-map_split w c rests k in (w, c', e, (zero, refl), m)
      | inr k ↦
          let (v, c', e, (i, n), m) = Has-prefixed_split vs c rests k in (v, c', e, (suc i, n), m)
    ]

Picks-product : (c : List Json) (xss : List (List Json)) → Picks c xss → Has c (product xss)
unfolding product
Picks-product _ _ done = (zero, refl)
Picks-product _ _ (pick v vs xs xss h k) =
    Has-prefixed v xs vs (product xss) h (Picks-product vs xss k)

product-Picks : (c : List Json) (xss : List (List Json)) → Has c (product xss) → Picks c xss
unfolding product
product-Picks c [] (zero, h) = let e : [] ≡ c = cc in subst (λ c. Picks c []) e done
product-Picks c [] (suc i, h) = cc
product-Picks c (xs ∷ xss) h =
    let (v, c', e, m, n) = Has-prefixed_split xs c (product xss) h in
    subst (λ c. Picks c (xs ∷ xss)) (sym e) (pick v c' xs xss m (product-Picks c' xss n))

-- The value that `dict(zip(keys, combination))` has under a key: the last one given.
abbrev pub assigned : String → List String → List Json → Option Json → Option Json
assigned key (k ∷ ks) (v ∷ vs) before = assigned key ks vs (if k == key then some v else before)
assigned key _ _ before = before

lookup-dict_of :
    (key : String) (keys : List String) (combination : List Json) (m : Fields)
    → lookup key (dict_of keys combination m) ≡ assigned key keys combination (lookup key m)
unfolding dict_of
lookup-dict_of key [] vs m = refl
lookup-dict_of key (k ∷ ks) [] m = refl
lookup-dict_of key (k ∷ ks) (v ∷ vs) m =
    lookup-dict_of key ks vs (put k v m) ∙ ap (assigned key ks vs) (lookup-put k key v m)

-- A trial of a choice: its number, the manifest's seed, kernel and gate version, the configuration
-- that gives each parameter its value in the choice, and the hash of that configuration.
pub record IsTrial (hash : Fields → String) (m : Fields) (keys : List String) (index : ℕ)
    (combination : List Json) (found : Json) : Type 0 where
  pub fields : Fields
  pub is_object : found ≡ object fields
  pub numbered : get "trial" fields ≡ int (pos index)
  pub seed : get "seed" fields ≡ get "seed" m
  pub kernel : get "kernel" fields ≡ get "kernel" m
  pub gate_version : get "gate_version" fields ≡ get "gate_version" m
  pub config : Fields
  pub configured : get "config" fields ≡ object config
  pub hashed : get "config_hash" fields ≡ text (hash config)
  pub chosen : (key : String) → lookup key config ≡ assigned key keys combination none

trial-IsTrial :
    (hash : Fields → String) (m : Fields) (keys : List String) (index : ℕ) (combination : List Json)
    → IsTrial hash m keys index combination (trial hash m keys index combination)
unfolding trial get lookup
trial-IsTrial hash m keys index combination = record {
  fields = _;
  is_object = refl;
  numbered = refl;
  seed = refl;
  kernel = refl;
  gate_version = refl;
  config = dict_of keys combination end;
  configured = refl;
  hashed = refl;
  chosen = λ key. lookup-dict_of key keys combination end;
}

-- The trials are those of the choices, in their order and numbered from an index on.
pub data AreTrials (hash : Fields → String) (m : Fields) (keys : List String)
    : ℕ → List (List Json) → List Json → Type 0 where
  no_trials : {n : ℕ} → AreTrials hash m keys n [] []
  next_trial :
      {n : ℕ} (c : List Json) (cs : List (List Json)) (t : Json) (ts : List Json)
      → IsTrial hash m keys n c t
      → AreTrials hash m keys (suc n) cs ts
      → AreTrials hash m keys n (c ∷ cs) (t ∷ ts)

number-AreTrials :
    (hash : Fields → String) (m : Fields) (keys : List String) (n : ℕ) (cs : List (List Json))
    → AreTrials hash m keys n cs (number hash m keys n cs)
unfolding number
number-AreTrials hash m keys n [] = no_trials
number-AreTrials hash m keys n (c ∷ cs) =
    next_trial c cs _ _ (trial-IsTrial hash m keys n c) (number-AreTrials hash m keys (suc n) cs)

length-number :
    (hash : Fields → String) (m : Fields) (keys : List String) (n : ℕ) (cs : List (List Json))
    → length (number hash m keys n cs) ≡ length cs
unfolding number
length-number hash m keys n [] = refl
length-number hash m keys n (c ∷ cs) = ap suc (length-number hash m keys (suc n) cs)

-- The sorted names of a manifest's parameters, and the lists of their values.
abbrev pub parameters : Fields → List String
parameters m = sorted (keys_of (space_of (get "search_space" m)))

abbrev pub values_of : Fields → List (List Json)
values_of m =
    map (λ key. values (items_of (get key (space_of (get "search_space" m))))) (parameters m)

choices-map :
    (space : Fields) (keys : List String)
    → choices space keys ≡ map (λ key. values (items_of (get key space))) keys
unfolding choices
choices-map space [] = refl
choices-map space (k ∷ ks) =
    ap (λ vss. values (items_of (get k space)) ∷ vss) (choices-map space ks)

-- The trials of a manifest: one for each choice, in an order of all choices, numbered from 0.
pub record IsGrid (hash : Fields → String) (m : Fields) (trials : List Json) : Type 0 where
  pub counted : length trials ≡ size (values_of m)
  pub every : (c : List Json) → Has c (product (values_of m)) ↔ Picks c (values_of m)
  pub trials_are : AreTrials hash m (parameters m) 0 (product (values_of m)) trials

-- What `expand` returns has as many trials as there are choices of one value for each parameter, and
-- its trials are those of the list `product` of these choices, in its order, which lists exactly the
-- choices of one value for each parameter: a trial has its position as its number, the manifest's seed, kernel and gate version, the configuration that gives each
-- parameter its value in the choice and has no other key, and the hash of that configuration.
pub expand-IsGrid :
    (hash : Fields → String) (m : Fields) {trials : List Json}
    → expand hash m ≡ ok trials
    → IsGrid hash m trials
unfolding expand
expand-IsGrid hash m h =
    let (_, _, is) = >>=-eq-ok (require_valid m) _ h in
    let space = space_of (get "search_space" m) in
    let keys = sorted (keys_of space) in
    let all_values = choices-map space keys in
    subst (IsGrid hash m) (ok_injective is) (record {
      counted =
          length-number hash m keys 0 (product (choices space keys))
          ∙ length-product (choices space keys)
          ∙ ap size all_values;
      every = λ c. (product-Picks c (values_of m), Picks-product c (values_of m));
      trials_are =
          subst
            (λ vss.
              AreTrials hash m keys 0 (product vss)
                (number hash m keys 0 (product (choices space keys))))
            all_values (number-AreTrials hash m keys 0 (product (choices space keys)));
    })
