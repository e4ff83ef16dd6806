-- ===== src/Runner/Evidence/Asked.antt =====
-- The names that a walk has put among the required files stay there.
use infra_loop_kda.Base.{
  ◌≡◌, refl, subst, inl, inr, String, Bool, true, false, ◌&&◌, Option, none, some, List, [], ◌∷◌,
  ◌==◌, Bool-cases, eq_iff, eq_refl, contains, if◌then◌else◌,
}
use infra_loop_kda.Json.{
  Json, null, bool, int, text, array, object, Items, nil, cons, Fields, end, field, lookup, put,
  set_default, keys_of,
}
use infra_loop_kda.Runner.Evidence.{
  Walk, Schema, add_hashes, add_manifest, collect_text, collect_sidecars, collect_items,
  collect_fields, recorded_hash, is_object, is_sidecar,
}
use infra_loop_kda.Runner.Evidence.Summary.{
  loaded, invalid, File, no_file, regular, Info, add_required, read_summary, inspect_gate,
}
use infra_loop_kda.Runner.Evidence.Inspected.{walk_of}

-- A name is asked for.
abbrev pub Asked : String → Fields → Type 0
Asked k m = contains k (keys_of m) ≡ true

put-Asked_new : (k : String) (v : Json) (m : Fields) → Asked k (put k v m)
unfolding put
put-Asked_new k v end = rw (eq_refl k) refl
put-Asked_new k v (field j w m) = elim (Bool-cases (j == k)) [
  | inl e ↦ rw e (rw e refl)
  | inr n ↦ rw n (rw n (put-Asked_new k v m))
]

put-Asked : (k j : String) (v : Json) (m : Fields) → Asked k m → Asked k (put j v m)
unfolding put
put-Asked k j v end h = cc
put-Asked k j v (field i w m) h = elim (Bool-cases (i == j)) [
  | inl e ↦ rw e h
  | inr n ↦ rw n (elim (Bool-cases (i == k)) [
    | inl e ↦ rw e refl
    | inr d ↦ rw d (put-Asked k j v m (rw d at h))
  ])
]

lookup-Asked : (k : String) (m : Fields) {v : Json} → lookup k m ≡ some v → Asked k m
unfolding lookup
lookup-Asked k end h = cc
lookup-Asked k (field j w m) h = elim (Bool-cases (j == k)) [
  | inl e ↦ rw e refl
  | inr n ↦ rw n (lookup-Asked k m (rw n at h))
]

set_default-Asked_new : (k : String) (v : Json) (m : Fields) → Asked k (set_default k v m)
unfolding set_default
set_default-Asked_new k v m = go (lookup k m) refl
  where
    go : (o : Option Json) → lookup k m ≡ o → Asked k (elim o [ none ↦ put k v m | some w ↦ m ])
    go none e = put-Asked_new k v m
    go (some w) e = lookup-Asked k m e

set_default-Asked : (k j : String) (v : Json) (m : Fields) → Asked k m → Asked k (set_default j v m)
unfolding set_default
set_default-Asked k j v m h = go (lookup j m)
  where
    go : (o : Option Json) → Asked k (elim o [ none ↦ put j v m | some w ↦ m ])
    go none = put-Asked k j v m h
    go (some w) = h

add_hashes-Asked :
    (k : String) (m required : Fields) → Asked k required → Asked k (add_hashes m required)
unfolding add_hashes
add_hashes-Asked k end required h = h
add_hashes-Asked k (field name digest m) required h =
    add_hashes-Asked k m _ (put-Asked k name (recorded_hash digest) required h)

add_manifest-Asked :
    (k : String) (v : Json) (walk : Walk)
    → Asked k walk.required
    → Asked k (add_manifest v walk).required
unfolding add_manifest
add_manifest-Asked k (object m) walk h = add_hashes-Asked k m walk.required h
add_manifest-Asked k _ walk h = h

collect_text-Asked :
    (k s key : String) (walk : Walk)
    → Asked k walk.required
    → Asked k (collect_text s key walk).required
unfolding collect_text
collect_text-Asked k s key walk h = elim (Bool-cases (s == "")) [
  | inl e ↦ rw e h
  | inr n ↦ rw n (elim (Bool-cases (infra_loop_kda.Paths.is_absolute s)) [
    | inl a ↦ rw a h
    | inr r ↦ rw r (elim (Bool-cases (is_sidecar s)) [
      | inl c ↦ rw c (set_default-Asked k s null walk.required h)
      | inr d ↦ rw d h
    ])
  ])
]

choose-Asked :
    (k : String) (b : Bool) (left right : Walk)
    → Asked k left.required
    → Asked k right.required
    → Asked k (if b then left else right).required
choose-Asked k true left right h l = h
choose-Asked k false left right h l = l

mutual
  unfolding collect_sidecars

  collect_sidecars-Asked :
      (k : String) (v : Json) (key : String) (walk : Walk)
      → Asked k walk.required
      → Asked k (collect_sidecars v key walk).required
  collect_sidecars-Asked k (object m) key walk h = collect_fields-Asked k m walk h
  collect_sidecars-Asked k (array vs) key walk h = collect_items-Asked k vs key walk h
  collect_sidecars-Asked k (text s) key walk h = collect_text-Asked k s key walk h
  collect_sidecars-Asked k null key walk h = h
  collect_sidecars-Asked k (bool b) key walk h = h
  collect_sidecars-Asked k (int z) key walk h = h

  collect_items-Asked :
      (k : String) (vs : Items) (key : String) (walk : Walk)
      → Asked k walk.required
      → Asked k (collect_items vs key walk).required
  collect_items-Asked k nil key walk h = h
  collect_items-Asked k (cons v vs) key walk h =
      collect_items-Asked k vs key (collect_sidecars v key walk)
        (collect_sidecars-Asked k v key walk h)

  collect_fields-Asked :
      (k : String) (m : Fields) (walk : Walk)
      → Asked k walk.required
      → Asked k (collect_fields m walk).required
  collect_fields-Asked k end walk h = h
  collect_fields-Asked k (field name v m) walk h = collect_fields-Asked k m _ (
      choose-Asked k (name == "reports_sha256" && is_object v) (add_manifest v walk)
        (collect_sidecars v name walk) (add_manifest-Asked k v walk h)
        (collect_sidecars-Asked k v name walk h))

add_required-Asked :
    (k : String) (names : List String) (required : Fields)
    → Asked k required
    → Asked k (add_required names required)
unfolding add_required
add_required-Asked k [] required h = h
add_required-Asked k (name ∷ names) required h =
    add_required-Asked k names _ (set_default-Asked k name null required h)

add_required-Asked_each :
    (k : String) (names : List String) (required : Fields)
    → contains k names ≡ true
    → Asked k (add_required names required)
unfolding add_required
add_required-Asked_each k [] required h = cc
add_required-Asked_each k (name ∷ names) required h = elim (Bool-cases (name == k)) [
  | inl e ↦ add_required-Asked k names _ (
      subst (λ n. Asked n (set_default name null required)) ((eq_iff name k).0 e)
        (set_default-Asked_new name null required))
  | inr n ↦ add_required-Asked_each k names _ (rw n at h)
]

inspect_gate-Asked :
    (k : String) (f : File) (info : Info) (walk : Walk)
    → Asked k walk.required
    → Asked k (inspect_gate f (info, walk)).1.required
unfolding inspect_gate
inspect_gate-Asked k no_file info walk h = h
inspect_gate-Asked k (regular size sha (invalid message)) info walk h = h
inspect_gate-Asked k (regular size sha (loaded gate)) info walk h =
    collect_fields-Asked k gate walk h

pub walk_of-Asked :
    (file : String → File) (summary : Fields) (schema : Schema) (names : List String) (k : String)
    → contains k names ≡ true
    → Asked k (walk_of file summary schema names).required
unfolding read_summary
walk_of-Asked file summary schema names k h =
    inspect_gate-Asked k (file "correctness.json") _ _ (add_required-Asked_each k names _ h)
