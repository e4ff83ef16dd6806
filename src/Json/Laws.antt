-- ===== src/Json/Laws.antt =====
-- The laws of `get`, `put` and `append` on documents.
use infra_loop_kda.Base.{
  Bool, suc, ◌≡◌, refl, ap, String, some, arith, ◌==◌, eq_iff, if◌then◌else◌, [], ◌∷◌, ◌++◌,
}
use infra_loop_kda.Json.{
  Json, Items, nil, cons, Fields, end, field, lookup, get, put, append, values, count, set_default,
}

pub lookup-put :
    (k j : String) (v : Json) (m : Fields)
    → lookup j (put k v m) ≡ (if k == j then some v else lookup j m)
unfolding lookup put
lookup-put k j v end = refl
lookup-put k j v (field i w m) =
    ground (arith, eq_iff k j, eq_iff i k, eq_iff i j, lookup-put k j v m)

pub get-put :
    (k j : String) (v : Json) (m : Fields) → get j (put k v m) ≡ (if k == j then v else get j m)
unfolding get
get-put k j v m = ground (arith, lookup-put k j v m)

pub get-set_default :
    (k j : String) (v : Json) (m : Fields)
    → (k == j) ≡ Bool.false
    → get j (set_default k v m) ≡ get j m
unfolding get set_default
get-set_default k j v m h = ground (arith, lookup-put k j v m)

pub count-append : (vs : Items) (v : Json) → count (append vs v) ≡ suc (count vs)
unfolding append
count-append nil v = refl
count-append (cons w vs) v = ap suc (count-append vs v)

pub values-append : (vs : Items) (v : Json) → values (append vs v) ≡ values vs ++ v ∷ []
unfolding append
values-append nil v = refl
values-append (cons w vs) v = ap (λ l. w ∷ l) (values-append vs v)
