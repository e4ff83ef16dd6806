-- ===== src/Campaign/Valid.antt =====
-- What `validate` accepts, field by field.
use infra_loop_kda.Base.{
  ℕ, ◌≤◌, ℤ, pos, String, ◌≡◌, refl, true, false, List, [], ◌∷◌, arith, All, Bool, not, ◌∙◌, ap,
  ◌<>◌, append-eq_nil,
}
use infra_loop_kda.Base.Outcome.{ok, >>=-eq-ok, ok_injective}
use infra_loop_kda.Json.{Json, array, Items, Fields, get, count, equals_nat}
use infra_loop_kda.Json.Number.{to_int_or_zero}
use infra_loop_kda.Campaign.{
  identity_keys, note, is_known, is_missing, missing_keys, exceeds, list_errors, candidate_errors,
  is_nonempty_list, validate,
}

-- The invariant of a campaign record.
pub record IsValid (m : Fields) : Type 0 where
  pub schema : equals_nat (get "schema_version" m) 1 ≡ true
  pub status_known : is_known (get "status" m) ≡ true
  pub identified : All (λ key. is_missing key m ≡ false) identity_keys
  pub candidates : Items
  pub candidates_list : get "candidates" m ≡ array candidates
  pub counted : equals_nat (get "candidate_count" m) (count candidates) ≡ true
  pub limit : ℕ
  pub limit_is : to_int_or_zero (get "max_candidates" m) ≡ ok (pos limit)
  pub positive : 1 ≤ limit
  pub within : count candidates ≤ limit
  pub has_history : is_nonempty_list (get "history" m) ≡ true

note-eq_nil : (bad : Bool) (message : String) → note bad message ≡ [] → bad ≡ false
unfolding note
note-eq_nil bad message h = ground arith

not-eq_false : (b : Bool) → not b ≡ false → b ≡ true
not-eq_false b h = ground arith

missing_keys-All :
    (keys : List String) (m : Fields)
    → missing_keys keys m ≡ []
    → All (λ key. is_missing key m ≡ false) keys
unfolding missing_keys
missing_keys-All [] m h = tt
missing_keys-All (key ∷ keys) m h =
    let (first, rest) =
      append-eq_nil (note (is_missing key m) ("missing " <> key)) (missing_keys keys m) h in
    (note-eq_nil (is_missing key m) ("missing " <> key) first, missing_keys-All keys m rest)

All-missing_keys :
    (keys : List String) (m : Fields)
    → All (λ key. is_missing key m ≡ false) keys
    → missing_keys keys m ≡ []
unfolding missing_keys
All-missing_keys [] m h = refl
All-missing_keys (key ∷ keys) m h = rw (h.0, All-missing_keys keys m h.1) refl

exceeds-eq_false : (n : ℕ) (z : ℤ) → exceeds n z ≡ false → (k : ℕ) × (z ≡ pos k) × (1 ≤ k) × (n ≤ k)
unfolding exceeds
exceeds-eq_false n (pos k) h = (k, refl, ground arith, ground arith)
exceeds-eq_false n (ℤ.negsuc k) h = cc

-- The part of the invariant that `list_errors` checks.
abbrev Counted : Fields → ℕ → Type 0
Counted m n =
    (equals_nat (get "candidate_count" m) n ≡ true)
    × (limit : ℕ) × (to_int_or_zero (get "max_candidates" m) ≡ ok (pos limit))
    × (1 ≤ limit)
    × (n ≤ limit)

list_errors-Counted : (m : Fields) (n : ℕ) → list_errors m n ≡ ok [] → Counted m n
unfolding list_errors
list_errors-Counted m n h =
    let (z, is, rest) = >>=-eq-ok (to_int_or_zero (get "max_candidates" m)) _ h in
    let (a, b) = append-eq_nil _ _ (ok_injective rest) in
    let (k, e, positive, within) = exceeds-eq_false n z (note-eq_nil _ _ b) in
    (not-eq_false _ (note-eq_nil _ _ a), k, is ∙ ap ok e, positive, within)

candidate_errors-array :
    (m : Fields) (v : Json)
    → candidate_errors m v ≡ ok []
    → (vs : Items) × (v ≡ array vs) × (list_errors m (count vs) ≡ ok [])
unfolding candidate_errors
candidate_errors-array m (array vs) h = (vs, refl, h)
candidate_errors-array m _ h = cc

-- A record on which `validate` reports nothing satisfies the invariant.
pub validate-IsValid : (m : Fields) → validate m ≡ ok [] → IsValid m
unfolding validate
validate-IsValid m h =
    let (es, is, rest) = >>=-eq-ok (candidate_errors m (get "candidates" m)) _ h in
    let (schema, more) = append-eq_nil _ _ (ok_injective rest) in
    let (status, more) = append-eq_nil _ _ more in
    let (keys, more) = append-eq_nil _ _ more in
    let (none_here, history) = append-eq_nil _ _ more in
    let (vs, array_of, listed) = candidate_errors-array m _ (is ∙ ap ok none_here) in
    let (counted, limit, limit_is, positive, within) = list_errors-Counted m _ listed in
    record {
      schema = not-eq_false _ (note-eq_nil _ _ schema);
      status_known = not-eq_false _ (note-eq_nil _ _ status);
      identified = missing_keys-All identity_keys m keys;
      candidates = vs;
      candidates_list = array_of;
      counted = counted;
      limit = limit;
      limit_is = limit_is;
      positive = positive;
      within = within;
      has_history = not-eq_false _ (note-eq_nil _ _ history);
    }

exceeds-within : (n k : ℕ) → 1 ≤ k → n ≤ k → exceeds n (pos k) ≡ false
unfolding exceeds
exceeds-within n k h g = ground arith

-- The invariant is all that `validate` asks for.
pub IsValid-validate : (m : Fields) → IsValid m → validate m ≡ ok []
unfolding validate candidate_errors list_errors
IsValid-validate m v =
    rw
      (
        v.candidates_list,
        v.limit_is,
        v.schema,
        v.status_known,
        v.counted,
        v.has_history,
        exceeds-within (count v.candidates) v.limit v.positive v.within,
        All-missing_keys identity_keys m v.identified,
      )
      refl
