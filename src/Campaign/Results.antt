-- ===== src/Campaign/Results.antt =====
-- What a successful `add_candidate` or `transition` returns, and what `new` and `load` accept.
use infra_loop_kda.Base.{
  ℕ, suc, ◌+◌, ◌≤◌, String, ◌≡◌, true, false, [], ◌∷◌, Option, ℤ, pos, arith, ap, subst, refl,
  is_negative, int_beq, All, ◌↔◌, sym, ◌∙◌, eq_iff, ◌==◌, ◌||◌, Bool-cases, inl, inr,
}
use infra_loop_kda.Base.Text.{is_blank}
use infra_loop_kda.Base.Outcome.{ok, >>=-eq-ok, ok_injective}
use infra_loop_kda.Json.{Json, text, int, nil, Fields, get, lookup, count, equals_text}
use infra_loop_kda.Json.Laws.{count-append}
use infra_loop_kda.Json.Repr.{str, str_or}
use infra_loop_kda.Json.Number.{to_int, to_int_or_zero}
use infra_loop_kda.Campaign.{
  identity_keys, new, initial, validate, transition, items_of, require_valid, is_missing,
}
use infra_loop_kda.Campaign.Candidate.{add_candidate, is_open, field_text, load, save}
use infra_loop_kda.Campaign.Trail.{new-initial}
use infra_loop_kda.Campaign.Valid.{IsValid, IsValid-validate, validate-IsValid}
use infra_loop_kda.Campaign.Keeps.{
  transition-Moved, advance-IsValid, advance-SameIdentity, SameIdentity, get-advance_status,
  require_valid-IsValid,
}
use infra_loop_kda.Campaign.Attach.{
  add_candidate-Attached, attach-IsValid, attach-SameIdentity, get-attach, get-attach_candidates,
  to_int-of_limit,
}

-- A successful transition returns a record that `validate` accepts, with the target as its status
-- and the identity fields of the record before.
pub transition-validate :
    (now : String) (m : Fields) (target actor : String) (reason : Option String) {m' : Fields}
    → transition now m target actor reason ≡ ok m'
    → (validate m' ≡ ok []) × (get "status" m' ≡ text target) × SameIdentity m m'
transition-validate now m target actor reason {m'} h =
    let v = transition-Moved now m target actor reason h in
    let valid : IsValid m' =
      subst IsValid v.after (advance-IsValid now m target actor reason v.before v.target_known) in
    (
      IsValid-validate m' valid,
      ap (get "status") (sym v.after) ∙ get-advance_status now m target actor reason,
      subst (SameIdentity m) v.after (advance-SameIdentity now m target actor reason),
    )

-- A successful `add_candidate` returns a record that `validate` accepts, with the status and the
-- identity fields of the record before and one candidate more, which is at most the limit; the
-- campaign was open, and the candidate's trimmed gate version is the campaign's.
pub add_candidate-validate :
    (m c : Fields) {m' : Fields}
    → (add_candidate m c).1 ≡ ok m'
    → (validate m' ≡ ok [])
      × (get "status" m' ≡ get "status" m)
      × SameIdentity m m'
      × (count (items_of (get "candidates" m')) ≡ count (items_of (get "candidates" m)) + 1)
      × ((limit : ℕ) × (to_int (get "max_candidates" m) ≡ ok (pos limit))
          × (count (items_of (get "candidates" m')) ≤ limit))
      × (is_open (get "status" m) ≡ true)
      × (get "gate_version" m ≡ text (field_text "gate_version" c))
add_candidate-validate m c {m'} h =
    let (id, k, at) = add_candidate-Attached m c h in
    let more : count (items_of (get "candidates" m'))
        ≡ suc (count (items_of (get "candidates" m))) =
      rw (get-attach_candidates id m _ at) (count-append (items_of (get "candidates" m)) _) in
    let room = k.room in
    (
      IsValid-validate m' (attach-IsValid id m _ at k.valid k.room),
      get-attach id m _ at "status" refl refl,
      attach-SameIdentity id m _ at,
      omega arith,
      (
        k.valid.limit,
        to_int-of_limit (get "max_candidates" m) k.valid.limit k.valid.limit_is k.valid.positive,
        omega arith,
      ),
      k.opened,
      text_of_equals (get "gate_version" m) _ k.gate,
    )
  where
    text_of_equals : (v : Json) (s : String) → equals_text v s ≡ true → v ≡ text s
    text_of_equals (text t) s h = ap text ((eq_iff t s).0 h)
    text_of_equals _ s h = cc

-- What `save` hands on is read back by `load` as the same record.
pub load-save : (path : String) (m : Fields) {d : Json} → save m ≡ ok d → load path d ≡ ok m
unfolding save load
load-save path m {d} h =
    let (_, valid, is) = >>=-eq-ok (require_valid m) _ h in
    rw (← ok_injective is, IsValid-validate m (require_valid-IsValid m valid)) refl

limit_of : (n : ℤ) → (is_negative n || int_beq n (pos 0)) ≡ false → (k : ℕ) × (n ≡ pos k) × (1 ≤ k)
limit_of (pos k) h = (k, refl, ground arith)
limit_of (ℤ.negsuc k) h = cc

limit_is : (n : ℤ) (k : ℕ) → n ≡ pos k → 1 ≤ k → to_int_or_zero (int n) ≡ ok (pos k)
unfolding to_int_or_zero to_int
limit_is n k e p = rw e (ground arith)

is_blank-str_or : (s : String) → is_blank (str_or (text s) "") ≡ is_blank s
unfolding str_or str
is_blank-str_or s = elim (Bool-cases (s == "")) [
  | inl e ↦ rw ((eq_iff s "").0 e) refl
  | inr n ↦ rw n refl
]

module _ (now a b c d e : String) (n : ℤ) where
  identity_blank :
      All (λ key. is_missing key (initial now a b c d e n) ≡ false) identity_keys
      ↔ All (λ s. is_blank s ≡ false) (a ∷ b ∷ c ∷ d ∷ e ∷ [])
  unfolding initial is_missing get lookup
  identity_blank = simp is_blank-str_or (λ x. x, λ x. x)

  initial-IsValid :
      (is_negative n || int_beq n (pos 0)) ≡ false
      → All (λ s. is_blank s ≡ false) (a ∷ b ∷ c ∷ d ∷ e ∷ [])
      → IsValid (initial now a b c d e n)
  unfolding initial get lookup
  initial-IsValid p k =
      let (limit, same, positive) = limit_of n p in
      record {
        schema = refl;
        status_known = refl;
        identified = identity_blank.1 k;
        candidates = nil;
        candidates_list = refl;
        counted = refl;
        limit = limit;
        limit_is = limit_is n limit same positive;
        positive = positive;
        within = omega arith;
        has_history = refl;
      }

-- A record that `new` returns is accepted by `validate` exactly when none of its five identity
-- texts is blank. (`new` itself refuses empty ones only.)
pub new-validate :
    (now campaign_id task_id base_commit workload_hash gate_version : String) (n : ℤ) {m : Fields}
    → new now campaign_id task_id base_commit workload_hash gate_version n ≡ ok m
    → (validate m ≡ ok [])
      ↔ All
          (λ s. is_blank s ≡ false)
          (campaign_id ∷ task_id ∷ base_commit ∷ workload_hash ∷ gate_version ∷ [])
new-validate now a b c d e n h =
    let (is, positive) = new-initial now a b c d e n h in
    subst (λ m. (validate m ≡ ok []) ↔ All (λ s. is_blank s ≡ false) (a ∷ b ∷ c ∷ d ∷ e ∷ [])) is
      (
        λ v. (identity_blank now a b c d e n).0 (validate-IsValid _ v).identified,
        λ k. IsValid-validate _ (initial-IsValid now a b c d e n positive k),
      )
