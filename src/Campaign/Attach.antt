-- ===== src/Campaign/Attach.antt =====
-- What a successful `add_candidate` has checked, and the record that it returns.
use infra_loop_kda.Base.{
  ℕ, suc, ◌≤◌, ◌<◌, pos, String, ◌≡◌, refl, true, false, List, [], ◌∷◌, arith, ◌∙◌, ap, ◌==◌,
  nat_beq_self, sym, Bool-cases, inl, inr, All, any, ◌||◌,
}
use infra_loop_kda.Base.Outcome.{Outcome, ok, err, >>=-eq-ok, ok_injective, require-eq-ok}
use infra_loop_kda.Json.{
  Json, array, object, int, Fields, get, put, append, count, equals_text, truthy,
}
use infra_loop_kda.Json.Laws.{get-put, count-append}
use infra_loop_kda.Json.Number.{to_int, to_int_or_zero}
use infra_loop_kda.Campaign.{require_valid, items_of, identity_keys}
use infra_loop_kda.Campaign.Candidate.{
  has_candidate, attach, check_candidate, add_candidate, finish, with_repro_count, budget_left,
  require_fields, lanes, is_open, field_text,
}
use infra_loop_kda.Campaign.Valid.{IsValid, IsValid-validate}
use infra_loop_kda.Campaign.Keeps.{
  SameIdentity, frozen_keys, is_missing-All, not-eq_true, require_valid-IsValid,
}

-- What a successful `attach` has checked, and the record that it returns.
pub record Attached (id : String) (m c m' : Fields) : Type 0 where
  pub fresh : has_candidate id (items_of (get "candidates" m)) ≡ ok false
  pub after :
      put "candidate_count"
        (int (pos (suc (count (items_of (get "candidates" m))))))
        (put "candidates" (array (append (items_of (get "candidates" m)) (object c))) m)
      ≡ m'

pub attach-Attached :
    (id : String) (m c : Fields) {m' : Fields} → attach id m c ≡ ok m' → Attached id m c m'
unfolding attach
attach-Attached id m c {m'} h =
    let (taken, is, h) = >>=-eq-ok (has_candidate id (items_of (get "candidates" m))) _ h in
    let (b, free, h) = >>=-eq-ok _ _ h in
    record {
      fresh = is ∙ ap ok (not-eq_true taken (require-eq-ok _ _ free));
      after = rw (← count-append (items_of (get "candidates" m)) (object c)) (ok_injective h);
    }

module _ (id : String) (m c : Fields) {m' : Fields} (at : Attached id m c m') where
  pub get-attach :
      (key : String)
      → ("candidates" == key) ≡ false
      → ("candidate_count" == key) ≡ false
      → get key m' ≡ get key m
  get-attach key h k = rw (← at.after, get-put, k, get-put, h) refl

  attach_kept :
      (keys : List String)
      → any (λ key. "candidates" == key || "candidate_count" == key) keys ≡ false
      → All (λ key. get key m' ≡ get key m) keys
  attach_kept [] h = tt
  attach_kept (key ∷ keys) h =
      (get-attach key (ground arith) (ground arith), attach_kept keys (ground arith))

  pub attach-SameIdentity : SameIdentity m m'
  attach-SameIdentity = attach_kept frozen_keys refl

  pub get-attach_candidates :
      get "candidates" m' ≡ array (append (items_of (get "candidates" m)) (object c))
  get-attach_candidates = rw (← at.after, get-put, get-put) refl

  pub attach-IsValid :
      (v : IsValid m) → count (items_of (get "candidates" m)) < v.limit → IsValid m'
  attach-IsValid v room = record {
    schema = rw (get-attach "schema_version" refl refl) v.schema;
    status_known = rw (get-attach "status" refl refl) v.status_known;
    identified = is_missing-All identity_keys m m' attach-SameIdentity.1.1 v.identified;
    candidates = append (items_of (get "candidates" m)) (object c);
    candidates_list = get-attach_candidates;
    counted =
        rw (← at.after, get-put, count-append)
          (nat_beq_self (suc (count (items_of (get "candidates" m)))));
    limit = v.limit;
    limit_is = rw (get-attach "max_candidates" refl refl) v.limit_is;
    positive = v.positive;
    within = omega (arith, room, count-append (items_of (get "candidates" m)) (object c));
    has_history = rw (get-attach "history" refl refl) v.has_history;
  }

pub to_int-of_limit :
    (v : Json) (k : ℕ) → to_int_or_zero v ≡ ok (pos k) → 1 ≤ k → to_int v ≡ ok (pos k)
unfolding to_int_or_zero
to_int-of_limit v k h p = elim (Bool-cases (truthy v)) [
  | inl yes_it_is ↦ rw yes_it_is at h
  | inr falsy ↦ ground arith
]

budget_of_room : (n k : ℕ) → n < k → budget_left n (pos k) ≡ true
unfolding budget_left
budget_of_room n k h = ground arith

-- What `check_candidate` has checked where it returns.
pub record Checked (m c : Fields) (id : String) : Type 0 where
  pub valid : IsValid m
  pub opened : is_open (get "status" m) ≡ true
  pub room : count (items_of (get "candidates" m)) < valid.limit
  pub named : (id == "") ≡ false
  pub described : require_fields lanes c ≡ ok tt
  pub gate : equals_text (get "gate_version" m) (field_text "gate_version" c) ≡ true
  pub trimmed : field_text "candidate_id" c ≡ id

room_of_budget : (n k : ℕ) → budget_left n (pos k) ≡ true → n < k
unfolding budget_left
room_of_budget n k h = ground arith

pub check_candidate-Checked :
    (m c : Fields) {id : String} → check_candidate m c ≡ ok id → Checked m c id
unfolding check_candidate
check_candidate-Checked m c {id} h =
    let (a, valid, h) = >>=-eq-ok (require_valid m) _ h in
    let (b, opened, h) = >>=-eq-ok _ _ h in
    let (limit, limit_is, h) = >>=-eq-ok (to_int (get "max_candidates" m)) _ h in
    let (d, room, h) = >>=-eq-ok _ _ h in
    let (e, named, h) = >>=-eq-ok _ _ h in
    let (f, described, h) = >>=-eq-ok (require_fields lanes c) _ h in
    let (g, gate, h) = >>=-eq-ok _ _ h in
    let v = require_valid-IsValid m valid in
    let trimmed : field_text "candidate_id" c ≡ id = ok_injective h in
    let nonempty : (field_text "candidate_id" c == "") ≡ false =
      not-eq_true _ (require-eq-ok _ _ named) in
    let budget : budget_left (count (items_of (get "candidates" m))) limit ≡ true =
      require-eq-ok _ _ room in
    let same : limit ≡ pos v.limit =
      ok_injective
        (sym limit_is ∙ to_int-of_limit (get "max_candidates" m) v.limit v.limit_is v.positive) in
    record {
      valid = v;
      opened = require-eq-ok _ _ opened;
      room = room_of_budget _ v.limit (rw same at budget);
      named = rw trimmed at nonempty;
      described = described;
      gate = require-eq-ok _ _ gate;
      trimmed = trimmed;
    }

-- A successful call has checked the candidate, and attaches it with its default set.
pub add_candidate-Attached :
    (m c : Fields) {m' : Fields}
    → (add_candidate m c).1 ≡ ok m'
    → (id : String) × Checked m c id × Attached id m (with_repro_count c) m'
unfolding add_candidate
add_candidate-Attached m c h = go (check_candidate m c) refl h
  where
    go :
        (r : Outcome String) {m' : Fields}
        → check_candidate m c ≡ r
        → (finish m c r).1 ≡ ok m'
        → (id : String) × Checked m c id × Attached id m (with_repro_count c) m'
    go (ok id) e h = (id, check_candidate-Checked m c e, attach-Attached id m _ h)
    go (err x) e h = cc

-- The checks pass where all that they ask for holds.
pub Checked-check_candidate :
    (m c : Fields) {id : String} → Checked m c id → check_candidate m c ≡ ok id
unfolding check_candidate require_valid
Checked-check_candidate m c k =
    rw
      (
        IsValid-validate m k.valid,
        k.opened,
        to_int-of_limit (get "max_candidates" m) k.valid.limit k.valid.limit_is k.valid.positive,
        budget_of_room _ _ k.room,
        k.trimmed,
        k.named,
        k.described,
        k.gate,
      )
      refl
