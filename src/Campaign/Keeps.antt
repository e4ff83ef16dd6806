-- ===== src/Campaign/Keeps.antt =====
-- Each operation of a campaign returns a record that `validate` accepts.
use infra_loop_kda.Base.{
  String, ◌≡◌, refl, true, false, List, [], ◌∷◌, arith, Bool, not, ◌∙◌, ap, Option, ◌==◌, contains,
  is_empty, All, any, ◌||◌,
}
use infra_loop_kda.Base.Outcome.{ok, >>=-eq-ok, ok_injective, require-eq-ok}
use infra_loop_kda.Json.{Json, text, array, Items, nil, cons, Fields, get, append}
use infra_loop_kda.Json.Laws.{get-put}
use infra_loop_kda.Json.Repr.{str}
use infra_loop_kda.Campaign.{
  known, validate, require_valid, transitions, transition, advance, is_nonempty_list, items_of,
  is_missing, identity_keys, history_event,
}
use infra_loop_kda.Campaign.Valid.{IsValid, validate-IsValid}

pub not-eq_true : (b : Bool) → not b ≡ true → b ≡ false
not-eq_true b h = ground arith

is_empty-eq_true : (es : List String) → is_empty es ≡ true → es ≡ []
is_empty-eq_true [] h = refl
is_empty-eq_true (e ∷ es) h = cc

pub require_valid-IsValid : (m : Fields) {t : Unit {0}} → require_valid m ≡ ok t → IsValid m
unfolding require_valid
require_valid-IsValid m h =
    let (es, is, rest) = >>=-eq-ok (validate m) _ h in
    validate-IsValid m (is ∙ ap ok (is_empty-eq_true es (require-eq-ok _ _ rest)))

-- What a successful transition has checked, and the record that it returns.
pub record Moved (now : String) (m : Fields) (target actor : String) (reason : Option String)
    (m' : Fields) : Type 0 where
  pub before : IsValid m
  pub target_known : contains target known ≡ true
  pub allowed : contains target (transitions (str (get "status" m))) ≡ true
  pub after : advance now m target actor reason ≡ m'

pub transition-Moved :
    (now : String) (m : Fields) (target actor : String) (reason : Option String) {m' : Fields}
    → transition now m target actor reason ≡ ok m'
    → Moved now m target actor reason m'
unfolding transition
transition-Moved now m target actor reason h =
    let (a, valid, h) = >>=-eq-ok (require_valid m) _ h in
    let (b, target_known, h) = >>=-eq-ok _ _ h in
    let (c, allowed, h) = >>=-eq-ok _ _ h in
    record {
      before = require_valid-IsValid m valid;
      target_known = require-eq-ok _ _ target_known;
      allowed = require-eq-ok _ _ allowed;
      after = ok_injective h;
    }

module _ (now : String) (m : Fields) (target actor : String) (reason : Option String) where
  pub get-advance :
      (key : String)
      → ("status" == key) ≡ false
      → ("history" == key) ≡ false
      → get key (advance now m target actor reason) ≡ get key m
  unfolding advance
  get-advance key h k = rw (get-put, k, get-put, h) refl

  pub get-advance_status : get "status" (advance now m target actor reason) ≡ text target
  unfolding advance
  get-advance_status = rw (get-put, get-put) refl

pub is_nonempty_list-append :
    (vs : Items) (v : Json) → is_nonempty_list (array (append vs v)) ≡ true
unfolding append
is_nonempty_list-append nil v = refl
is_nonempty_list-append (cons w vs) v = refl

-- The fields that name the experiment.
abbrev pub frozen_keys : List String
frozen_keys = "schema_version" ∷ "max_candidates" ∷ identity_keys

abbrev pub SameIdentity : Fields → Fields → Type 0
SameIdentity m m' = All (λ key. get key m' ≡ get key m) frozen_keys

pub is_missing-All :
    (keys : List String) (m m' : Fields)
    → All (λ key. get key m' ≡ get key m) keys
    → All (λ key. is_missing key m ≡ false) keys
    → All (λ key. is_missing key m' ≡ false) keys
unfolding is_missing
is_missing-All [] m m' same h = tt
is_missing-All (key ∷ keys) m m' same h = (rw same.0 h.0, is_missing-All keys m m' same.1 h.1)

module _ (now : String) (m : Fields) (target actor : String) (reason : Option String) where
  kept :
      (keys : List String)
      → any (λ key. "status" == key || "history" == key) keys ≡ false
      → All (λ key. get key (advance now m target actor reason) ≡ get key m) keys
  kept [] h = tt
  kept (key ∷ keys) h = (
    get-advance now m target actor reason key (ground arith) (ground arith),
    kept keys (ground arith),
  )

  pub advance-SameIdentity : SameIdentity m (advance now m target actor reason)
  advance-SameIdentity = kept frozen_keys refl

  pub get-advance_history :
      get "history" (advance now m target actor reason)
      ≡ array (
          append
            (items_of (get "history" m))
            (history_event (text (str (get "status" m))) target now actor reason))
  unfolding advance
  get-advance_history = rw (get-put) refl

  -- The copy that a transition makes of a valid record is valid.
  pub advance-IsValid :
      IsValid m → contains target known ≡ true → IsValid (advance now m target actor reason)
  advance-IsValid v h =
      let m' = advance now m target actor reason in
      let keep = get-advance now m target actor reason in
      record {
        schema = rw (keep "schema_version" refl refl) v.schema;
        status_known = rw (get-advance_status now m target actor reason) h;
        identified = is_missing-All identity_keys m m' advance-SameIdentity.1.1 v.identified;
        candidates = v.candidates;
        candidates_list = rw (keep "candidates" refl refl) v.candidates_list;
        counted = rw (keep "candidate_count" refl refl) v.counted;
        limit = v.limit;
        limit_is = rw (keep "max_candidates" refl refl) v.limit_is;
        positive = v.positive;
        within = v.within;
        has_history = rw get-advance_history (is_nonempty_list-append _ _);
      }
