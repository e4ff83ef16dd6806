-- ===== src/Campaign/Padded.antt =====
-- `add_candidate` compares trimmed identifiers with the stored ones, which are not trimmed.
use infra_loop_kda.Base.{
  ℕ, suc, ◌+◌, ◌<◌, pos, String, ◌≡◌, false, arith, refl, ◌∙◌, sym, ◌==◌, eq_iff, Bool-cases, inl,
  inr,
}
use infra_loop_kda.Base.Text.{strip}
use infra_loop_kda.Base.Outcome.{ok, ok_injective}
use infra_loop_kda.Json.{
  text, object, int, Items, nil, cons, Fields, get, count, append, put, array, equals_text,
}
use infra_loop_kda.Json.Laws.{get-set_default, get-put, count-append}
use infra_loop_kda.Json.Repr.{str, str_or}
use infra_loop_kda.Json.Number.{to_int_or_zero}
use infra_loop_kda.Campaign.{items_of}
use infra_loop_kda.Campaign.Candidate.{
  add_candidate, attach, finish, has_candidate, field_text, with_repro_count,
}
use infra_loop_kda.Campaign.Attach.{
  add_candidate-Attached, Checked, attach-IsValid, get-attach, get-attach_candidates,
  Checked-check_candidate,
}

has_candidate-append :
    (id : String) (vs : Items) (c : Fields)
    → has_candidate id vs ≡ ok false
    → equals_text (get "candidate_id" c) id ≡ false
    → has_candidate id (append vs (object c)) ≡ ok false
unfolding has_candidate append
has_candidate-append id nil c h n = rw n refl
has_candidate-append id (cons (object d) vs) c h n =
    elim (Bool-cases (equals_text (get "candidate_id" d) id)) [
      | inl taken ↦ ground arith
      | inr free ↦ rw (free) (has_candidate-append id vs c (rw free at h) n)
    ]
has_candidate-append id (cons _ vs) c h n = cc

field_text-of_text :
    (c : Fields) (s : String)
    → get "candidate_id" c ≡ text s
    → field_text "candidate_id" c ≡ strip s
unfolding field_text str_or str
field_text-of_text c s e = elim (Bool-cases (s == "")) [
  | inl empty ↦ rw (e, (eq_iff s "").0 empty) refl
  | inr full ↦ rw (e, full) refl
]

attach_fresh :
    (id : String) (m c : Fields)
    → has_candidate id (items_of (get "candidates" m)) ≡ ok false
    → (m' : Fields) × (attach id m c ≡ ok m')
      × (count (items_of (get "candidates" m')) ≡ suc (count (items_of (get "candidates" m))))
unfolding attach
attach_fresh id m c free =
    let vs = items_of (get "candidates" m) in
    (
      put "candidate_count" (int (pos (count (append vs (object c)))))
          (put "candidates" (array (append vs (object c))) m),
      rw free refl,
      rw (get-put, get-put) (count-append vs (object c)),
    )

pos_injective : {a b : ℕ} → pos a ≡ pos b → a ≡ b
pos_injective h = cc

ne_symm : (s t : String) → (s == t) ≡ false → (t == s) ≡ false
ne_symm s t h = ground (arith, eq_iff s t, eq_iff t s)

get-with_repro_count : (c : Fields) → get "candidate_id" (with_repro_count c) ≡ get "candidate_id" c
unfolding with_repro_count
get-with_repro_count c = get-set_default "repro_count" "candidate_id" (int (pos 0)) c refl

-- A candidate whose identifier has white space around it is added a second time, unchanged, as
-- long as the budget lasts: the test for duplicates misses it.
pub padded_twice :
    (m c : Fields) (s : String) (limit : ℕ) {m' : Fields}
    → get "candidate_id" c ≡ text s
    → (strip s == s) ≡ false
    → (add_candidate m c).1 ≡ ok m'
    → to_int_or_zero (get "max_candidates" m') ≡ ok (pos limit)
    → count (items_of (get "candidates" m')) < limit
    → (m'' : Fields) × ((add_candidate m' c).1 ≡ ok m'')
      × (count (items_of (get "candidates" m'')) ≡ count (items_of (get "candidates" m)) + 2)
unfolding add_candidate finish
padded_twice m c s limit {m'} is padded h limit_is room =
    let (id, k, at) = add_candidate-Attached m c h in
    let v = attach-IsValid id m _ at k.valid k.room in
    let same : pos v.limit ≡ pos limit = ok_injective (sym v.limit_is ∙ limit_is) in
    let again : Checked m' c id = record {
      valid = v;
      opened = rw (get-attach id m _ at "status" refl refl) k.opened;
      room = omega (arith, pos_injective same);
      named = k.named;
      described = k.described;
      gate = rw (get-attach id m _ at "gate_version" refl refl) k.gate;
      trimmed = k.trimmed;
    } in
    let trimmed : strip s ≡ id = sym (field_text-of_text c s is) ∙ k.trimmed in
    let other : equals_text (get "candidate_id" (with_repro_count c)) id ≡ false =
      rw (get-with_repro_count c, is, ← trimmed) (ne_symm (strip s) s padded) in
    let fresh : has_candidate id (items_of (get "candidates" m')) ≡ ok false =
      rw (get-attach_candidates id m _ at) (has_candidate-append id _ _ at.fresh other) in
    let (m'', done, more) = attach_fresh id m' (with_repro_count c) fresh in
    let first : count (items_of (get "candidates" m'))
        ≡ suc (count (items_of (get "candidates" m))) =
      rw (get-attach_candidates id m _ at) (count-append _ _) in
    (m'', rw (Checked-check_candidate m' c again) done, omega arith)
