-- ===== src/Campaign/Promotion.antt =====
-- A campaign is promoted only after it was verified, and a finished campaign stays as it is.
use infra_loop_kda.Base.{
  String, Bool, ◌≡◌, true, false, List, [], ◌∷◌, ◌++◌, Option, contains, arith, ap, subst, refl,
  sym, ◌∙◌, eq_iff, ◌==◌, ◌||◌, ◌≢◌, ◌⊎◌, inl, inr,
}
use infra_loop_kda.Base.Outcome.{ok}
use infra_loop_kda.Json.{Json, text, Fields, get, values}
use infra_loop_kda.Json.Repr.{str}
use infra_loop_kda.Campaign.{transition, transitions, history_event, items_of}
use infra_loop_kda.Campaign.Candidate.{add_candidate, is_open}
use infra_loop_kda.Campaign.Trail.{Reachable, Reachable-HasTrail, Trail, started, continued}
use infra_loop_kda.Campaign.Keeps.{transition-Moved}
use infra_loop_kda.Campaign.Attach.{add_candidate-Attached}

into_promoted : (from : String) → contains "promoted" (transitions from) ≡ true → from ≡ "verified"
unfolding transitions
into_promoted from h = ground (arith, eq_iff from "verified")

into_verified :
    (from : String) → contains "verified" (transitions from) ≡ true → from ≡ "candidate_ready"
unfolding transitions
into_verified from h = ground (arith, eq_iff from "candidate_ready")

abbrev EndsWith : List Json → String → String → Type 0
EndsWith h from to =
    (earlier : List Json) × (now : String) × (actor : String) × (reason : Option String) × (h
      ≡ earlier ++ history_event (text from) to now actor reason ∷ [])
    × Trail earlier from

-- The last entry of a trail that cannot have just begun.
last_move :
    (from : String) {h : List Json} {to : String}
    → Trail h to
    → (to == "prepared") ≡ false
    → ((f : String) → contains to (transitions f) ≡ true → f ≡ from)
    → EndsWith h from to
last_move from (started h s now e p) n into = absurd (ground (arith, eq_iff s "prepared"))
last_move from (continued h earlier s f now actor reason t allowed e) n into =
    let same = into f allowed in
    (earlier, now, actor, reason, rw (← same) e, subst (Trail earlier) same t)

text_injective : {s t : String} → text s ≡ text t → s ≡ t
text_injective h = cc

-- In a campaign that the operations built and whose status is "promoted", the last two history
-- entries are the move from "candidate_ready" to "verified" and the move from "verified" to
-- "promoted".
pub promoted-verified :
    {m : Fields}
    → Reachable m
    → get "status" m ≡ text "promoted"
    → (earlier : List Json) × (now : String) × (actor : String) × (reason : Option String)
      × (now' : String) × (actor' : String) × (reason' : Option String) × (values
            (items_of (get "history" m))
          ≡ (earlier ++ history_event (text "candidate_ready") "verified" now actor reason ∷ [])
            ++ history_event (text "verified") "promoted" now' actor' reason' ∷ [])
promoted-verified r is =
    let t = Reachable-HasTrail r in
    let p = subst (Trail _) (text_injective (sym t.status_is ∙ is)) t.trail in
    let (_, now', actor', reason', whole, before) = last_move "verified" p refl into_promoted in
    let (earlier, now, actor, reason, part, _) =
      last_move "candidate_ready" before refl into_verified in
    (earlier, now, actor, reason, now', actor', reason', rw part at whole)

abbrev is_final : String → Bool
is_final s = s == "promoted" || s == "rejected"

is_final-cases : (s : String) → is_final s ≡ true → (s ≡ "promoted") ⊎ (s ≡ "rejected")
is_final-cases s f = ground (arith, eq_iff s "promoted", eq_iff s "rejected")

no_move : (s t : String) → is_final s ≡ true → contains t (transitions s) ≡ true → ⊥
unfolding transitions
no_move s t f h = elim (is_final-cases s f) [
  | inl e ↦ cc (let g : contains t (transitions "promoted") ≡ true = rw e at h in g)
  | inr e ↦ cc (let g : contains t (transitions "rejected") ≡ true = rw e at h in g)
]

not_open : (s : String) → is_final s ≡ true → is_open (text s) ≡ true → ⊥
not_open s f h = elim (is_final-cases s f) [
  | inl e ↦ cc (let g : is_open (text "promoted") ≡ true = rw e at h in g)
  | inr e ↦ cc (let g : is_open (text "rejected") ≡ true = rw e at h in g)
]

module _ (m : Fields) (s : String) (is : get "status" m ≡ text s) (f : is_final s ≡ true) where
  final_transition :
      (now target actor : String) (reason : Option String) (m' : Fields)
      → transition now m target actor reason ≢ ok m'
  unfolding str
  final_transition now target actor reason m' h =
      let v = transition-Moved now m target actor reason h in
      let current : str (get "status" m) ≡ s = ap str is in
      no_move s target f (rw current at v.allowed)

  final_candidate : (c m' : Fields) → (add_candidate m c).1 ≢ ok m'
  final_candidate c m' h =
      let (id, checked, at) = add_candidate-Attached m c h in not_open s f (rw is at checked.opened)

  -- No transition of a campaign whose status is "promoted" or "rejected" succeeds, and no
  -- candidate is added to it.
  pub final_campaign :
      (now target actor : String) (reason : Option String) (c m' : Fields)
      → (transition now m target actor reason ≢ ok m') × ((add_candidate m c).1 ≢ ok m')
  final_campaign now target actor reason c m' =
      (final_transition now target actor reason m', final_candidate c m')
