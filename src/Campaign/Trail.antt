-- ===== src/Campaign/Trail.antt =====
-- The campaigns that the operations build, and the trail that their history keeps.
use infra_loop_kda.Base.{
  ◌||◌, String, ◌≡◌, true, false, List, [], ◌∷◌, ◌++◌, Option, none, ℤ, contains, arith, ap, subst,
  int_beq, is_negative, pos, refl, ◌∙◌,
}
use infra_loop_kda.Base.Outcome.{ok}
use infra_loop_kda.Json.{Json, null, text, Fields, lookup, get, values}
use infra_loop_kda.Json.Laws.{values-append}
use infra_loop_kda.Json.Repr.{str}
use infra_loop_kda.Campaign.{new, initial, transition, transitions, history_event, items_of}
use infra_loop_kda.Campaign.Candidate.{add_candidate}
use infra_loop_kda.Campaign.Keeps.{transition-Moved, get-advance_status, get-advance_history}
use infra_loop_kda.Campaign.Attach.{add_candidate-Attached, get-attach}

-- A record that some sequence of successful calls has made.
pub data Reachable : Fields → Type 0 where
  created :
      (now campaign_id task_id base_commit workload_hash gate_version : String) (max_candidates : ℤ)
      {m : Fields}
      → new now campaign_id task_id base_commit workload_hash gate_version max_candidates ≡ ok m
      → Reachable m
  moved :
      (now : String) (m : Fields) (target actor : String) (reason : Option String) {m' : Fields}
      → Reachable m
      → transition now m target actor reason ≡ ok m'
      → Reachable m'
  extended :
      (m c : Fields) {m' : Fields} → Reachable m → (add_candidate m c).1 ≡ ok m' → Reachable m'

-- The entries of a history lead by allowed moves from `prepared` to a status.
pub data Trail : List Json → String → Type 0 where
  started :
      (history : List Json) (status now : String)
      → history ≡ history_event null "prepared" now "orchestrator" none ∷ []
      → status ≡ "prepared"
      → Trail history status
  continued :
      (history earlier : List Json) (status from now actor : String) (reason : Option String)
      → Trail earlier from
      → contains status (transitions from) ≡ true
      → history ≡ earlier ++ history_event (text from) status now actor reason ∷ []
      → Trail history status

-- A record whose history is a trail to its status.
pub record HasTrail (m : Fields) : Type 0 where
  pub status : String
  pub status_is : get "status" m ≡ text status
  pub trail : Trail (values (items_of (get "history" m))) status

initial-HasTrail :
    (now campaign_id task_id base_commit workload_hash gate_version : String) (n : ℤ)
    → HasTrail (initial now campaign_id task_id base_commit workload_hash gate_version n)
unfolding initial get lookup
initial-HasTrail now a b c d e n = record {
  status = "prepared";
  status_is = refl;
  trail = started _ _ now refl refl;
}

pub new-initial :
    (now campaign_id task_id base_commit workload_hash gate_version : String) (n : ℤ) {m : Fields}
    → new now campaign_id task_id base_commit workload_hash gate_version n ≡ ok m
    → (initial now campaign_id task_id base_commit workload_hash gate_version n ≡ m)
      × ((is_negative n || int_beq n (pos 0)) ≡ false)
unfolding new
new-initial now a b c d e n h = (ground arith, ground arith)

transition-HasTrail :
    (now : String) (m : Fields) (target actor : String) (reason : Option String) {m' : Fields}
    → HasTrail m
    → transition now m target actor reason ≡ ok m'
    → HasTrail m'
unfolding str
transition-HasTrail now m target actor reason t h =
    let v = transition-Moved now m target actor reason h in
    let current : str (get "status" m) ≡ t.status = ap str t.status_is in
    rw (← v.after) (record {
      status = target;
      status_is = get-advance_status now m target actor reason;
      trail =
          continued _ (values (items_of (get "history" m))) target t.status now actor reason t.trail
            (rw current at v.allowed)
            (rw (get-advance_history now m target actor reason, values-append, current) refl);
    })

add_candidate-HasTrail :
    (m c : Fields) {m' : Fields} → HasTrail m → (add_candidate m c).1 ≡ ok m' → HasTrail m'
add_candidate-HasTrail m c t h =
    let (id, checked, at) = add_candidate-Attached m c h in
    record {
      status = t.status;
      status_is = get-attach id m _ at "status" refl refl ∙ t.status_is;
      trail = rw (get-attach id m _ at "history" refl refl) t.trail;
    }

-- The history of every campaign that the operations build leads by allowed moves from
-- `prepared` to its status.
pub Reachable-HasTrail : {m : Fields} → Reachable m → HasTrail m
Reachable-HasTrail (created now a b c d e n h) =
    subst HasTrail (new-initial now a b c d e n h).0 (initial-HasTrail now a b c d e n)
Reachable-HasTrail (moved now m target actor reason r h) =
    transition-HasTrail now m target actor reason (Reachable-HasTrail r) h
Reachable-HasTrail (extended m c r h) = add_candidate-HasTrail m c (Reachable-HasTrail r) h
