-- ===== src/Supervise/Polling.antt =====
-- What the polling loop keeps: at most one signal is forwarded, the first that arrived, and SIGKILL
-- follows it at most once.
use infra_loop_kda.Base.{
  ℕ, ◌≡◌, refl, true, false, not, ◌&&◌, Option, none, some, List, [], ◌∷◌, if◌then◌else◌, arith, ap,
  ◌∙◌, subst, pos, ℤ, Bool-cases, Option-cases, inl, inr,
}
use infra_loop_kda.Json.{bool, int, get}
use infra_loop_kda.Json.Laws.{get-put}
use infra_loop_kda.Supervise.{
  Round, Loop, handle, forward, escalate, try_escalate, act, poll_loop, is_due,
}

-- No cancellation was forwarded.
pub record IsQuiet (s : Loop) : Type 0 where
  pub not_sent : s.cancel_sent ≡ false
  pub none_sent : s.sent ≡ []
  pub not_escalated : s.escalated ≡ false
  pub unmarked : get "cancelled" s.status ≡ bool false

-- The first signal was forwarded, and perhaps SIGKILL after it.
pub record IsForwarded (s : Loop) : Type 0 where
  pub was_sent : s.cancel_sent ≡ true
  pub signum : ℕ
  pub first : s.cancel ≡ some signum
  pub all_sent : s.sent ≡ (if s.escalated then 9 ∷ signum ∷ [] else signum ∷ [])
  pub marked : get "cancelled" s.status ≡ bool true
  pub named : get "received_signal" s.status ≡ int (pos signum)

pub data IsOrdered (s : Loop) : Type 0 where
  quiet : IsQuiet s → IsOrdered s
  forwarded : IsForwarded s → IsOrdered s

handle-some : (k : ℕ) (signals : List ℕ) → handle (some k) signals ≡ some k
unfolding handle
handle-some k [] = refl
handle-some k (x ∷ signals) = handle-some k signals

handle-IsOrdered :
    (signals : List ℕ) (s : Loop)
    → IsOrdered s
    → IsOrdered (record s { cancel = handle s.cancel signals })
handle-IsOrdered signals s (quiet q) = quiet (record {
  not_sent = q.not_sent;
  none_sent = q.none_sent;
  not_escalated = q.not_escalated;
  unmarked = q.unmarked;
})
handle-IsOrdered signals s (forwarded f) = forwarded (record {
  was_sent = f.was_sent;
  signum = f.signum;
  first = rw f.first (handle-some f.signum signals);
  all_sent = f.all_sent;
  marked = f.marked;
  named = f.named;
})

forward-IsForwarded :
    (pgid : Option ℕ) (k : ℕ) (r : Round) (s : Loop)
    → IsQuiet s
    → s.cancel ≡ some k
    → IsForwarded (forward pgid k r s)
unfolding forward
forward-IsForwarded pgid k r s q is = record {
  was_sent = refl;
  signum = k;
  first = is;
  all_sent = rw (q.not_escalated, q.none_sent) refl;
  marked = simp get-put;
  named = simp get-put;
}

escalate-IsForwarded :
    (pgid : Option ℕ) (r : Round) (s : Loop)
    → IsForwarded s
    → s.escalated ≡ false
    → IsForwarded (escalate pgid r s)
unfolding escalate
escalate-IsForwarded pgid r s f fresh = record {
  was_sent = f.was_sent;
  signum = f.signum;
  first = f.first;
  all_sent = ap (λ l. 9 ∷ l) (f.all_sent ∙ rw fresh refl);
  marked = simp get-put f.marked;
  named = simp get-put f.named;
}

try_escalate-IsQuiet :
    (pgid : Option ℕ) (r : Round) (s : Loop) → IsQuiet s → IsQuiet (try_escalate pgid r s)
unfolding try_escalate
try_escalate-IsQuiet pgid r s q = simp (q.not_sent) q

try_escalate-IsForwarded :
    (pgid : Option ℕ) (r : Round) (s : Loop) → IsForwarded s → IsForwarded (try_escalate pgid r s)
unfolding try_escalate
try_escalate-IsForwarded pgid r s f =
    elim (Bool-cases (s.cancel_sent && not s.escalated && is_due s.escalate_at r.now)) [
      | inl due ↦ simp due (escalate-IsForwarded pgid r s f (ground arith))
      | inr wait ↦ simp wait f
    ]

act-IsOrdered :
    (pgid : Option ℕ) (r : Round) (s : Loop) (c : Option ℕ)
    → s.cancel ≡ c
    → IsOrdered s
    → IsOrdered (act pgid r c s)
unfolding act
act-IsOrdered pgid r s none e (quiet q) = quiet (try_escalate-IsQuiet pgid r s q)
act-IsOrdered pgid r s none e (forwarded f) = forwarded (try_escalate-IsForwarded pgid r s f)
act-IsOrdered pgid r s (some k) e (quiet q) =
    simp q.not_sent (forwarded (forward-IsForwarded pgid k r s q e))
act-IsOrdered pgid r s (some k) e (forwarded f) =
    simp f.was_sent (forwarded (try_escalate-IsForwarded pgid r s f))

snd_injective :
    {c d : ℤ} {s t : Loop} → ◌≡◌ {A = Option (ℤ × Loop)} (some (c, s)) (some (d, t)) → s ≡ t
snd_injective h = cc

-- If the variables are in order when the loop begins, they are when it ends: nothing was forwarded, or the first
-- signal only, and SIGKILL at most once after it; the record says whether it was cancelled.
pub poll_loop-IsOrdered :
    (pgid : Option ℕ) (rounds : List Round) (s : Loop) {code : ℤ} {s' : Loop}
    → poll_loop pgid rounds s ≡ some (code, s')
    → IsOrdered s
    → IsOrdered s'
unfolding poll_loop
poll_loop-IsOrdered pgid [] s h o = cc
poll_loop-IsOrdered pgid (r ∷ rounds) s h o =
    let s₁ = record s { cancel = handle s.cancel r.signals } in
    let o₁ = handle-IsOrdered r.signals s o in
    elim (Option-cases r.poll) [
      | inl running ↦
          poll_loop-IsOrdered pgid rounds (act pgid r s₁.cancel s₁) (simp running at h)
            (act-IsOrdered pgid r s₁ s₁.cancel refl o₁)
      | inr (code, ended) ↦ subst IsOrdered (snd_injective (simp ended at h)) o₁
    ]
