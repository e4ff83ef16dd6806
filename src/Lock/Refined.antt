-- ===== src/Lock/Refined.antt =====
-- The locks on one path refine a mutex: what a call of `acquire` or `release` may do to it.
use infra_loop_kda.Base.{
  ℕ, ◌≡◌, refl, String, Bool, true, false, Option, none, some, List, ◌∷◌, ◌++◌, arith, length,
  Bool-cases, inl, inr, if◌then◌else◌,
}
use infra_loop_kda.Json.{Json, Fields, end, object, truthy}
use infra_loop_kda.Base.Outcome.{Error, Outcome, ok, err, attribute_error}
use infra_loop_kda.Lock.{
  Content, nothing, unreadable, written, Lock, Opened, opened, failed, lock_record, acquire,
  release, holder, report_holder, held_error,
}
use infra_loop_kda.Lock.Exclusive.{
  held_count, held_count-append, Reachable, IsExclusive, Reachable-IsExclusive,
}
use infra_loop_kda.Lock.Mutex.{
  Mutex, Acquires, took, refused, Releases, gave, unheld, unowned, mutex_of, mutex_of-unowned,
  mutex_of-owned, held_count-freed, mutex_of-other,
}

raised-Acquires :
    (b : Bool) (e : Error) (other : Outcome (Unit {0})) {i : ℕ} {m : Mutex}
    → Acquires i other m m
    → Acquires i (if b then err e else other) m m
raised-Acquires true e other a = refused
raised-Acquires false e other a = a

held_error-Acquires :
    (path : String) (fields : Fields) {i : ℕ} {m : Mutex} → Acquires i (held_error path fields) m m
unfolding held_error
held_error-Acquires path fields = refused

report_holder-Acquires :
    (path : String) (found : Option Json) {i : ℕ} (m : Mutex)
    → Acquires i (report_holder path found) m m
unfolding report_holder
report_holder-Acquires path none m = held_error-Acquires path end
report_holder-Acquires path (some (object fields)) m = held_error-Acquires path fields
report_holder-Acquires path (some v) m =
    raised-Acquires (truthy v) attribute_error (held_error path end) (held_error-Acquires path end)

module _ (before after : List Lock) where
  -- A lock that is taken where no file is takes the mutex, which was free.
  took_free :
      (v : Json) (lock lock' : Lock)
      → held_count (before ++ lock ∷ after) ≡ 0
      → lock'.held ≡ true
      → Acquires
          (length before)
          (ok tt)
          (mutex_of nothing (before ++ lock ∷ after))
          (mutex_of (written v) (before ++ lock' ∷ after))
  unfolding unowned
  took_free v lock lock' none_held now =
      let count : held_count before ≡ 0 = omega (arith, held_count-append before lock after) in
      rw
        (
          mutex_of-unowned nothing (before ++ lock ∷ after) none_held,
          mutex_of-owned (written v) before lock' after count now,
        )
        took

  gave_free :
      (content : Content) (lock lock' : Lock)
      → lock.held ≡ true
      → lock'.held ≡ false
      → IsExclusive content (before ++ lock ∷ after)
      → Releases
          (length before)
          (mutex_of content (before ++ lock ∷ after))
          (mutex_of nothing (before ++ lock' ∷ after))
  unfolding unowned
  gave_free content lock lock' was now e =
      let left = held_count-freed before lock lock' after was now e.one in
      rw
        (
          mutex_of-owned content before lock after left.0 was,
          mutex_of-unowned nothing (before ++ lock' ∷ after) left.1,
        )
        gave

  acquire-Acquires :
      (content : Content) (lock : Lock) (pid : ℕ) (utc path : String) (o : Opened)
      → IsExclusive content (before ++ lock ∷ after)
      → Acquires
          (length before)
          (acquire pid utc path o content lock).2
          (mutex_of content (before ++ lock ∷ after))
          (mutex_of
            (acquire pid utc path o content lock).0
            (before ++ (acquire pid utc path o content lock).1 ∷ after))
  unfolding acquire
  acquire-Acquires nothing lock pid utc path (failed message) e = refused
  acquire-Acquires nothing lock pid utc path opened e =
      took_free (object (lock_record pid utc lock.payload)) lock (record lock { held = true })
        (e.backed refl) refl
  acquire-Acquires unreadable lock pid utc path o e =
      report_holder-Acquires path (holder unreadable) _
  acquire-Acquires (written v) lock pid utc path o e =
      report_holder-Acquires path (holder (written v)) _

  release-Releases :
      (content : Content) (lock : Lock)
      → IsExclusive content (before ++ lock ∷ after)
      → Releases
          (length before)
          (mutex_of content (before ++ lock ∷ after))
          (mutex_of (release content lock).0 (before ++ (release content lock).1 ∷ after))
  unfolding release
  release-Releases content lock e = elim (Bool-cases lock.held) [
    | inl h ↦ simp h (gave_free content lock (record lock { held = false }) h refl e)
    | inr n ↦ simp n (unheld (mutex_of-other content before lock after n))
  ]

-- However the calls on the locks of one path follow each other, the next call of `acquire` by the
-- process at a position returns just where it takes the mutex, from the free state, and raises
-- where it leaves it; its next call of `release` frees the mutex if it is the owner, and else
-- leaves it.
pub Reachable-Acquires-Releases :
    (before : List Lock) (lock : Lock) (after : List Lock) (content : Content) (pid : ℕ)
    (utc path : String) (o : Opened)
    → Reachable content (before ++ lock ∷ after)
    → Acquires
        (length before)
        (acquire pid utc path o content lock).2
        (mutex_of content (before ++ lock ∷ after))
        (mutex_of
          (acquire pid utc path o content lock).0
          (before ++ (acquire pid utc path o content lock).1 ∷ after))
      × Releases
          (length before)
          (mutex_of content (before ++ lock ∷ after))
          (mutex_of (release content lock).0 (before ++ (release content lock).1 ∷ after))
Reachable-Acquires-Releases before lock after content pid utc path o r =
    let e = Reachable-IsExclusive r in
    (
      acquire-Acquires before after content lock pid utc path o e,
      release-Releases before after content lock e,
    )
