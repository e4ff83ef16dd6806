-- ===== src/Lock/Exclusive.antt =====
-- At most one of the locks on a path is held, whatever the order of the steps.
use infra_loop_kda.Base.{
  ℕ, ◌+◌, ◌≤◌, ◌≡◌, refl, sym, ap, ◌∙◌, String, true, false, List, [], ◌∷◌, ◌++◌, arith, Bool-cases,
  inl, inr, if◌then◌else◌,
}
use infra_loop_kda.Json.{object}
use infra_loop_kda.Lock.{
  Content, nothing, unreadable, written, Lock, Opened, opened, failed, lock_record, acquire,
  release,
}

abbrev pub held_count : List Lock → ℕ
held_count [] = 0
held_count (lock ∷ locks) = (if lock.held then 1 else 0) + held_count locks

-- The path and the locks on it, one for each process, after some steps from a state in which no lock
-- is held. A step is one call of `acquire` or `release` on one of the locks.
pub data Reachable : Content → List Lock → Type 0 where
  begun : (content : Content) (locks : List Lock) → held_count locks ≡ 0 → Reachable content locks
  acquired :
      (content : Content) (before : List Lock) (lock : Lock) (after : List Lock) (pid : ℕ)
      (utc path : String) (o : Opened)
      → Reachable content (before ++ lock ∷ after)
      → Reachable
          (acquire pid utc path o content lock).0
          (before ++ (acquire pid utc path o content lock).1 ∷ after)
  released :
      (content : Content) (before : List Lock) (lock : Lock) (after : List Lock)
      → Reachable content (before ++ lock ∷ after)
      → Reachable (release content lock).0 (before ++ (release content lock).1 ∷ after)

-- One lock is held at most, and none where there is no lock file.
pub record IsExclusive (content : Content) (locks : List Lock) : Type 0 where
  pub one : held_count locks ≤ 1
  pub backed : content ≡ nothing → held_count locks ≡ 0

pub held_count-append :
    (before : List Lock) (lock : Lock) (after : List Lock)
    → held_count (before ++ lock ∷ after)
      ≡ held_count before + ((if lock.held then 1 else 0) + held_count after)
held_count-append [] lock after = omega arith
held_count-append (x ∷ before) lock after = omega (arith, held_count-append before lock after)

module _ (before after : List Lock) where
  locked-IsExclusive :
      (content content' : Content) (lock lock' : Lock)
      → content ≡ nothing
      → lock'.held ≡ true
      → (content' ≡ nothing → false ≡ true)
      → IsExclusive content (before ++ lock ∷ after)
      → IsExclusive content' (before ++ lock' ∷ after)
  locked-IsExclusive content content' lock lock' free now_held there e =
      let none_held = sym (held_count-append before lock after) ∙ e.backed free in
      record {
        one = rw (held_count-append before lock' after, now_held) (omega arith);
        backed = λ gone. cc (there gone);
      }

  freed-IsExclusive :
      (content content' : Content) (lock lock' : Lock)
      → lock.held ≡ true
      → lock'.held ≡ false
      → IsExclusive content (before ++ lock ∷ after)
      → IsExclusive content' (before ++ lock' ∷ after)
  freed-IsExclusive content content' lock lock' was now e =
      let count : held_count (before ++ lock ∷ after) ≡ held_count before + (1 + held_count after) =
        held_count-append before lock after
        ∙ ap (λ b. held_count before + ((if b then 1 else 0) + held_count after)) was in
      let left : held_count (before ++ lock' ∷ after) ≡ held_count before + (0 + held_count after) =
        held_count-append before lock' after
        ∙ ap (λ b. held_count before + ((if b then 1 else 0) + held_count after)) now in
      let at_most = e.one in record { one = omega arith; backed = λ _. omega arith }

  acquire-IsExclusive :
      (content : Content) (lock : Lock) (pid : ℕ) (utc path : String) (o : Opened)
      → IsExclusive content (before ++ lock ∷ after)
      → IsExclusive
          (acquire pid utc path o content lock).0
          (before ++ (acquire pid utc path o content lock).1 ∷ after)
  unfolding acquire
  acquire-IsExclusive nothing lock pid utc path (failed message) e = e
  acquire-IsExclusive nothing lock pid utc path opened e =
      locked-IsExclusive nothing (written (object (lock_record pid utc lock.payload))) lock
        (record lock { held = true }) refl refl (λ gone. cc) e
  acquire-IsExclusive unreadable lock pid utc path o e = e
  acquire-IsExclusive (written v) lock pid utc path o e = e

  release-IsExclusive :
      (content : Content) (lock : Lock)
      → IsExclusive content (before ++ lock ∷ after)
      → IsExclusive (release content lock).0 (before ++ (release content lock).1 ∷ after)
  unfolding release
  release-IsExclusive content lock e = elim (Bool-cases lock.held) [
    | inl h ↦ rw h (freed-IsExclusive content nothing lock (record lock { held = false }) h refl e)
    | inr n ↦ simp n e
  ]

-- However the calls of `acquire` and `release` on the locks of one path follow each other, one lock
-- is held at most, and if one is, the lock file is there, as long as nobody else removes it.
pub Reachable-IsExclusive :
    {content : Content} {locks : List Lock} → Reachable content locks → IsExclusive content locks
Reachable-IsExclusive (begun content locks none_held) = record {
  one = omega arith;
  backed = λ _. none_held;
}
Reachable-IsExclusive (acquired content before lock after pid utc path o r) =
    acquire-IsExclusive before after content lock pid utc path o (Reachable-IsExclusive r)
Reachable-IsExclusive (released content before lock after r) =
    release-IsExclusive before after content lock (Reachable-IsExclusive r)
