-- ===== src/Lock/Mutex.antt =====
-- A mutex, and the one that the lock file and the locks on it stand for.
use infra_loop_kda.Base.{
  ℕ, suc, ◌+◌, ◌≡◌, ◌≢◌, refl, Bool, true, false, Option, none, some, List, [], ◌∷◌, ◌++◌, ◌≤◌,
  arith, length, Bool-cases, inl, inr, if◌then◌else◌,
}
use infra_loop_kda.Base.Outcome.{Error, Outcome, ok, err}
use infra_loop_kda.Lock.{Content, nothing, unreadable, written, Lock}
use infra_loop_kda.Lock.Exclusive.{held_count, held_count-append}

-- The mutex, with the position of its owner. A `stale` one has a lock file that no lock holds.
pub data Mutex : Type 0 where
  free stale : Mutex
  owned : ℕ → Mutex

-- What a call of `acquire` by the process at a position may do, with its result.
pub data Acquires : ℕ → Outcome (Unit {0}) → Mutex → Mutex → Type 0 where
  took : {i : ℕ} → Acquires i (ok tt) free (owned i)
  refused : {i : ℕ} {m : Mutex} {e : Error} → Acquires i (err e) m m

-- What a call of `release` may do.
pub data Releases : ℕ → Mutex → Mutex → Type 0 where
  gave : {i : ℕ} → Releases i (owned i) free
  unheld : {i : ℕ} {m : Mutex} → m ≢ owned i → Releases i m m

abbrev shift : Option ℕ → Option ℕ
shift none = none
shift (some i) = some (suc i)

unfoldable owner : List Lock → Option ℕ
owner [] = none
owner (lock ∷ locks) = let rest = owner locks in if lock.held then some 0 else shift rest

unfoldable pub unowned : Content → Mutex
unowned nothing = free
unowned _ = stale

unfoldable owned_by : Content → Option ℕ → Mutex
unfolding unowned
owned_by content none = unowned content
owned_by content (some i) = owned i

-- The mutex that the file and the locks stand for.
unfoldable pub mutex_of : Content → List Lock → Mutex
unfolding owner owned_by
mutex_of content locks = owned_by content (owner locks)

-- Where no lock is held, the first is not, nor is one of the others.
idle : (held : Bool) (n : ℕ) → (if held then 1 else 0) + n ≡ 0 → (held ≡ false) × (n ≡ 0)
idle true n h = absurd (omega arith)
idle false n h = (refl, omega arith)

owner-none : (locks : List Lock) → held_count locks ≡ 0 → owner locks ≡ none
unfolding owner
owner-none [] h = refl
owner-none (lock ∷ locks) h =
    let (first, rest) = idle lock.held (held_count locks) h in
    rw (first, owner-none locks rest) refl

owner-here :
    (before : List Lock) (lock : Lock) (after : List Lock)
    → held_count before ≡ 0
    → lock.held ≡ true
    → owner (before ++ lock ∷ after) ≡ some (length before)
unfolding owner
owner-here [] lock after h held = rw held refl
owner-here (other ∷ before) lock after h held =
    let (first, rest) = idle other.held (held_count before) h in
    rw (first, owner-here before lock after rest held) refl

pub mutex_of-unowned :
    (content : Content) (locks : List Lock)
    → held_count locks ≡ 0
    → mutex_of content locks ≡ unowned content
unfolding mutex_of owned_by
mutex_of-unowned content locks h = rw (owner-none locks h) refl

pub mutex_of-owned :
    (content : Content) (before : List Lock) (lock : Lock) (after : List Lock)
    → held_count before ≡ 0
    → lock.held ≡ true
    → mutex_of content (before ++ lock ∷ after) ≡ owned (length before)
unfolding mutex_of owned_by
mutex_of-owned content before lock after h held = rw (owner-here before lock after h held) refl

-- When the one held lock is released, none is held.
pub held_count-freed :
    (before : List Lock) (lock lock' : Lock) (after : List Lock)
    → lock.held ≡ true
    → lock'.held ≡ false
    → held_count (before ++ lock ∷ after) ≤ 1
    → (held_count before ≡ 0) × (held_count (before ++ lock' ∷ after) ≡ 0)
held_count-freed before lock lock' after was now one =
    ground
      (arith, was, now, held_count-append before lock after, held_count-append before lock' after)

shift-suc : (found : Option ℕ) {n : ℕ} → shift found ≡ some (suc n) → found ≡ some n
shift-suc none h = cc
shift-suc (some i) h = cc

shift-zero : (found : Option ℕ) → shift found ≢ some 0
shift-zero none = λ h. cc
shift-zero (some i) = λ h. cc

owner-other :
    (before : List Lock) (lock : Lock) (after : List Lock)
    → lock.held ≡ false
    → owner (before ++ lock ∷ after) ≢ some (length before)
unfolding owner
owner-other [] lock after idle = rw idle (shift-zero (owner after))
owner-other (other ∷ before) lock after idle = elim (Bool-cases other.held) [
  | inl busy ↦ rw busy (λ h. cc)
  | inr quiet ↦ rw quiet (λ h. owner-other before lock after idle (shift-suc _ h))
]

owned_by-owned :
    (content : Content) (found : Option ℕ) {n : ℕ}
    → owned_by content found ≡ owned n
    → found ≡ some n
unfolding owned_by unowned
owned_by-owned nothing none h = cc
owned_by-owned unreadable none h = cc
owned_by-owned (written v) none h = cc
owned_by-owned content (some i) h = cc

pub mutex_of-other :
    (content : Content) (before : List Lock) (lock : Lock) (after : List Lock)
    → lock.held ≡ false
    → mutex_of content (before ++ lock ∷ after) ≢ owned (length before)
unfolding mutex_of
mutex_of-other content before lock after idle =
    λ h. owner-other before lock after idle (owned_by-owned content _ h)
