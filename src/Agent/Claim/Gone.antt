-- ===== src/Agent/Claim/Gone.antt =====
-- What it means that the holder of a session's lock does not live.
use infra_loop_kda.Base.{
  ℤ, pos, negsuc, int_beq, nat_beq_self, arith, subst, true, false, Option, none, some, ◌≡◌, inl,
  inr, refl, sym, ◌∙◌, ap, Bool-cases,
}
use infra_loop_kda.Json.{Fields, get, truthy}
use infra_loop_kda.Json.Checks.{integer_of}
use infra_loop_kda.Process.{Processes}
use infra_loop_kda.Process.Laws.{IsSame, IsSame-matches}
use infra_loop_kda.Agent.Claim.{has_pid, identity_for, identity_for_lem, is_live}

-- The session's record names the pid.
abbrev pub Names : Option Fields → ℤ → Fields → Type 0
Names session z s = (session ≡ some s) × (integer_of (get "pid" s) ≡ some z)

-- No process that is there stands for the pid of a lock file's record: the record has no pid, or the
-- session recorded an identity for it and `ps` shows another process or none, or the session
-- recorded none and no signal reaches the pid.
pub data IsGone (os : Processes) (session : Option Fields) (holder_pid : Option ℤ) : Type 0 where
  no_pid : holder_pid ≡ none → IsGone os session holder_pid
  unmatched :
      (z : ℤ) (s : Fields)
      → holder_pid ≡ some z
      → Names session z s
      → ¬ IsSame os z (get "process_identity" s)
      → IsGone os session holder_pid
  unreachable :
      (z : ℤ)
      → holder_pid ≡ some z
      → ((s : Fields) → Names session z s → truthy (get "process_identity" s) ≡ false)
      → os.alive z ≡ false
      → IsGone os session holder_pid

int_beq-eq : (a b : ℤ) → int_beq a b ≡ true → a ≡ b
int_beq-eq (pos a) (pos b) h = ap pos (ground arith)
int_beq-eq (pos a) (negsuc b) h = cc
int_beq-eq (negsuc a) (pos b) h = cc
int_beq-eq (negsuc a) (negsuc b) h = ap negsuc (ground arith)

int_beq_self : (a : ℤ) → int_beq a a ≡ true
int_beq_self (pos a) = nat_beq_self a
int_beq_self (negsuc a) = nat_beq_self a

has_pid-Names :
    (z : ℤ) (s : Fields) → has_pid z (get "pid" s) ≡ true → integer_of (get "pid" s) ≡ some z
unfolding has_pid
has_pid-Names z s h = named (integer_of (get "pid" s)) h
  where
    named : (o : Option ℤ) → elim o [ none ↦ false | some pid ↦ int_beq pid z ] ≡ true → o ≡ some z
    named none k = cc
    named (some pid) k = ap (λ y. some y) (int_beq-eq pid z k)

Names-has_pid :
    (z : ℤ) (s : Fields) → integer_of (get "pid" s) ≡ some z → has_pid z (get "pid" s) ≡ true
unfolding has_pid
Names-has_pid z s h =
    subst (λ o. elim o [ none ↦ false | some pid ↦ int_beq pid z ] ≡ true) (sym h) (int_beq_self z)

-- A true identity for the pid is that of the session's record, which names the pid.
identity_for-Names :
    (session : Option Fields) (z : ℤ)
    → truthy (identity_for session z) ≡ true
    → (s : Fields) × Names session z s × (identity_for session z ≡ get "process_identity" s)
unfolding identity_for
identity_for-Names none z h = cc
identity_for-Names (some s) z h = elim (Bool-cases (has_pid z (get "pid" s))) [
  | inl named ↦ (s, (refl, has_pid-Names z s named), rw named refl)
  | inr other ↦ cc (rw other at h)
]

Names-identity_for :
    (session : Option Fields) (z : ℤ) (s : Fields)
    → Names session z s
    → identity_for session z ≡ get "process_identity" s
Names-identity_for session z s (same, named) =
    ap (λ o. identity_for o z) same ∙ (identity_for_lem s z ∙ rw (Names-has_pid z s named) refl)

pub is_live-IsGone :
    (os : Processes) (session : Option Fields) (holder_pid : Option ℤ)
    → is_live os session holder_pid ≡ false
    → IsGone os session holder_pid
unfolding is_live
is_live-IsGone os session none h = no_pid refl
is_live-IsGone os session (some z) h = elim (Bool-cases (truthy (identity_for session z))) [
  | inl known ↦
      let (s, names, is) = identity_for-Names session z known in
      let differs = rw known at h in
      unmatched z s refl names (λ same.
        let there =
          IsSame-matches os z (identity_for session z) (subst (IsSame os z) (sym is) same) in
        cc (there, differs))
  | inr unknown ↦
      unreachable z refl
        (λ s names. subst (λ v. truthy v ≡ false) (Names-identity_for session z s names) unknown)
        (rw unknown at h)
]
