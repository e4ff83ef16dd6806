-- ===== src/Agent/Loop/Bound.antt =====
-- Which loop `_loop_state` takes for a session.
use infra_loop_kda.Base.{
  String, true, false, ◌&&◌, Option, none, some, List, [], ◌∷◌, ◌==◌, ◌≡◌, ◌≢◌, ◌⊎◌, inl, inr, refl,
  subst, All, arith, eq_iff, Bool-cases, some_injective,
}
use infra_loop_kda.Agent.Loop.{
  Dir, by_session, Found, read_loop_dir, is_present, stored_session, Loop, choose, is_bound,
  next_fallback, newest_first, loop_state,
}

-- A loop that is there and that no session is recorded for.
pub record IsUnbound (l : Loop) : Type 0 where
  pub found : l.found ≡ read_loop_dir l.dir
  pub present : is_present l.found ≡ true
  pub unbound : stored_session l.found ≡ ""

pub record IsOwn (session : String) (l : Loop) : Type 0 where
  pub found : l.found ≡ read_loop_dir l.dir
  pub present : is_present l.found ≡ true
  pub own : stored_session l.found ≡ session
  pub bound_by : l.bound_by ≡ by_session

abbrev pub Fallback : Option Loop → Type 0
Fallback none = Unit
Fallback (some l) = IsUnbound l

module _ (session : String) (named : session ≢ "") where
  blank : (session == "") ≡ false
  blank = ground (arith, eq_iff session "")

  is_bound_parts :
      (found : Found)
      → is_bound session found ≡ true
      → (is_present found ≡ true) × (stored_session found ≡ session)
  unfolding is_bound
  is_bound_parts found h = (
    ground (arith, eq_iff (stored_session found) session),
    ground (arith, eq_iff (stored_session found) session),
  )

  next_fallback-Fallback :
      (fallback : Option Loop) (loop : Dir)
      → Fallback fallback
      → Fallback (next_fallback session fallback loop)
  unfolding next_fallback
  next_fallback-Fallback (some l) loop f = f
  next_fallback-Fallback none loop f =
      let found = read_loop_dir loop in
      rw blank (elim (Bool-cases (is_present found && stored_session found == "")) [
        | inl unbound ↦ rw unbound (record {
          found = refl;
          present = ground arith;
          unbound = ground (arith, eq_iff (stored_session found) "");
        })
        | inr other ↦ rw other tt
      ])

  choose-cases :
      (fallback : Option Loop) (loops : List Dir) {l : Loop}
      → Fallback fallback
      → choose session fallback loops ≡ some l
      → IsOwn session l
        ⊎ (IsUnbound l × All (λ loop. is_bound session (read_loop_dir loop) ≡ false) loops)
  unfolding choose
  choose-cases none [] f h = cc
  choose-cases (some l) [] f h = inr (subst IsUnbound (some_injective h) f, tt)
  choose-cases fallback (loop ∷ loops) f h =
      elim (Bool-cases (is_bound session (read_loop_dir loop))) [
        | inl own ↦
            let (present, stored) = is_bound_parts (read_loop_dir loop) own in
            inl (
              subst (IsOwn session) (some_injective (rw own at h))
                (record { found = refl; present = present; own = stored; bound_by = refl }))
        | inr other ↦
            let f' = next_fallback-Fallback fallback loop f in
            let rest =
              choose-cases (next_fallback session fallback loop) loops f' (rw other at h) in
            elim rest [ inl own ↦ inl own | inr (unbound, others) ↦ inr (unbound, (other, others)) ]
      ]

  -- The loop state that a session is shown is its own, bound by the session's id, or one that has no
  -- session's id, and then none of the loops has the session's: a loop of another session is never
  -- taken.
  pub loop_state-cases :
      (loops : List Dir) {l : Loop}
      → loop_state loops session ≡ some l
      → IsOwn session l
        ⊎ (IsUnbound l
            × All (λ loop. is_bound session (read_loop_dir loop) ≡ false) (newest_first loops))
  unfolding loop_state
  loop_state-cases loops h = choose-cases none (newest_first loops) tt h
