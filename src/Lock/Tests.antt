-- ===== src/Lock/Tests.antt =====
-- Two processes and one lock file.
use infra_loop_kda.Base.{◌≡◌, refl, [], ◌∷◌}
use infra_loop_kda.Base.Outcome.{err, lock_error}
use infra_loop_kda.Json.{text, end, field, put, set_default, lookup}
use infra_loop_kda.Json.Repr.{str}
use infra_loop_kda.Lock.{
  Content, nothing, Lock, create, opened, holder, detail_of, held_error, report_holder, lock_record,
  acquire, release,
}
use infra_loop_kda.Lock.Exclusive.{Reachable, begun, acquired, IsExclusive, Reachable-IsExclusive}
use infra_loop_kda.Lock.Mutex.{Acquires, Releases, mutex_of}
use infra_loop_kda.Lock.Refined.{Reachable-Acquires-Releases}

runs : Unit {0}
unfolding put set_default lookup str holder detail_of held_error report_holder lock_record acquire
    release
runs = tt

abbrev first_lock : Lock
first_lock = create (field "task" (text "t") end)

abbrev second_lock : Lock
second_lock = create end

after_first : Content
unfolding runs
after_first = (acquire 7 "t0" "lock" opened nothing first_lock).0

second_refused :
    (acquire 8 "t1" "lock" opened after_first second_lock).2
    ≡ err (
        lock_error
          "task is locked by pid 7 since t0 (lock); stop it or remove the lock deliberately")
unfolding runs after_first
second_refused = refl

held_by_first :
    Reachable after_first ((acquire 7 "t0" "lock" opened nothing first_lock).1 ∷ second_lock ∷ [])
unfolding runs after_first
held_by_first =
    acquired nothing [] first_lock (second_lock ∷ []) 7 "t0" "lock" opened
      (begun nothing (first_lock ∷ second_lock ∷ []) refl)

Reachable-IsExclusive_example :
    IsExclusive after_first ((acquire 7 "t0" "lock" opened nothing first_lock).1 ∷ second_lock ∷ [])
Reachable-IsExclusive_example = Reachable-IsExclusive held_by_first

Reachable-Acquires-Releases_example :
    Acquires 1
      (acquire 8 "t1" "lock" opened after_first second_lock).2
      (mutex_of after_first
        ((acquire 7 "t0" "lock" opened nothing first_lock).1 ∷ second_lock ∷ []))
      (mutex_of (acquire 8 "t1" "lock" opened after_first second_lock).0 (
        (acquire 7 "t0" "lock" opened nothing first_lock).1
        ∷ (acquire 8 "t1" "lock" opened after_first second_lock).1
        ∷ []))
    × Releases 1
        (mutex_of after_first
          ((acquire 7 "t0" "lock" opened nothing first_lock).1 ∷ second_lock ∷ []))
        (mutex_of (release after_first second_lock).0 (
          (acquire 7 "t0" "lock" opened nothing first_lock).1
          ∷ (release after_first second_lock).1
          ∷ []))
Reachable-Acquires-Releases_example =
    Reachable-Acquires-Releases ((acquire 7 "t0" "lock" opened nothing first_lock).1 ∷ [])
      second_lock [] after_first 8 "t1" "lock" opened held_by_first
