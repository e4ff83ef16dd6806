-- ===== src/Agent/Start/Settled.antt =====
-- What `start` leaves behind from the spawn on: of the process, of the session and of the lock file.
use infra_loop_kda.Base.{ℕ, String, true, none, some, ◌≢◌, ◌≡◌, refl}
use infra_loop_kda.Base.Outcome.{Outcome, Error, ok, err, ok_injective}
use infra_loop_kda.Json.{Json, object, Fields}
use infra_loop_kda.Lock.{Content, nothing, written, Lock, release}
use infra_loop_kda.Agent.Start.{
  World, After, Launch, left, write_lock, write_session, settle, not_launched, session_lock,
  abandon,
}

-- What is left behind where everything that follows the spawn returned.
abbrev pub settled : World → String → Launch → ℕ → Fields → After
settled w task_id l n session = record {
  lock = written (object (session_lock task_id w.uuid n w.utc));
  session = some session;
  launched = some l;
  result = ok n;
}

write_lock-eq-ok :
    (w : World) (task_id : String) (content : Content) (l : Launch) (n : ℕ) (session : Fields)
    (o : Outcome (Unit {0})) {pid : ℕ}
    → (write_lock w task_id content l n session o).result ≡ ok pid
    → (n ≡ pid) × (write_lock w task_id content l n session o ≡ settled w task_id l n session)
unfolding write_lock left
write_lock-eq-ok w task_id content l n session (err e) h = cc
write_lock-eq-ok w task_id content l n session (ok t) h = (ok_injective h, refl)

write_session-eq-ok :
    (w : World) (task_id : String) (content : Content) (l : Launch) (n : ℕ)
    (before session : Fields) (o : Outcome (Unit {0})) {pid : ℕ}
    → (write_session w task_id content l n before session o).result ≡ ok pid
    → (n ≡ pid)
      × (write_session w task_id content l n before session o ≡ settled w task_id l n session)
unfolding write_session left
write_session-eq-ok w task_id content l n before session (err e) h = cc
write_session-eq-ok w task_id content l n before session (ok t) h =
    write_lock-eq-ok w task_id content l n session w.lock_write h

pub settle-eq-ok :
    (w : World) (task_id : String) (content : Content) (l : Launch) (n : ℕ) (before : Fields)
    (session_with : Json → Fields) (read : Outcome Json) {pid : ℕ}
    → (settle w task_id content l n before session_with read).result ≡ ok pid
    → (identity : Json) × (read ≡ ok identity)
      × (n ≡ pid)
      × (settle w task_id content l n before session_with read
          ≡ settled w task_id l n (session_with identity))
unfolding settle left
settle-eq-ok w task_id content l n before session_with (err e) h = cc
settle-eq-ok w task_id content l n before session_with (ok identity) h =
    let (same, is) =
      write_session-eq-ok w task_id content l n before (session_with identity) w.session_write h in
    (identity, refl, same, is)

-- Where something after the spawn failed, the lock file and the process are there.
abbrev pub Left : Content → Launch → After → Type 0
Left content l after = (after.lock ≡ content) × (after.launched ≡ some l)

write_lock-Left :
    (w : World) (task_id : String) (content : Content) (l : Launch) (n : ℕ) (session : Fields)
    (o : Outcome (Unit {0})) {e : Error}
    → (write_lock w task_id content l n session o).result ≡ err e
    → Left content l (write_lock w task_id content l n session o)
unfolding write_lock left
write_lock-Left w task_id content l n session (err x) h = (refl, refl)
write_lock-Left w task_id content l n session (ok t) h = cc

write_session-Left :
    (w : World) (task_id : String) (content : Content) (l : Launch) (n : ℕ)
    (before session : Fields) (o : Outcome (Unit {0})) {e : Error}
    → (write_session w task_id content l n before session o).result ≡ err e
    → Left content l (write_session w task_id content l n before session o)
unfolding write_session left
write_session-Left w task_id content l n before session (err x) h = (refl, refl)
write_session-Left w task_id content l n before session (ok t) h =
    write_lock-Left w task_id content l n session w.lock_write h

pub settle-Left :
    (w : World) (task_id : String) (content : Content) (l : Launch) (n : ℕ) (before : Fields)
    (session_with : Json → Fields) (read : Outcome Json) {e : Error}
    → (settle w task_id content l n before session_with read).result ≡ err e
    → Left content l (settle w task_id content l n before session_with read)
unfolding settle left
settle-Left w task_id content l n before session_with (err x) h = (refl, refl)
settle-Left w task_id content l n before session_with (ok identity) h =
    write_session-Left w task_id content l n before (session_with identity) w.session_write h

pub not_launched-lock :
    (content : Content) (lock : Lock) (before session : Fields) (e : Error) (o : Outcome (Unit {0}))
    → lock.held ≡ true
    → ((not_launched content lock before session e o).lock ≡ nothing)
      × ((not_launched content lock before session e o).launched ≡ none)
unfolding not_launched abandon release
not_launched-lock content lock before session e (err other) held = (rw held refl, refl)
not_launched-lock content lock before session e (ok t) held = (rw held refl, refl)

-- A failed spawn returns nothing.
pub not_launched-ne-ok :
    (content : Content) (lock : Lock) (before session : Fields) (e : Error) (o : Outcome (Unit {0}))
    {pid : ℕ}
    → (not_launched content lock before session e o).result ≢ ok pid
unfolding not_launched abandon
not_launched-ne-ok content lock before session e (err other) = λ h. cc
not_launched-ne-ok content lock before session e (ok t) = λ h. cc
