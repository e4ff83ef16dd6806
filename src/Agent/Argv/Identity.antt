-- ===== src/Agent/Argv/Identity.antt =====
-- The identity of a plan does not depend on the session's id.
use infra_loop_kda.Base.{
  String, false, none, some, List, [], ◌∷◌, ◌++◌, ◌==◌, ◌≡◌, refl, sym, ◌∙◌, ap, Bool-cases, inl,
  inr,
}
use infra_loop_kda.Json.{Fields}
use infra_loop_kda.Agent.Argv.{
  argv_front, session_arguments, writer_options, build_argv, strip_session_id,
}

strip_session_id-cons :
    (z : String) (ys : List String)
    → (z == "--session-id") ≡ false
    → strip_session_id (z ∷ ys) ≡ z ∷ strip_session_id ys
unfolding strip_session_id
strip_session_id-cons z [] h = rw h refl
strip_session_id-cons z (y ∷ ys) h = rw h refl

-- Past an argument that is not the flag the loop starts afresh, whatever stands before it.
strip_session_id-append :
    (xs : List String) (z : String) (ys : List String)
    → (z == "--session-id") ≡ false
    → strip_session_id (xs ++ z ∷ ys) ≡ strip_session_id (xs ++ z ∷ []) ++ strip_session_id ys
unfolding strip_session_id
strip_session_id-append [] z ys h =
    strip_session_id-cons z ys h
    ∙ ap (λ front. front ++ strip_session_id ys) (sym (strip_session_id-cons z [] h))
strip_session_id-append (x ∷ []) z ys h = elim (Bool-cases (x == "--session-id")) [
  | inl flag ↦ rw flag refl
  | inr other ↦ rw other (ap (λ l. x ∷ l) (strip_session_id-append [] z ys h))
]
strip_session_id-append (x ∷ w ∷ xs) z ys h = elim (Bool-cases (x == "--session-id")) [
  | inl flag ↦ rw flag (strip_session_id-append xs z ys h)
  | inr other ↦ rw other (ap (λ l. x ∷ l) (strip_session_id-append (w ∷ xs) z ys h))
]

session_arguments-strip :
    (id : String) (ys : List String)
    → strip_session_id (session_arguments (some id) ++ ys) ≡ strip_session_id ys
unfolding session_arguments strip_session_id
session_arguments-strip id ys = elim (Bool-cases (id == "")) [
  | inl blank ↦ rw blank refl
  | inr named ↦ rw named refl
]

-- A start with any session id and a dry run without one have the same command line in the plan's
-- identity, whatever the settings, the plugin and the prompt are, even if one of them is
-- `--session-id` itself.
pub build_argv_identity :
    (writer : Fields) (plugin_dir prompt session_id : String)
    → strip_session_id (build_argv writer plugin_dir prompt (some session_id))
      ≡ strip_session_id (build_argv writer plugin_dir prompt none)
unfolding build_argv
build_argv_identity writer plugin_dir prompt session_id =
    let front = argv_front writer plugin_dir prompt in
    let options = writer_options writer in
    strip_session_id-append front "--verbose" (session_arguments (some session_id) ++ options) refl
    ∙ ap (λ l. strip_session_id (front ++ "--verbose" ∷ []) ++ l)
        (session_arguments-strip session_id options)
    ∙ sym (strip_session_id-append front "--verbose" options refl)
