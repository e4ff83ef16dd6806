-- ===== src/Agent/Shim/Built.antt =====
-- What `build_shim_dir` builds, `verify_shim` accepts.
use Prim.Native.Char.{code}
use text.Mathlib.TextLemmas.{cons-append, nil-append, append_assoc}
use infra_loop_kda.Base.{
  String, ◌<>◌, true, false, ◌&&◌, Option, none, some, [], ◌==◌, nat_beq, subst, ◌≡◌, refl, sym,
  ◌∙◌, eq_iff, eq_refl, Bool-cases, inl, inr, if◌then◌else◌,
}
use infra_loop_kda.Base.Text.{contains_text}
use infra_loop_kda.Base.Part.{
  contains_text-append_left, contains_text-append_right, contains_text-join,
}
use infra_loop_kda.Json.{Fields, get}
use infra_loop_kda.Json.Repr.{str_or}
use infra_loop_kda.Agent.Paths.{Binaries}
use infra_loop_kda.Agent.Shim.{
  Entries, all_safe, escape_quotes, quote, launcher_lines, launcher, is_isolated, entry_for,
  add_entry, build_shim_dir, Outside, text_of, launcher_problems, link_problems, is_there,
  entry_problems, check_entry, verify_shim,
}

escape_quotes-append : (s t : String) → escape_quotes (s <> t) ≡ escape_quotes s <> escape_quotes t
unfolding escape_quotes
escape_quotes-append String.[] t = rw (nil-append t, nil-append (escape_quotes t)) refl
escape_quotes-append (String.◌∷◌ c s) t =
    rw (cons-append c s t, escape_quotes-append s t)
      (sym (
        append_assoc (if nat_beq (code c) 39 then "'\"'\"'" else String.◌∷◌ c String.[])
          (escape_quotes s) (escape_quotes t)))

module _ (effort : String) where
  named : String
  named = "model_reasoning_effort=\"" <> (effort <> "\"")

  named_holds : contains_text "model_reasoning_effort" named ≡ true
  unfolding named contains_text
  named_holds =
      contains_text-append_left "model_reasoning_effort" "model_reasoning_effort=\""
        (effort <> "\"") refl

  escaped_holds : contains_text "model_reasoning_effort" (escape_quotes named) ≡ true
  unfolding named escape_quotes contains_text
  escaped_holds = rw (escape_quotes-append "model_reasoning_effort=\"" (effort <> "\"")) (
      contains_text-append_left "model_reasoning_effort" "model_reasoning_effort=\""
        (escape_quotes (effort <> "\"")) refl)

  not_blank : (named == "") ≡ true → named ≡ ""
  not_blank h = (eq_iff named "").0 h

  quote-named : contains_text "model_reasoning_effort" (quote named) ≡ true
  unfolding quote contains_text
  quote-named = elim (Bool-cases (named == "")) [
    | inl blank ↦
        let none_there : contains_text "model_reasoning_effort" "" ≡ true =
          subst (λ s. contains_text "model_reasoning_effort" s ≡ true) (not_blank blank)
            named_holds in
        cc none_there
    | inr some_text ↦ rw some_text (elim (Bool-cases (all_safe named)) [
      | inl safe ↦ rw safe named_holds
      | inr unsafe ↦ rw unsafe (
          contains_text-append_right "model_reasoning_effort" "'" (escape_quotes named <> "'") (
            contains_text-append_left "model_reasoning_effort" (escape_quotes named) "'"
              escaped_holds))
    ])
  ]

-- Every marker stands on a line of the launcher.
launcher-holds :
    (model effort : String)
    → (contains_text "--dangerously-bypass-approvals-and-sandbox" (launcher model effort) ≡ true)
      × (contains_text "--model" (launcher model effort) ≡ true)
      × (contains_text "model_reasoning_effort" (launcher model effort) ≡ true)
      × (contains_text "--disable apps" (launcher model effort) ≡ true)
unfolding launcher launcher_lines contains_text named
launcher-holds model effort =
    let lines = launcher_lines model effort in
    let effort_line =
      contains_text-append_right "model_reasoning_effort" "args+=(-c " (quote (named effort) <> ")")
        (contains_text-append_left "model_reasoning_effort" (quote (named effort)) ")"
          (quote-named effort)) in
    let model_line =
      contains_text-append_left "--model" "args+=(--model " (quote model <> ")") refl in
    (
      contains_text-join "--dangerously-bypass-approvals-and-sandbox" "\n" lines
          (inr (inr (inr (inr (inl refl))))),
      contains_text-join "--model" "\n" lines (inr (inr (inr (inr (inr (inl model_line)))))),
      contains_text-join "model_reasoning_effort" "\n" lines
          (inr (inr (inr (inr (inr (inr (inl effort_line))))))),
      contains_text-join "--disable apps" "\n" lines
          (inr (inr (inr (inr (inr (inr (inr (inr (inl refl))))))))),
    )

launcher_problems-launcher :
    (model effort : String) → launcher_problems (some (launcher model effort)) ≡ []
unfolding launcher_problems
launcher_problems-launcher model effort =
    let (a, b, c, d) = launcher-holds model effort in rw (a, b, c, d) refl

module _ (outside : Outside) (directory : String) (reviewer : Fields) where
  entry_problems-entry_for :
      (name source : String)
      → entry_problems outside directory reviewer name source
          (some (entry_for reviewer name source))
        ≡ []
  unfolding entry_problems entry_for text_of link_problems
  entry_problems-entry_for name source =
      elim (Bool-cases (name == "codex" && is_isolated reviewer)) [
        | inl own ↦ rw own (
            launcher_problems-launcher (str_or (get "model" reviewer) "gpt-6-astra")
              (str_or (get "effort" reviewer) "ultra"))
        | inr linked ↦ rw linked (rw (eq_refl source) refl)
      ]

-- The recorded binaries exist.
abbrev pub Exists : Outside → Option String → Type 0
Exists outside none = Unit
Exists outside (some path) = outside.exists path ≡ true

module _ (outside : Outside) (directory : String) (reviewer : Fields) where
  is_there-entry_for :
      (name source : String)
      → outside.exists source ≡ true
      → is_there outside (some (entry_for reviewer name source)) ≡ true
  unfolding is_there entry_for
  is_there-entry_for name source h = elim (Bool-cases (name == "codex" && is_isolated reviewer)) [
    | inl own ↦ rw own refl
    | inr linked ↦ rw linked h
  ]

  -- An entry that was just put there passes.
  check_entry-added :
      (entries : Entries) (name : String) (source : Option String)
      → Exists outside source
      → ((s : String)
          → source ≡ some s
          → (s == "") ≡ false
          → entries name ≡ some (entry_for reviewer name s))
      → check_entry outside directory reviewer entries name source ≡ []
  unfolding check_entry
  check_entry-added entries name none e added = refl
  check_entry-added entries name (some s) e added = elim (Bool-cases (s == "")) [
    | inl blank ↦ rw blank refl
    | inr there ↦
        rw (there, added s refl there, is_there-entry_for name s e)
          (entry_problems-entry_for outside directory reviewer name s)
  ]

  added_self :
      (name : String) (source : Option String) (entries : Entries) (s : String)
      → source ≡ some s
      → (s == "") ≡ false
      → add_entry reviewer name source entries name ≡ some (entry_for reviewer name s)
  unfolding add_entry
  added_self name source entries s is there = rw (is, there, eq_refl name) refl

  added_other :
      (name other : String) (source : Option String) (entries : Entries)
      → (name == other) ≡ false
      → add_entry reviewer name source entries other ≡ entries other
  unfolding add_entry
  added_other name other none entries h = refl
  added_other name other (some s) entries h = elim (Bool-cases (s == "")) [
    | inl blank ↦ rw blank refl
    | inr there ↦ rw (there, h) refl
  ]

  -- A shim that was built for binaries that exist passes its verification at once, whatever was in
  -- the directory before, and also where the reviewer gets a launcher: its text holds the markers that
  -- are looked for, however the model and the effort are quoted.
  pub verify_shim-build_shim_dir :
      (resolved : Binaries) (entries : Entries)
      → Exists outside resolved.codex
      → Exists outside resolved.bash
      → Exists outside resolved.jq
      → verify_shim outside true directory resolved reviewer
          (build_shim_dir resolved reviewer entries)
        ≡ []
  unfolding verify_shim build_shim_dir
  verify_shim-build_shim_dir resolved entries c b j =
      let first = add_entry reviewer "codex" resolved.codex entries in
      let second = add_entry reviewer "bash" resolved.bash first in
      let third = add_entry reviewer "jq" resolved.jq second in
      rw
        (
          check_entry-added third "codex" resolved.codex c (λ s is there.
              added_other "jq" "codex" resolved.jq second refl
              ∙ added_other "bash" "codex" resolved.bash first refl
              ∙ added_self "codex" resolved.codex entries s is there),
          check_entry-added third "bash" resolved.bash b (λ s is there.
              added_other "jq" "bash" resolved.jq second refl
              ∙ added_self "bash" resolved.bash first s is there),
          check_entry-added third "jq" resolved.jq j (added_self "jq" resolved.jq second),
        )
        refl
