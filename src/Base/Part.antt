-- ===== src/Base/Part.antt =====
-- Texts within texts: what `part in s` says of a concatenation.
use Prim.Native.Char.{Char}
use Prim.Native.String.{String, [], ◌∷◌, ◌++◌}
use mathlib.Core.Path.{◌≡◌, refl, sym, ap, ◌∙◌, subst}
use mathlib.Core.Bool.{Bool, true, false, ◌||◌}
use mathlib.Core.Logic.{◌⊎◌, inl, inr}
use mathlib.Core.List.{List}
use native.Mathlib.Omega.{arith}
use text.Mathlib.Text.{◌==◌, starts_with}
use text.Mathlib.TextEquality.{eq_iff, starts_with_iff}
use text.Mathlib.TextLemmas.{cons-append, nil-append, append_assoc, cons≢nil}
use text.Mathlib.TextPositions.{starts_with-append}
use infra_loop_kda.Base.Text.{contains_text, join}

contains_text-cons :
    (part : String) (c : Char) (s : String)
    → contains_text part (c ∷ s) ≡ (starts_with (c ∷ s) part || contains_text part s)
unfolding contains_text
contains_text-cons part c s = refl

starts_with-append_left :
    (part s t : String) → starts_with s part ≡ true → starts_with (s ++ t) part ≡ true
starts_with-append_left part s t h =
    let (u, e) = (starts_with_iff s part).0 h in
    (starts_with_iff (s ++ t) part).1 (u ++ t, sym (append_assoc part u t) ∙ ap (λ v. v ++ t) e)

or_left : (a b : Bool) → a ≡ true → (a || b) ≡ true
or_left a b h = ground arith

or_right : (a b : Bool) → b ≡ true → (a || b) ≡ true
or_right a b h = ground arith

or_cases : (a b : Bool) → (a || b) ≡ true → (a ≡ true) ⊎ (b ≡ true)
or_cases true b h = inl refl
or_cases false b h = inr h

prefix-nil : (part u : String) → part ++ u ≡ [] → part ≡ []
prefix-nil [] u h = refl
prefix-nil (c ∷ part) u h = absurd (cons≢nil (sym (cons-append c part u) ∙ h))

contains_text-starts : (part s : String) → starts_with s part ≡ true → contains_text part s ≡ true
unfolding contains_text
contains_text-starts part [] h =
    let (u, e) = (starts_with_iff [] part).0 h in (eq_iff part []).1 (prefix-nil part u e)
contains_text-starts part (c ∷ s) h = or_left _ _ h

contains_text_nil : (part : String) → contains_text part [] ≡ true → (part == []) ≡ true
unfolding contains_text
contains_text_nil part h = h

pub contains_text-append_right :
    (part s t : String) → contains_text part t ≡ true → contains_text part (s ++ t) ≡ true
contains_text-append_right part [] t h = rw (nil-append t) h
contains_text-append_right part (c ∷ s) t h =
    rw (cons-append c s t, contains_text-cons part c (s ++ t))
      (or_right _ _ (contains_text-append_right part s t h))

pub contains_text-append_left :
    (part s t : String) → contains_text part s ≡ true → contains_text part (s ++ t) ≡ true
contains_text-append_left part [] t h =
    subst (λ p. contains_text p ([] ++ t) ≡ true)
      (sym ((eq_iff part []).0 (contains_text_nil part h)))
      (contains_text-starts [] ([] ++ t) (starts_with-append [] t))
contains_text-append_left part (c ∷ s) t h =
    elim (or_cases (starts_with (c ∷ s) part) (contains_text part s)
      (sym (contains_text-cons part c s) ∙ h)) [
        | inl first ↦
            contains_text-starts part ((c ∷ s) ++ t) (starts_with-append_left part (c ∷ s) t first)
        | inr later ↦
            rw (cons-append c s t, contains_text-cons part c (s ++ t))
              (or_right _ _ (contains_text-append_left part s t later))
      ]

-- One of the lines holds the part.
abbrev pub AnyHolds : String → List String → Type 0
AnyHolds part List.[] = ⊥
AnyHolds part (List.◌∷◌ line lines) = (contains_text part line ≡ true) ⊎ AnyHolds part lines

-- What a line holds is in the joined lines.
pub contains_text-join :
    (part sep : String) (lines : List String)
    → AnyHolds part lines
    → contains_text part (join sep lines) ≡ true
unfolding join
contains_text-join part sep List.[] h = absurd h
contains_text-join part sep (List.◌∷◌ line List.[]) (inl h) = h
contains_text-join part sep (List.◌∷◌ line List.[]) (inr h) = absurd h
contains_text-join part sep (List.◌∷◌ line (List.◌∷◌ next lines)) (inl h) =
    contains_text-append_left part line (sep ++ join sep (List.◌∷◌ next lines)) h
contains_text-join part sep (List.◌∷◌ line (List.◌∷◌ next lines)) (inr h) =
    contains_text-append_right part line (sep ++ join sep (List.◌∷◌ next lines)) (
      contains_text-append_right part sep (join sep (List.◌∷◌ next lines))
        (contains_text-join part sep (List.◌∷◌ next lines) h))
