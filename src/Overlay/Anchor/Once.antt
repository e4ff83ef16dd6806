-- ===== src/Overlay/Anchor/Once.antt =====
-- An edit replaces one occurrence of its anchor, after which the anchor does not occur again.
use Prim.Native.Char.{Char}
use text.Mathlib.Text.{starts_with}
use text.Mathlib.TextEquality.{eq_iff, starts_with_iff}
use text.Mathlib.TextLemmas.{cons-append, nil-append, cons≢nil}
use infra_loop_kda.Base.{
  ℕ, zero, suc, ◌-◌, nat_beq, String, ◌<>◌, Bool, true, false, some, ◌==◌, ◌≡◌, refl, sym, ◌∙◌, ap,
  arith, Bool-cases, inl, inr, if◌then◌else◌,
}
use infra_loop_kda.Base.Text.{contains_text}
use infra_loop_kda.Base.Outcome.{Error, ok, err, ok_injective}
use infra_loop_kda.Overlay.Anchor.{
  Edit, characters, count_from, drop_text, find_split, replace_first, apply,
}

drop_text-append : (p u : String) → drop_text (characters p) (p <> u) ≡ u
unfolding drop_text
drop_text-append String.[] u = nil-append u
drop_text-append (String.◌∷◌ c p) u = rw (cons-append c p u) (drop_text-append p u)

count_from-skip :
    (part : String) (k : ℕ) (s : String) → count_from part k s ≡ count_from part 0 (drop_text k s)
unfolding count_from drop_text
count_from-skip part zero String.[] = refl
count_from-skip part zero (String.◌∷◌ c s) = refl
count_from-skip part (suc k) String.[] = refl
count_from-skip part (suc k) (String.◌∷◌ c s) = count_from-skip part k s

count_found :
    (part : String) (c : Char) (s : String)
    → starts_with (String.◌∷◌ c s) part ≡ true
    → count_from part 0 (String.◌∷◌ c s) ≡ suc (count_from part (characters part - 1) s)
unfolding count_from
count_found part c s h = rw h refl

count_passed :
    (part : String) (c : Char) (s : String)
    → starts_with (String.◌∷◌ c s) part ≡ false
    → count_from part 0 (String.◌∷◌ c s) ≡ count_from part 0 s
unfolding count_from
count_passed part c s h = rw h refl

count_zero-absent : (part s : String) → count_from part 0 s ≡ 0 → contains_text part s ≡ false
unfolding contains_text count_from
count_zero-absent part String.[] h = ground arith
count_zero-absent part (String.◌∷◌ c s) h = elim (Bool-cases (starts_with (String.◌∷◌ c s) part)) [
  | inl found ↦ absurd (let e = count_found part c s found in omega arith)
  | inr passed ↦ rw passed (count_zero-absent part s (sym (count_passed part c s passed) ∙ h))
]

-- The split of a text that the part occurs in once.
abbrev SplitsOnce : String → String → Type 0
SplitsOnce part s =
    (before : String) × (after : String) × (find_split part s ≡ some (before, after))
    × (s ≡ before <> (part <> after))
    × (contains_text part after ≡ false)

head_occurrence :
    (d : Char) (p : String) (c : Char) (s u : String)
    → count_from (String.◌∷◌ d p) (characters p) s ≡ 0
    → String.◌∷◌ d p <> u ≡ String.◌∷◌ c s
    → (drop_text (characters (String.◌∷◌ d p)) (String.◌∷◌ c s) ≡ u)
      × (contains_text (String.◌∷◌ d p) u ≡ false)
unfolding drop_text
head_occurrence d p c s u none_left e =
    let dropped : drop_text (characters p) s ≡ u =
      ap (drop_text (suc (characters p))) (sym e) ∙ drop_text-append (String.◌∷◌ d p) u in
    (
      dropped,
      count_zero-absent (String.◌∷◌ d p) u (
          ap (count_from (String.◌∷◌ d p) 0) (sym dropped)
          ∙ (sym (count_from-skip (String.◌∷◌ d p) (characters p) s) ∙ none_left)),
    )

find_split-once :
    (d : Char) (p s : String) → count_from (String.◌∷◌ d p) 0 s ≡ 1 → SplitsOnce (String.◌∷◌ d p) s
unfolding find_split count_from
find_split-once d p String.[] h =
    let empty : (String.◌∷◌ d p == "") ≡ true = ground arith in
    absurd (cons≢nil ((eq_iff (String.◌∷◌ d p) "").0 empty))
find_split-once d p (String.◌∷◌ c s) h =
    elim (Bool-cases (starts_with (String.◌∷◌ c s) (String.◌∷◌ d p))) [
      | inl found ↦
          let (u, e) = (starts_with_iff (String.◌∷◌ c s) (String.◌∷◌ d p)).0 found in
          let shift : suc (characters p) - 1 ≡ characters p = omega arith in
          let left =
            ap (λ k. suc (count_from (String.◌∷◌ d p) k s)) (sym shift)
            ∙ (sym (count_found (String.◌∷◌ d p) c s found) ∙ h) in
          let (dropped, absent) = head_occurrence d p c s u (omega arith) e in
          ("", u, rw (found, dropped) refl, sym (nil-append _ ∙ e), absent)
      | inr passed ↦
          let (before, after, split, parts, absent) =
            find_split-once d p s (sym (count_passed (String.◌∷◌ d p) c s passed) ∙ h) in
          (
            String.◌∷◌ c before,
            after,
            rw (passed, split) refl,
            ap (String.◌∷◌ c) parts ∙ sym (cons-append c before _),
            absent,
          )
    ]

find_split_single :
    (part s : String) → (part == "") ≡ false → count_from part 0 s ≡ 1 → SplitsOnce part s
find_split_single String.[] s nonempty h = cc
find_split_single (String.◌∷◌ d p) s nonempty h = find_split-once d p s h

replace-split :
    (part replacement s : String) {before after : String}
    → find_split part s ≡ some (before, after)
    → replace_first part replacement s ≡ before <> (replacement <> after)
unfolding replace_first
replace-split part replacement s h = rw (replace_first, h) refl

-- The test that `apply` makes.
single :
    (b : Bool) (out replaced : String) (e : Error)
    → (if b then ok replaced else err e) ≡ ok out
    → (b ≡ true) × (replaced ≡ out)
single true out replaced e h = (refl, ok_injective h)
single false out replaced e h = cc

-- What an edit with an anchor that is not empty returns is the text with one occurrence of the
-- anchor replaced, and after that occurrence the anchor does not occur; all else is unchanged.
pub apply-once :
    (edit : Edit) (content out : String)
    → (edit.anchor == "") ≡ false
    → apply edit content ≡ ok out
    → (before : String) × (after : String) × (content ≡ before <> (edit.anchor <> after))
      × (out ≡ before <> (edit.replacement <> after))
      × (contains_text edit.anchor after ≡ false)
unfolding apply
apply-once edit content out nonempty h =
    let (once, made) =
      single (nat_beq (count_from edit.anchor 0 content) 1) out
        (replace_first edit.anchor edit.replacement content) _ h in
    let count : count_from edit.anchor 0 content ≡ 1 = ground arith in
    let (before, after, split, parts, absent) =
      find_split_single edit.anchor content nonempty count in
    (
      before,
      after,
      parts,
      sym made ∙ replace-split edit.anchor edit.replacement content split,
      absent,
    )
