-- ===== src/Base/Split.antt =====
-- `str.split` at a slash, over a text that is put together.
use Prim.Native.Char.{Char, code}
use text.Mathlib.TextLemmas.{cons-append, nil-append, head-eq_of_cons-eq, tail-eq_of_cons-eq}
use infra_loop_kda.Base.{
  ℕ, String, ◌<>◌, false, List, [], ◌∷◌, ◌++◌, if◌then◌else◌, ◌≡◌, ◌≢◌, refl, sym, ap, ◌∙◌, Bool,
  ◌||◌, is_empty, nat_beq, Bool-cases, inl, inr, arith,
}
use infra_loop_kda.Base.Text.{split_on, push_char, contains_char}

push_char-append :
    (c : Char) (xs ys : List String)
    → is_empty xs ≡ false
    → push_char c (xs ++ ys) ≡ push_char c xs ++ ys
unfolding push_char
push_char-append c [] ys h = cc
push_char-append c (x ∷ xs) ys h = refl

is_empty-push_char : (c : Char) (xs : List String) → is_empty (push_char c xs) ≡ false
unfolding push_char
is_empty-push_char c [] = refl
is_empty-push_char c (x ∷ xs) = refl

is_empty-split_on : (k : ℕ) (s : String) → is_empty (split_on k s) ≡ false
unfolding split_on
is_empty-split_on k String.[] = refl
is_empty-split_on k (String.◌∷◌ c s) = elim (Bool-cases (nat_beq (code c) k)) [
  | inl e ↦ rw e refl
  | inr n ↦ rw n (is_empty-push_char c (split_on k s))
]

split_on-cons :
    (k : ℕ) (c : Char) (s : String)
    → split_on k (String.◌∷◌ c s)
      ≡ (if nat_beq (code c) k then "" ∷ split_on k s else push_char c (split_on k s))
unfolding split_on
split_on-cons k c s = refl

nil_case : (t : String) → split_on b'/' ("" <> ("/" <> t)) ≡ split_on b'/' "" ++ split_on b'/' t
unfolding split_on
nil_case t = rw (nil-append, cons-append, nil-append) refl

-- A text with a slash put between is split at that slash.
pub split_on-append :
    (s t : String) → split_on b'/' (s <> ("/" <> t)) ≡ split_on b'/' s ++ split_on b'/' t
split_on-append String.[] t = nil_case t
split_on-append (String.◌∷◌ c s) t =
    rw
      (
        cons-append c s ("/" <> t),
        split_on-cons b'/' c (s <> ("/" <> t)),
        split_on-cons b'/' c s,
        split_on-append s t,
      )
      (elim (Bool-cases (nat_beq (code c) b'/')) [
        | inl e ↦ rw e refl
        | inr n ↦ rw n (push_char-append c _ _ (is_empty-split_on b'/' s))
      ])

-- A text with no slash is not split.
pub split_on-no_slash : (s : String) → contains_char b'/' s ≡ false → split_on b'/' s ≡ s ∷ []
unfolding split_on contains_char push_char
split_on-no_slash String.[] h = refl
split_on-no_slash (String.◌∷◌ c s) h =
    let free : nat_beq (code c) b'/' ≡ false = ground arith in
    rw (free, split_on-no_slash s (ground arith)) refl

found : (d k : ℕ) (rest : Bool) → d ≡ k → (nat_beq d k || rest) ≢ false
found d k rest e = λ h. ground arith

-- Two texts that do not hold a character are the same where they stand before it in one text.
pub append_char_injective :
    (k : Char) (a b s t : String)
    → contains_char (code k) a ≡ false
    → contains_char (code k) b ≡ false
    → a <> String.◌∷◌ k s ≡ b <> String.◌∷◌ k t
    → (a ≡ b) × (s ≡ t)
unfolding contains_char
append_char_injective k String.[] String.[] s t ha hb e =
    (refl, tail-eq_of_cons-eq (sym (nil-append _) ∙ (e ∙ nil-append _)))
append_char_injective k String.[] (String.◌∷◌ d b) s t ha hb e =
    let same : k ≡ d = head-eq_of_cons-eq (sym (nil-append _) ∙ (e ∙ cons-append d b _)) in
    absurd (found (code d) (code k) _ (ap code (sym same)) hb)
append_char_injective k (String.◌∷◌ d a) String.[] s t ha hb e =
    let same : d ≡ k = head-eq_of_cons-eq (sym (cons-append d a _) ∙ (e ∙ nil-append _)) in
    absurd (found (code d) (code k) _ (ap code same) ha)
append_char_injective k (String.◌∷◌ c a) (String.◌∷◌ d b) s t ha hb e =
    let parts = sym (cons-append c a _) ∙ (e ∙ cons-append d b _) in
    let (first, rest) =
      append_char_injective k a b s t (ground arith) (ground arith) (tail-eq_of_cons-eq parts) in
    (ap (λ x. String.◌∷◌ x a) (head-eq_of_cons-eq parts) ∙ ap (String.◌∷◌ d) first, rest)
