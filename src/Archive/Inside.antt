-- ===== src/Archive/Inside.antt =====
-- What an archive that `safe_extract` lets through can name: entries below the destination only.
use mathlib.Core.List.{reverse, reverse-append}
use infra_loop_kda.Base.{
  ◌≡◌, refl, sym, ap, subst, ◌∙◌, ◌⊎◌, inl, inr, String, true, false, ◌||◌, List, [], ◌∷◌, ◌++◌,
  ◌==◌, All, All-append, is_empty, arith, Bool-cases, eq_iff, if◌then◌else◌,
}
use infra_loop_kda.Base.Text.{split_on}
use infra_loop_kda.Base.Outcome.{ok, >>=-eq-ok}
use infra_loop_kda.Paths.{is_absolute}
use infra_loop_kda.Paths.Normal.{normal_step, normal_loop, normal_parts, ends_up, pop, IsName}
use infra_loop_kda.Archive.{
  symbolic_link, hard_link, Member, normal, climbs, parent, resolved, link_escapes, is_special,
  has_bad_link, check_member, safe_extract,
}

-- The stack of `normpath` on a relative path, last component first: names only, or `..` at the
-- bottom.
Stack : List String → Type 0
Stack s = All IsName s ⊎ ((t : List String) × (s ≡ t ++ ".." ∷ []))

push-Stack : (c : String) (s : List String) → IsName c → Stack s → Stack (c ∷ s)
unfolding Stack
push-Stack c s n (inl a) = inl (n, a)
push-Stack c s n (inr (t, e)) = inr (c ∷ t, ap (λ r. c ∷ r) e)

pop-Stack : (x : String) (s : List String) → (x == "..") ≡ false → Stack (x ∷ s) → Stack s
unfolding Stack
pop-Stack x s n (inl a) = inl a.1
pop-Stack x s n (inr ([], e)) =
    let same : x ≡ ".." = cc in absurd_eq (sym n ∙ ap (λ r. r == "..") same)
  where
    absurd_eq : false ≡ true → Stack s
    absurd_eq h = cc
pop-Stack x s n (inr (y ∷ t, e)) = inr (t, cc)

up-Stack :
    (x : String) (s : List String) → (x == "..") ≡ true → Stack (x ∷ s) → Stack (".." ∷ x ∷ s)
unfolding Stack
up-Stack x s u (inl a) = ground arith
up-Stack x s u (inr (t, e)) = inr (".." ∷ t, ap (λ r. ".." ∷ r) e)

dots-Stack :
    (s : List String) → Stack s → Stack (if is_empty s || ends_up s then ".." ∷ s else pop s)
unfolding Stack
dots-Stack [] st = inr ([], refl)
dots-Stack (x ∷ s) st = elim (Bool-cases (x == "..")) [
  | inl u ↦ rw u (up-Stack x s u st)
  | inr n ↦ rw n (pop-Stack x s n st)
]

normal_step-Stack : (s : List String) (c : String) → Stack s → Stack (normal_step false s c)
unfolding normal_step
normal_step-Stack s c st = elim (Bool-cases (c == "" || c == ".")) [
  | inl e ↦ rw e st
  | inr n ↦ elim (Bool-cases (c == "..")) [
    | inl u ↦
        subst (λ d. Stack (normal_step false s d)) (sym ((eq_iff c "..").0 u)) (dots-Stack s st)
    | inr d ↦ rw (n, d) (push-Stack c s (ground arith) st)
  ]
]

All-reverse : (s : List String) → All IsName s → All IsName (reverse s)
All-reverse [] a = tt
All-reverse (c ∷ s) a =
    subst (All IsName) (sym (reverse-append (c ∷ []) s))
      (All-append IsName (reverse s) (c ∷ []) (All-reverse s a.1) (a.0, tt))

reverse-Stack : (s : List String) → Stack s → All IsName (reverse s) ⊎ (climbs (reverse s) ≡ true)
unfolding Stack
reverse-Stack s (inl a) = inl (All-reverse s a)
reverse-Stack s (inr (t, e)) =
    inr (ap (λ r. climbs (reverse r)) e ∙ ap climbs (reverse-append t (".." ∷ [])))

normal_loop-Stack :
    (s comps : List String)
    → Stack s
    → All IsName (normal_loop false s comps) ⊎ (climbs (normal_loop false s comps) ≡ true)
unfolding normal_loop
normal_loop-Stack s [] st = reverse-Stack s st
normal_loop-Stack s (c ∷ comps) st =
    normal_loop-Stack (normal_step false s c) comps (normal_step-Stack s c st)

-- A relative path that does not climb in its normal form consists of names.
pub normal_parts-IsName :
    (comps : List String)
    → climbs (normal_parts false comps) ≡ false
    → All IsName (normal_parts false comps)
unfolding normal_parts Stack
normal_parts-IsName comps n = elim (normal_loop-Stack [] comps (inl tt)) [ inl a ↦ a | inr c ↦ cc ]

-- An entry below the destination; a link's target is below it too, as the code resolves it.
pub record IsInside (member : Member) : Type 0 where
  pub relative : is_absolute member.name ≡ false
  pub names : All IsName (normal member.name)
  pub plain : is_special member.kind ≡ false
  pub linked :
      (target : String)
      → (member.kind ≡ symbolic_link target) ⊎ (member.kind ≡ hard_link target)
      → (is_absolute target ≡ false) × All IsName (resolved (normal member.name) target)

link_escapes-IsName :
    (path : List String) (target : String)
    → link_escapes path target ≡ false
    → (is_absolute target ≡ false) × All IsName (resolved path target)
unfolding link_escapes resolved
link_escapes-IsName path target h =
    (ground arith, normal_parts-IsName (parent path ++ split_on b'/' target) (ground arith))

check_member-IsInside : (member : Member) → check_member member ≡ ok tt → IsInside member
unfolding check_member has_bad_link
check_member-IsInside member h =
    let relative : is_absolute member.name ≡ false = ground arith in
    let low : climbs (normal member.name) ≡ false = ground arith in
    let fine : has_bad_link member.kind (normal member.name) ≡ false = ground arith in
    record {
      relative = relative;
      names =
          subst (λ b. All IsName (normal_parts b (split_on b'/' member.name))) (sym relative)
            (normal_parts-IsName (split_on b'/' member.name)
              (ap (λ b. climbs (normal_parts b (split_on b'/' member.name))) (sym relative) ∙ low));
      plain = ground arith;
      linked = λ target k. elim k [
        | inl e ↦ link_escapes-IsName (normal member.name) target (rw e at fine)
        | inr e ↦ link_escapes-IsName (normal member.name) target (rw e at fine)
      ];
    }

-- Every member of an archive that is extracted has a relative name whose normal form is a path of
-- names, none of them `..`, and is no device; and the target of a link is not absolute and, taken
-- from the directory of the link, has a normal form of that kind too.
pub safe_extract-IsInside :
    (members : List Member) → safe_extract members ≡ ok tt → All IsInside members
unfolding safe_extract
safe_extract-IsInside [] h = tt
safe_extract-IsInside (member ∷ members) h =
    let (_, first, rest) = >>=-eq-ok (check_member member) _ h in
    (check_member-IsInside member first, safe_extract-IsInside members rest)
