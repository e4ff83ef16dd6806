-- ===== src/Paths/Contained.antt =====
-- What `safe_join` returns lies below its root, and no component below the root is a link.
use infra_loop_kda.Base.{
  String, Bool, true, false, ◌||◌, List, [], ◌∷◌, ◌++◌, ◌==◌, ◌≡◌, refl, ◌∙◌, ap, subst, All,
  All-append, arith, sym, contains, Option, none, some, Bool-cases, inl, inr, eq_refl,
}
use infra_loop_kda.Base.Text.{contains_char}
use infra_loop_kda.Base.Outcome.{ok, ◌>>=◌, >>=-eq-ok, ok_injective}
use infra_loop_kda.Paths.Normal.{normal_parts-names, IsName}
use infra_loop_kda.Paths.{
  drop_skipped, parts_of, is_absolute, safe_relative, Link, plain, contains_symlink, is_below,
  check_links, safe_join,
}

is_skipped-IsName : (c : String) → (c == "" || c == ".") ≡ false → (c == "..") ≡ false → IsName c
is_skipped-IsName c h k = ground arith

drop_skipped-IsName :
    (comps : List String)
    → contains ".." (drop_skipped comps) ≡ false
    → All IsName (drop_skipped comps)
unfolding drop_skipped
drop_skipped-IsName [] h = tt
drop_skipped-IsName (c ∷ comps) h = elim (Bool-cases (c == "" || c == ".")) [
  | inl skip ↦ rw skip (drop_skipped-IsName comps (rw skip at h))
  | inr keep ↦
      let k : (c == ".." || contains ".." (drop_skipped comps)) ≡ false = rw keep at h in
      rw keep (is_skipped-IsName c keep (ground arith), drop_skipped-IsName comps (ground arith))
]

is_below-append : (root rest : List String) → is_below root (root ++ rest) ≡ true
unfolding is_below
is_below-append [] rest = refl
is_below-append (r ∷ root) rest = rw (eq_refl r) (is_below-append root rest)

parts_of-IsName : (raw : String) → contains ".." (parts_of raw) ≡ false → All IsName (parts_of raw)
unfolding parts_of
parts_of-IsName raw h = drop_skipped-IsName _ h

check_links-none :
    (found : Option String) {t : Unit {0}} → check_links false found ≡ ok t → found ≡ none
unfolding check_links
check_links-none none h = refl
check_links-none (some at) h = cc

-- What `safe_relative` has checked.
pub record Relative (raw : String) (parts : List String) : Type 0 where
  pub relative : is_absolute raw ≡ false
  pub same : parts_of raw ≡ parts
  pub names : All IsName parts
  pub no_nul : contains_char 0 raw ≡ false

pub safe_relative-Relative :
    (raw : String) {parts : List String} → safe_relative raw ≡ ok parts → Relative raw parts
unfolding safe_relative
safe_relative-Relative raw h = record {
  relative = ground arith;
  same = ground arith;
  names = subst (All IsName) (ground arith) (parts_of-IsName raw (ground arith));
  no_nul = ground arith;
}

-- Every component of a list is a real entry, walking down from a directory.
abbrev pub PlainBelow : (List String → Link) → List String → List String → Type 0
PlainBelow link current [] = Unit
PlainBelow link current (part ∷ parts) =
    (link (current ++ part ∷ []) ≡ plain) × PlainBelow link (current ++ part ∷ []) parts

contains_symlink-none :
    (link : List String → Link) (current parts : List String)
    → contains_symlink link current parts ≡ none
    → PlainBelow link current parts
unfolding contains_symlink
contains_symlink-none link current [] h = tt
contains_symlink-none link current (part ∷ parts) h =
    (ground arith, contains_symlink-none link (current ++ part ∷ []) parts (ground arith))

module _ (link : List String → Link) (root : List String) (raw : String)
    (names : All IsName root) where
  -- Where the root is a path of names, the only exits of `safe_join` after `safe_relative` are the
  -- refusal of a link and the root followed by the components of the path: the test for an escape
  -- never fires.
  pub safe_join_exits :
      (allow_symlink : Bool) {parts : List String}
      → safe_relative raw ≡ ok parts
      → safe_join link root raw allow_symlink
        ≡ (check_links allow_symlink (contains_symlink link root parts) >>= λ _. ok (root ++ parts))
  unfolding safe_join
  safe_join_exits allow_symlink {parts} h =
      let r = safe_relative-Relative raw h in
      let normal =
        normal_parts-names true (root ++ parts) (All-append IsName root parts names r.names) in
      rw (h, normal, is_below-append root parts) refl

  relative_of_join :
      {path : List String}
      → safe_join link root raw false ≡ ok path
      → (parts : List String) × (safe_relative raw ≡ ok parts)
  unfolding safe_join
  relative_of_join h = let (parts, is, _) = >>=-eq-ok (safe_relative raw) _ h in (parts, is)

  -- A path that `safe_join` returns without links allowed is the root followed by the components of
  -- a relative path, none of which is `..`, and every directory entry on the way down from the root
  -- is readable and no link.
  pub safe_join-PlainBelow :
      {path : List String}
      → safe_join link root raw false ≡ ok path
      → (is_absolute raw ≡ false)
        × (path ≡ root ++ parts_of raw)
        × All IsName (parts_of raw)
        × PlainBelow link root (parts_of raw)
  safe_join-PlainBelow {path} h =
      let (parts, is) = relative_of_join h in
      let r = safe_relative-Relative raw is in
      let (_, links, joined) =
        >>=-eq-ok (check_links false (contains_symlink link root parts)) _
          (sym (safe_join_exits false is) ∙ h) in
      (
        r.relative,
        sym (ok_injective joined) ∙ ap (λ p. root ++ p) (sym r.same),
        subst (All IsName) (sym r.same) r.names,
        subst (PlainBelow link root) (sym r.same)
            (contains_symlink-none link root parts (check_links-none _ links)),
      )
