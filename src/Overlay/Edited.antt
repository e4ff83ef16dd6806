-- ===== src/Overlay/Edited.antt =====
-- The loop over the edited files: what is recorded of a file is what the file has in the end.
use infra_loop_kda.Base.{
  String, true, false, Option, none, some, List, [], ◌∷◌, ◌++◌, ◌==◌, ◌≡◌, refl, sym, ◌∙◌, ap,
  subst, ◌⊎◌, arith, contains, Bool-cases, inl, inr, eq_iff, eq_refl,
}
use infra_loop_kda.Base.Outcome.{ok, >>=-eq-ok, ok_injective}
use infra_loop_kda.Overlay.Anchor.{Edit}
use infra_loop_kda.Overlay.{
  Tree, Hashes, Changed, relpaths, group, apply_all, store, edit_file, edit_files, files_problems,
}
use infra_loop_kda.Overlay.Stored.{
  store_same, store_new, store-kept, files_problems-nil, store-recorded, files_problems-append,
}

-- No path is listed twice.
abbrev pub Distinct : List String → Type 0
Distinct [] = Unit
Distinct (x ∷ xs) = (contains x xs ≡ false) × Distinct xs

pub relpaths-fresh :
    (x : String) (seen : List String) (edits : List Edit)
    → contains x seen ≡ true
    → contains x (relpaths seen edits) ≡ false
unfolding relpaths
relpaths-fresh x seen [] h = refl
relpaths-fresh x seen (edit ∷ edits) h = elim (Bool-cases (contains edit.relpath seen)) [
  | inl known ↦ rw known (relpaths-fresh x seen edits h)
  | inr new ↦
      let other : (edit.relpath == x) ≡ false = differs (Bool-cases (edit.relpath == x)) new in
      rw (new, other) (relpaths-fresh x (edit.relpath ∷ seen) edits (rw other h))
]
  where
    differs :
        ((edit.relpath == x) ≡ true) ⊎ ((edit.relpath == x) ≡ false)
        → contains edit.relpath seen ≡ false
        → (edit.relpath == x) ≡ false
    differs (inl same) new =
        absurd (cc (subst (λ y. contains y seen ≡ false) ((eq_iff edit.relpath x).0 same) new))
    differs (inr other) new = other

pub relpaths-Distinct : (seen : List String) (edits : List Edit) → Distinct (relpaths seen edits)
unfolding relpaths
relpaths-Distinct seen [] = tt
relpaths-Distinct seen (edit ∷ edits) = elim (Bool-cases (contains edit.relpath seen)) [
  | inl known ↦ rw known (relpaths-Distinct seen edits)
  | inr new ↦ rw new (
    relpaths-fresh edit.relpath (edit.relpath ∷ seen) edits (rw (eq_refl edit.relpath) refl),
    relpaths-Distinct (edit.relpath ∷ seen) edits,
  )
]

module _ (h : Hashes) where
  -- One round of the loop that returned.
  abbrev pub Edited : List Edit → Tree → String → Tree × Changed → Type 0
  Edited edits tree p first =
      (original : String) × (edited : String) × (first ≡ store h tree p original edited)

  pub edit_file-Edited :
      (edits : List Edit) (tree : Tree) (p : String) (found : Option String)
      {first : Tree × Changed}
      → edit_file h edits tree p found ≡ ok first
      → Edited edits tree p first
  unfolding edit_file
  edit_file-Edited edits tree p none e = cc
  edit_file-Edited edits tree p (some original) e =
      let (edited, applied, stored) = >>=-eq-ok (apply_all (group p edits) original) _ e in
      (original, edited, sym (ok_injective stored))

  -- The first round and the rest.
  abbrev pub Rounds : List Edit → Tree → String → List String → Tree × Changed → Type 0
  Rounds edits tree p ps out =
      (original : String) × (edited : String) × (others : Tree × Changed) × (edit_files h edits ps
          (store h tree p original edited).0
        ≡ ok others)
      × (out ≡ (others.0, (store h tree p original edited).1 ++ others.1))

  pub edit_files-Rounds :
      (edits : List Edit) (p : String) (ps : List String) (tree : Tree) {out : Tree × Changed}
      → edit_files h edits (p ∷ ps) tree ≡ ok out
      → Rounds edits tree p ps out
  unfolding edit_files
  edit_files-Rounds edits p ps tree {out = out} e =
      let (first, one, more) = >>=-eq-ok (edit_file h edits tree p (tree p)) _ e in
      let (others, rest, made) = >>=-eq-ok (edit_files h edits ps first.0) _ more in
      let (original, edited, stored) = edit_file-Edited edits tree p (tree p) one in
      subst
        (λ (f : Tree × Changed).
          (edit_files h edits ps f.0 ≡ ok others)
          → (out ≡ (others.0, f.1 ++ others.1))
          → Rounds edits tree p ps out)
        (sym stored) (λ r m. (original, edited, others, r, m)) rest (sym (ok_injective made))

  pub edit_files-kept :
      (edits : List Edit) (ps : List String) (tree : Tree) {out : Tree × Changed} (x : String)
      → contains x ps ≡ false
      → edit_files h edits ps tree ≡ ok out
      → out.0 x ≡ tree x
  unfolding edit_files
  edit_files-kept edits [] tree x fresh e =
      ap (λ (out : Tree × Changed). out.0 x) (sym (ok_injective e))
  edit_files-kept edits (p ∷ ps) tree x fresh e =
      let (original, edited, others, rest, made) = edit_files-Rounds edits p ps tree e in
      ap (λ (out : Tree × Changed). out.0 x) made
      ∙ (edit_files-kept edits ps (store h tree p original edited).0 x (ground arith) rest
          ∙ store-kept h tree p original edited x (ground arith))

  -- The hash recorded of an edited file is the one that the file has after all edits.
  pub edit_files-recorded :
      (edits : List Edit) (ps : List String) (tree : Tree) {out : Tree × Changed}
      → Distinct ps
      → edit_files h edits ps tree ≡ ok out
      → files_problems h out.0 out.1 ≡ []
  unfolding edit_files
  edit_files-recorded edits [] tree distinct e =
      ap (λ (out : Tree × Changed). files_problems h out.0 out.1) (sym (ok_injective e))
      ∙ files_problems-nil h tree
  edit_files-recorded edits (p ∷ ps) tree distinct e =
      let (original, edited, others, rest, made) = edit_files-Rounds edits p ps tree e in
      ap (λ (out : Tree × Changed). files_problems h out.0 out.1) made
      ∙ files_problems-append h others.0 (store h tree p original edited).1 others.1
          (store-recorded h tree p original edited others.0
            (edit_files-kept edits ps (store h tree p original edited).0 p distinct.0 rest))
          (edit_files-recorded edits ps (store h tree p original edited).0 distinct.1 rest)

  pub store-present :
      (tree : Tree) (p original edited x : String) {content : String}
      → tree x ≡ some content
      → (now : String) × ((store h tree p original edited).0 x ≡ some now)
  store-present tree p original edited x {content = content} e =
      elim (Bool-cases (edited == original)) [
        | inl same ↦ (content, ap (λ made. made.0 x) (store_same h tree p original edited same) ∙ e)
        | inr new ↦ elim (Bool-cases (p == x)) [
          | inl here ↦ (
            edited,
            ap (λ made. made.0 x) (store_new h tree p original edited new) ∙ rw here refl,
          )
          | inr other ↦ (content, store-kept h tree p original edited x other ∙ e)
        ]
      ]

  pub edit_files-present :
      (edits : List Edit) (ps : List String) (tree : Tree) {out : Tree × Changed} (x : String)
      {content : String}
      → tree x ≡ some content
      → edit_files h edits ps tree ≡ ok out
      → (now : String) × (out.0 x ≡ some now)
  unfolding edit_files
  edit_files-present edits [] tree x {content = content} there e =
      (content, ap (λ (out : Tree × Changed). out.0 x) (sym (ok_injective e)) ∙ there)
  edit_files-present edits (p ∷ ps) tree x there e =
      let (original, edited, others, rest, made) = edit_files-Rounds edits p ps tree e in
      let (next, stored) = store-present tree p original edited x there in
      let (now, last) = edit_files-present edits ps _ x stored rest in
      (now, ap (λ (out : Tree × Changed). out.0 x) made ∙ last)
