-- ===== src/Overlay/Stored.antt =====
-- What the overlay has of a file after its edits, and the hash that is recorded of it.
use infra_loop_kda.Base.{
  String, true, false, not, some, [], ◌∷◌, ◌++◌, ◌==◌, ◌≡◌, refl, ◌∙◌, ap, append-eq_nil,
  Bool-cases, inl, inr, eq_refl,
}
use infra_loop_kda.Overlay.{
  Tree, Hashes, Problem, Changed, write, hash_at, store, when, file_problems, files_problems,
}

pub write_same : (p content : String) (tree : Tree) → write p content tree p ≡ some content
write_same p content tree = rw (eq_refl p) refl

pub write_other :
    (p content : String) (tree : Tree) (q : String)
    → (p == q) ≡ false
    → write p content tree q ≡ tree q
write_other p content tree q h = rw h refl

module _ (h : Hashes) where
  pub store_same :
      (tree : Tree) (p original edited : String)
      → (edited == original) ≡ true
      → store h tree p original edited ≡ (tree, [])
  unfolding store
  store_same tree p original edited same = rw same refl

  pub store_new :
      (tree : Tree) (p original edited : String)
      → (edited == original) ≡ false
      → store h tree p original edited ≡ (write p edited tree, (p, h.sha256 edited) ∷ [])
  unfolding store
  store_new tree p original edited new = rw new refl

  pub store-kept :
      (tree : Tree) (p original edited x : String)
      → (p == x) ≡ false
      → (store h tree p original edited).0 x ≡ tree x
  store-kept tree p original edited x other = elim (Bool-cases (edited == original)) [
    | inl same ↦ ap (λ made. made.0 x) (store_same tree p original edited same)
    | inr new ↦
        ap (λ made. made.0 x) (store_new tree p original edited new)
        ∙ write_other p edited tree x other
  ]

  pub when_self : (a : String) (problem : Problem) → when (not (a == a)) problem ≡ []
  when_self a problem = rw (eq_refl a) refl

  pub hash_at-some :
      (tree : Tree) (p content : String)
      → tree p ≡ some content
      → hash_at h tree p ≡ some (h.sha256 content)
  unfolding hash_at
  hash_at-some tree p content e = rw (hash_at, e) refl

  pub file_problems-same :
      (tree : Tree) (p content : String)
      → tree p ≡ some content
      → files_problems h tree ((p, h.sha256 content) ∷ []) ≡ []
  unfolding files_problems file_problems
  file_problems-same tree p content e =
      rw (hash_at-some tree p content e, when_self (h.sha256 content) (Problem.file_differs p)) refl

  pub files_problems-nil : (tree : Tree) → files_problems h tree [] ≡ []
  unfolding files_problems
  files_problems-nil tree = refl

  pub store-recorded :
      (tree : Tree) (p original edited : String) (later : Tree)
      → later p ≡ (store h tree p original edited).0 p
      → files_problems h later (store h tree p original edited).1 ≡ []
  store-recorded tree p original edited later e = elim (Bool-cases (edited == original)) [
    | inl same ↦
        ap (λ made. files_problems h later made.1) (store_same tree p original edited same)
        ∙ files_problems-nil later
    | inr new ↦
        let made = store_new tree p original edited new in
        ap (λ made. files_problems h later made.1) made
        ∙ file_problems-same later p edited
            (e ∙ (ap (λ made. made.0 p) made ∙ write_same p edited tree))
  ]

  pub files_problems-append :
      (tree : Tree) (a b : Changed)
      → files_problems h tree a ≡ []
      → files_problems h tree b ≡ []
      → files_problems h tree (a ++ b) ≡ []
  unfolding files_problems
  files_problems-append tree [] b ha hb = hb
  files_problems-append tree ((p, recorded) ∷ a) b ha hb =
      let (first, rest) = append-eq_nil (file_problems (hash_at h tree p) p recorded) _ ha in
      rw first (files_problems-append tree a b rest hb)
