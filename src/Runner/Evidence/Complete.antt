-- ===== src/Runner/Evidence/Complete.antt =====
-- What a complete artifact report says of the declared paths.
use infra_loop_kda.Base.{
  ℕ, zero, suc, ◌≡◌, ◌≢◌, refl, ap, subst, ◌∙◌, ◌⊎◌, inl, inr, sym, String, ◌<>◌, true, false,
  Option, none, some, List, [], ◌∷◌, map, is_empty, append-eq_nil, All, arith, Bool-cases,
}
use infra_loop_kda.Base.Outcome.{ok, >>=-eq-ok, ok_injective}
use infra_loop_kda.Json.{
  Json, null, bool, int, text, array, object, Items, nil, cons, Fields, get, values, keys_of,
  truthy,
}
use infra_loop_kda.Runner.Evidence.Summary.{Loaded, loaded, invalid, Problem, inspect_summary}
use infra_loop_kda.Runner.Evidence.Report.{
  Item, nothing, plain_file, folder, Findings, is_json, is_failed, read_file, add_file, add_folder,
  add_item, add_items, Report, is_complete, artifact_report, declared_paths, remapped, no_findings,
  in_directory, file_entry, texts_of, characters_of, path_text, name_of,
}
use infra_loop_kda.Runner.Evidence.Inspected.{IsEvidence, inspect_summary-IsEvidence}

-- A declared path that counts as complete: a file that is not empty, whose document, if it is named
-- as one, can be read and has no status but "passed"; or a directory with entries that is evidence.
abbrev pub IsGood : String → Item → Type 0
IsGood item nothing = true ≡ false
IsGood item (plain_file size sha256 document) =
    (size ≢ 0)
    × ((is_json item ≡ false)
        ⊎ ((payload : Fields) × (document ≡ loaded payload)
            × (is_failed (get "status" payload) ≡ false)))
IsGood item (folder file_count digest file) = (file_count ≢ 0) × IsEvidence file

suc_not_zero : (n : ℕ) → suc n ≢ 0
suc_not_zero n h = cc

read_file-IsGood :
    (item : String) (entry : Fields) (document : Loaded)
    → (read_file item entry document).0 ≡ []
    → (payload : Fields) × (document ≡ loaded payload) × (is_failed (get "status" payload) ≡ false)
unfolding read_file
read_file-IsGood item entry (invalid message) h = cc
read_file-IsGood item entry (loaded payload) h = (payload, refl, ground arith)

add_file-IsGood :
    (item : String) (n : ℕ) (sha : String) (document : Loaded) (found : Findings)
    → (add_file item (suc n) sha document found).missing ≡ []
    → (add_file item (suc n) sha document found).incomplete ≡ []
    → (found.missing ≡ []) × (found.incomplete ≡ []) × IsGood item (plain_file (suc n) sha document)
unfolding add_file
add_file-IsGood item n sha document found h k = elim (Bool-cases (is_json item)) [
  | inl j ↦
      let (a, b) = append-eq_nil found.incomplete _ (rw j at k) in
      (
        rw j at h,
        a,
        (suc_not_zero n, inr (read_file-IsGood item (file_entry (suc n) sha) document b)),
      )
  | inr j ↦ (rw j at h, rw j at k, (suc_not_zero n, inl j))
]

map_nil : (item : String) (ps : List Problem) → map (in_directory item) ps ≡ [] → ps ≡ []
map_nil item [] h = refl
map_nil item (p ∷ ps) h = cc

add_item-IsGood :
    (item : String) (x : Item) (found : Findings) {next : Findings}
    → add_item item x found ≡ ok next
    → next.missing ≡ []
    → next.incomplete ≡ []
    → (found.missing ≡ []) × (found.incomplete ≡ []) × IsGood item x
unfolding add_item add_folder
add_item-IsGood item nothing found made h k =
    let (a, b) = append-eq_nil found.missing _ (ap (λ f. f.missing) (ok_injective made) ∙ h) in cc
add_item-IsGood item (plain_file zero sha document) found made h k =
    let (a, b) = append-eq_nil found.missing _ (ap (λ f. f.missing) (ok_injective made) ∙ h) in cc
add_item-IsGood item (plain_file (suc n) sha document) found made h k =
    add_file-IsGood item n sha document found (ap (λ f. f.missing) (ok_injective made) ∙ h)
      (ap (λ f. f.incomplete) (ok_injective made) ∙ k)
add_item-IsGood item (folder zero digest file) found made h k =
    let (a, b) = append-eq_nil found.missing _ (ap (λ f. f.missing) (ok_injective made) ∙ h) in cc
add_item-IsGood item (folder (suc n) digest file) found made h k =
    let (info, inspected, added) = >>=-eq-ok (inspect_summary file) _ made in
    let (a, b) =
      append-eq_nil found.incomplete _ (ap (λ f. f.incomplete) (ok_injective added) ∙ k) in
    (
      ap (λ f. f.missing) (ok_injective added) ∙ h,
      a,
      (suc_not_zero n, inspect_summary-IsEvidence file inspected (map_nil item info.problems b)),
    )

add_items-IsGood :
    (disk : String → Item) (items : List String) (found : Findings) {last : Findings}
    → add_items disk items found ≡ ok last
    → last.missing ≡ []
    → last.incomplete ≡ []
    → (found.missing ≡ []) × (found.incomplete ≡ []) × All (λ item. IsGood item (disk item)) items
unfolding add_items
add_items-IsGood disk [] found made h k = (
  ap (λ f. f.missing) (ok_injective made) ∙ h,
  ap (λ f. f.incomplete) (ok_injective made) ∙ k,
  tt,
)
add_items-IsGood disk (item ∷ items) found made h k =
    let (next, one, others) = >>=-eq-ok (add_item item (disk item) found) _ made in
    let (a, b, rest) = add_items-IsGood disk items next others h k in
    let (c, d, first) = add_item-IsGood item (disk item) found one a b in (c, d, (first, rest))

empty_nil : {A : Type 0} (xs : List A) → is_empty xs ≡ true → xs ≡ []
empty_nil [] h = refl
empty_nil (x ∷ xs) h = cc

-- The paths that a manifest declares: the elements of a list, each a text, or what else Python
-- iterates over.
abbrev pub IsDeclared : Json → List String → Type 0
IsDeclared (array vs) paths = values vs ≡ map text paths
IsDeclared (object m) paths = paths ≡ keys_of m
IsDeclared (text s) paths = paths ≡ characters_of s
IsDeclared v paths = paths ≡ []

texts_of-map :
    (vs : Items) {paths : List String} → texts_of vs ≡ ok paths → values vs ≡ map text paths
unfolding texts_of
texts_of-map nil h = ap (map text) (ok_injective h)
texts_of-map (cons (text s) vs) h =
    let (rest, found, made) = >>=-eq-ok (texts_of vs) _ h in
    ap (λ xs. text s ∷ xs) (texts_of-map vs found) ∙ ap (map text) (ok_injective made)
texts_of-map (cons v vs) h = cc

declared_paths-IsDeclared :
    (v : Json) {paths : List String} → declared_paths v ≡ ok paths → IsDeclared v paths
unfolding declared_paths
declared_paths-IsDeclared (array vs) h = texts_of-map vs h
declared_paths-IsDeclared (object m) h = sym (ok_injective h)
declared_paths-IsDeclared (text s) h = sym (ok_injective h)
declared_paths-IsDeclared null h = sym (ok_injective h)
declared_paths-IsDeclared (bool true) h = cc
declared_paths-IsDeclared (bool false) h = sym (ok_injective h)
declared_paths-IsDeclared (int z) h = elim (Bool-cases (truthy (int z))) [
  | inl e ↦ cc (rw e at h)
  | inr e ↦ sym (ok_injective (rw e at h))
]

-- Where a declared path is looked for: under its name in the base, if one is given.
abbrev pub place_of : Option String → String → String
place_of none raw = path_text raw
place_of (some base) raw = path_text (base <> "/" <> name_of raw)

remapped-place_of : (base : Option String) (raw : String) → remapped base raw ≡ place_of base raw
unfolding remapped
remapped-place_of none raw = refl
remapped-place_of (some b) raw = refl

-- What is good in each place.
All-placed :
    (disk : String → Item) (base : Option String) (paths : List String)
    → All (λ item. IsGood item (disk item)) (map (remapped base) paths)
    → All (λ raw. IsGood (place_of base raw) (disk (place_of base raw))) paths
All-placed disk base [] h = tt
All-placed disk base (raw ∷ paths) (first, rest) = (
  subst (λ item. IsGood item (disk item)) (remapped-place_of base raw) first,
  All-placed disk base paths rest,
)

-- An artifact report is complete only if the manifest declares a path and every path that it
-- declares is, in its place on the disk, a file that is not empty, whose document can be read and has
-- no status but "passed" where the name ends in `.json`, or a directory with entries whose inspection
-- found it to be evidence.
pub artifact_report_complete :
    (disk : String → Item) (manifest : Fields) (base : Option String) {report : Report}
    → artifact_report disk manifest base ≡ ok report
    → is_complete report ≡ true
    → (paths : List String) × IsDeclared (get "expected_artifacts" manifest) paths
      × (paths ≢ [])
      × All (λ raw. IsGood (place_of base raw) (disk (place_of base raw))) paths
unfolding artifact_report is_complete
artifact_report_complete disk manifest base {report} made h =
    let (paths, declared, rest) =
      >>=-eq-ok (declared_paths (get "expected_artifacts" manifest)) _ made in
    let (found, added, is) =
      >>=-eq-ok (add_items disk (map (remapped base) paths) no_findings) _ rest in
    let same = ok_injective is in
    let found_is : found ≡ report.found = ap (λ r. r.found) same in
    let no_missing : report.found.missing ≡ [] = empty_nil report.found.missing (ground arith) in
    let none_incomplete : report.found.incomplete ≡ [] =
      empty_nil report.found.incomplete (ground arith) in
    let (_, _, good) =
      add_items-IsGood disk (map (remapped base) paths) no_findings added
        (ap (λ f. f.missing) found_is ∙ no_missing)
        (ap (λ f. f.incomplete) found_is ∙ none_incomplete) in
    (
      paths,
      declared_paths-IsDeclared (get "expected_artifacts" manifest) declared,
      λ none_declared.
          let declares : is_empty report.declared ≡ false = ground arith in
          cc (ap (λ r. is_empty r.declared) same),
      All-placed disk base paths good,
    )
