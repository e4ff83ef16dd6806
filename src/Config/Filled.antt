-- ===== src/Config/Filled.antt =====
-- The placeholders that are reported are those that stand in the document.
use infra_loop_kda.Base.{
  ℕ, suc, ◌+◌, String, ◌<>◌, List, [], ◌∷◌, ◌++◌, ◌≡◌, refl, length, length-append, arith,
  Bool-cases, inl, inr, if◌then◌else◌,
}
use infra_loop_kda.Base.Text.{decimal}
use infra_loop_kda.Json.{
  Json, null, bool, int, text, array, object, Items, nil, cons, Fields, end, field,
}
use infra_loop_kda.Config.{
  is_placeholder, child_prefix, find_placeholders, field_placeholders, item_placeholders,
}

-- Every text of a document that is a value, in order.
unfoldable mutual
  pub texts_of : Json → List String
  texts_of (object m) = field_texts m
  texts_of (array vs) = item_texts vs
  texts_of (text s) = s ∷ []
  texts_of null = []
  texts_of (bool b) = []
  texts_of (int z) = []

  pub field_texts : Fields → List String
  field_texts end = []
  field_texts (field key v m) = texts_of v ++ field_texts m

  pub item_texts : Items → List String
  item_texts nil = []
  item_texts (cons v vs) = texts_of v ++ item_texts vs

abbrev pub placeholder_count : List String → ℕ
placeholder_count [] = 0
placeholder_count (s ∷ ss) = (if is_placeholder s then 1 else 0) + placeholder_count ss

placeholder_count-append :
    (ss ts : List String)
    → placeholder_count (ss ++ ts) ≡ placeholder_count ss + placeholder_count ts
placeholder_count-append [] ts = omega arith
placeholder_count-append (s ∷ ss) ts = omega (arith, placeholder_count-append ss ts)

length-append-count :
    (xs ys ss ts : List String)
    → length xs ≡ placeholder_count ss
    → length ys ≡ placeholder_count ts
    → length (xs ++ ys) ≡ placeholder_count (ss ++ ts)
length-append-count xs ys ss ts h k =
    omega (arith, length-append xs ys, placeholder_count-append ss ts)

mutual
  unfolding find_placeholders texts_of

  length-found :
      (v : Json) (prefix : String)
      → length (find_placeholders v prefix) ≡ placeholder_count (texts_of v)
  length-found (object m) prefix = length-field_placeholders m prefix
  length-found (array vs) prefix = length-item_placeholders vs prefix 0
  length-found (text s) prefix = elim (Bool-cases (is_placeholder s)) [
    | inl is ↦ rw is refl
    | inr filled ↦ rw filled refl
  ]
  length-found null prefix = refl
  length-found (bool b) prefix = refl
  length-found (int z) prefix = refl

  length-field_placeholders :
      (m : Fields) (prefix : String)
      → length (field_placeholders m prefix) ≡ placeholder_count (field_texts m)
  length-field_placeholders end prefix = refl
  length-field_placeholders (field key v m) prefix =
      length-append-count (find_placeholders v (child_prefix prefix key))
        (field_placeholders m prefix) (texts_of v) (field_texts m)
        (length-found v (child_prefix prefix key)) (length-field_placeholders m prefix)

  length-item_placeholders :
      (vs : Items) (prefix : String) (index : ℕ)
      → length (item_placeholders vs prefix index) ≡ placeholder_count (item_texts vs)
  length-item_placeholders nil prefix index = refl
  length-item_placeholders (cons v vs) prefix index =
      length-append-count (find_placeholders v (prefix <> "[" <> decimal index <> "]"))
        (item_placeholders vs prefix (suc index)) (texts_of v) (item_texts vs)
        (length-found v (prefix <> "[" <> decimal index <> "]"))
        (length-item_placeholders vs prefix (suc index))

-- The report of a document has as many entries as the document has texts, at any depth, that contain
-- `<` and `>`, whatever the prefix; so it is empty exactly where no placeholder is left.
pub length-find_placeholders :
    (v : Json) (prefix : String)
    → length (find_placeholders v prefix) ≡ placeholder_count (texts_of v)
length-find_placeholders v prefix = length-found v prefix
