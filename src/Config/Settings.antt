-- ===== src/Config/Settings.antt =====
-- tools/k3/config.py, `_merge_defaults`: the defaults of a settings block and what overrides them.
use infra_loop_kda.Base.{
  String, Bool, true, false, ◌&&◌, Option, none, some, ◌==◌, ◌≡◌, refl, Bool-cases, inl, inr, arith,
  if◌then◌else◌, eq_iff, subst, sym, ap, ◌∙◌,
}
use infra_loop_kda.Json.{
  Json, null, bool, int, text, array, object, Fields, end, field, get, lookup, put,
}
use infra_loop_kda.Json.Laws.{lookup-put}

-- `isinstance(v, dict)`
abbrev pub is_dict : Json → Bool
is_dict (object m) = true
is_dict _ = false

-- `key in merged and isinstance(merged[key], dict)`
abbrev pub holds_dict : Option Json → Bool
holds_dict (some v) = is_dict v
holds_dict none = false

-- One round of the second loop.
unfoldable pub set_override : Fields → String → Json → Fields
unfolding lookup put
set_override merged key v =
    if holds_dict (lookup key merged) && is_dict v then merged else put key v merged

-- The second loop.
unfoldable pub set_overrides : Fields → Fields → Fields
unfolding set_override
set_overrides merged end = merged
set_overrides merged (field key v m) = set_overrides (set_override merged key v) m

unfoldable pub override_with : Fields → Json → Fields
unfolding set_overrides
override_with merged (object m) = set_overrides merged m
override_with merged v = merged

-- `override.get(key) if isinstance(override, dict) else None`
unfoldable pub child_of : String → Json → Json
unfolding get
child_of key (object m) = get key m
child_of key v = null

-- The first loop.
unfoldable pub default_fields : Fields → Json → Fields
unfolding child_of override_with
default_fields end override = end
default_fields (field key (object d) m) override =
    field key
      (object (override_with (default_fields d (child_of key override)) (child_of key override)))
      (default_fields m override)
default_fields (field key v m) override = field key v (default_fields m override)

-- `_merge_defaults`
unfoldable pub merge_defaults : Fields → Json → Fields
unfolding override_with default_fields
merge_defaults defaults override = override_with (default_fields defaults override) override

abbrev pub default_runner : Fields
default_runner =
    field "adapter" (text "local-command")
      (field "workdir" null (field "environment" (object end) end))

-- `runner_settings`
unfoldable pub runner_settings : Fields → Fields
unfolding merge_defaults get
runner_settings config = merge_defaults default_runner (get "runner" config)

-- The keys of a `dict` are distinct.
abbrev pub DistinctKeys : Fields → Type 0
DistinctKeys end = Unit
DistinctKeys (field key v m) = (lookup key m ≡ none) × DistinctKeys m

-- The value of one key, from its default and what overrides it.
unfoldable pub merged_value : Option Json → Option Json → Option Json
merged_value none override = override
merged_value (some (object d)) none = some (object (merge_defaults d null))
merged_value (some (object d)) (some (object m)) = some (object (merge_defaults d (object m)))
merged_value (some v) none = some v
merged_value (some v) (some w) = some w

-- What the second loop leaves of one key.
kept : Option Json → Option Json → Option Json
kept merged none = merged
kept merged (some w) = if holds_dict merged && is_dict w then merged else some w

lookup-set_override :
    (j key : String) (v : Json) (merged : Fields)
    → lookup j (set_override merged key v)
      ≡ (if key == j then kept (lookup key merged) (some v) else lookup j merged)
unfolding set_override kept
lookup-set_override j key v merged = ground (arith, lookup-put key j v merged, eq_iff key j)

lookup-set_overrides :
    (j : String) (merged m : Fields)
    → DistinctKeys m
    → lookup j (set_overrides merged m) ≡ kept (lookup j merged) (lookup j m)
unfolding set_overrides lookup kept
lookup-set_overrides j merged end distinct = refl
lookup-set_overrides j merged (field key v m) distinct =
    let rest = lookup-set_overrides j (set_override merged key v) m distinct.1 in
    let once = lookup-set_override j key v merged in
    elim (Bool-cases (key == j)) [
      | inl is ↦
          let same : key ≡ j = (eq_iff key j).0 is in
          let fresh : lookup j m ≡ none = subst (λ k. lookup k m ≡ none) same distinct.0 in
          let at : lookup j (set_override merged key v) ≡ kept (lookup j merged) (some v) =
            subst (λ k. lookup j (set_override merged key v) ≡ kept (lookup k merged) (some v)) same
              (rw is at once) in
          rw (is, rest, fresh, at) refl
      | inr another ↦ rw (another, rest, rw another at once) refl
    ]

-- What the first loop gives one key.
first_value : Option Json → Json → Option Json
first_value none child = none
first_value (some (object d)) child = some (object (merge_defaults d child))
first_value (some v) child = some v

default_fields_head :
    (key : String) (v : Json) (m : Fields) (override : Json)
    → (w : Json) × (default_fields (field key v m) override
        ≡ field key w (default_fields m override))
      × (first_value (some v) (child_of key override) ≡ some w)
unfolding default_fields first_value merge_defaults
default_fields_head key (object d) m override = (_, refl, refl)
default_fields_head key null m override = (_, refl, refl)
default_fields_head key (bool b) m override = (_, refl, refl)
default_fields_head key (int z) m override = (_, refl, refl)
default_fields_head key (text s) m override = (_, refl, refl)
default_fields_head key (array vs) m override = (_, refl, refl)

default_fields_end :
    (j : String) (override : Json)
    → lookup j (default_fields end override) ≡ first_value none (child_of j override)
unfolding default_fields lookup first_value
default_fields_end j override = refl

lookup-default_fields :
    (j : String) (d : Fields) (override : Json)
    → lookup j (default_fields d override) ≡ first_value (lookup j d) (child_of j override)
unfolding lookup
lookup-default_fields j end override = default_fields_end j override
lookup-default_fields j (field key v m) override =
    let (w, head, value) = default_fields_head key v m override in
    let rest = lookup-default_fields j m override in
    elim (Bool-cases (key == j)) [
      | inl is ↦
          let same : key ≡ j = (eq_iff key j).0 is in
          rw (head, is)
            (sym (subst (λ k. first_value (some v) (child_of k override) ≡ some w) same value))
      | inr another ↦ rw (head, another) rest
    ]

kept-first_value :
    (default override : Option Json)
    → kept (first_value default (elim override [ none ↦ null | some v ↦ v ])) override
      ≡ merged_value default override
unfolding kept first_value merged_value
kept-first_value none none = refl
kept-first_value none (some w) = refl
kept-first_value (some (object d)) none = refl
kept-first_value (some (object d)) (some (object m)) = refl
kept-first_value (some (object d)) (some w) = refl
kept-first_value (some v) none = refl
kept-first_value (some v) (some w) = refl

-- Where the keys of an override are distinct, a key of the merged settings has what the override
-- says, or its default where the override has no such key; where both are objects, or the default
-- is one and the override has no such key, the two are merged in turn.
pub lookup-merge_defaults :
    (j : String) (d m : Fields)
    → DistinctKeys m
    → lookup j (merge_defaults d (object m)) ≡ merged_value (lookup j d) (lookup j m)
unfolding merge_defaults override_with child_of get
lookup-merge_defaults j d m distinct =
    lookup-set_overrides j (default_fields d (object m)) m distinct
    ∙ ap (λ v. kept v (lookup j m)) (lookup-default_fields j d (object m))
    ∙ kept-first_value (lookup j d) (lookup j m)
