-- ===== src/Json/Checks.antt =====
-- The tests on documents that the validators of tools/k3 share, as campaign.py has them.
use infra_loop_kda.Base.{
  ℤ, pos, Option, none, some, String, Bool, true, false, List, [], ◌∷◌, if◌then◌else◌,
}
use infra_loop_kda.Base.Text.{is_blank}
use infra_loop_kda.Json.{Json, bool, int, array, Items, nil, cons, Fields, get}
use infra_loop_kda.Json.Repr.{str_or}

-- `errors.append(message)` under a test
unfoldable pub note : Bool → String → List String
note bad message = if bad then message ∷ [] else []

-- `not str(record.get(key) or "").strip()`
unfoldable pub is_missing : String → Fields → Bool
unfolding is_blank str_or get
is_missing key m = is_blank (str_or (get key m) "")

-- `isinstance(value, list) and value`
abbrev pub is_nonempty_list : Json → Bool
is_nonempty_list (array (cons v vs)) = true
is_nonempty_list _ = false

-- `list(value)` of a field that was found to be a list
abbrev pub items_of : Json → Items
items_of (array vs) = vs
items_of _ = nil

-- `isinstance(value, int)`; Python's booleans are integers.
abbrev pub is_integer : Json → Bool
is_integer (int z) = true
is_integer (bool b) = true
is_integer _ = false

-- The number that such a value is.
abbrev pub integer_of : Json → Option ℤ
integer_of (int z) = some z
integer_of (bool true) = some (pos 1)
integer_of (bool false) = some (pos 0)
integer_of _ = none
