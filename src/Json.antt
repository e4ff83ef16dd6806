-- ===== src/Json.antt =====
-- The values of the JSON documents that the tools read and write, as Python sees them after
-- `json.loads`: `None`, `bool`, `int`, `str`, `list` and `dict`. A `dict` keeps the order in which
-- its keys were inserted. Numbers with a fraction do not occur in the fields that are modelled.
pub mod Checks
pub mod Laws
pub mod Number
pub mod Repr
use infra_loop_kda.Base.{
  ℕ, zero, suc, ◌<>◌, ℤ, pos, negsuc, int_beq, nat_beq, String, Bool, true, false, not, ◌&&◌, ◌||◌,
  Option, none, some, List, [], ◌∷◌, ◌==◌, if◌then◌else◌,
}

mutual
  pub data Json : Type 0 where
    null : Json
    bool : Bool → Json
    int : ℤ → Json
    text : String → Json
    array : Items → Json
    object : Fields → Json

  pub data Items : Type 0 where
    nil : Items
    cons : Json → Items → Items

  pub data Fields : Type 0 where
    end : Fields
    field : String → Json → Fields → Fields

-- `bool(value)`
abbrev pub truthy : Json → Bool
truthy null = false
truthy (bool b) = b
truthy (int n) = not (int_beq n (pos 0))
truthy (text s) = not (s == "")
truthy (array nil) = false
truthy (array (cons _ _)) = true
truthy (object end) = false
truthy (object (field _ _ _)) = true

-- `d.get(key)` as an option, and with the `None` that Python gives for a missing key.
unfoldable pub lookup : String → Fields → Option Json
lookup k end = none
lookup k (field j v m) = if j == k then some v else lookup k m

unfoldable pub get : String → Fields → Json
get k m = elim (lookup k m) [ none ↦ null | some v ↦ v ]

-- `d[key] = value`: in place, or at the end.
unfoldable pub put : String → Json → Fields → Fields
put k v end = field k v end
put k v (field j w m) = if j == k then field j v m else field j w (put k v m)

-- `d.setdefault(key, value)`
unfoldable pub set_default : String → Json → Fields → Fields
set_default k v m = elim (lookup k m) [ none ↦ put k v m | some w ↦ m ]

abbrev pub values : Items → List Json
values nil = []
values (cons v vs) = v ∷ values vs

-- `items + [value]`
unfoldable pub append : Items → Json → Items
append nil v = cons v nil
append (cons w vs) v = cons w (append vs v)

abbrev pub count : Items → ℕ
count nil = zero
count (cons v vs) = suc (count vs)

-- `value == n`; Python's `True` and `False` equal 1 and 0.
abbrev pub equals_nat : Json → ℕ → Bool
equals_nat (int n) k = int_beq n (pos k)
equals_nat (bool true) k = nat_beq k 1
equals_nat (bool false) k = nat_beq k 0
equals_nat _ k = false

-- `value == "..."`
abbrev pub equals_text : Json → String → Bool
equals_text (text s) t = s == t
equals_text _ t = false

-- `list(d)`
abbrev pub keys_of : Fields → List String
keys_of end = []
keys_of (field k v m) = k ∷ keys_of m
