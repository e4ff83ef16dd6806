-- ===== src/Base/Text.antt =====
-- Python text: tests on characters, `str.strip`, `str.split`, `str.join`, decimal digits.
use Prim.Native.Nat.{ℕ, zero, suc, ◌/◌, ◌%◌}
use Prim.Native.Char.{Char, code}
use Prim.Native.String.{String, [], ◌∷◌, ◌++◌}
use mathlib.Core.Bool.{Bool, true, false, ◌&&◌, ◌||◌}
use mathlib.Core.List.{List}
use text.Mathlib.Text.{◌==◌, starts_with}
use infra_loop_kda.Base.Tests.{ltb, leb, nat_beq, if◌then◌else◌}

-- `str.isspace` of one character.
abbrev pub is_space : ℕ → Bool
is_space c =
    (leb 9 c && leb c 13)
    || (leb 28 c && leb c 32)
    || nat_beq c 0x85
    || nat_beq c 0xa0
    || nat_beq c 0x1680
    || (leb 0x2000 c && leb c 0x200a)
    || nat_beq c 0x2028
    || nat_beq c 0x2029
    || nat_beq c 0x202f
    || nat_beq c 0x205f
    || nat_beq c 0x3000

-- Nothing but white space: `not s.strip()`.
unfoldable pub is_blank : String → Bool
is_blank [] = true
is_blank (c ∷ s) = is_space (code c) && is_blank s

strip_left : String → String
strip_left [] = []
strip_left (c ∷ s) = let rest = strip_left s in if is_space (code c) then rest else c ∷ s

strip_right : String → String
strip_right [] = []
strip_right (c ∷ s) =
    let rest = strip_right s in if is_space (code c) && rest == [] then [] else c ∷ rest

unfoldable pub strip : String → String
unfolding strip_left strip_right
strip s = strip_right (strip_left s)

unfoldable pub contains_char : ℕ → String → Bool
contains_char k [] = false
contains_char k (c ∷ s) = nat_beq (code c) k || contains_char k s

-- `part in s`
unfoldable pub contains_text : String → String → Bool
contains_text part [] = part == []
contains_text part (c ∷ s) = starts_with (c ∷ s) part || contains_text part s

unfoldable pub push_char : Char → List String → List String
push_char c List.[] = List.◌∷◌ (c ∷ []) List.[]
push_char c (List.◌∷◌ part parts) = List.◌∷◌ (c ∷ part) parts

-- `s.split(k)` for a separator of one character.
unfoldable pub split_on : ℕ → String → List String
unfolding push_char
split_on k [] = List.◌∷◌ [] List.[]
split_on k (c ∷ s) =
    let parts = split_on k s in if nat_beq (code c) k then List.◌∷◌ [] parts else push_char c parts

-- `sep.join(parts)`
unfoldable pub join : String → List String → String
join sep List.[] = []
join sep (List.◌∷◌ part List.[]) = part
join sep (List.◌∷◌ part (List.◌∷◌ next parts)) = part ++ sep ++ join sep (List.◌∷◌ next parts)

unfoldable pub digit : ℕ → String
digit zero = "0"
digit (suc zero) = "1"
digit (suc (suc zero)) = "2"
digit (suc (suc (suc zero))) = "3"
digit (suc (suc (suc (suc zero)))) = "4"
digit (suc (suc (suc (suc (suc zero))))) = "5"
digit (suc (suc (suc (suc (suc (suc zero)))))) = "6"
digit (suc (suc (suc (suc (suc (suc (suc zero))))))) = "7"
digit (suc (suc (suc (suc (suc (suc (suc (suc zero)))))))) = "8"
digit n = "9"

unfoldable pub decimal_digits : ℕ → ℕ → String
decimal_digits zero n = []
decimal_digits (suc fuel) n =
    let front = decimal_digits fuel (n / 10) in
    if ltb n 10 then digit n else front ++ digit (n % 10)

-- `str(n)`; each round divides by ten, so `n + 1` rounds are enough.
unfoldable pub decimal : ℕ → String
unfolding digit decimal_digits
decimal n = decimal_digits (suc n) n

-- `s.endswith(suffix)`
unfoldable pub ends_with : String → String → Bool
ends_with suffix [] = suffix == []
ends_with suffix (c ∷ s) = suffix == (c ∷ s) || ends_with suffix s
