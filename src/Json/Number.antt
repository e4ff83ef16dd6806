-- ===== src/Json/Number.antt =====
-- Python's `int(value)` for a document. A text is read as optional white space, an optional sign
-- and ASCII digits, with single underscores between digits.
pub mod Digits
use Prim.Native.Char.{code}
use infra_loop_kda.Base.{
  ℕ, suc, ◌+◌, ◌-◌, ◌*◌, ℤ, pos, negsuc, nat_beq, leb, String, Bool, true, false, ◌&&◌, Option,
  none, some, if◌then◌else◌,
}
use infra_loop_kda.Base.Text.{strip}
use infra_loop_kda.Base.Outcome.{Outcome, ok, err, type_error, value_error}
use infra_loop_kda.Json.{Json, null, bool, int, text, array, object, truthy}

-- The flag says that the last character was a digit.
unfoldable pub read_digits : ℕ → Bool → String → Option ℕ
read_digits n true String.[] = some n
read_digits n false String.[] = none
read_digits n seen (String.◌∷◌ c s) =
    let d = code c in
    let number = read_digits (n * 10 + (d - 48)) true s in
    let gap = read_digits n false s in
    if leb 48 d && leb d 57 then number else if seen && nat_beq d b'_' then gap else none

negate : ℕ → ℤ
negate n = elim n [ ℕ.zero ↦ pos 0 | suc k ↦ negsuc k ]

signed : String → Option ℤ
unfolding read_digits negate
signed String.[] = none
signed (String.◌∷◌ c s) =
    if nat_beq (code c) b'-'
    then elim (read_digits 0 false s) [ none ↦ none | some n ↦ some (negate n) ]
    else if nat_beq (code c) b'+'
    then elim (read_digits 0 false s) [ none ↦ none | some n ↦ some (pos n) ]
    else elim (read_digits 0 false (String.◌∷◌ c s)) [ none ↦ none | some n ↦ some (pos n) ]

unfoldable pub to_int : Json → Outcome ℤ
unfolding signed strip
to_int (int n) = ok n
to_int (bool true) = ok (pos 1)
to_int (bool false) = ok (pos 0)
to_int (text s) = elim (signed (strip s)) [ none ↦ err value_error | some n ↦ ok n ]
to_int null = err type_error
to_int (array vs) = err type_error
to_int (object m) = err type_error

-- `int(value or 0)`
unfoldable pub to_int_or_zero : Json → Outcome ℤ
unfolding to_int
to_int_or_zero v = if truthy v then to_int v else ok (pos 0)
