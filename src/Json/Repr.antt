-- ===== src/Json/Repr.antt =====
-- Python's `repr` and `str` of a document, which the tools put into messages and use to turn a
-- field into text. `repr` of a text escapes the quote, the backslash and the ASCII controls; a
-- character beyond ASCII is written as it stands.
use Prim.Native.Char.{Char, code}
use infra_loop_kda.Base.{
  ℕ, suc, ◌/◌, ◌%◌, ◌<>◌, ℤ, pos, negsuc, nat_beq, String, true, false, not, ◌&&◌, ◌||◌, ltb,
  if◌then◌else◌,
}
use infra_loop_kda.Base.Text.{decimal, contains_char}
use infra_loop_kda.Json.{
  Json, null, bool, int, text, array, object, Items, nil, cons, Fields, end, field, truthy,
}

hex_digit : ℕ → String
hex_digit n =
    if nat_beq n 10
    then "a"
    else if nat_beq n 11
    then "b"
    else if nat_beq n 12
    then "c"
    else if nat_beq n 13
    then "d"
    else if nat_beq n 14
    then "e"
    else if nat_beq n 15
    then "f"
    else decimal n

-- One character of a text that is quoted by the character `quote`.
escape : ℕ → Char → String
unfolding hex_digit
escape quote c =
    let n = code c in
    if nat_beq n quote || nat_beq n b'\\'
    then "\\" <> String.◌∷◌ c String.[]
    else if nat_beq n 10
    then "\\n"
    else if nat_beq n 13
    then "\\r"
    else if nat_beq n 9
    then "\\t"
    else if ltb n 32 || nat_beq n 127
    then "\\x" <> hex_digit (n / 16) <> hex_digit (n % 16)
    else String.◌∷◌ c String.[]

escape_all : ℕ → String → String
unfolding escape
escape_all quote String.[] = ""
escape_all quote (String.◌∷◌ c s) = escape quote c <> escape_all quote s

-- Single quotes, unless the text holds one and no double quote.
quote_text : String → String
unfolding escape_all contains_char
quote_text s =
    if contains_char 39 s && not (contains_char 34 s)
    then "\"" <> escape_all 34 s <> "\""
    else "'" <> escape_all 39 s <> "'"

show_int : ℤ → String
show_int (pos n) = decimal n
show_int (negsuc n) = "-" <> decimal (suc n)

unfoldable mutual
  unfolding quote_text show_int decimal

  -- `repr(value)`, `%r`
  pub repr : Json → String
  repr null = "None"
  repr (bool true) = "True"
  repr (bool false) = "False"
  repr (int n) = show_int n
  repr (text s) = quote_text s
  repr (array vs) = "[" <> repr_items vs <> "]"
  repr (object m) = "{" <> repr_fields m <> "}"

  repr_items : Items → String
  repr_items nil = ""
  repr_items (cons v nil) = repr v
  repr_items (cons v (cons w vs)) = repr v <> ", " <> repr_items (cons w vs)

  repr_fields : Fields → String
  repr_fields end = ""
  repr_fields (field k v end) = quote_text k <> ": " <> repr v
  repr_fields (field k v (field j w m)) =
      quote_text k <> ": " <> repr v <> ", " <> repr_fields (field j w m)

-- `str(value)`, `%s`
unfoldable pub str : Json → String
unfolding repr
str (text s) = s
str v = repr v

-- `str(value or default)`
unfoldable pub str_or : Json → String → String
unfolding str
str_or v default = if truthy v then str v else default
