-- ===== src/Toolchain.antt =====
-- tools/k3/toolchain.py: `read_frontmatter` and `_version_line`, with Python's `splitlines`.
use Prim.Native.Char.{code}
use infra_loop_kda.Base.{
  ℕ, String, Bool, false, not, ◌&&◌, ◌||◌, Option, none, some, List, [], ◌∷◌, ◌==◌, leb, nat_beq,
  ◌≡◌, refl, if◌then◌else◌,
}
use infra_loop_kda.Base.Text.{strip, push_char, contains_char}
use infra_loop_kda.Json.{text, Fields, end, put}

-- The characters that end a line for `str.splitlines`.
abbrev is_line_break : ℕ → Bool
is_line_break c =
    (leb 10 c && leb c 13)
    || (leb 28 c && leb c 30)
    || nat_beq c 0x85
    || nat_beq c 0x2028
    || nat_beq c 0x2029

-- `after` says that the last character was a carriage return, whose line feed ends no line.
lines_after : Bool → String → List String
unfolding push_char
lines_after after String.[] = []
lines_after after (String.◌∷◌ c s) =
    let skipped = lines_after false s in
    let ended = String.[] ∷ lines_after (nat_beq (code c) 13) s in
    let grown = push_char c (lines_after false s) in
    if after && nat_beq (code c) 10
    then skipped
    else if is_line_break (code c)
    then ended
    else grown

-- `text.splitlines()`
unfoldable pub splitlines : String → List String
unfolding lines_after
splitlines s = lines_after false s

-- `s.strip("'\"")`
abbrev is_quote : ℕ → Bool
is_quote c = nat_beq c 39 || nat_beq c 34

unquote_left : String → String
unquote_left String.[] = ""
unquote_left (String.◌∷◌ c s) =
    let rest = unquote_left s in if is_quote (code c) then rest else String.◌∷◌ c s

unquote_right : String → String
unquote_right String.[] = ""
unquote_right (String.◌∷◌ c s) =
    let rest = unquote_right s in if is_quote (code c) && rest == "" then "" else String.◌∷◌ c rest

unquote : String → String
unfolding unquote_left unquote_right
unquote s = unquote_right (unquote_left s)

-- The two ends of `line.partition(":")`.
before_colon : String → String
before_colon String.[] = ""
before_colon (String.◌∷◌ c s) =
    let rest = before_colon s in if nat_beq (code c) b':' then "" else String.◌∷◌ c rest

after_colon : String → String
after_colon String.[] = ""
after_colon (String.◌∷◌ c s) = let rest = after_colon s in if nat_beq (code c) b':' then s else rest

-- `line.startswith((" ", "\t", "-"))`
abbrev is_indented : String → Bool
is_indented String.[] = false
is_indented (String.◌∷◌ c s) = nat_beq (code c) 32 || nat_beq (code c) 9 || nat_beq (code c) b'-'

-- The loop over the lines after the first marker.
frontmatter_fields : Fields → List String → Fields
unfolding strip unquote before_colon after_colon contains_char put
frontmatter_fields fields [] = fields
frontmatter_fields fields (line ∷ lines) =
    let rest =
      frontmatter_fields
        (if contains_char b':' line && not (is_indented line)
          then put (strip (before_colon line)) (text (unquote (strip (after_colon line)))) fields
          else fields)
        lines in
    if strip line == "---" then fields else rest

frontmatter : List String → Fields
unfolding frontmatter_fields strip
frontmatter [] = end
frontmatter (line ∷ lines) = if strip line == "---" then frontmatter_fields end lines else end

-- `read_frontmatter`, of the text of the file; `none` is a file that cannot be read.
unfoldable pub read_frontmatter : Option String → Fields
unfolding frontmatter splitlines
read_frontmatter none = end
read_frontmatter (some s) = frontmatter (splitlines s)

first_line : List String → String
unfolding strip
first_line [] = ""
first_line (line ∷ lines) = if strip line == "" then first_line lines else strip line

-- `_version_line`
unfoldable pub version_line : String → String
unfolding first_line splitlines
version_line s = first_line (splitlines s)

frontmatter_read :
    read_frontmatter (some "---\r\nname: 'kda' \n  skipped: 1\nsession_id: s1\n---\nx: 2\n")
    ≡ put "session_id" (text "s1") (put "name" (text "kda") end)
unfolding read_frontmatter put
frontmatter_read = refl

version_found : version_line " \n jq-1.7 \nmore" ≡ "jq-1.7"
unfolding version_line
version_found = refl
