-- ===== src/Overlay/Anchor.antt =====
-- tools/k3/overlay.py: `Edit.apply`, with Python's `str.count` and `str.replace`.
pub mod Once
use text.Mathlib.Text.{starts_with}
use infra_loop_kda.Base.{
  ℕ, zero, suc, ◌+◌, ◌-◌, nat_beq, String, ◌<>◌, Bool, true, false, Option, none, some, ◌==◌,
  if◌then◌else◌,
}
use infra_loop_kda.Base.Outcome.{Outcome, ok, err, tool_error}

-- A single anchored replacement in one overlay file.
pub record Edit : Type 0 where
  pub relpath : String
  pub anchor : String
  pub replacement : String
  pub note : String

abbrev pub characters : String → ℕ
characters String.[] = 0
characters (String.◌∷◌ c s) = suc (characters s)

-- `s.count(part)`: occurrences that do not overlap. The number is of the characters of an occurrence
-- that are still to be passed over.
unfoldable pub count_from : String → ℕ → String → ℕ
count_from part skip String.[] = if part == "" then 1 else 0
count_from part (suc k) (String.◌∷◌ c s) = count_from part k s
count_from part zero (String.◌∷◌ c s) =
    let found = starts_with (String.◌∷◌ c s) part in
    let rest = count_from part (if found then characters part - 1 else 0) s in
    if found then suc rest else rest

unfoldable pub drop_text : ℕ → String → String
drop_text zero s = s
drop_text (suc n) String.[] = ""
drop_text (suc n) (String.◌∷◌ c s) = drop_text n s

-- What stands before the first occurrence and after it.
unfoldable pub find_split : String → String → Option (String × String)
unfolding drop_text
find_split part String.[] = if part == "" then some ("", "") else none
find_split part (String.◌∷◌ c s) =
    let rest = find_split part s in
    if starts_with (String.◌∷◌ c s) part
    then some ("", drop_text (characters part) (String.◌∷◌ c s))
    else elim rest [ none ↦ none | some (before, after) ↦ some (String.◌∷◌ c before, after) ]

-- `s.replace(part, replacement, 1)`
unfoldable pub replace_first : String → String → String → String
unfolding find_split
replace_first part replacement s = elim (find_split part s) [
  | none ↦ s
  | some (before, after) ↦ before <> (replacement <> after)
]

-- `Edit.apply`
unfoldable pub apply : Edit → String → Outcome String
unfolding count_from replace_first
apply edit content =
    if nat_beq (count_from edit.anchor 0 content) 1
    then ok (replace_first edit.anchor edit.replacement content)
    else err (tool_error ("overlay anchor did not match exactly once in " <> edit.relpath))
