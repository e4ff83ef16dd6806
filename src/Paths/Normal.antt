-- ===== src/Paths/Normal.antt =====
-- `posixpath.normpath` on components, which `safe_join` and the archive checks call.
use mathlib.Core.List.{reverse, append_assoc, reverse-append, append-nil}
use infra_loop_kda.Base.{
  String, Bool, false, not, ◌&&◌, ◌||◌, List, [], ◌∷◌, ◌++◌, ◌==◌, if◌then◌else◌, ◌≡◌, refl, ◌∙◌,
  All, is_empty, arith, sym,
}

-- `new_comps[-1] == '..'`; the list holds the last component first.
abbrev pub ends_up : List String → Bool
ends_up [] = false
ends_up (c ∷ cs) = c == ".."

abbrev pub pop : List String → List String
pop [] = []
pop (c ∷ cs) = cs

-- One round of the loop of `normpath`; the flag says that the path begins with `/`.
unfoldable pub normal_step : Bool → List String → String → List String
normal_step absolute stack comp =
    if comp == "" || comp == "."
    then stack
    else if not (comp == "..") || (not absolute && is_empty stack) || ends_up stack
    then comp ∷ stack
    else pop stack

unfoldable pub normal_loop : Bool → List String → List String → List String
unfolding normal_step
normal_loop absolute stack [] = reverse stack
normal_loop absolute stack (comp ∷ comps) =
    normal_loop absolute (normal_step absolute stack comp) comps

-- The components of the normal form; none of them stands for `/`, or for `.`.
unfoldable pub normal_parts : Bool → List String → List String
unfolding normal_loop
normal_parts absolute comps = normal_loop absolute [] comps

-- A component that stands for a directory entry.
abbrev pub IsName : String → Type 0
IsName part = (part == "" || part == "." || part == "..") ≡ false

normal_step-name :
    (absolute : Bool) (stack : List String) (c : String)
    → IsName c
    → normal_step absolute stack c ≡ c ∷ stack
unfolding normal_step
normal_step-name absolute stack c h = ground arith

normal_loop-names :
    (absolute : Bool) (stack parts : List String)
    → All IsName parts
    → normal_loop absolute stack parts ≡ reverse stack ++ parts
unfolding normal_loop
normal_loop-names absolute stack [] h = sym (append-nil (reverse stack))
normal_loop-names absolute stack (c ∷ parts) h = rw (normal_step-name absolute stack c h.0) (
    normal_loop-names absolute (c ∷ stack) parts h.1
    ∙ rw (reverse-append (c ∷ []) stack, append_assoc) refl)

-- A path of names is in normal form.
pub normal_parts-names :
    (absolute : Bool) (parts : List String) → All IsName parts → normal_parts absolute parts ≡ parts
unfolding normal_parts
normal_parts-names absolute parts h = normal_loop-names absolute [] parts h
