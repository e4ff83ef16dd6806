-- ===== src/Base/Sorted.antt =====
-- Python's `sorted` on texts.
use Prim.Native.String.{String}
use Prim.Native.Char.{code}
use mathlib.Core.Logic.{inl, inr}
use mathlib.Core.Bool.{Bool, true, false, ◌&&◌, ◌||◌}
use mathlib.Core.List.{List, [], ◌∷◌}
use infra_loop_kda.Base.Tests.{ltb, nat_beq, if◌then◌else◌, Bool-cases}
use infra_loop_kda.Base.Lists.{All}

-- The order of Python's texts, by code points.
abbrev pub text_leb : String → String → Bool
text_leb String.[] t = true
text_leb (String.◌∷◌ c s) String.[] = false
text_leb (String.◌∷◌ c s) (String.◌∷◌ d t) =
    ltb (code c) (code d) || (nat_beq (code c) (code d) && text_leb s t)

unfoldable pub insert : String → List String → List String
insert key [] = key ∷ []
insert key (k ∷ ks) = let rest = insert key ks in if text_leb key k then key ∷ k ∷ ks else k ∷ rest

-- `sorted`
unfoldable pub sorted : List String → List String
sorted [] = []
sorted (k ∷ ks) = insert k (sorted ks)

module _ (P : String → Type 0) where
  pub All-insert : (k : String) (ks : List String) → P k → All P ks → All P (insert k ks)
  unfolding insert
  All-insert k [] p ps = (p, tt)
  All-insert k (x ∷ ks) p ps = elim (Bool-cases (text_leb k x)) [
    | inl e ↦ rw e (p, ps)
    | inr n ↦ rw n (ps.0, All-insert k ks p ps.1)
  ]

  pub All-sorted : (ks : List String) → All P ks → All P (sorted ks)
  unfolding sorted
  All-sorted [] ps = tt
  All-sorted (k ∷ ks) ps = All-insert k (sorted ks) ps.0 (All-sorted ks ps.1)
