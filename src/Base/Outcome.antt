-- ===== src/Base/Outcome.antt =====
-- What a call returns or raises. One constructor for each exception class that the code raises
-- itself, with its message, and the built-in exceptions that reach a caller.
use Prim.Native.String.{String}
use mathlib.Core.Path.{◌≡◌, refl}
use mathlib.Core.Bool.{Bool, true, false}

pub data Error : Type 0 where
  tool_error path_error lock_error validation_error : String → Error
  type_error value_error key_error attribute_error : Error

pub data Outcome {ℓ} (A : Type ℓ) : Type ℓ where
  ok : A → Outcome A
  err : Error → Outcome A

infixl 5 ◌>>=◌
-- An exception ends the block that it is raised in.
abbrev pub ◌>>=◌ {ℓ κ} :
    {Given : Type ℓ} {Made : Type κ} → Outcome Given → (Given → Outcome Made) → Outcome Made
err raised >>= next = err raised
ok given >>= next = next given

-- `if not test: raise error`
abbrev pub require : Bool → Error → Outcome (Unit {0})
require false raised = err raised
require true raised = ok tt

infixl 5 ◌>>◌
-- A statement whose value is not used.
abbrev pub ◌>>◌ {ℓ} : {Made : Type ℓ} → Outcome (Unit {0}) → Outcome Made → Outcome Made
statement >> rest = statement >>= λ _. rest

-- The parts of a block that returned.
pub >>=-eq-ok {ℓ κ} :
    {Given : Type ℓ} {Made : Type κ} (first : Outcome Given) (next : Given → Outcome Made)
    {made : Made}
    → (first >>= next) ≡ ok made
    → (given : Given) × (first ≡ ok given) × (next given ≡ ok made)
>>=-eq-ok (err raised) next returned = cc
>>=-eq-ok (ok given) next returned = (given, refl, returned)

pub ok_injective {ℓ} : {A : Type ℓ} {a b : A} → ok a ≡ ok b → a ≡ b
ok_injective h = cc

pub require-eq-ok : (b : Bool) (e : Error) {t : Unit {0}} → require b e ≡ ok t → b ≡ true
require-eq-ok true e h = refl
require-eq-ok false e h = cc

-- What follows a statement that did not raise.
pub >>-eq-ok {ℓ} :
    {Made : Type ℓ} (statement : Outcome (Unit {0})) (rest : Outcome Made) {made : Made}
    → (statement >> rest) ≡ ok made
    → rest ≡ ok made
>>-eq-ok (err raised) rest returned = cc
>>-eq-ok (ok given) rest returned = returned

-- What follows a test that was met.
pub require_then {ℓ} :
    {Made : Type ℓ} (b : Bool) (e : Error) (rest : Outcome Made) {made : Made}
    → (require b e >> rest) ≡ ok made
    → (b ≡ true) × (rest ≡ ok made)
require_then true e rest returned = (refl, returned)
require_then false e rest returned = cc
