-- ===== src/Runner/Evidence/Named.antt =====
-- The worker report that a summary of a benchmark asks for, by its trial and implementation.
use package.text.Mathlib.TextLemmas.{append_cancel_left, append_cancel_right}
use infra_loop_kda.Base.{
  ℕ, suc, ltb, ℤ, pos, negsuc, String, ◌<>◌, Bool, true, false, none, some, ◌≡◌, ◌≢◌, sym, ap, ◌∙◌,
  arith, some_injective, if◌then◌else◌,
}
use infra_loop_kda.Base.Split.{append_char_injective}
use infra_loop_kda.Base.Text.{decimal, contains_char}
use infra_loop_kda.Json.{text}
use infra_loop_kda.Json.Number.{read_digits}
use infra_loop_kda.Json.Number.Digits.{
  one_character, read_digits-decimal, read_digits-padded, read_digits-signed, decimal_injective,
  decimal-undotted, padded-undotted, signed-undotted,
}
use infra_loop_kda.Runner.Evidence.{two_digits, trial_name}

-- Either way that a number is written.
padded-undotted_either :
    (small : Bool) (n : ℕ)
    → contains_char b'.' (if small then "0" <> decimal n else decimal n) ≡ false
padded-undotted_either true n = padded-undotted n
padded-undotted_either false n = decimal-undotted n

read_digits-either :
    (small : Bool) (n : ℕ)
    → read_digits 0 false (if small then "0" <> decimal n else decimal n) ≡ some n
read_digits-either true n = read_digits-padded n
read_digits-either false n = read_digits-decimal n false

two_digits-undotted : (z : ℤ) → contains_char b'.' (two_digits z) ≡ false
unfolding two_digits
two_digits-undotted (pos n) = padded-undotted_either (ltb n 10) n
two_digits-undotted (negsuc n) = signed-undotted (suc n)

read_digits-two_digits : (n : ℕ) → read_digits 0 false (two_digits (pos n)) ≡ some n
unfolding two_digits
read_digits-two_digits n = read_digits-either (ltb n 10) n

none≢some_number : (n : ℕ) → none ≢ some n
none≢some_number n = λ h. cc

suc_injective : {m n : ℕ} → suc m ≡ suc n → m ≡ n
suc_injective h = omega arith

two_digits_injective : (y z : ℤ) → two_digits y ≡ two_digits z → y ≡ z
unfolding two_digits
two_digits_injective (pos m) (pos n) e = ap pos (
    some_injective
      (sym (read_digits-two_digits m) ∙ (ap (read_digits 0 false) e ∙ read_digits-two_digits n)))
two_digits_injective (pos m) (negsuc n) e = absurd (
    none≢some_number _ (
      sym (read_digits-signed (decimal (suc n)))
      ∙ (ap (read_digits 0 false) (sym e) ∙ read_digits-two_digits m)))
two_digits_injective (negsuc m) (pos n) e = absurd (
    none≢some_number _ (
      sym (read_digits-signed (decimal (suc m)))
      ∙ (ap (read_digits 0 false) e ∙ read_digits-two_digits n)))
two_digits_injective (negsuc m) (negsuc n) e =
    ap negsuc (suc_injective (decimal_injective (append_cancel_left "-" _ _ e)))

abbrev report_name : ℤ → String → String
report_name z i = "trial-" <> two_digits z <> "." <> i <> ".json"

report_name-parts :
    (z : ℤ) (i : String)
    → report_name z i ≡ "trial-" <> (two_digits z <> String.◌∷◌ "." (i <> ".json"))
report_name-parts z i =
    ap (λ rest. "trial-" <> (two_digits z <> rest)) (one_character "." (i <> ".json"))

-- The names are put together as the code formats them.
trial_name_parts :
    (y z : ℤ) (i j : String)
    → trial_name (some y) (text i) ≡ trial_name (some z) (text j)
    → two_digits y <> String.◌∷◌ "." (i <> ".json") ≡ two_digits z <> String.◌∷◌ "." (j <> ".json")
unfolding trial_name
trial_name_parts y z i j e =
    let same : report_name y i ≡ report_name z j = cc in
    append_cancel_left "trial-" _ _ (sym (report_name-parts y i) ∙ (same ∙ report_name-parts z j))

-- Two trials and implementations whose reports have the same name are the same: no two entries of
-- the execution order share a report, whatever the implementations are called.
pub trial_name_injective :
    (y z : ℤ) (i j : String)
    → trial_name (some y) (text i) ≡ trial_name (some z) (text j)
    → (y ≡ z) × (i ≡ j)
trial_name_injective y z i j e =
    let (number, rest) =
      append_char_injective "." (two_digits y) (two_digits z) (i <> ".json") (j <> ".json")
        (two_digits-undotted y) (two_digits-undotted z) (trial_name_parts y z i j e) in
    (two_digits_injective y z number, append_cancel_right i j ".json" rest)
