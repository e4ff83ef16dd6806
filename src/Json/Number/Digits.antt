-- ===== src/Json/Number/Digits.antt =====
-- The digits that `str(n)` writes are the ones that `int` reads: the rounds of `decimal` are enough.
use Prim.Native.Char.{Char, code}
use text.Mathlib.TextLemmas.{append_assoc, cons-append, nil-append, append-nil}
use infra_loop_kda.Base.{
  ℕ, zero, suc, ◌+◌, ◌*◌, ◌/◌, ◌%◌, ◌<◌, ltb, nat_beq, String, ◌<>◌, Bool, true, false, none, some,
  ◌≡◌, refl, sym, ap, ◌∙◌, some_injective, arith, Bool-cases, inl, inr,
}
use infra_loop_kda.Base.Text.{digit, decimal_digits, decimal, contains_char}
use infra_loop_kda.Json.Number.{read_digits}

pub one_character : (c : Char) (rest : String) → (String.◌∷◌ c "") <> rest ≡ String.◌∷◌ c rest
one_character c rest = cons-append c "" rest ∙ ap (String.◌∷◌ c) (nil-append rest)

read_digit :
    (d acc : ℕ) (seen : Bool) (rest : String)
    → d < 10
    → read_digits acc seen (digit d <> rest) ≡ read_digits (acc * 10 + d) true rest
unfolding read_digits digit
read_digit zero acc seen rest h = ap (read_digits acc seen) (one_character "0" rest)
read_digit (suc zero) acc seen rest h = ap (read_digits acc seen) (one_character "1" rest)
read_digit (suc (suc zero)) acc seen rest h = ap (read_digits acc seen) (one_character "2" rest)
read_digit (suc (suc (suc zero))) acc seen rest h =
    ap (read_digits acc seen) (one_character "3" rest)
read_digit (suc (suc (suc (suc zero)))) acc seen rest h =
    ap (read_digits acc seen) (one_character "4" rest)
read_digit (suc (suc (suc (suc (suc zero))))) acc seen rest h =
    ap (read_digits acc seen) (one_character "5" rest)
read_digit (suc (suc (suc (suc (suc (suc zero)))))) acc seen rest h =
    ap (read_digits acc seen) (one_character "6" rest)
read_digit (suc (suc (suc (suc (suc (suc (suc zero))))))) acc seen rest h =
    ap (read_digits acc seen) (one_character "7" rest)
read_digit (suc (suc (suc (suc (suc (suc (suc (suc zero)))))))) acc seen rest h =
    ap (read_digits acc seen) (one_character "8" rest)
read_digit (suc (suc (suc (suc (suc (suc (suc (suc (suc zero))))))))) acc seen rest h =
    ap (read_digits acc seen) (one_character "9" rest)
read_digit (suc (suc (suc (suc (suc (suc (suc (suc (suc (suc x)))))))))) acc seen rest h =
    absurd (omega arith)

read_decimal_digits :
    (fuel n : ℕ) (seen : Bool) (rest : String)
    → n < fuel
    → read_digits 0 seen (decimal_digits fuel n <> rest) ≡ read_digits n true rest
unfolding decimal_digits
read_decimal_digits zero n seen rest h = absurd (omega arith)
read_decimal_digits (suc fuel) n seen rest h = elim (Bool-cases (ltb n 10)) [
  | inl small ↦
      rw small
        (read_digit n 0 seen rest (ground arith) ∙ ap (λ k. read_digits k true rest) (omega arith))
  | inr large ↦
      let big : 10 < n + 1 = ground arith in
      rw large (
        ap (read_digits 0 seen) (append_assoc (decimal_digits fuel (n / 10)) (digit (n % 10)) rest)
        ∙ (read_decimal_digits fuel (n / 10) seen (digit (n % 10) <> rest) (omega arith)
            ∙ (read_digit (n % 10) (n / 10) true rest (omega arith)
                ∙ ap (λ k. read_digits k true rest) (omega arith))))
]

-- `decimal` writes all digits of a number.
pub read_digits-decimal : (n : ℕ) (seen : Bool) → read_digits 0 seen (decimal n) ≡ some n
unfolding decimal read_digits
read_digits-decimal n seen =
    ap (read_digits 0 seen) (sym (append-nil (decimal n)))
    ∙ read_decimal_digits (suc n) n seen "" (omega arith)

-- Two numbers are not written alike.
pub decimal_injective : {m n : ℕ} → decimal m ≡ decimal n → m ≡ n
decimal_injective {m = m} {n = n} e =
    some_injective (
      sym (read_digits-decimal m false)
      ∙ (ap (read_digits 0 false) e ∙ read_digits-decimal n false))

-- A zero in front changes nothing.
pub read_digits-padded : (n : ℕ) → read_digits 0 false ("0" <> decimal n) ≡ some n
unfolding decimal digit
read_digits-padded n = read_digit 0 0 false (decimal n) (omega arith) ∙ read_digits-decimal n true

pub read_digits-signed : (s : String) → read_digits 0 false ("-" <> s) ≡ none
unfolding read_digits
read_digits-signed s = ap (read_digits 0 false) (one_character "-" s)

contains_char-append :
    (k : ℕ) (s t : String)
    → contains_char k s ≡ false
    → contains_char k t ≡ false
    → contains_char k (s <> t) ≡ false
unfolding contains_char
contains_char-append k String.[] t hs ht = rw (nil-append t) ht
contains_char-append k (String.◌∷◌ c s) t hs ht =
    let first : nat_beq (code c) k ≡ false = ground arith in
    rw (cons-append c s t, first) (contains_char-append k s t (ground arith) ht)

-- No digit is a dot.
digit-undotted : (d : ℕ) → contains_char b'.' (digit d) ≡ false
unfolding digit contains_char
digit-undotted zero = refl
digit-undotted (suc zero) = refl
digit-undotted (suc (suc zero)) = refl
digit-undotted (suc (suc (suc zero))) = refl
digit-undotted (suc (suc (suc (suc zero)))) = refl
digit-undotted (suc (suc (suc (suc (suc zero))))) = refl
digit-undotted (suc (suc (suc (suc (suc (suc zero)))))) = refl
digit-undotted (suc (suc (suc (suc (suc (suc (suc zero))))))) = refl
digit-undotted (suc (suc (suc (suc (suc (suc (suc (suc zero)))))))) = refl
digit-undotted (suc (suc (suc (suc (suc (suc (suc (suc (suc x))))))))) = refl

decimal_digits-undotted : (fuel n : ℕ) → contains_char b'.' (decimal_digits fuel n) ≡ false
unfolding decimal_digits contains_char
decimal_digits-undotted zero n = refl
decimal_digits-undotted (suc fuel) n = elim (Bool-cases (ltb n 10)) [
  | inl small ↦ rw small (digit-undotted n)
  | inr large ↦ rw large (
      contains_char-append b'.' (decimal_digits fuel (n / 10)) (digit (n % 10))
        (decimal_digits-undotted fuel (n / 10)) (digit-undotted (n % 10)))
]

pub decimal-undotted : (n : ℕ) → contains_char b'.' (decimal n) ≡ false
unfolding decimal
decimal-undotted n = decimal_digits-undotted (suc n) n

pub padded-undotted : (n : ℕ) → contains_char b'.' ("0" <> decimal n) ≡ false
unfolding contains_char
padded-undotted n = contains_char-append b'.' "0" (decimal n) refl (decimal-undotted n)

pub signed-undotted : (n : ℕ) → contains_char b'.' ("-" <> decimal n) ≡ false
unfolding contains_char
signed-undotted n = contains_char-append b'.' "-" (decimal n) refl (decimal-undotted n)
