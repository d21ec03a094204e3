-- ===== src/Builtins/Numerals.antt =====
-- `Itoa` of the printer against `ParseInt` of the parser.
use glisp.Prelude.{
  ℕ, zero, suc, ◌+◌, ◌*◌, ◌/◌, ◌%◌, ◌^◌, ◌≤◌, ◌<◌, ◌≡◌, refl, ap, ◌∙◌, ◌==◌, ==_ne, leb, lt→ltb, ℤ,
  pos, negsuc, sub_ℕ, Fits, Bytes, [], ◌∷◌, arith, Bool, Bool-cases, inl, inr, if◌then◌else◌, true,
  false, ok,
}
use glisp.Parser.{digit_value, digits_value, parse_int}
use glisp.Generator.{itoa_digits}
use glisp.Builtins.Printing.{itoa}

digit_value-digit : (n : ℕ) → digit_value (b'0' + n % 10) ≡ n % 10
unfolding digit_value
digit_value-digit n = ground arith

-- The digits in front of a text start with a digit.
abbrev StartsHigh : Bytes → Type 0
StartsHigh [] = ⊥
StartsHigh (c ∷ _) = b'0' ≤ c

either-StartsHigh :
    (b : Bool) (s t : Bytes) → StartsHigh s → StartsHigh t → StartsHigh (if b then s else t)
either-StartsHigh true s t h h' = h
either-StartsHigh false s t h h' = h'

itoa_digits-StartsHigh :
    (k n d : ℕ) (acc : Bytes) → b'0' ≤ d → StartsHigh (itoa_digits k n (d ∷ acc))
unfolding itoa_digits
itoa_digits-StartsHigh zero n d acc h = h
itoa_digits-StartsHigh (suc k) n d acc h =
    let digit : b'0' ≤ b'0' + n % 10 = omega arith in
    let more = itoa_digits-StartsHigh k (n / 10) (b'0' + n % 10) (d ∷ acc) digit in
    either-StartsHigh (n / 10 == 0) ((b'0' + n % 10) ∷ d ∷ acc)
      (itoa_digits k (n / 10) ((b'0' + n % 10) ∷ d ∷ acc)) digit more

itoa-StartsHigh : (n : ℕ) → StartsHigh (itoa_digits 20 n [])
unfolding itoa_digits
itoa-StartsHigh n =
    let digit : b'0' ≤ b'0' + n % 10 = omega arith in
    either-StartsHigh (n / 10 == 0) ((b'0' + n % 10) ∷ []) _ digit
      (itoa_digits-StartsHigh 19 (n / 10) (b'0' + n % 10) [] digit)

digits_step :
    (m n : ℕ) (acc : Bytes)
    → digits_value 10 m ((b'0' + n % 10) ∷ acc) ≡ digits_value 10 (m * 10 + n % 10) acc
unfolding digits_value
digits_step m n acc = ap (λ d. digits_value 10 (m * 10 + d) acc) (digit_value-digit n)

pub itoa_step :
    (k n : ℕ) (acc : Bytes)
    → itoa_digits (suc k) n acc ≡ (
        if n / 10 == 0
        then (b'0' + n % 10) ∷ acc
        else itoa_digits k (n / 10) ((b'0' + n % 10) ∷ acc))
unfolding itoa_digits
itoa_step k n acc = refl

itoa_none : (n : ℕ) (acc : Bytes) → digits_value 10 0 (itoa_digits 0 n acc) ≡ digits_value 10 0 acc
unfolding itoa_digits
itoa_none n acc = refl

digits_value-itoa_digits :
    (k n : ℕ) (acc : Bytes)
    → n < 10 ^ k
    → digits_value 10 0 (itoa_digits k n acc) ≡ digits_value 10 n acc
digits_value-itoa_digits zero n acc h =
    itoa_none n acc ∙ ap (λ m. digits_value 10 m acc) (omega arith)
digits_value-itoa_digits (suc k) n acc h = elim (Bool-cases (n / 10 == 0)) [
  | inl last ↦
      let low : 0 * 10 + n % 10 ≡ n = ground arith in
      rw (itoa_step k n acc, last) (digits_step 0 n acc ∙ ap (λ m. digits_value 10 m acc) low)
  | inr more ↦
      let whole : n / 10 * 10 + n % 10 ≡ n = omega arith in
      rw (itoa_step k n acc, more)
        (digits_value-itoa_digits k (n / 10) ((b'0' + n % 10) ∷ acc) (omega arith)
          ∙ digits_step (n / 10) n acc
          ∙ ap (λ m. digits_value 10 m acc) whole)
]

parse-positive :
    (s : Bytes) (n : ℕ)
    → StartsHigh s
    → digits_value 10 0 s ≡ n
    → n < 2 ^ 63
    → parse_int 10 s ≡ ok (pos n)
unfolding parse_int
parse-positive [] n h e h' = absurd h
parse-positive (c ∷ cs) n h e h' = rw (==_ne c b'-' (omega arith), e, lt→ltb n (2 ^ 63) h') refl

-- The decimal text that the printer gives for an integer in the range of `int` is read back by the
-- parser as that integer.
pub parse_int-itoa : (i : ℤ) → Fits 64 i → parse_int 10 (itoa i) ≡ ok i
unfolding itoa parse_int
parse_int-itoa (pos n) h =
    parse-positive (itoa_digits 20 n []) n (itoa-StartsHigh n)
      (digits_value-itoa_digits 20 n [] (omega arith)) h
parse_int-itoa (negsuc n) h =
    let value : digits_value 10 0 (itoa_digits 20 (suc n) []) ≡ suc n =
      digits_value-itoa_digits 20 (suc n) [] (omega arith) in
    let fits : leb (suc n) (2 ^ 63) ≡ true = ground arith in
    let minus : sub_ℕ 0 (suc n) ≡ negsuc n = ground arith in rw (value, fits) (ap ok minus)
