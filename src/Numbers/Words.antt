-- ===== src/Numbers/Words.antt =====
-- The ranges of the machine types, and results in them.
use Prim.Native.Nat.{min}
use native.Mathlib.Nat.{div-le_self, mod-le}
use glisp.Prelude.{
  suc, ℕ, ◌/◌, ◌^◌, ℤ, pos, negsuc, ◌+ℤ◌, ◌-ℤ◌, ◌*ℤ◌, quot_ℤ, rem_ℤ, to_bits, of_bits, Fits,
  wrap64-Fits, wrap64-eq_of_Fits, wrap32-Fits, Outcome, ok, err, panic, out_of_fuel, ◌>>=◌, ◌≡◌,
  refl, arith, ◌≢◌,
}
use glisp.Sexp.{Sexp, int, char, float}
use glisp.Numbers.Machine.{Floats}
use glisp.Numbers.Tower.{
  IntegerOp, shift_left, shift_right_arith, shift_right_log, modulo, bit_and_op, bit_or_op,
  bit_xor_op, NumericOp, add, sub, mult, div, shl, sar, shr, integer_op, integer_do,
  numeric_float_do, numeric_int_do, as_char, numeric_do,
}

-- A value whose number, if it has one, is in the range of its Go type.
abbrev pub IsWord : Sexp → Type 0
IsWord (int i) = Fits 64 i
IsWord (char c) = Fits 32 c
IsWord _ = Unit

abbrev pub ResultIsWord : Outcome Sexp → Type 0
ResultIsWord (ok v) = IsWord v
ResultIsWord _ = Unit

of_bits-Fits : (b : ℕ) → Fits 64 (of_bits 64 b)
unfolding of_bits
of_bits-Fits b = ground arith

rem_ℤ-Fits : (a b : ℤ) → Fits 64 a → Fits 64 (rem_ℤ a b)
unfolding rem_ℤ
rem_ℤ-Fits (pos a) (pos b) h = omega (arith, mod-le a b)
rem_ℤ-Fits (pos a) (negsuc b) h = omega (arith, mod-le a (suc b))
rem_ℤ-Fits (negsuc a) (pos b) h = ground (arith, mod-le (suc a) b)
rem_ℤ-Fits (negsuc a) (negsuc b) h = ground (arith, mod-le (suc a) (suc b))

sar-Fits : (a : ℤ) (n : ℕ) → Fits 64 a → Fits 64 (sar a n)
unfolding sar
sar-Fits (pos a) n h = omega (arith, div-le_self a (2 ^ min n 63))
sar-Fits (negsuc a) n h = omega (arith, div-le_self a (2 ^ min n 63))

shl-Fits : (a : ℤ) (n : ℕ) → Fits 64 (shl a n)
unfolding shl
shl-Fits a n = ground (arith, wrap64-Fits (a *ℤ pos (2 ^ n)))

shr-Fits : (a : ℤ) (n : ℕ) → Fits 64 (shr a n)
unfolding shr
shr-Fits a n = ground (arith, of_bits-Fits (to_bits 64 a / 2 ^ n))

abbrev OutcomeFits : Outcome ℤ → Type 0
OutcomeFits (ok i) = Fits 64 i
OutcomeFits _ = Unit

integer_op-Fits : (op : IntegerOp) (a b : ℤ) → Fits 64 a → OutcomeFits (integer_op op a b)
unfolding integer_op
integer_op-Fits shift_left a b h = shl-Fits a _
integer_op-Fits shift_right_arith a b h = sar-Fits a _ h
integer_op-Fits shift_right_log a b h = shr-Fits a _
integer_op-Fits modulo a b h = ground (arith, rem_ℤ-Fits a b h)
integer_op-Fits bit_and_op a b h = of_bits-Fits _
integer_op-Fits bit_or_op a b h = of_bits-Fits _
integer_op-Fits bit_xor_op a b h = of_bits-Fits _

module _ (f : Floats) where
  numeric_int_do-IsWord : (op : NumericOp) (a b : ℤ) → ResultIsWord (numeric_int_do f op a b)
  unfolding numeric_int_do
  numeric_int_do-IsWord add a b = wrap64-Fits (a +ℤ b)
  numeric_int_do-IsWord sub a b = wrap64-Fits (a -ℤ b)
  numeric_int_do-IsWord mult a b = wrap64-Fits (a *ℤ b)
  numeric_int_do-IsWord div a b = ground (arith, wrap64-Fits (quot_ℤ a b))

  as_char-IsWord : (v : Sexp) → ResultIsWord (as_char f v)
  unfolding as_char
  as_char-IsWord (float b) = tt
  as_char-IsWord (int i) = wrap32-Fits i
  as_char-IsWord _ = tt

  float_IsWord : (op : NumericOp) (a b : ℕ) → IsWord (numeric_float_do f op a b)
  unfolding numeric_float_do
  float_IsWord add a b = tt
  float_IsWord sub a b = tt
  float_IsWord mult a b = tt
  float_IsWord div a b = tt

  bind-IsWord :
      (m : Outcome Sexp) (k : Sexp → Outcome Sexp)
      → ((v : Sexp) → ResultIsWord (k v))
      → ResultIsWord (m >>= k)
  bind-IsWord (ok v) k h = h v
  bind-IsWord (err e) k h = tt
  bind-IsWord panic k h = tt
  bind-IsWord out_of_fuel k h = tt

  -- Arithmetic gives integers of 64 bits and characters of 32 bits, whatever the operands.
  pub numeric_do-IsWord : (op : NumericOp) (a b : Sexp) → ResultIsWord (numeric_do f op a b)
  unfolding numeric_do
  numeric_do-IsWord op (float a) (float b) = float_IsWord op a b
  numeric_do-IsWord op (float a) (int b) = float_IsWord op a (f.of_int b)
  numeric_do-IsWord op (float a) (char b) = float_IsWord op a (f.of_int b)
  numeric_do-IsWord op (float a) _ = tt
  numeric_do-IsWord op (int a) (float b) = float_IsWord op (f.of_int a) b
  numeric_do-IsWord op (int a) (int b) = numeric_int_do-IsWord op a b
  numeric_do-IsWord op (int a) (char b) = numeric_int_do-IsWord op a b
  numeric_do-IsWord op (int a) _ = tt
  numeric_do-IsWord op (char a) (float b) = as_char-IsWord (numeric_float_do f op (f.of_int a) b)
  numeric_do-IsWord op (char a) (int b) =
      bind-IsWord (numeric_int_do f op a b) (as_char f) as_char-IsWord
  numeric_do-IsWord op (char a) (char b) =
      bind-IsWord (numeric_int_do f op a b) (as_char f) as_char-IsWord
  numeric_do-IsWord op (char a) _ = tt
  numeric_do-IsWord op _ b = tt

int_IsWord :
    (op : IntegerOp) (a b : ℤ) → Fits 64 a → ResultIsWord (integer_op op a b >>= λ r. ok (int r))
int_IsWord op a b h = go (integer_op op a b) (integer_op-Fits op a b h)
  where
    go : (r : Outcome ℤ) → OutcomeFits r → ResultIsWord (r >>= λ i. ok (int i))
    go (ok i) fits = fits
    go (err e) fits = tt
    go panic fits = tt
    go out_of_fuel fits = tt

char-Fits : (c : ℤ) → Fits 32 c → Fits 64 c
char-Fits (pos n) h = omega arith
char-Fits (negsuc n) h = omega arith

-- The integer operations give integers of 64 bits, if the first operand is in the range of its
-- type.
pub integer_do-IsWord : (op : IntegerOp) (a b : Sexp) → IsWord a → ResultIsWord (integer_do op a b)
unfolding integer_do
integer_do-IsWord op (int a) (int b) h = int_IsWord op a b h
integer_do-IsWord op (int a) (char b) h = int_IsWord op a b h
integer_do-IsWord op (char a) (int b) h = int_IsWord op a b (char-Fits a h)
integer_do-IsWord op (char a) (char b) h = int_IsWord op a b (char-Fits a h)
integer_do-IsWord op (int a) _ h = tt
integer_do-IsWord op (char a) _ h = tt
integer_do-IsWord op _ b h = tt

-- The result without the limit of 64 bits.
abbrev pub exact : NumericOp → ℤ → ℤ → ℤ
exact add a b = a +ℤ b
exact sub a b = a -ℤ b
exact mult a b = a *ℤ b
exact div a b = quot_ℤ a b

module _ (f : Floats) where
  -- A sum, difference or product of two integers that fits in 64 bits is exact.
  pub numeric_do-exact :
      (op : NumericOp) (a b : ℤ)
      → op ≢ div
      → Fits 64 (exact op a b)
      → numeric_do f op (int a) (int b) ≡ ok (int (exact op a b))
  unfolding numeric_do
  numeric_do-exact add a b n h = rw (wrap64-eq_of_Fits (a +ℤ b) h)
  numeric_do-exact sub a b n h = rw (wrap64-eq_of_Fits (a -ℤ b) h)
  numeric_do-exact mult a b n h = rw (wrap64-eq_of_Fits (a *ℤ b) h)
  numeric_do-exact div a b n h = absurd (n refl)
