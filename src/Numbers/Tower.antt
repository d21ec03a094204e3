-- ===== src/Numbers/Tower.antt =====
-- numerictower.go: the operations by operator and by the kinds of the operands.
use Prim.Native.Nat.{bit_and, bit_or, bit_xor, min}
use glisp.Prelude.{
  ℕ, ◌/◌, ◌^◌, ℤ, pos, negsuc, ◌+ℤ◌, ◌-ℤ◌, ◌*ℤ◌, quot_ℤ, rem_ℤ, eq_ℤ, wrap, to_bits, of_bits, leb,
  if◌then◌else◌, Outcome, ok, err, panic, ◌>>=◌, wrong_type, unexpected_result,
}
use glisp.Sexp.{Sexp, int, char, float}
use glisp.Numbers.Machine.{Floats}

pub data IntegerOp : Type 0 where
  shift_left shift_right_arith shift_right_log modulo bit_and_op bit_or_op bit_xor_op : IntegerOp

pub data NumericOp : Type 0 where
  add sub mult div : NumericOp

-- The first two switches of `IntegerDo`: an operand as a `SexpInt`.
unfoldable pub int_operand : Sexp → Outcome ℤ
int_operand (int i) = ok i
int_operand (char c) = ok c
int_operand _ = err wrong_type

-- `ia << n`, `ia >> n` and `uint(ia) >> n`. A count past the width leaves zeros, or sign bits.
unfoldable pub shl : ℤ → ℕ → ℤ
shl a n = if leb 64 n then pos 0 else wrap 64 (a *ℤ pos (2 ^ n))

unfoldable pub sar : ℤ → ℕ → ℤ
sar (pos a) n = pos (a / 2 ^ min n 63)
sar (negsuc a) n = negsuc (a / 2 ^ min n 63)

unfoldable pub shr : ℤ → ℕ → ℤ
shr a n = if leb 64 n then pos 0 else of_bits 64 (to_bits 64 a / 2 ^ n)

unfoldable pub integer_op : IntegerOp → ℤ → ℤ → Outcome ℤ
unfolding shl sar shr
integer_op shift_left a b = ok (shl a (to_bits 64 b))
integer_op shift_right_arith a b = ok (sar a (to_bits 64 b))
integer_op shift_right_log a b = ok (shr a (to_bits 64 b))
integer_op modulo a b = if eq_ℤ b (pos 0) then panic else ok (rem_ℤ a b)
integer_op bit_and_op a b = ok (of_bits 64 (bit_and (to_bits 64 a) (to_bits 64 b)))
integer_op bit_or_op a b = ok (of_bits 64 (bit_or (to_bits 64 a) (to_bits 64 b)))
integer_op bit_xor_op a b = ok (of_bits 64 (bit_xor (to_bits 64 a) (to_bits 64 b)))

unfoldable pub integer_do : IntegerOp → Sexp → Sexp → Outcome Sexp
unfolding int_operand integer_op
integer_do op a b = do ia ← int_operand a; ib ← int_operand b; r ← integer_op op ia ib; ok (int r)

module _ (f : Floats) where
  unfoldable pub numeric_float_do : NumericOp → ℕ → ℕ → Sexp
  numeric_float_do add a b = float (f.fadd a b)
  numeric_float_do sub a b = float (f.fsub a b)
  numeric_float_do mult a b = float (f.fmul a b)
  numeric_float_do div a b = float (f.fdiv a b)

  -- A division that leaves a remainder is done on floats; one by zero panics.
  unfoldable pub numeric_int_do : NumericOp → ℤ → ℤ → Outcome Sexp
  numeric_int_do add a b = ok (int (wrap 64 (a +ℤ b)))
  numeric_int_do sub a b = ok (int (wrap 64 (a -ℤ b)))
  numeric_int_do mult a b = ok (int (wrap 64 (a *ℤ b)))
  numeric_int_do div a b =
      if eq_ℤ b (pos 0)
      then panic
      else if eq_ℤ (rem_ℤ a b) (pos 0)
      then ok (int (wrap 64 (quot_ℤ a b)))
      else ok (float (f.fdiv (f.of_int a) (f.of_int b)))

  unfoldable pub numeric_match_float : NumericOp → ℕ → Sexp → Outcome Sexp
  unfolding numeric_float_do
  numeric_match_float op a (float b) = ok (numeric_float_do op a b)
  numeric_match_float op a (int b) = ok (numeric_float_do op a (f.of_int b))
  numeric_match_float op a (char b) = ok (numeric_float_do op a (f.of_int b))
  numeric_match_float op a _ = err wrong_type

  unfoldable pub numeric_match_int : NumericOp → ℤ → Sexp → Outcome Sexp
  unfolding numeric_float_do numeric_int_do
  numeric_match_int op a (float b) = ok (numeric_float_do op (f.of_int a) b)
  numeric_match_int op a (int b) = numeric_int_do op a b
  numeric_match_int op a (char b) = numeric_int_do op a b
  numeric_match_int op a _ = err wrong_type

  -- The last switch of `NumericMatchChar`: an integer result becomes a character.
  unfoldable pub as_char : Sexp → Outcome Sexp
  as_char (float b) = ok (float b)
  as_char (int i) = ok (char (wrap 32 i))
  as_char _ = err unexpected_result

  unfoldable pub numeric_match_char : NumericOp → ℤ → Sexp → Outcome Sexp
  unfolding numeric_float_do numeric_int_do as_char
  numeric_match_char op a (float b) = as_char (numeric_float_do op (f.of_int a) b)
  numeric_match_char op a (int b) = numeric_int_do op a b >>= as_char
  numeric_match_char op a (char b) = numeric_int_do op a b >>= as_char
  numeric_match_char op a _ = err wrong_type

  unfoldable pub numeric_do : NumericOp → Sexp → Sexp → Outcome Sexp
  unfolding numeric_match_float numeric_match_int numeric_match_char
  numeric_do op (float a) b = numeric_match_float op a b
  numeric_do op (int a) b = numeric_match_int op a b
  numeric_do op (char a) b = numeric_match_char op a b
  numeric_do op _ b = err wrong_type
