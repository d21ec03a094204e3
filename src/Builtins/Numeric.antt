-- ===== src/Builtins/Numeric.antt =====
-- The functions of functions.go on numbers: comparison, arithmetic and the operations on bits.
use glisp.Prelude.{
  ℤ, pos, negsuc, ltb_ℤ, eq_ℤ, Bool, false, not, Bytes, codes, List, [], ◌∷◌, Outcome, ok, err,
  ◌>>=◌, wrong_nargs, not_an_integer, bad_first_argument,
}
use glisp.Sexp.{Sexp, int, bool, char, symbol, is_truthy}
use glisp.Numbers.{
  Floats, IntegerOp, shift_left, shift_right_arith, shift_right_log, modulo, bit_and_op, bit_or_op,
  bit_xor_op, NumericOp, add, sub, mult, div, integer_do, numeric_do,
}
use glisp.Compare.{compare}
use glisp.Builtins.Arguments.{Builtin, select}

-- The switch of `CompareFunction`.
unfoldable pub comparison : Bytes → ℤ → Bool
comparison name res =
    select false
      ((codes "<", ltb_ℤ res (pos 0))
        ∷ (codes ">", ltb_ℤ (pos 0) res)
        ∷ (codes "<=", not (ltb_ℤ (pos 0) res))
        ∷ (codes ">=", not (ltb_ℤ res (pos 0)))
        ∷ (codes "=", eq_ℤ res (pos 0))
        ∷ (codes "not=", not (eq_ℤ res (pos 0)))
        ∷ [])
      name

unfoldable pub compare_function : Floats → Builtin
unfolding comparison
compare_function f name (a ∷ b ∷ []) = compare f a b >>= λ res. ok (bool (comparison name res))
compare_function f name _ = err wrong_nargs

-- The operator variables start at the first constant of their type.
unfoldable pub binary_op : Bytes → IntegerOp
binary_op name =
    select shift_left
      ((codes "sll", shift_left)
        ∷ (codes "sra", shift_right_arith)
        ∷ (codes "srl", shift_right_log)
        ∷ (codes "mod", modulo)
        ∷ [])
      name

unfoldable pub binary_int_function : Builtin
unfolding binary_op integer_do
binary_int_function name (a ∷ b ∷ []) = integer_do (binary_op name) a b
binary_int_function name _ = err wrong_nargs

unfoldable pub bitwise_op : Bytes → IntegerOp
bitwise_op name =
    select shift_left
      ((codes "bit-and", bit_and_op)
        ∷ (codes "bit-or", bit_or_op)
        ∷ (codes "bit-xor", bit_xor_op)
        ∷ [])
      name

-- The loop of `BitwiseFunction`.
unfoldable pub integer_fold : IntegerOp → Sexp → List Sexp → Outcome Sexp
unfolding integer_do
integer_fold op accum [] = ok accum
integer_fold op accum (e ∷ es) = integer_do op accum e >>= λ accum'. integer_fold op accum' es

unfoldable pub bitwise_function : Builtin
unfolding bitwise_op integer_fold
bitwise_function name (a ∷ b ∷ []) = integer_fold (bitwise_op name) a (b ∷ [])
bitwise_function name _ = err wrong_nargs

-- `^t`
abbrev pub complement : ℤ → ℤ
complement (pos n) = negsuc n
complement (negsuc n) = pos n

unfoldable pub complement_function : Builtin
complement_function name (int i ∷ []) = ok (int (complement i))
complement_function name (char c ∷ []) = ok (char (complement c))
complement_function name (_ ∷ []) = err not_an_integer
complement_function name _ = err wrong_nargs

unfoldable pub arithmetic_op : Bytes → NumericOp
arithmetic_op name =
    select add ((codes "+", add) ∷ (codes "-", sub) ∷ (codes "*", mult) ∷ (codes "/", div) ∷ [])
      name

-- The loop of `NumericFunction`.
unfoldable pub numeric_fold : Floats → NumericOp → Sexp → List Sexp → Outcome Sexp
unfolding numeric_do
numeric_fold f op accum [] = ok accum
numeric_fold f op accum (e ∷ es) = numeric_do f op accum e >>= λ accum'. numeric_fold f op accum' es

-- One argument alone comes back as it is, whatever it is.
unfoldable pub numeric_function : Floats → Builtin
unfolding arithmetic_op numeric_fold
numeric_function f name [] = err wrong_nargs
numeric_function f name (a ∷ args) = numeric_fold f (arithmetic_op name) a args

unfoldable pub not_function : Builtin
unfolding is_truthy
not_function name (e ∷ []) = ok (bool (not (is_truthy e)))
not_function name _ = err wrong_nargs

unfoldable pub symnum_function : Builtin
symnum_function name (symbol s ∷ []) = ok (int (pos s.number))
symnum_function name (_ ∷ []) = err bad_first_argument
symnum_function name _ = err wrong_nargs
