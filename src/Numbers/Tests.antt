-- ===== src/Numbers/Tests.antt =====
-- Arithmetic at the limits of the machine's integers.
use glisp.Prelude.{◌^◌, ◌-◌, ℤ, pos, negsuc, ok, panic, ◌≡◌, refl, wrap, ◌+ℤ◌}
use glisp.Sexp.{int, char, is_number}
use glisp.Numbers.Machine.{whole_floats}
use glisp.Numbers.Tower.{add, div, numeric_do}
use glisp.Numbers.Errors.{numeric_do-Classified}

abbrev max_int : ℤ
max_int = pos (2 ^ 63 - 1)

-- The sum wraps around.
sum_wraps : numeric_do whole_floats add (int max_int) (int (pos 1)) ≡ ok (int (negsuc (2 ^ 63 - 1)))
unfolding numeric_do wrap ◌+ℤ◌
sum_wraps = refl

numeric_do-Classified_example : numeric_do whole_floats div (char (pos 9)) (int (pos 0)) ≡ panic
unfolding is_number
numeric_do-Classified_example = numeric_do-Classified whole_floats div (char (pos 9)) (int (pos 0))
