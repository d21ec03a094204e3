-- ===== src/Compare/Tests.antt =====
-- Comparisons at concrete values.
use glisp.Prelude.{◌^◌, ◌-◌, pos, negsuc, codes, ◌≡◌, arith, true, ◌↔◌, Fits, ◌-ℤ◌}
use glisp.Sexp.{Sexp, int, char, str, pair, array, cons, nil, sexp_null}
use glisp.Numbers.{whole_floats}
use glisp.Compare.Defs.{compare}
use glisp.Compare.Keys.{number, is_match, is_match-compare, int_key, char_key}

too_far : ¬ Fits 64 (pos (2 ^ 63 - 1) -ℤ negsuc 0)
unfolding ◌-ℤ◌
too_far h = absurd (omega (arith, h))

is_match-compare_example :
    (is_match (compare whole_floats (int (pos 65)) (char (pos 65))) ≡ true)
    ↔ (number (pos 65) ≡ number (pos 65))
is_match-compare_example =
    is_match-compare whole_floats (int_key {i = pos 65} (omega arith))
      (char_key {c = pos 65} (omega arith))

abbrev sample : Sexp
sample = pair (str (codes "a")) (pair (array (cons (int (pos 1)) nil)) sexp_null)
