-- ===== src/Sexp/Tests.antt =====
-- The list functions at concrete values.
use glisp.Prelude.{pos}
use glisp.Sexp.Values.{Sexp, int}

abbrev one : Sexp
one = int (pos 1)
