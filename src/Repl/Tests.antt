-- ===== src/Repl/Tests.antt =====
-- Expressions of one line and of two, and lines that are never balanced.
use glisp.Prelude.{◌≡◌, refl, Bytes, codes, List, [], ◌∷◌, none, some}
use glisp.Builtins.{decode_runes}
use glisp.Repl.Reading.{balance, is_balanced, read_more, get_expression, count_call}
use glisp.Repl.Shortest.{IsShortest, get_expression-IsShortest}

abbrev two_lines : List Bytes
two_lines = codes "(+ 1" ∷ codes "2)" ∷ codes "7" ∷ []

two_read : get_expression two_lines ≡ some (codes "(+ 1\n2)", codes "7" ∷ [])
unfolding get_expression read_more is_balanced balance decode_runes
two_read = refl

-- A parenthesis too many is made good by a later line.
one_too_many :
    get_expression (codes "1)" ∷ codes "2" ∷ codes "(3" ∷ []) ≡ some (codes "1)\n2\n(3", [])
unfolding get_expression read_more is_balanced balance decode_runes
one_too_many = refl

never_balanced : get_expression (codes "\"(\"" ∷ codes "x" ∷ []) ≡ none
unfolding get_expression read_more is_balanced balance decode_runes
never_balanced = refl

counted :
    count_call (codes "f") ((codes "g", 1) ∷ (codes "f", 2) ∷ [])
    ≡ (codes "g", 1) ∷ (codes "f", 3) ∷ []
unfolding count_call
counted = refl

get_expression-IsShortest_example :
    IsShortest (codes "(+ 1") (codes "2)" ∷ codes "7" ∷ []) (codes "(+ 1\n2)", codes "7" ∷ [])
get_expression-IsShortest_example =
    get_expression-IsShortest (codes "(+ 1") (codes "2)" ∷ codes "7" ∷ [])
      (codes "(+ 1\n2)", codes "7" ∷ []) two_read
