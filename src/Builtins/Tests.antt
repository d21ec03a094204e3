-- ===== src/Builtins/Tests.antt =====
-- The builtin functions on small arguments.
use glisp.Prelude.{
  ◌+ℤ◌, ◌-ℤ◌, wrap, pos, negsuc, ◌≡◌, refl, true, false, Bytes, codes, [], ◌∷◌, ◌++◌, ◌>>=◌, none,
  some, length, arith, ok, err, panic, not_an_integer,
}
use glisp.Sexp.{Sexp, pair, array, int, bool, char, str, bin, user, of_list, make_list, sexp_null}
use glisp.Numbers.{whole_floats}
use glisp.Lexer.{Runes}
use glisp.Parser.{Symbols}
use glisp.Vm.{Env, Call}
use glisp.Builtins.Numeric.{numeric_function, complement_function}
use glisp.Builtins.Types.{type_query_function}
use glisp.Builtins.Access.{array_index, array_access_function, slice_function}
use glisp.Builtins.Encoding.{make_data_function}
use glisp.Builtins.Joins.{append_function, concat_function}
use glisp.Builtins.Convert.{Conversions, convert_function, match_end_function}
use glisp.Builtins.Folds.{foldr_data, foldl_string}
use glisp.Builtins.Printing.{Formats, sexp_string, stringify_function}
use glisp.Builtins.Indexing.{array_index-indexed}
use glisp.Builtins.Integers.{make_data-cvert_int64}
use glisp.Builtins.Reading.{read_function}
use glisp.Builtins.Reads.{read_function-int}
use glisp.Builtins.Sequences.{slice-concat}
use glisp.Builtins.Queries.{negated, type_query_function-seq}

abbrev no_conversions : Conversions
no_conversions = record {
  int_of_float = λ bits. pos bits;
  float_of_single = λ bits. bits;
  parse_float = λ width s. none;
  sprint = λ e. [];
}

abbrev plain_formats : Formats
plain_formats = record {
  quote_text = λ s. b'"' ∷ s ++ b'"' ∷ [];
  quote_rune = λ c. b'\'' ∷ b'a' ∷ b'\'' ∷ [];
  format_float = λ bits. codes "0";
  foreign_text = λ n. [];
}

abbrev empty_env : Env
empty_env = record {
  datastack = [];
  scopestack = 0 ∷ [];
  addrstack = [];
  stackstack = [];
  builtins = [];
  curfunc = user [] 1 none;
  pc = pos 0;
  scopes = [] ∷ [];
  hashes = [];
}

abbrev one_two_three : Sexp
one_two_three = array (of_list (int (pos 1) ∷ int (pos 2) ∷ int (pos 3) ∷ []))

-- The calls gather what they are given.
abbrev gather : Call
gather (e ∷ acc ∷ []) env = ok (pair e acc, env)
gather _ env = panic

-- `(- 5 3)`, and the same through a variable `f` bound to the function.
subtraction :
    numeric_function whole_floats (codes "-") (int (pos 5) ∷ int (pos 3) ∷ []) ≡ ok (int (pos 2))
unfolding numeric_function wrap ◌-ℤ◌
subtraction = refl

aliased_subtraction :
    numeric_function whole_floats (codes "f") (int (pos 5) ∷ int (pos 3) ∷ []) ≡ ok (int (pos 8))
unfolding numeric_function wrap ◌+ℤ◌
aliased_subtraction = refl

complement_of_text : complement_function (codes "bit-not") (str [] ∷ []) ≡ err not_an_integer
unfolding complement_function
complement_of_text = refl

last_element :
    array_access_function 3 (codes "aget") (one_two_three ∷ int (negsuc 0) ∷ [])
    ≡ ok (int (pos 3), none)
unfolding array_access_function
last_element = refl

element_write :
    array_access_function 3 (codes "aset!") (one_two_three ∷ int (pos 1) ∷ int (pos 7) ∷ [])
    ≡ ok (sexp_null, some (1, int (pos 7)))
unfolding array_access_function
element_write = refl

coalescing_append :
    append_function [] (codes "?append") (one_two_three ∷ sexp_null ∷ int (pos 4) ∷ [])
    ≡ ok (array (of_list (int (pos 1) ∷ int (pos 2) ∷ int (pos 3) ∷ int (pos 4) ∷ [])))
unfolding append_function
coalescing_append = refl

suffix :
    match_end_function (codes "ends-with") (str (codes "abc") ∷ str (codes "bc") ∷ [])
    ≡ ok (bool true)
unfolding match_end_function
suffix = refl

-- The right fold over three bytes, two at a time: the third is never passed on.
right_fold_over_data :
    foldr_data gather (1 ∷ 2 ∷ 3 ∷ []) sexp_null 2 empty_env
    ≡ ok (pair (bin (1 ∷ [])) (pair (bin (1 ∷ 2 ∷ [])) sexp_null), empty_env)
unfolding foldr_data
right_fold_over_data = refl

-- Beyond ASCII the left fold over text sees the first byte of each rune.
left_fold_over_text :
    foldl_string gather (0xc3 ∷ 0xa9 ∷ b'a' ∷ []) sexp_null empty_env
    ≡ ok (pair (char (pos b'a')) (pair (char (pos 0xc3)) sexp_null), empty_env)
unfolding foldl_string
left_fold_over_text = refl

printed_list :
    sexp_string plain_formats [] 5 (make_list (int (negsuc 11) ∷ str (codes "a") ∷ []))
    ≡ ok (codes "(-12 \"a\")")
unfolding sexp_string make_list
printed_list = refl

array_index-indexed_example : array_index 1 3 (negsuc 0) ≡ ok 2
array_index-indexed_example = array_index-indexed 1 3 (negsuc 0) (omega arith)

make_data-cvert_int64_example :
    (d : Bytes) × (make_data_function [] (codes "make-data") (int (negsuc 4) ∷ []) ≡ ok (bin d))
    × (convert_function whole_floats no_conversions (codes "cvert-int64") (bin d ∷ [])
        ≡ ok (array (of_list (int (negsuc 4) ∷ []))))
make_data-cvert_int64_example =
    make_data-cvert_int64 whole_floats no_conversions [] (negsuc 4) (omega arith)

abbrev no_symbols : Symbols
no_symbols = record { symtable = []; nextsymbol = 0 }

read_function-int_example :
    (stringify_function plain_formats [] 1 (int (negsuc 120) ∷ []) >>= λ s.
    read_function (λ _. none) 1 (s ∷ []) no_symbols)
    ≡ ok (int (negsuc 120), no_symbols)
read_function-int_example =
    read_function-int plain_formats [] (λ _. none) 0 0 (negsuc 120) no_symbols (omega arith)

-- A quote, a newline and a letter of two bytes, with an atom behind the literal.
abbrev quoted : Runes
quoted = b'"' ∷ b'\n' ∷ 0xe9 ∷ []

slice-concat_example :
    (a b : Bytes) × (slice_function [] []
        (codes "slice")
        (str (codes "abc") ∷ int (pos 0) ∷ int (pos 1) ∷ [])
      ≡ ok (str a))
    × (slice_function [] [] (codes "slice") (str (codes "abc") ∷ int (pos 1) ∷ int (pos 3) ∷ [])
        ≡ ok (str b))
    × (concat_function [] (codes "concat") (str a ∷ str b ∷ []) ≡ ok (str (codes "abc")))
    × (length a ≡ 1)
slice-concat_example = slice-concat [] [] [] (codes "abc") 1 (omega arith)

abbrev one : Sexp
one = int (pos 1)

type_query_function-seq_example :
    (type_query_function [] (codes "seq?") (one ∷ []) ≡ ok (bool false))
    × (type_query_function [] (codes "pair?") (pair one one ∷ [])
        ≡ negated (type_query_function [] (codes "list?") (pair one one ∷ [])))
type_query_function-seq_example = type_query_function-seq [] one one one
