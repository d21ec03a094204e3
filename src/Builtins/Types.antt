-- ===== src/Builtins/Types.antt =====
-- `TypeQueryFunction` of functions.go.
use glisp.Prelude.{
  Bool, true, false, ◌||◌, Bytes, codes, List, [], ◌∷◌, Outcome, ok, err, wrong_nargs,
}
use glisp.Sexp.{
  Sexp, null, bool, event, func, is_sentinel, is_list, is_pair, is_array, is_number, is_float,
  is_int, is_char, is_symbol, is_string, is_hash, is_data, is_zero,
}
use glisp.Hash.{Hash}
use glisp.Builtins.Arguments.{select, is_empty}

abbrev is_event : Sexp → Bool
is_event (event _) = true
is_event _ = false

abbrev is_bool : Sexp → Bool
is_bool (bool _) = true
is_bool _ = false

abbrev is_fn : Sexp → Bool
is_fn (func _) = true
is_fn _ = false

unfoldable pub type_test : List Hash → Bytes → Sexp → Bool
unfolding is_list is_pair is_array is_number is_float is_int is_char is_symbol is_string is_hash
    is_data is_zero is_empty
type_test hashes name e =
    select false
      ((codes "event?", is_event e)
        ∷ (codes "list?", is_list e)
        ∷ (codes "pair?", is_pair e)
        ∷ (codes "null?", is_sentinel null e)
        ∷ (codes "array?", is_array e)
        ∷ (codes "number?", is_number e)
        ∷ (codes "float?", is_float e)
        ∷ (codes "int?", is_int e)
        ∷ (codes "char?", is_char e)
        ∷ (codes "symbol?", is_symbol e)
        ∷ (codes "string?", is_string e)
        ∷ (codes "hash?", is_hash e)
        ∷ (codes "data?", is_data e)
        ∷ (codes "zero?", is_zero e)
        ∷ (codes "empty?", is_empty hashes e)
        ∷ (codes "bool?", is_bool e)
        ∷ (codes "fn?", is_fn e)
        ∷ (codes "seq?", is_list e || is_pair e || is_array e)
        ∷ [])
      name

unfoldable pub type_query_function : List Hash → Bytes → List Sexp → Outcome Sexp
unfolding type_test
type_query_function hashes name (e ∷ []) = ok (bool (type_test hashes name e))
type_query_function hashes name _ = err wrong_nargs
