-- ===== src/Builtins/Table.antt =====
-- The table `BuiltinFunctions` of functions.go, and the host that it makes for the machine: a
-- function of the table is known by its place there, the first by 1.
use glisp.Prelude.{
  ℕ, zero, suc, Bytes, codes, List, [], ◌∷◌, Option, none, some, get_elem?, Outcome, ok, panic,
  out_of_fuel, ◌>>=◌,
}
use glisp.Sexp.{Sexp, Function, sexp_null}
use glisp.Numbers.{Floats}
use glisp.Vm.{Env, Host, Call, apply_function}
use glisp.Builtins.Numeric.{
  compare_function, binary_int_function, bitwise_function, complement_function, numeric_function,
  not_function, symnum_function,
}
use glisp.Builtins.Types.{type_query_function}
use glisp.Builtins.Access.{
  cons_function, first_function, rest_function, array_access_function, sget_function,
  slice_function, len_function,
}
use glisp.Builtins.Encoding.{make_data_function}
use glisp.Builtins.Joins.{append_function, concat_function}
use glisp.Builtins.Tables.{
  hash_clear, hash_access_function, constructor_function, make_array_function,
}
use glisp.Builtins.Convert.{Conversions, match_end_function, convert_function}
use glisp.Builtins.Higher.{
  apply_to_function, map_function, foldl_function, foldr_function, set_function,
}
use glisp.Builtins.Printing.{Formats, stringify_function}

-- The functions of the source that the table names.
pub data Handler : Type 0 where
  compare_h binary_int_h numeric_h bitwise_h complement_h read_h cons_h first_h rest_h : Handler
  type_query_h print_h log_h not_h apply_h map_h fold_l_h fold_r_h make_array_h : Handler
  make_data_h array_access_h set_h sget_h hash_access_h hash_clear_h slice_h len_h : Handler
  append_h concat_h constructor_h symnum_h stringify_h convert_h match_end_h event_h : Handler
  wait_h sleep_h : Handler

abbrev pub builtin_functions : List (Bytes × Handler)
builtin_functions =
    (codes "<", compare_h)
    ∷ (codes ">", compare_h)
    ∷ (codes "<=", compare_h)
    ∷ (codes ">=", compare_h)
    ∷ (codes "=", compare_h)
    ∷ (codes "not=", compare_h)
    ∷ (codes "sll", binary_int_h)
    ∷ (codes "sra", binary_int_h)
    ∷ (codes "srl", binary_int_h)
    ∷ (codes "mod", binary_int_h)
    ∷ (codes "+", numeric_h)
    ∷ (codes "-", numeric_h)
    ∷ (codes "*", numeric_h)
    ∷ (codes "/", numeric_h)
    ∷ (codes "bit-and", bitwise_h)
    ∷ (codes "bit-or", bitwise_h)
    ∷ (codes "bit-xor", bitwise_h)
    ∷ (codes "bit-not", complement_h)
    ∷ (codes "read", read_h)
    ∷ (codes "cons", cons_h)
    ∷ (codes "first", first_h)
    ∷ (codes "rest", rest_h)
    ∷ (codes "car", first_h)
    ∷ (codes "cdr", rest_h)
    ∷ (codes "seq?", type_query_h)
    ∷ (codes "list?", type_query_h)
    ∷ (codes "null?", type_query_h)
    ∷ (codes "array?", type_query_h)
    ∷ (codes "hash?", type_query_h)
    ∷ (codes "number?", type_query_h)
    ∷ (codes "int?", type_query_h)
    ∷ (codes "float?", type_query_h)
    ∷ (codes "char?", type_query_h)
    ∷ (codes "symbol?", type_query_h)
    ∷ (codes "string?", type_query_h)
    ∷ (codes "zero?", type_query_h)
    ∷ (codes "empty?", type_query_h)
    ∷ (codes "pair?", type_query_h)
    ∷ (codes "data?", type_query_h)
    ∷ (codes "bool?", type_query_h)
    ∷ (codes "fn?", type_query_h)
    ∷ (codes "event?", type_query_h)
    ∷ (codes "println", print_h)
    ∷ (codes "print", print_h)
    ∷ (codes "plog", log_h)
    ∷ (codes "not", not_h)
    ∷ (codes "apply", apply_h)
    ∷ (codes "map", map_h)
    ∷ (codes "foldl", fold_l_h)
    ∷ (codes "foldr", fold_r_h)
    ∷ (codes "make-array", make_array_h)
    ∷ (codes "make-data", make_data_h)
    ∷ (codes "aget", array_access_h)
    ∷ (codes "aset!", array_access_h)
    ∷ (codes "set!", set_h)
    ∷ (codes "sget", sget_h)
    ∷ (codes "hget", hash_access_h)
    ∷ (codes "hset!", hash_access_h)
    ∷ (codes "hdel!", hash_access_h)
    ∷ (codes "hclear!", hash_clear_h)
    ∷ (codes "slice", slice_h)
    ∷ (codes "len", len_h)
    ∷ (codes "append", append_h)
    ∷ (codes "?append", append_h)
    ∷ (codes "concat", concat_h)
    ∷ (codes "?concat", concat_h)
    ∷ (codes "array", constructor_h)
    ∷ (codes "list", constructor_h)
    ∷ (codes "hash", constructor_h)
    ∷ (codes "symnum", symnum_h)
    ∷ (codes "str", stringify_h)
    ∷ (codes "cvert-str", convert_h)
    ∷ (codes "cvert-int64", convert_h)
    ∷ (codes "cvert-int32", convert_h)
    ∷ (codes "cvert-float32", convert_h)
    ∷ (codes "cvert-float64", convert_h)
    ∷ (codes "ends-with", match_end_h)
    ∷ (codes "begins-with", match_end_h)
    ∷ (codes "event", event_h)
    ∷ (codes "?event", event_h)
    ∷ (codes "wait", wait_h)
    ∷ (codes "?wait", wait_h)
    ∷ (codes "sleep", sleep_h)
    ∷ []

-- What the machine's values do not hold or do: the elements and the bytes behind the array and the
-- data value of an argument, up to their capacities; and the functions that read symbols, write
-- into arrays, print, or wait.
pub record Outside : Type 0 where
  pub conversions : Conversions
  pub formats : Formats
  pub spare_items : Sexp → List Sexp
  pub spare_bytes : Sexp → Bytes
  pub outside : Handler → Bytes → List Sexp → Env → Outcome (Sexp × Env)

abbrev first_argument : List Sexp → Sexp
first_argument [] = sexp_null
first_argument (e ∷ _) = e

abbrev pure : Env → Outcome Sexp → Outcome (Sexp × Env)
pure env m = m >>= λ e. ok (e, env)

module _ (f : Floats) (o : Outside) (fuel : ℕ) (call : Function → Call) where
  unfoldable pub handle : Handler → Bytes → List Sexp → Env → Outcome (Sexp × Env)
  unfolding compare_function binary_int_function bitwise_function complement_function
      numeric_function not_function symnum_function type_query_function cons_function first_function
      rest_function array_access_function sget_function slice_function len_function
      make_data_function append_function concat_function hash_clear hash_access_function
      constructor_function make_array_function match_end_function convert_function apply_to_function
      map_function foldl_function foldr_function set_function stringify_function
  handle compare_h name args env = pure env (compare_function f name args)
  handle binary_int_h name args env = pure env (binary_int_function name args)
  handle numeric_h name args env = pure env (numeric_function f name args)
  handle bitwise_h name args env = pure env (bitwise_function name args)
  handle complement_h name args env = pure env (complement_function name args)
  handle cons_h name args env = pure env (cons_function name args)
  handle first_h name args env = pure env (first_function name args)
  handle rest_h name args env = pure env (rest_function name args)
  handle type_query_h name args env = pure env (type_query_function env.hashes name args)
  handle not_h name args env = pure env (not_function name args)
  handle apply_h name args env = apply_to_function f call args env
  handle map_h name args env = map_function f call args env
  handle fold_l_h name args env = foldl_function f call args env
  handle fold_r_h name args env = foldr_function f call args env
  handle make_array_h name args env = pure env (make_array_function name args)
  handle make_data_h name args env = pure env (make_data_function env.hashes name args)
  handle array_access_h name args env = array_access_function fuel name args >>= λ (e, write).
      elim write [ none ↦ ok (e, env) | some _ ↦ o.outside array_access_h name args env ]
  handle set_h name args env = set_function args env
  handle sget_h name args env = pure env (sget_function name args)
  handle hash_access_h name args env = hash_access_function f name args env
  handle hash_clear_h name args env = hash_clear args env
  handle slice_h name args env =
      let seq = first_argument args in
      pure env (slice_function (o.spare_items seq) (o.spare_bytes seq) name args)
  handle len_h name args env = pure env (len_function env.hashes name args)
  handle append_h name args env = pure env (append_function env.hashes name args)
  handle concat_h name args env = pure env (concat_function env.hashes name args)
  handle constructor_h name args env = constructor_function f name args env
  handle symnum_h name args env = pure env (symnum_function name args)
  handle stringify_h name args env = pure env (stringify_function o.formats env.hashes fuel args)
  handle convert_h name args env = pure env (convert_function f o.conversions name args)
  handle match_end_h name args env = pure env (match_end_function name args)
  handle h name args env = o.outside h name args env

-- The function of the table with a number; 0 is the number of no function.
unfoldable pub handler_of : ℕ → Option (Bytes × Handler)
handler_of zero = none
handler_of (suc i) = get_elem? builtin_functions i

-- The host of an interpreter without hooks. The fuel bounds how deep calls go back and forth
-- between the machine and the table, and the runs on each level.
unfoldable pub glisp_host : Floats → Outside → ℕ → Host
unfolding handle handler_of apply_function
glisp_host f o zero = record { userfun = λ num env name args. out_of_fuel; before = []; after = [] }
glisp_host f o (suc fuel) = record {
  userfun = λ num env name args. elim (handler_of num) [
    | none ↦ panic
    | some (_, h) ↦
        handle f o fuel (λ fun. apply_function f (glisp_host f o fuel) fuel fun) h name args env
  ];
  before = [];
  after = [];
}
