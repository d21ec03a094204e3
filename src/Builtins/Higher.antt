-- ===== src/Builtins/Higher.antt =====
-- The functions of functions.go that call functions: `apply`, `map`, `foldl` and `foldr`; and
-- `set!`, which binds. `call` is `env.Apply`.
use glisp.Prelude.{
  ℕ, suc, pos, List, [], ◌∷◌, Outcome, ok, err, ◌>>=◌, wrong_nargs, name_not_symbol,
  bad_first_argument, bad_second_argument,
}
use glisp.Sexp.{
  Sexp, sentinel, pair, array, hash, int, str, bin, symbol, func, Function, to_list, of_list,
  list_to_array,
}
use glisp.Numbers.{Floats}
use glisp.Vm.{
  Env, Call, foldl_pair, foldr_pair, map_list, map_array, foldl_array, foldr_array, foldl_hash,
  foldr_hash, map_hash, swap_symbol,
}
use glisp.Builtins.Tables.{Effect}
use glisp.Builtins.Folds.{foldl_string, foldr_string, foldl_data, foldr_data}

-- The size of a chunk of data; what is no positive integer is not looked at.
abbrev pub chunk_size : List Sexp → ℕ
chunk_size (int (pos (suc n)) ∷ _) = suc n
chunk_size _ = 1

-- The switch on the second argument of `ApplyFunction`.
abbrev arguments_of : Sexp → Outcome (List Sexp)
arguments_of (array es) = ok (to_list es)
arguments_of (pair h t) = list_to_array (pair h t)
arguments_of (sentinel _) = ok []
arguments_of _ = err bad_second_argument

module _ (f : Floats) (call : Function → Call) where
  unfoldable pub apply_to_function : Effect
  unfolding list_to_array
  apply_to_function (func fun ∷ args ∷ []) env =
      arguments_of args >>= λ funargs. call fun funargs env
  apply_to_function (_ ∷ _ ∷ []) env = err bad_first_argument
  apply_to_function _ env = err wrong_nargs

  unfoldable pub map_seq : Function → Sexp → Env → Outcome (Sexp × Env)
  unfolding map_array map_list map_hash
  map_seq fun (array es) env =
      map_array (call fun) (to_list es) env >>= λ (vals, env'). ok (array (of_list vals), env')
  map_seq fun (pair h t) env = map_list (call fun) (pair h t) env
  map_seq fun (hash r) env = map_hash (call fun) f r env
  map_seq fun _ env = err bad_second_argument

  unfoldable pub map_function : Effect
  unfolding map_seq
  map_function (func fun ∷ seq ∷ []) env = map_seq fun seq env
  map_function (_ ∷ _ ∷ []) env = err bad_first_argument
  map_function _ env = err wrong_nargs

  unfoldable pub foldr_seq : Function → Sexp → Sexp → List Sexp → Env → Outcome (Sexp × Env)
  unfolding foldr_string foldr_array foldr_pair foldr_hash foldr_data
  foldr_seq fun (str s) acc more env = foldr_string (call fun) s acc env
  foldr_seq fun (array es) acc more env = foldr_array (call fun) (to_list es) acc env
  foldr_seq fun (pair h t) acc more env = foldr_pair (call fun) (pair h t) acc env
  foldr_seq fun (hash r) acc more env = foldr_hash (call fun) f r acc env
  foldr_seq fun (bin d) acc more env = foldr_data (call fun) d acc (chunk_size more) env
  foldr_seq fun _ acc more env = err bad_first_argument

  unfoldable pub foldr_function : Effect
  unfolding foldr_seq
  foldr_function (seq ∷ func fun ∷ acc ∷ more) env = foldr_seq fun seq acc more env
  foldr_function (_ ∷ _ ∷ _ ∷ _) env = err bad_second_argument
  foldr_function _ env = err wrong_nargs

  unfoldable pub foldl_seq : Function → Sexp → Sexp → List Sexp → Env → Outcome (Sexp × Env)
  unfolding foldl_string foldl_array foldl_pair foldl_hash foldl_data
  foldl_seq fun (str s) acc more env = foldl_string (call fun) s acc env
  foldl_seq fun (array es) acc more env = foldl_array (call fun) (to_list es) acc env
  foldl_seq fun (pair h t) acc more env = foldl_pair (call fun) (pair h t) acc env
  foldl_seq fun (hash r) acc more env = foldl_hash (call fun) f r acc env
  foldl_seq fun (bin d) acc more env = foldl_data (call fun) d acc (chunk_size more) env
  foldl_seq fun _ acc more env = err bad_first_argument

  unfoldable pub foldl_function : Effect
  unfolding foldl_seq
  foldl_function (seq ∷ func fun ∷ acc ∷ more) env = foldl_seq fun seq acc more env
  foldl_function (_ ∷ _ ∷ _ ∷ _) env = err bad_second_argument
  foldl_function _ env = err wrong_nargs

-- The loop of `SetFunction`; a last symbol without a value is not looked at.
unfoldable pub set_all : List Sexp → Env → Outcome Env
unfolding swap_symbol
set_all [] env = ok env
set_all (symbol s ∷ []) env = ok env
set_all (symbol s ∷ val ∷ args) env = swap_symbol env s val >>= λ env'. set_all args env'
set_all (_ ∷ args) env = err name_not_symbol

unfoldable pub set_function : Effect
unfolding set_all
set_function (name ∷ val ∷ args) env = set_all (name ∷ val ∷ args) env >>= λ env'. ok (name, env')
set_function _ env = err wrong_nargs
