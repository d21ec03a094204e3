-- ===== src/Builtins/Tables.antt =====
-- The functions of functions.go that make values, and those that read and change hash tables.
-- `hset!`, `hdel!` and `hclear!` write to the store of tables; the other arguments may share them.
use glisp.Prelude.{
  ℕ, pos, negsuc, Bytes, bytes_eq, codes, List, [], ◌∷◌, ◌++◌, length, get_elem?, set, none, some,
  replicate, if◌then◌else◌, Outcome, ok, err, panic, ◌>>=◌, wrong_nargs, bad_first_argument,
  invalid_constructor,
}
use glisp.Sexp.{Sexp, array, hash, int, of_list, sexp_null, make_list}
use glisp.Numbers.{Floats}
use glisp.Hash.{Hash, hash_get, hash_get_default, hash_set, hash_delete, clear, make_hash}
use glisp.Vm.{Env}
use glisp.Builtins.Arguments.{Builtin}

abbrev pub table_at : ℕ → Env → Outcome Hash
table_at r env = elim (get_elem? env.hashes r) [ some h ↦ ok h | none ↦ panic ]

abbrev pub put_table : ℕ → Hash → Env → Env
put_table r h env = record env { hashes = set env.hashes r h }

-- A function that writes to the interpreter.
abbrev pub Effect : Type 0
Effect = List Sexp → Env → Outcome (Sexp × Env)

unfoldable pub hash_clear : Effect
unfolding clear
hash_clear [] env = err wrong_nargs
hash_clear (hash r ∷ []) env = table_at r env >>= λ h. ok (sexp_null, put_table r (clear h) env)
hash_clear (hash r ∷ arg ∷ args) env =
    table_at r env >>= λ h. hash_clear (arg ∷ args) (put_table r (clear h) env)
hash_clear (_ ∷ args) env = err bad_first_argument

module _ (f : Floats) where
  unfoldable pub hget : Hash → Sexp → List Sexp → Outcome Sexp
  unfolding hash_get hash_get_default
  hget h key (default ∷ _) = hash_get_default f h key default
  hget h key [] = hash_get f h key

  -- `args[2]` of two arguments panics.
  unfoldable pub hset : Hash → Sexp → List Sexp → Outcome Hash
  unfolding hash_set
  hset h key (val ∷ _) = hash_set f h key val
  hset h key [] = panic

  unfoldable pub hdel : Hash → Sexp → List Sexp → Outcome Hash
  unfolding hash_delete
  hdel h key [] = hash_delete f h key
  hdel h key (_ ∷ _) = err wrong_nargs

  -- The switch of `HashAccessFunction`, on two or three arguments.
  unfoldable pub hash_access : Bytes → ℕ → Sexp → List Sexp → Env → Outcome (Sexp × Env)
  unfolding hget hset hdel
  hash_access name r key more env = table_at r env >>= λ h.
      if bytes_eq name (codes "hget")
      then (hget h key more >>= λ val. ok (val, env))
      else if bytes_eq name (codes "hset!")
      then (hset h key more >>= λ h'. ok (sexp_null, put_table r h' env))
      else if bytes_eq name (codes "hdel!")
      then (hdel h key more >>= λ h'. ok (sexp_null, put_table r h' env))
      else ok (sexp_null, env)

  unfoldable pub hash_access_function : Bytes → Effect
  unfolding hash_access
  hash_access_function name (hash r ∷ key ∷ []) env = hash_access name r key [] env
  hash_access_function name (hash r ∷ key ∷ val ∷ []) env = hash_access name r key (val ∷ []) env
  hash_access_function name (_ ∷ _ ∷ []) env = err bad_first_argument
  hash_access_function name (_ ∷ _ ∷ _ ∷ []) env = err bad_first_argument
  hash_access_function name _ env = err wrong_nargs

  unfoldable pub constructor_function : Bytes → Effect
  unfolding make_list make_hash
  constructor_function name args env =
      if bytes_eq name (codes "array")
      then ok (array (of_list args), env)
      else if bytes_eq name (codes "list")
      then ok (make_list args, env)
      else if bytes_eq name (codes "hash")
      then (make_hash f args (codes "hash") >>= λ h.
          ok (hash (length env.hashes), record env { hashes = env.hashes ++ h ∷ [] }))
      else err invalid_constructor

-- With two arguments the second fills the array; with any other number, null does.
abbrev fill_value : List Sexp → Sexp
fill_value (fill ∷ []) = fill
fill_value _ = sexp_null

-- `make` panics on a negative size.
unfoldable pub make_array_function : Builtin
make_array_function name [] = err wrong_nargs
make_array_function name (int (pos size) ∷ more) =
    ok (array (of_list (replicate size (fill_value more))))
make_array_function name (int (negsuc _) ∷ more) = panic
make_array_function name (_ ∷ more) = err bad_first_argument
