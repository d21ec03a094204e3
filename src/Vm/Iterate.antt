-- ===== src/Vm/Iterate.antt =====
-- The folds and maps of listutils.go, arrayutils.go and hashutils.go, which call back into the
-- interpreter: each call takes the environment that the one before left.
use glisp.Prelude.{
  ℕ, zero, suc, List, [], ◌∷◌, none, some, length, get_elem?, Outcome, ok, err, panic, ◌>>=◌,
  not_a_list, inconsistent_hash, if◌then◌else◌,
}
use glisp.Sexp.{Sexp, sentinel, null, end, pair, array, of_list, sexp_null, Function, is_sentinel}
use glisp.Numbers.{Floats}
use glisp.Hash.{hash_get_default}
use glisp.Vm.State.{Env, Host}
use glisp.Vm.Execute.{apply}

abbrev pub Call : Type 0
Call = List Sexp → Env → Outcome (Sexp × Env)

-- `env.Apply(fun, args)`; a run always gives a value, since the code of a function has its return.
unfoldable pub apply_function : Floats → Host → ℕ → Function → Call
unfolding apply
apply_function f host fuel fun args env =
    apply f host fuel fun args env >>= λ (v, env'). elim v [ some e ↦ ok (e, env') | none ↦ panic ]

module _ (call : Call) where
  -- What follows the pairs is null, or a last value.
  unfoldable pub foldr_pair : Sexp → Sexp → Env → Outcome (Sexp × Env)
  foldr_pair (pair h t) acc env = foldr_pair t acc env >>= λ (acc', env'). call (h ∷ acc' ∷ []) env'
  foldr_pair (sentinel null) acc env = ok (acc, env)
  foldr_pair e acc env = call (e ∷ acc ∷ []) env

  unfoldable pub foldl_pair : Sexp → Sexp → Env → Outcome (Sexp × Env)
  foldl_pair (pair h t) acc env = call (h ∷ acc ∷ []) env >>= λ (acc', env'). foldl_pair t acc' env'
  foldl_pair (sentinel null) acc env = ok (acc, env)
  foldl_pair e acc env = call (e ∷ acc ∷ []) env

  unfoldable pub map_list : Sexp → Env → Outcome (Sexp × Env)
  map_list (sentinel null) env = ok (sexp_null, env)
  map_list (pair h t) env =
      call (h ∷ []) env >>= λ (h', env₁). map_list t env₁ >>= λ (t', env₂). ok (pair h' t', env₂)
  map_list _ env = err not_a_list

  unfoldable pub map_array : List Sexp → Env → Outcome (List Sexp × Env)
  map_array [] env = ok ([], env)
  map_array (e ∷ es) env =
      call (e ∷ []) env >>= λ (e', env₁). map_array es env₁ >>= λ (es', env₂). ok (e' ∷ es', env₂)

  -- The last value first.
  unfoldable pub foldr_array : List Sexp → Sexp → Env → Outcome (Sexp × Env)
  foldr_array [] acc env = ok (acc, env)
  foldr_array (e ∷ es) acc env =
      foldr_array es acc env >>= λ (acc', env'). call (e ∷ acc' ∷ []) env'

  unfoldable pub foldl_array : List Sexp → Sexp → Env → Outcome (Sexp × Env)
  foldl_array [] acc env = ok (acc, env)
  foldl_array (e ∷ es) acc env =
      call (e ∷ acc ∷ []) env >>= λ (acc', env'). foldl_array es acc' env'

  module _ (f : Floats) where
    -- The value of a key in the table as it is now; a key of the order without one is an error.
    unfoldable pub walked_value : ℕ → Sexp → Env → Outcome Sexp
    unfolding hash_get_default
    walked_value r key env = elim (get_elem? env.hashes r) [
      | none ↦ panic
      | some table ↦ hash_get_default f table key (sentinel end) >>= λ val.
          if is_sentinel end val then err inconsistent_hash else ok val
    ]

    -- The order of the keys is read once, the table before each call.
    unfoldable pub foldl_keys : ℕ → List Sexp → Sexp → Env → Outcome (Sexp × Env)
    unfolding walked_value
    foldl_keys r [] acc env = ok (acc, env)
    foldl_keys r (key ∷ keys) acc env = walked_value r key env >>= λ val.
        call (pair key val ∷ acc ∷ []) env >>= λ (acc', env'). foldl_keys r keys acc' env'

    -- The order is read again before each call, from its end as it was at the start.
    unfoldable pub foldr_keys : ℕ → ℕ → Sexp → Env → Outcome (Sexp × Env)
    unfolding walked_value
    foldr_keys r zero acc env = ok (acc, env)
    foldr_keys r (suc i) acc env = elim (get_elem? env.hashes r) [
      | none ↦ panic
      | some table ↦ elim (get_elem? table.key_order i) [
        | none ↦ panic
        | some key ↦ walked_value r key env >>= λ val.
            call (pair key val ∷ acc ∷ []) env >>= λ (acc', env'). foldr_keys r i acc' env'
      ]
    ]

    unfoldable pub map_keys : ℕ → List Sexp → Env → Outcome (List Sexp × Env)
    unfolding walked_value
    map_keys r [] env = ok ([], env)
    map_keys r (key ∷ keys) env = walked_value r key env >>= λ val.
        call (pair key val ∷ []) env >>= λ (e, env₁).
        map_keys r keys env₁ >>= λ (es, env₂). ok (e ∷ es, env₂)

    abbrev order_of : ℕ → Env → Outcome (List Sexp)
    order_of r env = elim (get_elem? env.hashes r) [
      | none ↦ panic
      | some table ↦ ok table.key_order
    ]

    unfoldable pub foldl_hash : ℕ → Sexp → Env → Outcome (Sexp × Env)
    unfolding foldl_keys
    foldl_hash r acc env = order_of r env >>= λ keys. foldl_keys r keys acc env

    unfoldable pub foldr_hash : ℕ → Sexp → Env → Outcome (Sexp × Env)
    unfolding foldr_keys
    foldr_hash r acc env = order_of r env >>= λ keys. foldr_keys r (length keys) acc env

    unfoldable pub map_hash : ℕ → Env → Outcome (Sexp × Env)
    unfolding map_keys
    map_hash r env = order_of r env >>= λ keys.
        map_keys r keys env >>= λ (es, env'). ok (array (of_list es), env')
