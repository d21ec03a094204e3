-- ===== src/Builtins/Folds.antt =====
-- The folds over text in strutils.go and over data in functions.go.
use glisp.Prelude.{
  ℕ, zero, suc, ◌-◌, ◌*◌, ◌/◌, ltb, pos, Bytes, [], ◌∷◌, length, take, drop, if◌then◌else◌, Outcome,
  ok, ◌>>=◌,
}
use glisp.Sexp.{Sexp, char, bin}
use glisp.Vm.{Env, Call}
use glisp.Builtins.Runes.{rune_rest}

-- `walk[i*sz : i*sz+sz]`
abbrev pub chunk : ℕ → Bytes → ℕ → Bytes
chunk sz walk i = take sz (drop (i * sz) walk)

module _ (call : Call) where
  -- Every byte, the last first.
  unfoldable pub foldr_string : Bytes → Sexp → Env → Outcome (Sexp × Env)
  foldr_string [] acc env = ok (acc, env)
  foldr_string (c ∷ cs) acc env =
      foldr_string cs acc env >>= λ (acc', env'). call (char (pos c) ∷ acc' ∷ []) env'

  -- The first byte of every rune. `skip` bytes belong to the rune before.
  unfoldable pub foldl_bytes : ℕ → Bytes → Sexp → Env → Outcome (Sexp × Env)
  unfolding rune_rest
  foldl_bytes skip [] acc env = ok (acc, env)
  foldl_bytes (suc skip) (c ∷ cs) acc env = foldl_bytes skip cs acc env
  foldl_bytes zero (c ∷ cs) acc env = call (char (pos c) ∷ acc ∷ []) env >>= λ (acc', env').
      foldl_bytes (rune_rest c cs) cs acc' env'

  unfoldable pub foldl_string : Bytes → Sexp → Env → Outcome (Sexp × Env)
  unfolding foldl_bytes
  foldl_string s acc env = foldl_bytes 0 s acc env

  -- The loop of `FoldlData` from `i`, with `n` chunks to go.
  unfoldable pub foldl_chunks : ℕ → Bytes → ℕ → ℕ → Sexp → Env → Outcome (Sexp × Env)
  foldl_chunks sz walk i zero acc env = ok (acc, env)
  foldl_chunks sz walk i (suc n) acc env =
      call (bin (chunk sz walk i) ∷ acc ∷ []) env >>= λ (acc', env').
      foldl_chunks sz walk (suc i) n acc' env'

  unfoldable pub foldl_data : Bytes → Sexp → ℕ → Env → Outcome (Sexp × Env)
  unfolding foldl_chunks
  foldl_data walk acc sz env =
      let chunks = length walk / sz in
      foldl_chunks sz walk 0 chunks acc env >>= λ (acc', env').
      if ltb (chunks * sz) (length walk)
      then call (bin (drop (chunks * sz) walk) ∷ acc' ∷ []) env'
      else ok (acc', env')

  -- The loop of `FoldrData`, from the chunk before `i` down.
  unfoldable pub foldr_chunks : ℕ → Bytes → ℕ → Sexp → Env → Outcome (Sexp × Env)
  foldr_chunks sz walk zero acc env = ok (acc, env)
  foldr_chunks sz walk (suc i) acc env =
      call (bin (chunk sz walk i) ∷ acc ∷ []) env >>= λ (acc', env').
      foldr_chunks sz walk i acc' env'

  -- The remainder is taken from the front of the data.
  unfoldable pub foldr_data : Bytes → Sexp → ℕ → Env → Outcome (Sexp × Env)
  unfolding foldr_chunks
  foldr_data walk acc sz env =
      let chunks = length walk / sz in
      foldr_chunks sz walk chunks acc env >>= λ (acc', env').
      if ltb (chunks * sz) (length walk)
      then call (bin (take (length walk - chunks * sz) walk) ∷ acc' ∷ []) env'
      else ok (acc', env')
