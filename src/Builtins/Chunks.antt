-- ===== src/Builtins/Chunks.antt =====
-- The folds over data of functions.go, against lists of the pieces that they pass on.
use glisp.Prelude.{
  ℕ, zero, suc, ◌-◌, ◌*◌, ◌/◌, true, false, Bytes, List, [], ◌∷◌, ◌++◌, length, take, drop,
  if◌then◌else◌, Outcome, ok, Bool,
}
use glisp.Sexp.{Sexp, bin}
use glisp.Vm.{Env, Call}
use glisp.Builtins.Folds.{chunk}

-- The full chunks of data from the i-th on, and the rest if there is one.
abbrev pub chunks_from : ℕ → Bytes → ℕ → ℕ → List Bytes
chunks_from sz walk i zero = []
chunks_from sz walk i (suc n) = chunk sz walk i ∷ chunks_from sz walk (suc i) n

abbrev pub chunks_below : ℕ → Bytes → ℕ → List Bytes
chunks_below sz walk zero = []
chunks_below sz walk (suc i) = chunk sz walk i ∷ chunks_below sz walk i

abbrev pub piece : Bytes → List Bytes
piece [] = []
piece (c ∷ cs) = (c ∷ cs) ∷ []

abbrev pub join : List Bytes → Bytes
join [] = []
join (d ∷ ds) = d ++ join ds

-- The pieces of data that `FoldlData` passes on.
abbrev pub pieces : ℕ → Bytes → List Bytes
pieces sz walk =
    let chunks = length walk / sz in chunks_from sz walk 0 chunks ++ piece (drop (chunks * sz) walk)

abbrev has_any : Bytes → Bool
has_any [] = false
has_any (_ ∷ _) = true

-- What `FoldrData` passes on: the full chunks from the last to the first, and then as many bytes
-- from the front of the data as are left over behind the chunks.
abbrev pub pieces_back : ℕ → Bytes → List Bytes
pieces_back sz walk =
    let chunks = length walk / sz in
    chunks_below sz walk chunks ++ piece (take (length walk - chunks * sz) walk)

-- The call for what is left over, if anything is.
abbrev last_call : Call → Bool → Bytes → Sexp × Env → Outcome (Sexp × Env)
last_call call more d (acc, env) = if more then call (bin d ∷ acc ∷ []) env else ok (acc, env)
