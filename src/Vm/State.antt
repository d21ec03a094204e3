-- ===== src/Vm/State.antt =====
-- The state of an interpreter: the fields of `Glisp` that running code reads or writes.
use glisp.Prelude.{ℕ, ℤ, Bytes, List, [], Outcome, length}
use glisp.Sexp.{Sexp, Function, script, user, Instr, instrs}
use glisp.Hash.{Hash}

-- A `map[int]Sexp`: the latest entry for a number stands first.
abbrev pub Scope : Type 0
Scope = List (ℕ × Sexp)

pub record Env : Type 0 where
  pub datastack : List Sexp
  -- references into `scopes`; the global scope is the last
  pub scopestack : List ℕ
  pub addrstack : List (Function × ℤ)
  pub stackstack : List (List ℕ)
  pub builtins : List (ℕ × Function)
  pub curfunc : Function
  pub pc : ℤ
  pub scopes : List Scope
  pub hashes : List Hash

-- What the host program gives: its functions by number, and the hooks around each call.
pub record Host : Type 0 where
  pub userfun : ℕ → Env → Bytes → List Sexp → Outcome (Sexp × Env)
  pub before : List (Env → Bytes → List Sexp → Env)
  pub after : List (Env → Bytes → Sexp → Env)

abbrev pub code_of_function : Function → List Instr
code_of_function (script _ _ _ fun _) = instrs fun
code_of_function (user _ _ _) = []

unfoldable pub current_function_size : Env → ℕ
current_function_size env = length (code_of_function env.curfunc)
