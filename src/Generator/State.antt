-- ===== src/Generator/State.antt =====
-- The generator's state and the plumbing of its functions. A function of the source that returns
-- an error may have changed the generator before, and some callers drop the error: so the state
-- comes back with it.
use glisp.Prelude.{
  ℕ, zero, suc, ◌+◌, ◌/◌, ◌%◌, ◌==◌, Bool, false, Bytes, List, [], ◌∷◌, ◌++◌, Option, none, some,
  if◌then◌else◌, Outcome, ok, ◌>>=◌, Error,
}
use glisp.Sexp.{Function, Instr, Symbol}
use glisp.Vm.{Env}
use glisp.Parser.{Symbols, make_symbol}

pub record Gen : Type 0 where
  -- the parts of the environment that the generator reads and writes
  pub env : Env
  pub symbols : Symbols
  pub macros : List (ℕ × Function)
  pub imports : List Bytes
  pub funcname : Bytes
  pub tail : Bool
  pub scopes : ℕ
  pub instructions : List Instr

abbrev pub Gens : Type 0
Gens = Gen → Outcome (Gen × Option Error)

abbrev pub done : Gens
done gen = ok (gen, none)

abbrev pub fail : Error → Gens
fail e gen = ok (gen, some e)

-- `if err != nil { return err }`
infixl 5 ◌>>>◌
abbrev pub ◌>>>◌ : Gens → Gens → Gens
◌>>>◌ m k gen = m gen >>= λ (gen', e). elim e [ none ↦ k gen' | some x ↦ ok (gen', some x) ]

-- A call whose error is dropped.
abbrev pub ignore : Gens → Gens
ignore m gen = m gen >>= λ (gen', e). ok (gen', none)

unfoldable pub add_instructions : List Instr → Gens
add_instructions instrs gen = ok (record gen { instructions = gen.instructions ++ instrs }, none)

abbrev pub add : Instr → Gens
add i = add_instructions (i ∷ [])

abbrev pub set_tail : Bool → Gens
set_tail b gen = ok (record gen { tail = b }, none)

-- `NewGenerator`, on the environment of another generator.
unfoldable pub new_generator : Gen → Gen
new_generator gen = record gen { funcname = []; tail = false; scopes = 0; instructions = [] }

-- A subgenerator works on the same environment.
abbrev pub back : Gen → Gen → Gen
back gen sub = record gen {
  env = sub.env;
  symbols = sub.symbols;
  macros = sub.macros;
  imports = sub.imports;
}

-- A subgenerator in the position of its parent.
abbrev pub sub_like : Gen → Gen
sub_like gen = record (new_generator gen) {
  funcname = gen.funcname;
  tail = gen.tail;
  scopes = gen.scopes;
}

-- `strconv.Itoa` of a number that is not negative; 20 digits hold every int.
unfoldable pub itoa_digits : ℕ → ℕ → Bytes → Bytes
itoa_digits zero n acc = acc
itoa_digits (suc k) n acc =
    let d = (b'0' + n % 10) ∷ acc in
    let more = itoa_digits k (n / 10) d in if n / 10 == 0 then d else more

unfoldable pub gen_symbol : Symbols → Bytes → Symbol × Symbols
unfolding itoa_digits make_symbol
gen_symbol t prefix = make_symbol t (prefix ++ itoa_digits 20 t.nextsymbol [])
