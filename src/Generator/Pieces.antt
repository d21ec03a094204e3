-- ===== src/Generator/Pieces.antt =====
-- `GenerateShortCircuit`, from the code that its operands are generated to, up to its run.
use glisp.Prelude.{
  ℕ, pos, Bool, false, Bytes, List, [], ◌∷◌, ◌++◌, length, length-append, append_assoc, Option,
  none, Outcome, ok, Error, ◌≡◌, refl, ap, ◌∙◌,
}
use glisp.Sexp.{Sexp, Instr, Function}
use glisp.Numbers.{Floats}
use glisp.Parser.{Symbols}
use glisp.Vm.{Env, Host, code_of_function}
use glisp.Vm.Runs.{Runs}
use glisp.Generator.State.{Gen, Gens, new_generator, add_instructions}
use glisp.Generator.Forms.{short_code, generate_short_circuit}
use glisp.Generator.Jumps.{joined, Evaluates, joined-Computes}

-- The environment that a generator and its subgenerators share.
pub record Shared : Type 0 where
  pub env : Env
  pub symbols : Symbols
  pub macros : List (ℕ × Function)
  pub imports : List Bytes

abbrev pub shared_of : Gen → Shared
shared_of g = record { env = g.env; symbols = g.symbols; macros = g.macros; imports = g.imports }

abbrev pub with_shared : Gen → Shared → Gen
with_shared g sh = record g {
  env = sh.env;
  symbols = sh.symbols;
  macros = sh.macros;
  imports = sh.imports;
}

-- A generator without code: in the function and the position of another one, or in no position.
abbrev pub begun : Shared → Bytes → Bool → ℕ → Gen
begun sh funcname tail scopes = record {
  env = sh.env;
  symbols = sh.symbols;
  macros = sh.macros;
  imports = sh.imports;
  funcname = funcname;
  tail = tail;
  scopes = scopes;
  instructions = [];
}

-- The code that a call of the generator leaves, if it does not fail.
abbrev pub instructions_of : Outcome (Gen × Option Error) → List Instr
instructions_of (ok (g, none)) = g.instructions
instructions_of _ = []

module _ (generate : Sexp → Gens) (gen : Gen) where
  -- What the operands are generated to, the last first: the last stands where the whole expression
  -- stands, so that it may be a tail call, the others do not. Errors are dropped.
  pub data Operands : List Sexp → Shared → List (List Instr) → Type 0 where
    last_operand :
        {e : Sexp} {sub : Gen} {x : Option Error}
        → generate e (begun (shared_of gen) gen.funcname gen.tail gen.scopes) ≡ ok (sub, x)
        → Operands (e ∷ []) (shared_of sub) (sub.instructions ∷ [])
    more_operands :
        {e e' : Sexp} {es : List Sexp} {sh : Shared} {c : List Instr} {cs : List (List Instr)}
        {sub : Gen} {x : Option Error}
        → Operands (e' ∷ es) sh (c ∷ cs)
        → generate e (begun sh [] false 0) ≡ ok (sub, x)
        → Operands (e ∷ e' ∷ es) (shared_of sub) (sub.instructions ∷ c ∷ cs)

  short_code-Operands :
      (or : Bool) {args : List Sexp} {sh : Shared} {codes : List (List Instr)}
      → Operands args sh codes
      → short_code generate or args gen ≡ ok (with_shared gen sh, joined or codes)
  unfolding short_code new_generator
  short_code-Operands or (last_operand got) = rw (got) refl
  short_code-Operands or (more_operands rest got) = rw (short_code-Operands or rest, got) refl

  generate-Operands :
      (or : Bool) {args : List Sexp} {sh : Shared} {codes : List (List Instr)}
      → Operands args sh codes
      → generate_short_circuit generate or args gen
        ≡ ok (
          record (with_shared gen sh) { instructions = gen.instructions ++ joined or codes },
          none,
        )
  unfolding generate_short_circuit add_instructions
  generate-Operands or parts = rw (short_code-Operands or parts) refl

  -- `and` and `or` are generated as they should be. If each operand can be generated, the last in
  -- the position of the whole and the others in none, `GenerateShortCircuit` goes through. Where the
  -- code that it leaves stands at the start of the current function, and the operands are run one
  -- after the other until the value of one decides or none is left, each from its start to its end,
  -- the machine runs from the old end of the code to the new one, and does just that.
  pub generate_short_circuit-Evaluates :
      (f : Floats) (host : Host) (or : Bool) {args : List Sexp} {sh : Shared}
      {codes : List (List Instr)} {env env' : Env} (post : List Instr)
      → Operands args sh codes
      → Evaluates f host or (length gen.instructions) codes env env'
      → code_of_function env.curfunc
        ≡ instructions_of (generate_short_circuit generate or args gen) ++ post
      → (gen' : Gen) × (generate_short_circuit generate or args gen ≡ ok (gen', none))
        × Runs f host env (record env' { pc = pos (length gen'.instructions) })
  generate_short_circuit-Evaluates f host or {args} {sh} {codes} {env} {env'} post parts does
        placed =
      let made = generate-Operands or parts in
      let code = joined or codes in
      let there : code_of_function env.curfunc ≡ gen.instructions ++ (code ++ post) =
        placed
        ∙ ap (λ r. instructions_of r ++ post) made
        ∙ append_assoc gen.instructions code post in
      let run = joined-Computes f host gen.instructions post does there refl in
      (
        record (with_shared gen sh) { instructions = gen.instructions ++ code },
        made,
        rw (length-append gen.instructions code) run.runs,
      )
