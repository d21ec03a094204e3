-- ===== src/Loading/Compiled.antt =====
-- Arithmetic from the reader's expression to its value: `LoadExpressions` and `Run` together.
use glisp.Prelude.{
  ℕ, suc, ◌+◌, ◌≤◌, ◌<◌, true, length-append, eq_ℤ, negsuc, ◌||◌, pos, ◌≡◌, refl, sym, ◌∙◌, codes,
  List, [], ◌∷◌, ◌++◌, append-nil, length, some, none, Option, ok, arith, false,
}
use glisp.Sexp.{Sexp, int, Instr, call, Function, script, code_of, instrs-code_of}
use glisp.Numbers.{Floats}
use glisp.Lexer.{Runes}
use glisp.Vm.{Env, Host, run, is_done, current_function_size}
use glisp.Vm.Runs.{Runs, stop, one, run-Runs}
use glisp.Generator.{FileParser}
use glisp.Builtins.{Outside, glisp_host}
use glisp.Loading.State.{Glisp, main_function, generator_of}
use glisp.Loading.Load.{load_expressions}
use glisp.Loading.Arithmetic.{
  Op, Arith, lit, node, op_symbol, expression, code, value, CallsTable, code-runs,
}
use glisp.Loading.Generated.{depth, NoMacros, generate-Generates}

-- An interpreter about to run an empty main function, as a new or a cleared one is.
abbrev pub ready : Glisp → Glisp
ready g = record g {
  env = record g.env { curfunc = main_function; pc = pos 0 };
  mainfunc = main_function;
}

-- The same with code in its main function.
abbrev main_with : List Instr → Function
main_with is = script (codes "__main") 0 false (code_of is) none

abbrev loaded_with : List Instr → Glisp → Glisp
loaded_with is g = record g {
  env = record g.env { curfunc = main_with is; pc = pos 0 };
  mainfunc = main_with is;
}

below : (n : ℕ) → 0 < n → (eq_ℤ (pos 0) (negsuc 0) || eq_ℤ (pos 0) (pos n)) ≡ false
below n h = ground arith

reached : (n : ℕ) → (eq_ℤ (pos (0 + n)) (negsuc 0) || eq_ℤ (pos (0 + n)) (pos n)) ≡ true
reached n = ground arith

module _ (number : Op → ℕ) where
  code_positive : (e : Arith) → 0 < length (code number e)
  code_positive (lit i) = omega arith
  code_positive (node op a b) = omega (
    arith,
    length-append (code number a) (code number b ++ call (op_symbol number op) 2 ∷ []),
    code_positive a,
  )

  module _ (f : Floats) (host : Host) (parse_file : FileParser)
      (parse_float : Runes → Option ℕ) where
    load-arithmetic :
        (fuel : ℕ) (e : Arith) (g : Glisp)
        → depth e ≤ fuel
        → NoMacros number g.macros
        → load_expressions f host parse_file parse_float fuel (expression number e ∷ []) (ready g)
          ≡ ok (loaded_with (code number e) g)
    unfolding load_expressions
    load-arithmetic fuel e g h none_yet =
        rw
          (generate-Generates number f host parse_file e fuel h (generator_of (ready g)) []
            none_yet)
          refl

  -- A run from a machine that has not finished to one that has.
  run-from :
      (f : Floats) (host : Host) (env final : Env) (v : Sexp) (rest : List Sexp)
      → Runs f host env final
      → is_done env ≡ false
      → is_done final ≡ true
      → final.datastack ≡ v ∷ rest
      → (fuel : ℕ) × (run f host fuel none env ≡ ok (some v, record final { datastack = rest }))
  run-from f host env final v rest stop h h' top = cc
  run-from f host env final v rest (one got ran more) h h' top =
      run-Runs f host env none v rest got ran more h' top

  -- The machine with the code of an expression, before and behind it.
  not_done : (e : Arith) (g : Glisp) → is_done (loaded_with (code number e) g).env ≡ false
  unfolding is_done current_function_size
  not_done e g =
      rw (instrs-code_of (code number e)) (below (length (code number e)) (code_positive e))

  abbrev finished : Arith → Glisp → Env
  finished e g = record (loaded_with (code number e) g).env {
    datastack = int (value e) ∷ g.env.datastack;
    pc = pos (0 + length (code number e));
  }

  all_done : (e : Arith) (g : Glisp) → is_done (finished e g) ≡ true
  unfolding is_done current_function_size
  all_done e g = rw (instrs-code_of (code number e)) (reached (length (code number e)))

  -- Arithmetic is compiled and run as it should be. An expression of integers under `+`, `-` and `*`,
  -- nested as deep as one likes, is loaded into an interpreter that is about to run an empty main
  -- function, if the fuel of the generator is not less than the depth of the expression, the
  -- operators name no macros, and calls of them lead to the functions of the table. The loop of the
  -- machine then ends, with the value of the expression in integers of 64 bits, and leaves the
  -- stack as it was.
  pub eval-arithmetic :
      (f : Floats) (o : Outside) (parse_file : FileParser) (parse_float : Runes → Option ℕ)
      (calls fuel : ℕ) (e : Arith) (g : Glisp)
      → depth e ≤ fuel
      → NoMacros number g.macros
      → CallsTable number g.env
      → (loaded : Glisp) × (steps : ℕ) × (final : Env) × (load_expressions f
            (glisp_host f o (suc calls))
            parse_file
            parse_float
            fuel
            (expression number e ∷ [])
            (ready g)
          ≡ ok loaded)
        × (run f (glisp_host f o (suc calls)) steps none loaded.env
            ≡ ok (some (int (value e)), final))
        × (final.datastack ≡ g.env.datastack)
  eval-arithmetic f o parse_file parse_float calls fuel e g h none_yet table =
      let host = glisp_host f o (suc calls) in
      let start = (loaded_with (code number e) g).env in
      let here = instrs-code_of (code number e) ∙ sym (append-nil (code number e)) in
      let ran = code-runs number f o calls e [] [] start table here refl in
      let (steps, result) =
        run-from f host start (finished e g) (int (value e)) g.env.datastack ran (not_done e g)
          (all_done e g) refl in
      (
        loaded_with (code number e) g,
        steps,
        _,
        load-arithmetic f host parse_file parse_float fuel e g h none_yet,
        result,
        refl,
      )
