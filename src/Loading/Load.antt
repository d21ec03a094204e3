-- ===== src/Loading/Load.antt =====
-- environment.go: expressions and texts that are loaded, run and sourced; and `EvalFunction`.
use glisp.Prelude.{
  ℕ, pos, false, if◌then◌else◌, Bytes, codes, List, [], ◌∷◌, ◌++◌, Option, none, some, Error,
  Outcome, ok, err, panic, out_of_fuel, ◌>>=◌, wrong_nargs, failed_to_compile,
}
use glisp.Sexp.{Sexp, sexp_null, Function, script, user, make_function, code_of, instrs, pop}
use glisp.Numbers.{Floats}
use glisp.Lexer.{Runes, new_lexer_from_stream}
use glisp.Parser.{parse_tokens}
use glisp.Vm.{Host, run, reached_end, push_expr}
use glisp.Generator.{Gen, FileParser, generate, generate_begin}
use glisp.Loading.State.{Glisp, generator_of, after_generator, duplicate_glisp, shared_back}
use glisp.Builtins.{decode_runes}

-- `append(env.mainfunc.fun, …)`; the main function is a script function.
unfoldable pub append_code : Function → List glisp.Sexp.Instr → Function
append_code (script name nargs varargs fun c) more =
    script name nargs varargs (code_of (instrs fun ++ more)) c
append_code (user name n c) more = user name n c

module _ (f : Floats) (host : Host) (parse_file : FileParser) (parse_float : Runes → Option ℕ)
    (fuel : ℕ) where
  -- Code that was loaded before has left a value, which goes first.
  unfoldable pub begin_code : List Sexp → Glisp → Outcome (Gen × Option Error)
  unfolding reached_end generate_begin generate
  begin_code expressions g =
      let gen = generator_of g in
      let start = if reached_end g.env then gen else record gen { instructions = pop ∷ [] } in
      generate_begin (generate f host parse_file fuel) expressions start

  unfoldable pub load_expressions : List Sexp → Glisp → Outcome Glisp
  unfolding begin_code append_code
  load_expressions expressions g = begin_code expressions g >>= λ (gen, failed). elim failed [
    | some x ↦ err x
    | none ↦
        let mainfunc = append_code g.mainfunc gen.instructions in
        let loaded = after_generator gen g in
        ok (record loaded { env = record loaded.env { curfunc = mainfunc }; mainfunc = mainfunc })
  ]

  unfoldable pub run_glisp : Glisp → Outcome (Option Sexp × Glisp)
  unfolding run
  run_glisp g = run f host fuel none g.env >>= λ (e, env). ok (e, record g { env = env })

  -- The expressions run as a function of their own, in the scopes of the caller.
  unfoldable pub source_expressions : List Sexp → Glisp → Outcome Glisp
  unfolding begin_code make_function push_expr run_glisp
  source_expressions expressions g = begin_code expressions g >>= λ (gen, failed). elim failed [
    | some x ↦ err x
    | none ↦
        let g' = after_generator gen g in
        let fun = make_function (codes "__source") 0 false (code_of gen.instructions) in
        let started = push_expr (record g'.env { curfunc = fun; pc = pos 0 }) sexp_null in
        run_glisp (record g' { env = started }) >>= λ (_, ran).
        let left = ran.env.datastack in
        ok (record ran {
          env = record ran.env {
            datastack = elim left [ [] ↦ [] | _ ∷ rest ↦ rest ];
            curfunc = g'.env.curfunc;
            pc = g'.env.pc;
          };
        })
  ]

  unfoldable pub parse_stream : Runes → Glisp → Outcome (List Sexp × Glisp)
  unfolding parse_tokens new_lexer_from_stream
  parse_stream stream g =
      parse_tokens parse_float fuel
        (record { lexer = new_lexer_from_stream stream; symbols = g.symbols })
      >>= λ (exprs, p). ok (exprs, record g { symbols = p.symbols })

  unfoldable pub source_stream : Runes → Glisp → Outcome Glisp
  unfolding parse_stream source_expressions
  source_stream stream g = parse_stream stream g >>= λ (exprs, g'). source_expressions exprs g'

  unfoldable pub load_stream : Runes → Glisp → Outcome Glisp
  unfolding parse_stream load_expressions
  load_stream stream g = parse_stream stream g >>= λ (exprs, g'). load_expressions exprs g'

  unfoldable pub load_string : Bytes → Glisp → Outcome Glisp
  unfolding load_stream decode_runes
  load_string s = load_stream (decode_runes s)

  unfoldable pub eval_string : Bytes → Glisp → Outcome (Option Sexp × Glisp)
  unfolding load_string run_glisp
  eval_string s g = load_string s g >>= λ g'. run_glisp g'

  -- `EvalFunction`: the expressions are compiled and run in a duplicate.
  unfoldable pub eval_function : List Sexp → Glisp → Outcome (Option Sexp × Glisp)
  unfolding duplicate_glisp load_expressions run_glisp shared_back
  eval_function (e ∷ []) g = duplicate_glisp g >>= λ newenv.
      elim (load_expressions (e ∷ []) newenv) [
        | ok loaded ↦
            run_glisp (record loaded { env = record loaded.env { pc = pos 0 } }) >>= λ (val, ran).
            ok (val, shared_back ran g)
        | err _ ↦ err failed_to_compile
        | panic ↦ panic
        | out_of_fuel ↦ out_of_fuel
      ]
  eval_function _ g = err wrong_nargs
