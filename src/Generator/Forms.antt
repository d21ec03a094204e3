-- ===== src/Generator/Forms.antt =====
-- The functions of generator.go for the special forms, each given `generate`, the way back into
-- the generator.
use mathlib.Core.List.{reverse}
use glisp.Prelude.{
  ℕ, ◌-◌, ◌%◌, ◌==◌, Bool, true, false, Bytes, bytes_eq, codes, List, [], ◌∷◌, ◌++◌, map, length,
  Option, none, some, if◌then◌else◌, Outcome, ok, err, panic, out_of_fuel, ◌>>=◌, no_expressions,
  bad_argument, malformed_function, arguments_not_vector, wrong_definition, name_not_symbol,
  missing_default,
}
use glisp.Sexp.{
  Sexp, symbol, Symbol, array, func, Function, make_function, to_list, code_of, Instr, put, push,
  push_closure, pop, ret, sexp_null,
}
use glisp.Generator.State.{
  Gen, Gens, done, fail, ◌>>>◌, add, add_instructions, set_tail, new_generator, back, sub_like,
  gen_symbol,
}
use glisp.Generator.Layout.{operand, clause}

-- The arguments of a function: their symbols, or none where one is no symbol.
unfoldable pub argument_symbols : List Sexp → Option (List Symbol)
argument_symbols [] = some []
argument_symbols (symbol s ∷ args) = elim (argument_symbols args) [
  | none ↦ none
  | some syms ↦ some (s ∷ syms)
]
argument_symbols _ = none

-- The symbols last first, with the `&` before the last taken out, and whether it was there.
unfoldable pub optional_arguments : List Symbol → List Symbol × Bool
optional_arguments (last ∷ amp ∷ rest) =
    if bytes_eq amp.name (codes "&") then (last ∷ rest, true) else (last ∷ amp ∷ rest, false)
optional_arguments syms = (syms, false)

module _ (generate : Sexp → Gens) where
  unfoldable pub generate_all : List Sexp → Gens
  generate_all [] = done
  generate_all (e ∷ es) = generate e >>> generate_all es

  -- The loop of `GenerateBegin`: a pop after all but the last expression.
  unfoldable pub begin_loop : Bool → List Sexp → Gens
  begin_loop oldtail [] = fail no_expressions
  begin_loop oldtail (e ∷ []) = set_tail oldtail >>> generate e
  begin_loop oldtail (e ∷ e' ∷ es) = generate e >>> add pop >>> begin_loop oldtail (e' ∷ es)

  unfoldable pub generate_begin : List Sexp → Gens
  unfolding begin_loop
  generate_begin es gen = begin_loop gen.tail es (record gen { tail = false })

  -- `buildSexpFun`: the function, or the error, and the generator whose environment it shares.
  unfoldable pub build_with : Gen → List Sexp → List Symbol → Gen → Outcome (Gen × Outcome Function)
  unfolding generate_begin optional_arguments add_instructions make_function
  build_with gen body syms sub =
      let (argsyms, varargs) = optional_arguments (reverse syms) in
      let nargs = if varargs then length argsyms - 1 else length argsyms in
      (add_instructions (map put argsyms) >>> generate_begin body) sub >>= λ (sub', e). elim e [
        | some x ↦ ok (back gen sub', err x)
        | none ↦ ok (
          back gen sub',
          ok (make_function sub'.funcname nargs varargs (code_of (sub'.instructions ++ ret ∷ []))),
        )
      ]

  -- The function's own name, or a fresh one.
  unfoldable pub named_generator : Bytes → Gen → Gen
  unfolding new_generator gen_symbol
  named_generator name gen =
      let sub = record (new_generator gen) { tail = true } in
      if length name == 0
      then (let (s, t) = gen_symbol gen.symbols (codes "__anon") in
          record sub { funcname = s.name; symbols = t })
      else record sub { funcname = name }

  unfoldable pub build_sexp_fun :
      Bytes → List Sexp → List Sexp → Gen → Outcome (Gen × Outcome Function)
  unfolding build_with argument_symbols named_generator
  build_sexp_fun name funcargs body gen =
      let sub = named_generator name gen in
      elim (argument_symbols funcargs) [
        | none ↦ ok (back gen sub, err bad_argument)
        | some syms ↦ build_with gen body syms sub
      ]

  -- `sfun, err := buildSexpFun(…)`, then what is done with the function.
  abbrev pub with_function : Bytes → List Sexp → List Sexp → (Function → Gens) → Gens
  with_function name funcargs body k gen = build_sexp_fun name funcargs body gen >>= λ (gen', r).
      elim r [
        | ok sfun ↦ k sfun gen'
        | err x ↦ ok (gen', some x)
        | panic ↦ panic
        | out_of_fuel ↦ out_of_fuel
      ]

  unfoldable pub generate_fn : List Sexp → Gens
  unfolding build_sexp_fun add_instructions
  generate_fn (array funcargs ∷ e ∷ body) =
      with_function [] (to_list funcargs) (e ∷ body) λ sfun. add (push_closure sfun)
  generate_fn (_ ∷ _ ∷ _) = fail arguments_not_vector
  generate_fn _ = fail malformed_function

  unfoldable pub generate_def : List Sexp → Gens
  unfolding add_instructions
  generate_def (symbol s ∷ e ∷ []) =
      set_tail false >>> generate e >>> add (put s) >>> add (push sexp_null)
  generate_def (_ ∷ _ ∷ []) = fail name_not_symbol
  generate_def _ = fail wrong_definition

  unfoldable pub generate_defn : List Sexp → Gens
  unfolding build_sexp_fun add_instructions
  generate_defn (symbol s ∷ array funcargs ∷ e ∷ body) =
      with_function s.name (to_list funcargs) (e ∷ body)
        λ sfun. add (push (func sfun)) >>> add (put s) >>> add (push sexp_null)
  generate_defn (_ ∷ array _ ∷ _ ∷ _) = fail name_not_symbol
  generate_defn (_ ∷ _ ∷ _ ∷ _) = fail arguments_not_vector
  generate_defn _ = fail wrong_definition

  abbrev pub add_macro : ℕ → Function → Gens
  add_macro n f gen = ok (record gen { macros = (n, f) ∷ gen.macros }, none)

  unfoldable pub generate_defmac : List Sexp → Gens
  unfolding build_sexp_fun add_instructions
  generate_defmac (symbol s ∷ array funcargs ∷ e ∷ body) =
      with_function s.name (to_list funcargs) (e ∷ body)
        λ sfun. add_macro s.number sfun >>> add (push sexp_null)
  generate_defmac (_ ∷ array _ ∷ _ ∷ _) = fail name_not_symbol
  generate_defmac (_ ∷ _ ∷ _ ∷ _) = fail arguments_not_vector
  generate_defmac _ = fail wrong_definition

  -- The code of a subgenerator, whose error is dropped.
  abbrev pub sub_code : Sexp → Gen → Gen → Outcome (Gen × List Instr)
  sub_code e gen sub = generate e sub >>= λ (sub', _). ok (back gen sub', sub'.instructions)

  -- `GenerateShortCircuit` reads the last argument first; without one it panics.
  unfoldable pub short_code : Bool → List Sexp → Gen → Outcome (Gen × List Instr)
  unfolding operand new_generator
  short_code or [] gen = panic
  short_code or (e ∷ []) gen = sub_code e gen (sub_like gen)
  short_code or (e ∷ e' ∷ es) gen = short_code or (e' ∷ es) gen >>= λ (gen₁, rest).
      sub_code e gen₁ (new_generator gen₁) >>= λ (gen₂, code). ok (gen₂, operand or code rest)

  unfoldable pub generate_short_circuit : Bool → List Sexp → Gens
  unfolding short_code add_instructions
  generate_short_circuit or args gen =
      short_code or args gen >>= λ (gen', code). add_instructions code gen'

  -- The code of a subgenerator, or its error.
  abbrev pub checked_code :
      Sexp
      → Gen
      → Gen
      → (List Instr → Gen → Outcome (Gen × Outcome (List Instr)))
      → Outcome (Gen × Outcome (List Instr))
  checked_code e gen sub k = generate e sub >>= λ (sub', x). elim x [
    | none ↦ k sub'.instructions (back gen sub')
    | some x' ↦ ok (back gen sub', err x')
  ]

  -- The code of one clause in front of the rest, from that of its test.
  abbrev pub body_clause :
      Sexp → List Instr → List Instr → Gen → Outcome (Gen × Outcome (List Instr))
  body_clause b rest pred_code gen₂ =
      checked_code b gen₂ (sub_like gen₂)
        λ body_code gen₃. ok (gen₃, ok (clause pred_code body_code rest))

  -- One round of the loop over the clauses.
  abbrev pub after_clauses :
      Sexp → Sexp → Gen → Outcome (List Instr) → Outcome (Gen × Outcome (List Instr))
  after_clauses p b gen₁ (ok rest) =
      checked_code p gen₁ (record (new_generator gen₁) { funcname = gen₁.funcname })
        (body_clause b rest)
  after_clauses p b gen₁ other = ok (gen₁, other)

  -- The clauses of `cond`, the last first.
  unfoldable pub cond_code : List Sexp → Gen → Outcome (Gen × Outcome (List Instr))
  unfolding clause new_generator
  cond_code [] gen = ok (gen, err missing_default)
  cond_code (e ∷ []) gen = checked_code e gen (sub_like gen) λ code gen'. ok (gen', ok code)
  cond_code (p ∷ b ∷ args) gen = cond_code args gen >>= λ (gen₁, r). after_clauses p b gen₁ r

  unfoldable pub generate_cond : List Sexp → Gens
  unfolding cond_code add_instructions
  generate_cond args gen =
      if length args % 2 == 0
      then fail missing_default gen
      else (cond_code args gen >>= λ (gen', r). elim r [
        | ok code ↦ add_instructions code gen'
        | err x ↦ ok (gen', some x)
        | panic ↦ panic
        | out_of_fuel ↦ out_of_fuel
      ])

  unfoldable pub generate_quote : List Sexp → Gens
  unfolding add_instructions
  generate_quote [] = done
  generate_quote (e ∷ es) = add (push e) >>> generate_quote es
