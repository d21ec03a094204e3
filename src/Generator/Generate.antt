-- ===== src/Generator/Generate.antt =====
-- `Generate` and the calls: special forms, macros, tail calls of the function itself, and calls.
use glisp.Prelude.{
  ℕ, zero, suc, ◌==◌, pos, Bool, true, false, ◌&&◌, Bytes, bytes_eq, codes, List, [], ◌∷◌, Option,
  none, some, length, replicate, if◌then◌else◌, Outcome, ok, err, panic, out_of_fuel, ◌>>=◌,
  wrong_nargs,
}
use glisp.Sexp.{
  Sexp, symbol, Symbol, pair, array, to_list, is_list, list_to_array, Function, make_function,
  code_of, Instr, get, push, remove_scope, goto,
}
use glisp.Numbers.{Floats}
use glisp.Vm.{Env, Host, apply, last?}
use glisp.Parser.{make_symbol}
use glisp.Generator.State.{Gens, fail, ◌>>>◌, ignore, add, add_instructions, set_tail}
use glisp.Generator.Forms.{
  generate_all, generate_begin, generate_fn, generate_def, generate_defn, generate_defmac,
  generate_short_circuit, generate_cond, generate_quote,
}
use glisp.Generator.Lets.{generate_let, generate_assert}
use glisp.Generator.Quotes.{items_of, generate_syntax_quote}
use glisp.Generator.Includes.{FileParser, generate_include, generate_import}

-- The cases of the switch in `GenerateCallBySymbol`.
pub data Form : Type 0 where
  and_form or_form cond_form quote_form def_form fn_form defn_form begin_form let_form : Form
  let_star_form assert_form defmac_form macexpand_form syntax_quote_form include_form : Form
  import_form no_form : Form

abbrev forms : List (Bytes × Form)
forms =
    (codes "and", and_form)
    ∷ (codes "or", or_form)
    ∷ (codes "cond", cond_form)
    ∷ (codes "quote", quote_form)
    ∷ (codes "def", def_form)
    ∷ (codes "fn", fn_form)
    ∷ (codes "defn", defn_form)
    ∷ (codes "begin", begin_form)
    ∷ (codes "let", let_form)
    ∷ (codes "let*", let_star_form)
    ∷ (codes "assert", assert_form)
    ∷ (codes "defmac", defmac_form)
    ∷ (codes "macexpand", macexpand_form)
    ∷ (codes "syntax-quote", syntax_quote_form)
    ∷ (codes "include", include_form)
    ∷ (codes "import", import_form)
    ∷ []

unfoldable pub form_in : Bytes → List (Bytes × Form) → Form
form_in name [] = no_form
form_in name ((key, form) ∷ rest) = if bytes_eq key name then form else form_in name rest

unfoldable pub form_of : Bytes → Form
unfolding form_in
form_of name = form_in name forms

unfoldable pub macro_at : ℕ → List (ℕ × Function) → Option Function
macro_at n [] = none
macro_at n ((m, f) ∷ rest) = if m == n then some f else macro_at n rest

-- `Duplicate`: fresh stacks with the global scope alone, on the same store.
unfoldable pub duplicate : Env → Outcome Env
unfolding last? make_function
duplicate env = elim (last? env.scopestack) [
  | none ↦ panic
  | some global ↦ ok (record env {
    datastack = [];
    scopestack = global ∷ [];
    addrstack = [];
    stackstack = [];
    curfunc = make_function (codes "__main") 0 false (code_of []);
    pc = pos 0;
  })
]

-- The macro that a list calls, with its arguments.
unfoldable pub macro_call : Sexp → List (ℕ × Function) → Option (Function × Sexp)
unfolding is_list macro_at
macro_call (pair (symbol s) t) macros =
    if is_list t
    then elim (macro_at s.number macros) [ some m ↦ some (m, t) | none ↦ none ]
    else none
macro_call _ _ = none

-- The end of `GenerateCallBySymbol`: in tail position a call of the function itself leaves its
-- extra scopes and starts it again.
unfoldable pub call_code : Bool → Symbol → ℕ → Gens
unfolding add_instructions
call_code oldtail sym nargs gen =
    if oldtail && bytes_eq sym.name gen.funcname
    then (add_instructions (replicate gen.scopes remove_scope) gen >>= λ (gen', _).
        add (goto (pos 0)) gen')
    else add (Instr.call sym nargs) gen

module _ (f : Floats) (host : Host) (parse_file : FileParser) where
  -- A macro applied in a duplicate of the environment. The scopes and tables that it wrote are
  -- shared; on an error they are as before. A run always gives a value, since the code of a
  -- function has its return.
  unfoldable pub expand : ℕ → Function → List Sexp → (Sexp → Gens) → Gens
  unfolding duplicate apply
  expand fuel macro args k gen = elim (duplicate gen.env >>= apply f host fuel macro args) [
    | ok (some expr, env') ↦
        k expr (record gen { env = record gen.env { scopes = env'.scopes; hashes = env'.hashes } })
    | ok (none, env') ↦ panic
    | err x ↦ ok (gen, some x)
    | panic ↦ panic
    | out_of_fuel ↦ out_of_fuel
  ]

  module _ (fuel : ℕ) (generate : Sexp → Gens) where
    unfoldable pub generate_macexpand : List Sexp → Gens
    unfolding expand macro_call list_to_array add_instructions
    generate_macexpand (e ∷ []) gen = elim (macro_call e gen.macros) [
      | none ↦ add (push e) gen
      | some (macro, tail) ↦ elim (list_to_array tail) [
        | ok macargs ↦ expand fuel macro macargs (λ expr. add (push expr)) gen
        | err x ↦ ok (gen, some x)
        | panic ↦ panic
        | out_of_fuel ↦ out_of_fuel
      ]
    ]
    generate_macexpand _ gen = fail wrong_nargs gen

    unfoldable pub generate_plain_call : Symbol → List Sexp → Gens
    unfolding generate_all call_code
    generate_plain_call sym args gen =
        (generate_all generate args >>> call_code gen.tail sym (length args) >>> set_tail gen.tail)
          (record gen { tail = false })

    unfoldable pub generate_form : Form → Symbol → List Sexp → Gens
    unfolding generate_short_circuit generate_cond generate_quote generate_def generate_fn
        generate_defn generate_begin generate_let generate_assert generate_defmac generate_macexpand
        generate_syntax_quote generate_include generate_import macro_at expand generate_plain_call
    generate_form and_form sym args gen = generate_short_circuit generate false args gen
    generate_form or_form sym args gen = generate_short_circuit generate true args gen
    generate_form cond_form sym args gen = generate_cond generate args gen
    generate_form quote_form sym args gen = generate_quote generate args gen
    generate_form def_form sym args gen = generate_def generate args gen
    generate_form fn_form sym args gen = generate_fn generate args gen
    generate_form defn_form sym args gen = generate_defn generate args gen
    generate_form begin_form sym args gen = generate_begin generate args gen
    generate_form let_form sym args gen = generate_let generate false args gen
    generate_form let_star_form sym args gen = generate_let generate true args gen
    generate_form assert_form sym args gen = generate_assert generate args gen
    generate_form defmac_form sym args gen = generate_defmac generate args gen
    generate_form macexpand_form sym args gen = generate_macexpand args gen
    generate_form syntax_quote_form sym args gen = generate_syntax_quote f generate fuel args gen
    generate_form include_form sym args gen = generate_include parse_file generate args gen
    generate_form import_form sym args gen = generate_import parse_file generate args gen
    generate_form no_form sym args gen = elim (macro_at sym.number gen.macros) [
      | some macro ↦ expand fuel macro args generate gen
      | none ↦ generate_plain_call sym args gen
    ]

    unfoldable pub generate_call_by_symbol : Symbol → List Sexp → Gens
    unfolding form_of generate_form
    generate_call_by_symbol sym args = generate_form (form_of sym.name) sym args

    -- The errors of the arguments and of the function are dropped.
    unfoldable pub generate_dispatch : Sexp → List Sexp → Gens
    unfolding generate_all add_instructions
    generate_dispatch fun args =
        ignore (generate_all generate args)
        >>> ignore (generate fun)
        >>> add (Instr.dispatch (length args))

    unfoldable pub generate_call : Sexp → Sexp → Gens
    unfolding list_to_array generate_call_by_symbol generate_dispatch
    generate_call (symbol s) tail = generate_call_by_symbol s (items_of (list_to_array tail))
    generate_call head tail = generate_dispatch head (items_of (list_to_array tail))

    unfoldable pub generate_array : List Sexp → Gens
    unfolding generate_all make_symbol add_instructions
    generate_array es = generate_all generate es >>> λ gen.
        let (sym, symbols) = make_symbol gen.symbols (codes "array") in
        add (Instr.call sym (length es)) (record gen { symbols = symbols })

    -- The switch of `Generate`.
    unfoldable pub generate_expression : Sexp → Gens
    unfolding is_list generate_call generate_array add_instructions
    generate_expression (symbol s) = add (get s)
    generate_expression (pair h t) = if is_list t then generate_call h t else add (push (pair h t))
    generate_expression (array es) = generate_array (to_list es)
    generate_expression e = add (push e)

  -- `Generate`; the fuel bounds the depth of the expressions and of the expansions.
  unfoldable pub generate : ℕ → Sexp → Gens
  unfolding generate_expression
  generate zero e gen = out_of_fuel
  generate (suc fuel) e gen = generate_expression fuel (generate fuel) e gen
