-- ===== src/Loading/State.antt =====
-- environment.go: the interpreter as its user sees it, how it is made and cleared, and its names.
use glisp.Prelude.{
  ℕ, pos, false, Bytes, codes, List, [], ◌∷◌, ◌++◌, Option, none, some, Outcome, ok, panic, ◌>>=◌,
}
use glisp.Sexp.{Sexp, func, Function, make_function, make_user_function, code_of}
use glisp.Vm.{Env, Host, lookup_symbol, bind_at, last?}
use glisp.Parser.{Symbols, make_symbol}
use glisp.Generator.{Gen, duplicate}

pub record Glisp : Type 0 where
  pub env : Env
  pub symbols : Symbols
  pub macros : List (ℕ × Function)
  pub imports : List Bytes
  pub mainfunc : Function

abbrev pub main_function : Function
main_function = make_function (codes "__main") 0 false (code_of [])

-- `env.scopestack.elements[0].(Scope)[sym.number] = obj`
unfoldable pub bind_global : ℕ → Sexp → Env → Outcome Env
unfolding last? bind_at
bind_global n obj env = elim (last? env.scopestack) [
  | none ↦ panic
  | some r ↦ ok (record env { scopes = bind_at env.scopes r n obj })
]

unfoldable pub add_global : Bytes → Sexp → Glisp → Outcome Glisp
unfolding make_symbol bind_global
add_global name obj g =
    let (sym, symbols) = make_symbol g.symbols name in
    bind_global sym.number obj g.env >>= λ env. ok (record g { env = env; symbols = symbols })

-- A function of the host is known by its number.
unfoldable pub add_function : Bytes → ℕ → Glisp → Outcome Glisp
unfolding add_global make_user_function
add_function name function = add_global name (func (make_user_function name function))

unfoldable pub add_macro : Bytes → ℕ → Glisp → Glisp
unfolding make_symbol make_user_function
add_macro name function g =
    let (sym, symbols) = make_symbol g.symbols name in
    record g {
      symbols = symbols;
      macros = (sym.number, make_user_function name function) ∷ g.macros;
    }

-- `ImportEval`, with the numbers of `SourceFileFunction` and `EvalFunction`.
unfoldable pub import_eval : ℕ → ℕ → Glisp → Outcome Glisp
unfolding add_function
import_eval source_file eval g =
    add_function (codes "source-file") source_file g >>= λ g'. add_function (codes "eval") eval g'

-- `AddPreHook` and `AddPostHook`: a new hook is called behind the others.
unfoldable pub add_pre_hook : (Env → Bytes → List Sexp → Env) → Host → Host
add_pre_hook fun host = record host { before = host.before ++ fun ∷ [] }

unfoldable pub add_post_hook : (Env → Bytes → Sexp → Env) → Host → Host
add_post_hook fun host = record host { after = host.after ++ fun ∷ [] }

-- The object, or nothing; the name is a symbol of the interpreter from then on.
unfoldable pub find_object : Bytes → Glisp → Option Sexp × Glisp
unfolding make_symbol lookup_symbol
find_object name g =
    let (sym, symbols) = make_symbol g.symbols name in
    (
      elim (lookup_symbol g.env sym) [ ok obj ↦ some obj | _ ↦ none ],
      record g { symbols = symbols },
    )

-- A new interpreter before the builtin functions are bound.
unfoldable pub empty_glisp : Glisp
unfolding make_function
empty_glisp = record {
  env = record {
    datastack = [];
    scopestack = 0 ∷ [];
    addrstack = [];
    stackstack = [];
    builtins = [];
    curfunc = main_function;
    pc = pos 0;
    scopes = [] ∷ [];
    hashes = [];
  };
  symbols = record { symtable = []; nextsymbol = 1 };
  macros = [];
  imports = [];
  mainfunc = main_function;
}

-- The loop of `NewGlisp`, over the table in the order that the Go map gives.
unfoldable pub add_builtins : List (Bytes × ℕ) → Glisp → Outcome Glisp
unfolding make_symbol make_user_function add_function
add_builtins [] g = ok g
add_builtins ((key, function) ∷ table) g =
    let (sym, symbols) = make_symbol g.symbols key in
    let env = record g.env {
      builtins = (sym.number, make_user_function key function) ∷ g.env.builtins;
    } in
    add_function key function (record g { env = env; symbols = symbols }) >>= λ g'.
    add_builtins table g'

unfoldable pub new_glisp : List (Bytes × ℕ) → Outcome Glisp
unfolding add_builtins empty_glisp
new_glisp table = add_builtins table empty_glisp

-- The stacks go down to nothing, and that of the scopes to the global one; the stack of the saved
-- scope stacks stays as it is.
unfoldable pub clear : Glisp → Outcome Glisp
unfolding last? make_function
clear g = elim (last? g.env.scopestack) [
  | none ↦ panic
  | some global ↦ ok (record g {
    env = record g.env {
      datastack = [];
      scopestack = global ∷ [];
      addrstack = [];
      curfunc = main_function;
      pc = pos 0;
    };
    mainfunc = main_function;
  })
]

-- The copy has the global scope once more on the top of its scopes.
unfoldable pub clone : Glisp → Outcome Glisp
unfolding last? make_function
clone g = elim (last? g.env.scopestack) [
  | none ↦ panic
  | some global ↦ ok (record g {
    env = record g.env {
      scopestack = global ∷ g.env.scopestack;
      curfunc = main_function;
      pc = pos 0;
    };
    mainfunc = main_function;
  })
]

-- `NewGenerator` on the interpreter.
abbrev pub generator_of : Glisp → Gen
generator_of g = record {
  env = g.env;
  symbols = g.symbols;
  macros = g.macros;
  imports = g.imports;
  funcname = [];
  tail = false;
  scopes = 0;
  instructions = [];
}

-- What a generator has changed.
abbrev pub after_generator : Gen → Glisp → Glisp
after_generator gen g = record g {
  env = gen.env;
  symbols = gen.symbols;
  macros = gen.macros;
  imports = gen.imports;
}

-- `Duplicate`, with all that it shares.
unfoldable pub duplicate_glisp : Glisp → Outcome Glisp
unfolding duplicate make_function
duplicate_glisp g = duplicate g.env >>= λ env. ok (record g { env = env; mainfunc = main_function })

-- What the interpreter that was duplicated sees afterwards: the scopes, the tables, the names, the
-- macros and the imports are shared, but each has its own stacks and its own next symbol.
unfoldable pub shared_back : Glisp → Glisp → Glisp
shared_back dup g = record g {
  env = record g.env { scopes = dup.env.scopes; hashes = dup.env.hashes };
  symbols = record g.symbols { symtable = dup.symbols.symtable };
  macros = dup.macros;
  imports = dup.imports;
}
