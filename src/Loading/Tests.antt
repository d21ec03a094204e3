-- ===== src/Loading/Tests.antt =====
-- Interpreters made, loaded and run.
use glisp.Prelude.{
  ℕ, ◌≡◌, refl, pos, negsuc, Bytes, codes, bytes_ne, List, [], ◌∷◌, Option, none, some, arith,
  Outcome, ok, err, panic, not_a_list, ◌+ℤ◌, ◌*ℤ◌, wrap,
}
use glisp.Sexp.{Sexp, str, symbol, array, of_list, make_list, int, func, user, Function}
use glisp.Numbers.{whole_floats}
use glisp.Lexer.{Runes, new_lexer_from_stream, get_next_token}
use glisp.Parser.{Symbols, parse_tokens, lookup, make_symbol}
use glisp.Vm.{Env, builtin, run}
use glisp.Generator.{FileParser, macro_at}
use glisp.Builtins.{Outside, glisp_host}
use glisp.Loading.State.{Glisp, new_glisp, find_object, main_function, duplicate_glisp}
use glisp.Loading.Load.{eval_string, load_expressions}
use glisp.Loading.Files.{source_file_function, parse_file}
use glisp.Loading.Sourcing.{source_item-all}
use glisp.Loading.Symbols.{
  IsTable, Keeps, make_symbol-Keeps, duplicate_glisp_collision, first_number, after_symbol,
}
use glisp.Loading.Bindings.{new_glisp-find_object}
use glisp.Loading.Arithmetic.{Op, plus, minus, times, Arith, lit, node, expression, CallsTable}
use glisp.Loading.Generated.{NoMacros}
use glisp.Loading.Compiled.{ready, eval-arithmetic}

abbrev no_files : FileParser
no_files name symbols = (symbols, err not_a_list)

abbrev no_floats : Runes → Option ℕ
no_floats text = none

abbrev nothing_outside : Outside
nothing_outside = record {
  conversions = record {
    int_of_float = λ bits. pos bits;
    float_of_single = λ bits. bits;
    parse_float = λ width s. none;
    sprint = λ e. [];
  };
  formats = record {
    quote_text = λ s. s;
    quote_rune = λ c. [];
    format_float = λ bits. [];
    foreign_text = λ n. [];
  };
  spare_items = λ e. [];
  spare_bytes = λ e. [];
  outside = λ h name args env. panic;
}

-- The operators of arithmetic, with their numbers in the table of the builtin functions.
abbrev operators : List (Bytes × ℕ)
operators = (codes "+", 11) ∷ (codes "-", 12) ∷ (codes "*", 13) ∷ []

abbrev operator_number : Op → ℕ
operator_number plus = 1
operator_number minus = 2
operator_number times = 3

abbrev operator_function : Op → Function
operator_function plus = user (codes "+") 11 none
operator_function minus = user (codes "-") 12 none
operator_function times = user (codes "*") 13 none

abbrev operators_only : Glisp
operators_only = record {
  env = record {
    datastack = [];
    scopestack = 0 ∷ [];
    addrstack = [];
    stackstack = [];
    builtins =
        (3, operator_function times)
        ∷ (2, operator_function minus)
        ∷ (1, operator_function plus)
        ∷ [];
    curfunc = main_function;
    pc = pos 0;
    scopes =
        ((3, func (operator_function times))
          ∷ (2, func (operator_function minus))
          ∷ (1, func (operator_function plus))
          ∷ [])
        ∷ [];
    hashes = [];
  };
  symbols = record {
    symtable = (codes "*", 3) ∷ (codes "-", 2) ∷ (codes "+", 1) ∷ [];
    nextsymbol = 4;
  };
  macros = [];
  imports = [];
  mainfunc = main_function;
}

made_operators : new_glisp operators ≡ ok operators_only
unfolding new_glisp
made_operators = refl

abbrev value_of : Outcome (Option Sexp × Glisp) → Option Sexp
value_of (ok (v, _)) = v
value_of _ = none

-- A text, read, compiled and run.
evaluated :
    value_of (
      eval_string whole_floats
        (glisp_host whole_floats nothing_outside 1)
        no_files
        no_floats
        60
        (codes "(+ 2 (* 3 4))")
        operators_only)
    ≡ some (int (pos 14))
unfolding eval_string glisp_host wrap ◌+ℤ◌ ◌*ℤ◌ get_next_token
evaluated = refl

new_glisp-find_object_example :
    (g : Glisp) × (new_glisp operators ≡ ok g)
    × ((find_object (codes "-") g).0 ≡ some (func (user (codes "-") 12 none)))
    × (builtin ((make_symbol g.symbols (codes "-")).0.number) g.env.builtins
        ≡ some (user (codes "-") 12 none))
new_glisp-find_object_example =
    new_glisp-find_object operators 1 (codes "-") 12
      (
        (bytes_ne (codes "-") (codes "+") refl, (bytes_ne (codes "*") (codes "+") refl, tt)),
        ((bytes_ne (codes "*") (codes "-") refl, tt), (tt, tt)),
      )
      refl

abbrev no_symbols : Symbols
no_symbols = record { symtable = []; nextsymbol = 1 }

no_symbols-IsTable : IsTable no_symbols
unfolding lookup
no_symbols-IsTable = record { low = λ k n e. cc; apart = λ k l n e e'. cc }

make_symbol-Keeps_example : Keeps no_symbols (codes "x") (make_symbol no_symbols (codes "x"))
make_symbol-Keeps_example = make_symbol-Keeps no_symbols (codes "x") no_symbols-IsTable

duplicate_glisp_collision_example :
    first_number (codes "x") operators_only.symbols
    ≡ first_number (codes "y") (after_symbol (codes "x") operators_only operators_only).symbols
unfolding duplicate_glisp lookup
duplicate_glisp_collision_example =
    duplicate_glisp_collision operators_only operators_only (codes "x") (codes "y") refl refl refl
      (bytes_ne (codes "y") (codes "x") refl)

calls_operators : CallsTable operator_number operators_only.env
unfolding builtin
calls_operators plus = refl
calls_operators minus = refl
calls_operators times = refl

no_operator_macros : NoMacros operator_number operators_only.macros
unfolding macro_at
no_operator_macros op = refl

abbrev sum : Arith
sum = node plus (lit (pos 2)) (node times (lit (pos 3)) (lit (negsuc 3)))

eval-arithmetic_example :
    (loaded : Glisp) × (steps : ℕ) × (final : Env) × (load_expressions whole_floats
        (glisp_host whole_floats nothing_outside 1)
        no_files
        no_floats
        5
        (expression operator_number sum ∷ [])
        (ready operators_only)
      ≡ ok loaded)
    × (run whole_floats (glisp_host whole_floats nothing_outside 1) steps none loaded.env
        ≡ ok (some (int (negsuc 9)), final))
    × (final.datastack ≡ [])
unfolding wrap ◌+ℤ◌ ◌*ℤ◌
eval-arithmetic_example =
    eval-arithmetic operator_number whole_floats nothing_outside no_files no_floats 0 5 sum
      operators_only (omega arith) no_operator_macros calls_operators

-- The two names lead to the same program.
abbrev one_file : Bytes → Option Runes
one_file name = some (codes "(+ 1 2)")

abbrev sourced : List Sexp → Outcome (Sexp × Glisp)
sourced args =
    source_file_function whole_floats (glisp_host whole_floats nothing_outside 20) no_files
      no_floats one_file 40 args operators_only

source_item-all_example :
    (sourced (make_list (str (codes "a") ∷ str (codes "b") ∷ []) ∷ [])
      ≡ sourced (str (codes "a") ∷ str (codes "b") ∷ []))
    × (sourced (array (of_list (str (codes "a") ∷ str (codes "b") ∷ [])) ∷ [])
        ≡ sourced (str (codes "a") ∷ str (codes "b") ∷ []))
source_item-all_example =
    source_item-all whole_floats (glisp_host whole_floats nothing_outside 20) no_files no_floats
      one_file 40 (str (codes "a")) (str (codes "b") ∷ []) operators_only

-- The symbol of the file is the next one.
parsed :
    parse_file no_floats (λ name. some (codes "ab 7")) 40 (codes "f") operators_only.symbols ≡ (
      record {
        symtable = (codes "ab", 4) ∷ (codes "*", 3) ∷ (codes "-", 2) ∷ (codes "+", 1) ∷ [];
        nextsymbol = 5;
      },
      ok (symbol (record { name = codes "ab"; number = 4 }) ∷ int (pos 7) ∷ []),
    )
unfolding parse_file parse_tokens new_lexer_from_stream get_next_token
parsed = refl
