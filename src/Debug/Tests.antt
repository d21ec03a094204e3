-- ===== src/Debug/Tests.antt =====
-- Listings of the code of a call, of tokens, and of the calls under way.
use glisp.Prelude.{pos, ◌≡◌, refl, Bytes, codes, [], ◌∷◌, ◌++◌, false, Error, ok, symbol_not_found}
use glisp.Sexp.{
  Function, Symbol, int, str, char, bin, sexp_null, branch, push, get, call, ret, code_of,
  make_function,
}
use glisp.Vm.{Env}
use glisp.Lexer.{hex, char_t}
use glisp.Builtins.{
  Formats, itoa, sexp_string, as_str, print_function, printed_behind, sprint_bytes, sprint_behind,
  log_function, logged, logged_behind,
}
use glisp.Debug.Listing.{
  instr_string, str_function, print_stack, stack_lines, dump_function, dump_environment, frames,
  get_stack_trace, token_string,
}

abbrev plain : Formats
plain = record {
  quote_text = λ s. codes "\"" ++ s ++ codes "\"";
  quote_rune = λ c. codes "'a'";
  format_float = λ bits. codes "1.5";
  foreign_text = λ n. codes "[chan]";
}

abbrev text : Error → Bytes
text _ = codes "no such symbol"

abbrev plus : Symbol
plus = record { name = codes "+"; number = 4 }

abbrev sum : Function
sum =
    make_function (codes "sum") 1 false
      (code_of (get plus ∷ push (int (pos 12)) ∷ branch false (pos 2) ∷ call plus 2 ∷ ret ∷ []))

abbrev env : Env
env = record {
  datastack = int (pos 3) ∷ str (codes "x") ∷ [];
  scopestack = [];
  addrstack = (sum, pos 4) ∷ (make_function (codes "__main") 0 false (code_of []), pos 1) ∷ [];
  stackstack = [];
  builtins = [];
  curfunc = sum;
  pc = pos 3;
  scopes = [];
  hashes = [];
}

listed :
    dump_function (sexp_string plain [] 5) text sum
    ≡ ok (codes "\tget +\n\tpush 12\n\tbrn 2\n\tcall + 2\n\tret\n")
unfolding dump_function str_function instr_string sexp_string itoa make_function
listed = refl

dumped :
    dump_environment
      (sexp_string plain [] 5)
      text
      (record env { curfunc = make_function [] 0 false (code_of []) })
    ≡ ok (codes "Instructions:\nStack:\n\t2 elements\n\t\"x\"\n\t3\nPC: 3\n")
unfolding dump_environment dump_function str_function print_stack stack_lines sexp_string itoa
    make_function
dumped = refl

traced :
    (get_stack_trace (sexp_string plain [] 5) text symbol_not_found env).0
    ≡ codes "error in sum:3: no such symbol\nin sum:4\nin __main:1\n"
unfolding get_stack_trace frames itoa make_function
traced = refl

hex_token : token_string plain.quote_text hex (codes "1f") ≡ codes "0x1f"
unfolding token_string
hex_token = refl

char_token : token_string plain.quote_text char_t (codes "a") ≡ codes "#a"
unfolding token_string
char_token = refl

-- A character is printed as its number, and a text without quotes.
printed :
    print_function plain
      (λ _. codes "1.5")
      []
      5
      (codes "println")
      (str (codes "x") ∷ char (pos 97) ∷ bin (1 ∷ 255 ∷ []) ∷ sexp_null ∷ [])
    ≡ ok (codes "x 97 [1 255] ()\n", sexp_null)
unfolding print_function printed_behind as_str sprint_bytes sprint_behind itoa sexp_string
printed = refl

logs :
    log_function plain (λ _. []) [] 5 (str (codes "x") ∷ int (pos 7) ∷ [])
    ≡ ok (codes "x 7", sexp_null)
unfolding log_function logged logged_behind sexp_string itoa
logs = refl
