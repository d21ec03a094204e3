-- ===== src/Debug/Listing.antt =====
-- vm.go, lexer.go, datastack.go, environment.go: instructions, tokens, the stack and the calls as
-- text. What is printed is the result.
use glisp.Prelude.{
  ℤ, pos, ◌-◌, Bytes, codes, true, false, List, [], ◌∷◌, ◌++◌, none, some, length, take, drop,
  Error, Outcome, ok, err, ◌>>=◌, returned, not_a_function, not_found, not_glisp_function,
}
use mathlib.Core.List.{reverse}
use glisp.Sexp.{
  Sexp, Function, Instr, Symbol, func, script, user, jump, goto, branch, push, push_closure, pop,
  dup, get, put, call, dispatch, ret, raise, add_scope, remove_scope, explode, squash, vectorize,
  bindlist, hashize, instrs, function_name,
}
use glisp.Lexer.{
  TokenType, l_paren, r_paren, l_square, r_square, l_curly, r_curly, dot, quote, backtick, tilde,
  tilde_at, hex, oct, binary, char_t,
}
use glisp.Vm.{Env}
use glisp.Builtins.{itoa}
use glisp.Loading.{Glisp, find_object}

abbrev names : List Symbol → Bytes
names [] = []
names (s ∷ ss) = s.name ++ codes " " ++ names ss

-- `print` is `SexpString`, `error_text` the text of an error.
module _ (print : Sexp → Outcome Bytes) (error_text : Error → Bytes) where
  unfoldable pub instr_string : Instr → Outcome Bytes
  unfolding itoa
  instr_string (jump n) = ok (codes "jump " ++ itoa n)
  instr_string (goto n) = ok (codes "goto " ++ itoa n)
  instr_string (branch true n) = ok (codes "br " ++ itoa n)
  instr_string (branch false n) = ok (codes "brn " ++ itoa n)
  instr_string (push e) = print e >>= λ s. ok (codes "push " ++ s)
  instr_string (push_closure f) = print (func f) >>= λ s. ok (codes "pushC " ++ s)
  instr_string pop = ok (codes "pop")
  instr_string dup = ok (codes "dup")
  instr_string (get sym) = ok (codes "get " ++ sym.name)
  instr_string (put sym) = ok (codes "put " ++ sym.name)
  instr_string (call sym n) = ok (codes "call " ++ sym.name ++ codes " " ++ itoa (pos n))
  instr_string (dispatch n) = ok (codes "dispatch " ++ itoa (pos n))
  instr_string ret = ok (codes "ret")
  instr_string raise = ok (codes "ret \"" ++ error_text returned ++ codes "\"")
  instr_string add_scope = ok (codes "add scope")
  instr_string remove_scope = ok (codes "rem scope")
  instr_string explode = ok (codes "explode")
  instr_string squash = ok (codes "squash")
  instr_string vectorize = ok (codes "vectorize")
  instr_string (bindlist syms) = ok (codes "bindlist " ++ names syms)
  instr_string (hashize n name) = ok (codes "hashize")

  -- `StrFunction`, and what `DumpFunction` prints.
  unfoldable pub str_function : List Instr → Outcome Bytes
  unfolding instr_string
  str_function [] = ok []
  str_function (i ∷ is) =
      instr_string i >>= λ s. str_function is >>= λ more. ok (codes "\t" ++ s ++ codes "\n" ++ more)

  unfoldable pub stack_lines : List Sexp → Outcome Bytes
  stack_lines [] = ok []
  stack_lines (e ∷ es) =
      print e >>= λ s. stack_lines es >>= λ more. ok (codes "\t" ++ s ++ codes "\n" ++ more)

  -- From the bottom of the stack to its top.
  unfoldable pub print_stack : List Sexp → Outcome Bytes
  unfolding itoa stack_lines
  print_stack stack = stack_lines (reverse stack) >>= λ s.
      ok (codes "\t" ++ itoa (pos (length stack)) ++ codes " elements\n" ++ s)

  unfoldable pub dump_function : Function → Outcome Bytes
  unfolding str_function
  dump_function (script _ _ _ fun _) = str_function (instrs fun)
  dump_function (user _ _ _) = ok []

  unfoldable pub dump_environment : Env → Outcome Bytes
  unfolding dump_function print_stack itoa
  dump_environment env = dump_function env.curfunc >>= λ code.
      print_stack env.datastack >>= λ stack. ok (
        codes "Instructions:\n"
        ++ code
        ++ codes "Stack:\n"
        ++ stack
        ++ codes "PC: "
        ++ itoa env.pc
        ++ codes "\n")

  abbrev dump_object : Sexp → Outcome Bytes
  dump_object (func (script name nargs varargs fun c)) = str_function (instrs fun)
  dump_object (func (user _ _ _)) = err not_glisp_function
  dump_object _ = err not_a_function

  unfoldable pub dump_function_by_name : Bytes → Glisp → Outcome (Bytes × Glisp)
  unfolding find_object str_function
  dump_function_by_name name g =
      let (found, g') = find_object name g in
      elim found [ none ↦ err not_found | some obj ↦ dump_object obj >>= λ s. ok (s, g') ]

  -- A line of the stack trace.
  abbrev place : Bytes → Function → ℤ → Bytes
  place start f n = start ++ function_name f ++ codes ":" ++ itoa n

  unfoldable pub frames : List (Function × ℤ) → Bytes
  unfolding itoa
  frames [] = []
  frames ((f, n) ∷ rest) = place (codes "in ") f n ++ codes "\n" ++ frames rest

  -- The address stack is empty afterwards.
  unfoldable pub get_stack_trace : Error → Env → Bytes × Env
  unfolding frames itoa
  get_stack_trace why env = (
    place (codes "error in ") env.curfunc env.pc
        ++ codes ": "
        ++ error_text why
        ++ codes "\n"
        ++ frames env.addrstack,
    record env { addrstack = [] },
  )

-- `Token.String`; `quote_text` is `strconv.Quote`.
unfoldable pub token_string : (Bytes → Bytes) → TokenType → Bytes → Bytes
token_string quote_text l_paren s = codes "("
token_string quote_text r_paren s = codes ")"
token_string quote_text l_square s = codes "["
token_string quote_text r_square s = codes "]"
token_string quote_text l_curly s = codes "{"
token_string quote_text r_curly s = codes "}"
token_string quote_text dot s = codes "."
token_string quote_text quote s = codes "'"
token_string quote_text backtick s = codes "`"
token_string quote_text tilde s = codes "~"
token_string quote_text tilde_at s = codes "~@"
token_string quote_text hex s = codes "0x" ++ s
token_string quote_text oct s = codes "0o" ++ s
token_string quote_text binary s = codes "0b" ++ s
token_string quote_text char_t s =
    let quoted = quote_text s in codes "#" ++ drop 1 (take (length quoted - 1) quoted)
token_string quote_text _ s = s
