-- ===== src/Loading/Arithmetic.antt =====
-- Arithmetic, compiled and run: the generator, the machine and the builtin functions together.
use mathlib.Core.Path.{subst}
use glisp.Prelude.{
  ℕ, suc, ◌+◌, ℤ, pos, ◌+ℤ◌, ◌-ℤ◌, ◌*ℤ◌, wrap, ◌≡◌, refl, ap, sym, ◌∙◌, Bytes, codes, List, [], ◌∷◌,
  ◌++◌, append_assoc, length, length-append, ltb, some, none, Option, ok, ◌>>=◌, arith, false,
}
use glisp.Sexp.{Sexp, pair, int, symbol, Symbol, sexp_null, user, Function, Instr, push, call}
use glisp.Numbers.{Floats}
use glisp.Parser.{symbol_of}
use glisp.Vm.{
  Env, Host, builtin, execute, code_of_function, call_user_function, push_expr, lookup_symbol,
  apply_object,
}
use glisp.Vm.Runs.{Runs, stop, one, Runs-append, fetch-at, pos-add}
use glisp.Generator.Jumps.{regroup}
use glisp.Builtins.{Outside, glisp_host}

pub data Op : Type 0 where
  plus minus times : Op

-- Integers under the operators, nested as deep as one likes.
pub data Arith : Type 0 where
  lit : ℤ → Arith
  node : Op → Arith → Arith → Arith

abbrev pub op_name : Op → Bytes
op_name plus = codes "+"
op_name minus = codes "-"
op_name times = codes "*"

-- The numbers of the functions in the table.
abbrev pub op_function : Op → ℕ
op_function plus = 11
op_function minus = 12
op_function times = 13

abbrev pub op_value : Op → ℤ → ℤ → ℤ
op_value plus a b = wrap 64 (a +ℤ b)
op_value minus a b = wrap 64 (a -ℤ b)
op_value times a b = wrap 64 (a *ℤ b)

-- The value of an expression, in integers of 64 bits.
abbrev pub value : Arith → ℤ
value (lit i) = i
value (node op a b) = op_value op (value a) (value b)

called :
    (f : Floats) (host : Host) (sym : Symbol) (nargs : ℕ) (env : Env) (function : Function)
    (o : Option Function)
    → o ≡ some function
    → (elim o [
      | some function ↦ call_user_function host function sym.name nargs env
      | none ↦ lookup_symbol env sym >>= λ funcobj. apply_object f host funcobj sym.name nargs env
    ])
      ≡ call_user_function host function sym.name nargs env
called f host sym nargs env function (some g) h =
    let same : g ≡ function = cc in ap (λ k. call_user_function host k sym.name nargs env) same
called f host sym nargs env function none h = cc

execute-call_builtin :
    (f : Floats) (host : Host) (sym : Symbol) (nargs : ℕ) (env : Env) (function : Function)
    → builtin sym.number env.builtins ≡ some function
    → execute f host (call sym nargs) env ≡ call_user_function host function sym.name nargs env
unfolding execute
execute-call_builtin f host sym nargs env function h =
    called f host sym nargs env function (builtin sym.number env.builtins) h

-- The environment with two integers on its stack.
abbrev two_on : Env → ℕ → ℤ → ℤ → List Sexp → Env
two_on env n a b st = record env { datastack = int b ∷ int a ∷ st; pc = pos n }

enough : (st : List Sexp) → ltb (suc (suc (length st))) 2 ≡ false
enough st = ground arith

call-op :
    (f : Floats) (o : Outside) (fuel n : ℕ) (op : Op) (a b : ℤ) (env : Env) (st : List Sexp)
    → call_user_function
        (glisp_host f o (suc fuel))
        (user (op_name op) (op_function op) none)
        (op_name op)
        2
        (two_on env n a b st)
      ≡ ok (record env { datastack = int (op_value op a b) ∷ st; pc = pos n +ℤ pos 1 })
unfolding call_user_function glisp_host wrap ◌+ℤ◌ ◌-ℤ◌ ◌*ℤ◌
call-op f o fuel n plus a b env st = rw (enough st) refl
call-op f o fuel n minus a b env st = rw (enough st) refl
call-op f o fuel n times a b env st = rw (enough st) refl

module _ (number : Op → ℕ) where
  abbrev pub op_symbol : Op → Symbol
  op_symbol op = symbol_of (op_name op) (number op)

  -- The expression as the reader gives it, and its code.
  abbrev pub expression : Arith → Sexp
  expression (lit i) = int i
  expression (node op a b) =
      pair (symbol (op_symbol op)) (pair (expression a) (pair (expression b) sexp_null))

  abbrev pub code : Arith → List Instr
  code (lit i) = push (int i) ∷ []
  code (node op a b) = code a ++ (code b ++ call (op_symbol op) 2 ∷ [])

  -- The operators call the functions of the table.
  abbrev pub CallsTable : Env → Type 0
  CallsTable env =
      (op : Op) → builtin (number op) env.builtins ≡ some (user (op_name op) (op_function op) none)

  module _ (f : Floats) (o : Outside) (fuel : ℕ) where
    abbrev host : Host
    host = glisp_host f o (suc fuel)

    -- The state behind code that leaves an integer.
    abbrev leaving : ℤ → ℕ → Env → Env
    leaving i n env = record env { datastack = int i ∷ env.datastack; pc = pos n }

    -- The place where a run ends, written in another way.
    arrives :
        (env : Env) (start : Env) (i : ℤ) {m n : ℕ}
        → Runs f host start (leaving i m env)
        → m ≡ n
        → Runs f host start (leaving i n env)
    arrives env start i ran same = subst (λ k. Runs f host start (leaving i k env)) same ran

    push-runs :
        (i : ℤ) (pre post : List Instr) (env : Env)
        → code_of_function env.curfunc ≡ pre ++ (push (int i) ∷ post)
        → env.pc ≡ pos (length pre)
        → Runs f host env (leaving i (length pre + 1) env)
    unfolding execute push_expr
    push-runs i pre post env h at =
        one (fetch-at env pre (push (int i)) post h at) (rw (at, pos-add (length pre) 1) refl) stop

    op-runs :
        (op : Op) (a b : ℤ) (pre post : List Instr) (env : Env)
        → CallsTable env
        → code_of_function env.curfunc ≡ pre ++ (call (op_symbol op) 2 ∷ post)
        → Runs f host
            (two_on env (length pre) a b env.datastack)
            (leaving (op_value op a b) (length pre + 1) env)
    op-runs op a b pre post env h code =
        let at = two_on env (length pre) a b env.datastack in
        one (fetch-at at pre (call (op_symbol op) 2) post code refl)
          (execute-call_builtin f host (op_symbol op) 2 at (user (op_name op) (op_function op) none)
              (h op)
            ∙ call-op f o fuel (length pre) op a b env env.datastack
            ∙ ap
                (λ z. ok (record env { datastack = int (op_value op a b) ∷ env.datastack; pc = z }))
                (pos-add (length pre) 1))
          stop

    -- The code of an expression leaves its value, wherever it stands.
    pub code-runs :
        (e : Arith) (pre post : List Instr) (env : Env)
        → CallsTable env
        → code_of_function env.curfunc ≡ pre ++ (code e ++ post)
        → env.pc ≡ pos (length pre)
        → Runs f host env (leaving (value e) (length pre + length (code e)) env)
    code-runs (lit i) pre post env h at here = push-runs i pre post env at here
    code-runs (node op a b) pre post env h at here =
        let c = call (op_symbol op) 2 ∷ [] in
        let before_b = pre ++ code a in
        let before_op = before_b ++ code b in
        let rest_a : code_of_function env.curfunc ≡ pre ++ (code a ++ ((code b ++ c) ++ post)) =
          at ∙ ap (λ l. pre ++ l) (append_assoc (code a) (code b ++ c) post) in
        let rest_b : code_of_function env.curfunc ≡ before_b ++ (code b ++ (c ++ post)) =
          at
          ∙ regroup pre (code a) (code b ++ c) post
          ∙ ap (λ l. before_b ++ l) (append_assoc (code b) c post) in
        let rest_op = rest_b ∙ sym (append_assoc before_b (code b) (c ++ post)) in
        let at_b : length pre + length (code a) ≡ length before_b =
          sym (length-append pre (code a)) in
        let at_op : length before_b + length (code b) ≡ length before_op =
          sym (length-append before_b (code b)) in
        let ends : length before_op + 1 ≡ length pre + length (code (node op a b)) = omega (
          arith,
          length-append before_b (code b),
          length-append pre (code a),
          length-append (code a) (code b ++ c),
          length-append (code b) c,
        ) in
        let first = leaving (value a) (length before_b) env in
        let ran_a =
          arrives env env (value a) (code-runs a pre ((code b ++ c) ++ post) env h rest_a here)
            at_b in
        let ran_b =
          arrives first first (value b) (code-runs b before_b (c ++ post) first h rest_b refl)
            at_op in
        let ran_op =
          arrives env (two_on env (length before_op) (value a) (value b) env.datastack)
            (op_value op (value a) (value b))
            (op-runs op (value a) (value b) before_op post env h rest_op) ends in
        Runs-append f host ran_a (Runs-append f host ran_b ran_op)
