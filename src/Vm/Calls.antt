-- ===== src/Vm/Calls.antt =====
-- The calls and the return of environment.go, and the data stack under them.
use mathlib.Core.List.{reverse}
use glisp.Prelude.{
  ℕ, zero, ◌-◌, ltb, ◌==◌, ℤ, pos, negsuc, ◌+ℤ◌, true, false, Bytes, codes, List, [], ◌∷◌, ◌++◌,
  Option, none, some, length, take, drop, if◌then◌else◌, Outcome, ok, err, panic, ◌>>=◌,
  not_enough_items, invalid_stack_access, argument_count,
}
use glisp.Sexp.{Sexp, Function, script, user, function_name, sexp_null, make_list}
use glisp.Vm.State.{Env, Host}
use glisp.Vm.Scopes.{push_scope}

unfoldable pub push_expr : Env → Sexp → Env
push_expr env e = record env { datastack = e ∷ env.datastack }

unfoldable pub push_exprs : Env → List Sexp → Env
unfolding push_expr
push_exprs env [] = env
push_exprs env (e ∷ es) = push_exprs (push_expr env e) es

unfoldable pub pop_expr : Env → Outcome (Sexp × Env)
pop_expr env = elim env.datastack [
  | [] ↦ err invalid_stack_access
  | e ∷ rest ↦ ok (e, record env { datastack = rest })
]

-- The n topmost values, the first pushed first.
unfoldable pub get_expressions : Env → ℕ → Outcome (List Sexp)
get_expressions env n =
    if ltb (length env.datastack) n
    then err not_enough_items
    else ok (reverse (take n env.datastack))

unfoldable pub pop_expressions : Env → ℕ → Outcome (List Sexp × Env)
unfolding get_expressions
pop_expressions env n =
    get_expressions env n >>= λ es. ok (es, record env { datastack = drop n env.datastack })

unfoldable pub wrangle_optargs : Env → ℕ → ℕ → Outcome Env
unfolding pop_expressions push_expr make_list
wrangle_optargs env fnargs nargs =
    if ltb nargs fnargs
    then err argument_count
    else if ltb fnargs nargs
    then (pop_expressions env (nargs - fnargs) >>= λ (optargs, env').
        ok (push_expr env' (make_list optargs)))
    else ok (push_expr env sexp_null)

unfoldable pub pop_addr : Env → Outcome (Function × ℤ × Env)
pop_addr env = elim env.addrstack [
  | [] ↦ err invalid_stack_access
  | (f, pc) ∷ rest ↦ ok (f, pc, record env { addrstack = rest })
]

-- The loops over the hooks.
unfoldable pub run_before : List (Env → Bytes → List Sexp → Env) → Bytes → ℕ → Env → Outcome Env
unfolding get_expressions
run_before [] name nargs env = ok env
run_before (hook ∷ hooks) name nargs env =
    get_expressions env nargs >>= λ es. run_before hooks name nargs (hook env name es)

unfoldable pub run_after : List (Env → Bytes → Sexp → Env) → Bytes → Sexp → Env → Env
run_after [] name res env = env
run_after (hook ∷ hooks) name res env = run_after hooks name res (hook env name res)

-- In `ReturnFromFunction` each hook is given the top of the data stack and the current function.
unfoldable pub run_after_return : List (Env → Bytes → Sexp → Env) → Env → Outcome Env
run_after_return [] env = ok env
run_after_return (hook ∷ hooks) env = elim env.datastack [
  | [] ↦ err invalid_stack_access
  | retval ∷ _ ↦ run_after_return hooks (hook env (function_name env.curfunc) retval)
]

unfoldable pub last? : List ℕ → Option ℕ
last? [] = none
last? (r ∷ []) = some r
last? (r ∷ s ∷ refs) = last? (s ∷ refs)

-- The end of `CallFunction`, with the global scope and the closure's scopes on a new stack.
unfoldable pub enter : Env → Function → ℕ → List ℕ → Env
unfolding push_scope
enter env function global close_scope = push_scope (record env {
  stackstack = env.scopestack ∷ env.stackstack;
  scopestack = close_scope ++ global ∷ [];
  addrstack = (env.curfunc, env.pc +ℤ pos 1) ∷ env.addrstack;
  curfunc = function;
  pc = pos 0;
})

-- `MissingFunction`.
abbrev pub missing_function : Function
missing_function = user (codes "__missing") 0 none

abbrev pub closure_of : Option (List ℕ) → List ℕ
closure_of none = []
closure_of (some refs) = refs

-- A stack with no scope panics.
unfoldable pub enter_from : Option ℕ → Env → Function → List ℕ → Outcome Env
unfolding enter
enter_from none env function close_scope = panic
enter_from (some global) env function close_scope = ok (enter env function global close_scope)

module _ (host : Host) where
  -- A script function; one of the host has no parameters to check, as `MakeUserFunction` makes it.
  unfoldable pub check_arguments : Function → ℕ → Env → Outcome Env
  unfolding wrangle_optargs
  check_arguments (script _ fnargs true _ _) nargs env = wrangle_optargs env fnargs nargs
  check_arguments (script _ fnargs false _ _) nargs env =
      if nargs == fnargs then ok env else err argument_count
  check_arguments (user _ _ _) nargs env = if nargs == 0 then ok env else err argument_count

  abbrev pub close_scope : Function → Option (List ℕ)
  close_scope (script _ _ _ _ c) = c
  close_scope (user _ _ c) = c

  unfoldable pub call_function : Function → ℕ → Env → Outcome Env
  unfolding run_before check_arguments enter_from
  call_function function nargs env =
      run_before host.before (function_name function) nargs env >>= λ env₁.
      check_arguments function nargs env₁ >>= λ env₂.
      enter_from (last? env₂.scopestack) env₂ function (closure_of (close_scope function))

  unfoldable pub return_from_function : Env → Outcome Env
  unfolding run_after_return pop_addr
  return_from_function env = run_after_return host.after env >>= λ env₁.
      pop_addr env₁ >>= λ (f, pc, env₂). elim env₂.stackstack [
        | [] ↦ err invalid_stack_access
        | refs ∷ rest ↦
            ok (record env₂ { curfunc = f; pc = pc; scopestack = refs; stackstack = rest })
      ]

  -- The number of a host function; a script function has none.
  -- The number 0 stands for no function, as in `MissingFunction`.
  abbrev pub call_host : Function → Env → Bytes → List Sexp → Outcome (Sexp × Env)
  call_host (user _ zero _) env name args = panic
  call_host (user _ n _) env name args = host.userfun n env name args
  call_host (script _ _ _ _ _) env name args = panic

  unfoldable pub call_user_function : Function → Bytes → ℕ → Env → Outcome Env
  unfolding run_before pop_expressions push_expr run_after
  call_user_function function name nargs env =
      run_before host.before (function_name function) nargs env >>= λ env₁.
      pop_expressions env₁ nargs >>= λ (args, env₂).
      call_host function
        (record env₂ {
          addrstack = (env₂.curfunc, env₂.pc +ℤ pos 1) ∷ env₂.addrstack;
          curfunc = function;
          pc = negsuc 0;
        })
        name args
      >>= λ (res, env₃).
          let env₄ = run_after host.after name res (push_expr env₃ res) in
          elim env₄.addrstack [
            | [] ↦ ok (record env₄ { curfunc = missing_function; pc = pos 0 })
            | (f, pc) ∷ rest ↦ ok (record env₄ { curfunc = f; pc = pc; addrstack = rest })
          ]
