-- ===== src/Vm/Execute.antt =====
-- vm.go: what each instruction does, and the loop over them.
use mathlib.Core.List.{reverse}
use glisp.Prelude.{
  ℕ, zero, suc, ltb, ◌==◌, not, ℤ, pos, negsuc, ◌+ℤ◌, ltb_ℤ, eq_ℤ, pos_part, Bool, true, false,
  ◌||◌, Bytes, List, [], ◌∷◌, ◌++◌, Option, none, some, length, get_elem?, if◌then◌else◌, Outcome,
  ok, err, panic, out_of_fuel, ◌>>=◌, out_of_bounds, invalid_stack_access, not_a_function, returned,
  bindlist_count,
}
use glisp.Sexp.{
  Sexp, marker, array, hash, func, Symbol, Function, script, user, function_name, Instr, jump, goto,
  branch, push, push_closure, pop, dup, get, put, call, dispatch, ret, raise, add_scope,
  remove_scope, explode, squash, vectorize, bindlist, hashize, instrs, is_truthy, is_sentinel,
  make_list, of_list, list_to_array,
}
use glisp.Numbers.{Floats}
use glisp.Hash.{make_hash}
use glisp.Vm.State.{Scope, Env, Host, code_of_function, current_function_size}
use glisp.Vm.Scopes.{
  lookup_symbol, lookup_in, drop_last, bind_symbol, bind_at, push_scope, pop_scope,
}
use glisp.Vm.Calls.{
  call_host, push_expr, push_exprs, pop_expr, call_function, return_from_function,
  call_user_function,
}

abbrev pub next : Env → Env
next env = record env { pc = env.pc +ℤ pos 1 }

-- The test that `JumpInstr` and `GotoInstr` make before they set the counter.
unfoldable pub jump_to : ℤ → Env → Outcome Env
unfolding current_function_size
jump_to newpc env =
    if ltb_ℤ newpc (pos 0) || ltb_ℤ (pos (current_function_size env)) newpc
    then err out_of_bounds
    else ok (record env { pc = newpc })

-- The symbol that `PushInstrClosure` looks for in an instruction.
abbrev pub symbol_in : Instr → Option Symbol
symbol_in (get s) = some s
symbol_in (put s) = some s
symbol_in (call s _) = some s
symbol_in _ = none

-- The loop of `PushInstrClosure`: what the code names, and a scope below the global one binds, is
-- copied into the scope at the reference `r`.
unfoldable pub capture : List Instr → List ℕ → ℕ → List Scope → List Scope
unfolding lookup_in bind_at
capture [] refs r scopes = scopes
capture (i ∷ is) refs r scopes = capture is refs r (elim (symbol_in i) [
  | none ↦ scopes
  | some sym ↦ elim (lookup_in scopes refs sym.number) [
    | ok e ↦ bind_at scopes r sym.number e
    | _ ↦ scopes
  ]
])

-- A script function gets a closure of its own; for one of the host the whole stack is copied.
unfoldable pub close_over : Function → Env → Function × Env
unfolding capture drop_last
close_over (script name nargs varargs fun _) env =
    let r = length env.scopes in
    (
      script name nargs varargs fun (some (r ∷ [])),
      record env {
        scopes = capture (instrs fun) (drop_last env.scopestack) r (env.scopes ++ [] ∷ []);
      },
    )
close_over (user name n _) env = (user name n (some env.scopestack), env)

-- The popping loop of `SquashInstr`, `VectorizeInstr` and `HashizeInstr`: the values above the
-- topmost marker, the last pushed first, and the stack below it.
unfoldable pub pop_to_marker : List Sexp → Outcome (List Sexp × List Sexp)
pop_to_marker [] = err invalid_stack_access
pop_to_marker (e ∷ rest) =
    let more = pop_to_marker rest in
    if is_sentinel marker e
    then ok ([], rest)
    else (more >>= λ (popped, below). ok (e ∷ popped, below))

-- The loop of `BindlistInstr`; what `BindSymbol` returns is dropped.
unfoldable pub bind_all : List Symbol → List Sexp → Env → Env
unfolding bind_symbol
bind_all (s ∷ syms) (e ∷ es) env =
    bind_all syms es (elim (bind_symbol env s e) [ ok env' ↦ env' | _ ↦ env ])
bind_all _ _ env = env

abbrev pub eq_bool : Bool → Bool → Bool
eq_bool true b = b
eq_bool false b = not b

unfoldable pub builtin : ℕ → List (ℕ × Function) → Option Function
builtin n [] = none
builtin n ((m, f) ∷ rest) = if m == n then some f else builtin n rest

unfoldable pub reached_end : Env → Bool
unfolding current_function_size
reached_end env = eq_ℤ env.pc (pos (current_function_size env))

unfoldable pub is_done : Env → Bool
unfolding reached_end
is_done env = eq_ℤ env.pc (negsuc 0) || reached_end env

-- `Finish` stops the process on an empty stack.
unfoldable pub finish : Env → Outcome (Sexp × Env)
finish env = elim env.datastack [ [] ↦ panic | e ∷ rest ↦ ok (e, record env { datastack = rest }) ]

-- `env.curfunc.fun[env.pc]`.
abbrev pub fetch : Env → Outcome Instr
fetch env =
    if ltb_ℤ env.pc (pos 0)
    then panic
    else elim (get_elem? (code_of_function env.curfunc) (pos_part env.pc)) [
      | some i ↦ ok i
      | none ↦ panic
    ]

module _ (f : Floats) (host : Host) where
  unfoldable pub apply_object : Sexp → Bytes → ℕ → Env → Outcome Env
  unfolding call_function call_user_function
  apply_object (func (script name n v c s)) label nargs env =
      call_function host (script name n v c s) nargs env
  apply_object (func (user name n s)) label nargs env =
      call_user_function host (user name n s) label nargs env
  apply_object _ label nargs env = err not_a_function

  -- `DispatchInstr` names a host function by its own name.
  abbrev pub own_name : Sexp → Bytes
  own_name (func function) = function_name function
  own_name _ = []

  unfoldable pub execute : Instr → Env → Outcome Env
  unfolding jump_to close_over pop_to_marker bind_all builtin apply_object push_expr push_exprs
      pop_expr push_scope pop_scope lookup_symbol bind_symbol return_from_function make_list
      list_to_array is_truthy make_hash call_user_function
  execute (jump location) env = jump_to (env.pc +ℤ location) env
  execute (goto location) env = jump_to location env
  execute (branch direction location) env = pop_expr env >>= λ (e, env').
      if eq_bool direction (is_truthy e) then jump_to (env'.pc +ℤ location) env' else ok (next env')
  execute (push_closure function) env =
      let (closed, env') = close_over function env in ok (next (push_expr env' (func closed)))
  execute (push e) env = ok (next (push_expr env e))
  execute pop env = pop_expr env >>= λ (_, env'). ok (next env')
  execute dup env = pop_expr env >>= λ (e, _). ok (next (push_expr env e))
  execute (get sym) env = lookup_symbol env sym >>= λ e. ok (next (push_expr env e))
  execute (put sym) env = pop_expr env >>= λ (e, env'). bind_symbol (next env') sym e
  execute (call sym nargs) env = elim (builtin sym.number env.builtins) [
    | some function ↦ call_user_function host function sym.name nargs env
    | none ↦ lookup_symbol env sym >>= λ funcobj. apply_object funcobj sym.name nargs env
  ]
  execute (dispatch nargs) env =
      pop_expr env >>= λ (funcobj, env'). apply_object funcobj (own_name funcobj) nargs env'
  execute ret env = return_from_function host env
  execute raise env = err returned
  execute add_scope env = ok (next (push_scope env))
  execute remove_scope env = pop_scope (next env)
  execute explode env =
      pop_expr env >>= λ (e, env'). list_to_array e >>= λ arr. ok (next (push_exprs env' arr))
  execute squash env = pop_to_marker env.datastack >>= λ (popped, below).
      ok (next (push_expr (record env { datastack = below }) (make_list (reverse popped))))
  execute (bindlist syms) env = pop_expr env >>= λ (e, env'). list_to_array e >>= λ arr.
      if ltb (length arr) (length syms)
      then err bindlist_count
      else ok (next (bind_all syms arr env'))
  execute vectorize env = pop_to_marker env.datastack >>= λ (popped, below).
      ok (next (push_expr (record env { datastack = below }) (array (of_list (reverse popped)))))
  execute (hashize _ typename) env = pop_to_marker env.datastack >>= λ (popped, below).
      make_hash f popped typename >>= λ table. ok (
        next (
          push_expr (record env { datastack = below; hashes = env.hashes ++ table ∷ [] })
            (hash (length env.hashes))))

  -- `Step`: `none` is the result `nil` of a step that does not finish.
  unfoldable pub step : Env → Outcome (Option Sexp × Env)
  unfolding execute is_done finish
  step env = (if is_done env then ok env else (fetch env >>= λ i. execute i env)) >>= λ env'.
      if is_done env' then (finish env' >>= λ (e, env''). ok (some e, env'')) else ok (none, env')

  -- `Run`, with the result of the last step.
  unfoldable pub run : ℕ → Option Sexp → Env → Outcome (Option Sexp × Env)
  unfolding step
  run zero exp env = if is_done env then ok (exp, env) else out_of_fuel
  run (suc fuel) exp env =
      let rest = (step env >>= λ (exp', env'). run fuel exp' env') in
      if is_done env then ok (exp, env) else rest

  -- `Apply`, for a script function.
  unfoldable pub apply : ℕ → Function → List Sexp → Env → Outcome (Option Sexp × Env)
  unfolding run call_function push_exprs
  apply fuel (user name n s) args env =
      call_host host (user name n s) env name args >>= λ (res, env'). ok (some res, env')
  apply fuel (script name n v c s) args env =
      call_function host (script name n v c s) (length args)
        (push_exprs (record env { pc = negsuc 1 }) args)
      >>= λ env'. run fuel none env'
