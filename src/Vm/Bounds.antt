-- ===== src/Vm/Bounds.antt =====
-- Where the program counter may be.
use glisp.Prelude.{
  ltb, ℤ, pos, ◌+ℤ◌, ◌≤ℤ◌, ◌<ℤ◌, Bool, true, false, List, [], ◌∷◌, length, bindlist_count,
  if◌then◌else◌, Outcome, ok, err, panic, out_of_fuel, ◌>>=◌, ◌≡◌, refl, sym, ◌∙◌, arith,
  Bool-cases, inl, inr,
}
use glisp.Sexp.{
  Sexp, Symbol, Function, script, user, Instr, jump, goto, branch, push, push_closure, pop, dup,
  get, put, add_scope, remove_scope, is_truthy, ret, raise, explode, squash, bindlist, vectorize,
  hashize, list_to_array,
}
use glisp.Numbers.{Floats}
use glisp.Vm.State.{Env, Host, current_function_size}
use glisp.Vm.Calls.{pop_expr, push_exprs, push_expr}
use glisp.Vm.Scopes.{push_scope, pop_scope, bind_symbol, lookup_symbol}
use glisp.Hash.{make_hash}
use glisp.Vm.Execute.{jump_to, execute, eq_bool, next, bind_all, close_over, pop_to_marker}

-- The counter is at an instruction of the current function, or behind the last.
abbrev pub InCode : Env → Type 0
InCode env = (pos 0 ≤ℤ env.pc) × (env.pc ≤ℤ pos (current_function_size env))

jump_to-InCode : (n : ℤ) (env : Env) {env' : Env} → jump_to n env ≡ ok env' → InCode env'
unfolding jump_to
jump_to-InCode n env e = ground arith

-- The counter is at an instruction.
abbrev pub AtInstr : Env → Type 0
AtInstr env = (pos 0 ≤ℤ env.pc) × (env.pc <ℤ pos (current_function_size env))

-- The instructions that stay in their function: all but the calls and the return.
abbrev pub stays : Instr → Bool
stays (Instr.call _ _) = false
stays (Instr.dispatch _) = false
stays ret = false
stays _ = true

abbrev pub Ends : (Env → Type 0) → Outcome Env → Type 0
Ends P (ok env) = P env
Ends P _ = Unit

Ends-bind :
    {A : Type 0} (P : Env → Type 0) (m : Outcome A) (k : A → Outcome Env)
    → ((a : A) → m ≡ ok a → Ends P (k a))
    → Ends P (m >>= k)
Ends-bind P (ok a) k h = h a refl
Ends-bind P (err e) k h = tt
Ends-bind P panic k h = tt
Ends-bind P out_of_fuel k h = tt

-- Two states at the same place of the same function.
abbrev SamePlace : Env → Env → Type 0
SamePlace a b = (b.pc ≡ a.pc) × (b.curfunc ≡ a.curfunc)

next-InCode : (env after : Env) → AtInstr env → SamePlace env after → InCode (next after)
unfolding current_function_size ◌+ℤ◌
next-InCode env after at (same_pc, same_fun) = rw (same_pc, same_fun) (ground arith)

jump_to-Ends : (n : ℤ) (env : Env) → Ends InCode (jump_to n env)
unfolding jump_to
jump_to-Ends n env = ground arith

bind_symbol-SamePlace :
    (env : Env) (s : Symbol) (e : Sexp) {env' : Env}
    → bind_symbol env s e ≡ ok env'
    → SamePlace env env'
unfolding bind_symbol
bind_symbol-SamePlace env s e h = ground arith

pop_expr-SamePlace :
    (env : Env) (e : Sexp) (env' : Env) → pop_expr env ≡ ok (e, env') → SamePlace env env'
unfolding pop_expr
pop_expr-SamePlace env e env' h = ground arith

push_exprs-SamePlace : (es : List Sexp) (env : Env) → SamePlace env (push_exprs env es)
unfolding push_exprs
push_exprs-SamePlace [] env = (refl, refl)
push_exprs-SamePlace (e ∷ es) env = push_exprs-SamePlace es (push_expr env e)

bind_all-SamePlace :
    (syms : List Symbol) (es : List Sexp) (env : Env) → SamePlace env (bind_all syms es env)
unfolding bind_all
bind_all-SamePlace [] es env = (refl, refl)
bind_all-SamePlace (s ∷ syms) [] env = (refl, refl)
bind_all-SamePlace (s ∷ syms) (e ∷ es) env =
    let (same_pc, same_fun) =
      bind_all-SamePlace syms es (elim (bind_symbol env s e) [ ok env' ↦ env' | _ ↦ env ]) in
    let (pc₁, fun₁) = bound (bind_symbol env s e) refl in (same_pc ∙ pc₁, same_fun ∙ fun₁)
  where
    bound :
        (o : Outcome Env)
        → bind_symbol env s e ≡ o
        → SamePlace env (elim o [ ok env' ↦ env' | _ ↦ env ])
    bound (ok env') h = bind_symbol-SamePlace env s e h
    bound (err _) h = (refl, refl)
    bound panic h = (refl, refl)
    bound out_of_fuel h = (refl, refl)

close_over-SamePlace : (function : Function) (env : Env) → SamePlace env (close_over function env).1
unfolding close_over
close_over-SamePlace (script _ _ _ _ _) env = (refl, refl)
close_over-SamePlace (user _ _ _) env = (refl, refl)

branch-Ends :
    (direction : Bool) (location : ℤ) (e : Sexp) (env : Env)
    → InCode (next env)
    → Ends InCode (
        if eq_bool direction (is_truthy e) then jump_to (env.pc +ℤ location) env else ok (next env))
branch-Ends direction location e env at = elim (Bool-cases (eq_bool direction (is_truthy e))) [
  | inl taken ↦ rw taken (jump_to-Ends (env.pc +ℤ location) env)
  | inr passed ↦ rw passed at
]

bound-Ends : (env : Env) (s : Symbol) (e : Sexp) → InCode env → Ends InCode (bind_symbol env s e)
unfolding bind_symbol current_function_size
bound-Ends env s e at = ground arith

popped-Ends : (env : Env) → InCode env → Ends InCode (pop_scope env)
unfolding pop_scope current_function_size
popped-Ends env at = ground arith

checked-Ends :
    (b : Bool) (env : Env) → InCode env → Ends InCode (if b then err bindlist_count else ok env)
checked-Ends true env at = tt
checked-Ends false env at = at

module _ (f : Floats) (host : Host) where
  -- From an instruction of the current function, one that stays in it leads, where it succeeds,
  -- to an instruction of it or behind the last, whatever the jumps say.
  pub execute-InCode :
      (i : Instr) (env : Env) → stays i ≡ true → AtInstr env → Ends InCode (execute f host i env)
  unfolding execute
  execute-InCode (jump location) env s at = jump_to-Ends (env.pc +ℤ location) env
  execute-InCode (goto location) env s at = jump_to-Ends location env
  execute-InCode (branch direction location) env s at =
      Ends-bind InCode (pop_expr env) _ λ (e, env') p.
        branch-Ends direction location e env'
          (next-InCode env env' at (pop_expr-SamePlace env e env' p))
  execute-InCode (push e) env s at = next-InCode env (push_expr env e) at (refl, refl)
  execute-InCode (push_closure function) env s at =
      next-InCode env (close_over function env).1 at (close_over-SamePlace function env)
  execute-InCode pop env s at =
      Ends-bind InCode (pop_expr env) _
        λ (e, env') p. next-InCode env env' at (pop_expr-SamePlace env e env' p)
  execute-InCode dup env s at =
      Ends-bind InCode (pop_expr env) _
        λ (e, _) p. next-InCode env (push_expr env e) at (refl, refl)
  execute-InCode (get sym) env s at =
      Ends-bind InCode (lookup_symbol env sym) _
        λ e p. next-InCode env (push_expr env e) at (refl, refl)
  execute-InCode (put sym) env s at = Ends-bind InCode (pop_expr env) _ λ (e, env') p.
      bound-Ends (next env') sym e (next-InCode env env' at (pop_expr-SamePlace env e env' p))
  execute-InCode (Instr.call _ _) env s at = cc
  execute-InCode (Instr.dispatch _) env s at = cc
  execute-InCode ret env s at = cc
  execute-InCode raise env s at = tt
  execute-InCode add_scope env s at = next-InCode env (push_scope env) at (refl, refl)
  execute-InCode remove_scope env s at =
      popped-Ends (next env) (next-InCode env env at (refl, refl))
  execute-InCode explode env s at = Ends-bind InCode (pop_expr env) _ λ (e, env') p.
      Ends-bind InCode (list_to_array e) _ λ arr q.
        let (pc₁, fun₁) = pop_expr-SamePlace env e env' p in
        let (pc₂, fun₂) = push_exprs-SamePlace arr env' in
        next-InCode env (push_exprs env' arr) at (pc₂ ∙ pc₁, fun₂ ∙ fun₁)
  execute-InCode squash env s at =
      Ends-bind InCode (pop_to_marker env.datastack) _
        λ (popped, below) p. next-InCode env env at (refl, refl)
  execute-InCode (bindlist syms) env s at = Ends-bind InCode (pop_expr env) _ λ (e, env') p.
      Ends-bind InCode (list_to_array e) _ λ arr q.
        let (pc₁, fun₁) = pop_expr-SamePlace env e env' p in
        let (pc₂, fun₂) = bind_all-SamePlace syms arr env' in
        checked-Ends (ltb (length arr) (length syms)) (next (bind_all syms arr env'))
          (next-InCode env (bind_all syms arr env') at (pc₂ ∙ pc₁, fun₂ ∙ fun₁))
  execute-InCode vectorize env s at =
      Ends-bind InCode (pop_to_marker env.datastack) _
        λ (popped, below) p. next-InCode env env at (refl, refl)
  execute-InCode (hashize _ typename) env s at =
      Ends-bind InCode (pop_to_marker env.datastack) _ λ (popped, below) p.
        Ends-bind InCode (make_hash f popped typename) _
          λ table q. next-InCode env env at (refl, refl)
