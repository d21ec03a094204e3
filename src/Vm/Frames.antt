-- ===== src/Vm/Frames.antt =====
-- Calls and returns, and the arguments of functions with optional ones.
use mathlib.Core.List.{reverse}
use glisp.Prelude.{
  Bool, true, ℕ, suc, ◌+◌, ◌-◌, ◌≤◌, ==_refl, lt→ltb, le→ltb, pos, ◌+ℤ◌, false, Bytes, List, [],
  ◌∷◌, ◌++◌, Option, some, length, take, drop, length-append, ok, ◌≡◌, refl, ap, sym, arith,
}
use glisp.Sexp.{Sexp, script, Code, make_list}
use glisp.Vm.State.{Env, Host}
use glisp.Vm.Calls.{
  wrangle_optargs, check_arguments, pop_expressions, enter, call_function, return_from_function,
  last?, closure_of,
}

take-length {ℓ} : {A : Type ℓ} (xs ys : List A) → take (length xs) (xs ++ ys) ≡ xs
take-length [] ys = refl
take-length (x ∷ xs) ys = ap (◌∷◌ x) (take-length xs ys)

drop-length {ℓ} : {A : Type ℓ} (xs ys : List A) → drop (length xs) (xs ++ ys) ≡ ys
drop-length [] ys = refl
drop-length (x ∷ xs) ys = drop-length xs ys

pop_expressions-append :
    (env : Env) (xs below : List Sexp)
    → env.datastack ≡ xs ++ below
    → pop_expressions env (length xs) ≡ ok (reverse xs, record env { datastack = below })
unfolding pop_expressions
pop_expressions-append env xs below st =
    let tall : length xs ≤ length env.datastack = rw st (omega (arith, length-append xs below)) in
    rw
      (
        st,
        take-length xs below,
        drop-length xs below,
        le→ltb (length xs) (length (xs ++ below)) (omega (arith, length-append xs below)),
      )
      refl

-- A function with optional arguments: those above the required ones are taken off the stack, and
-- the list of them, in the order in which they were pushed, is put there; it is empty for none.
pub wrangle_optargs_lem :
    (env : Env) (fnargs : ℕ) (optional below : List Sexp)
    → env.datastack ≡ optional ++ below
    → wrangle_optargs env fnargs (fnargs + length optional)
      ≡ ok (record env { datastack = make_list (reverse optional) ∷ below })
unfolding wrangle_optargs
wrangle_optargs_lem env fnargs [] below st =
    rw (le→ltb fnargs (fnargs + 0) (omega arith), le→ltb (fnargs + 0) fnargs (omega arith), st) refl
wrangle_optargs_lem env fnargs (x ∷ xs) below st =
    let few : fnargs + suc (length xs) - fnargs ≡ suc (length xs) = omega arith in
    rw
      (
        le→ltb fnargs (fnargs + suc (length xs)) (omega arith),
        lt→ltb fnargs (fnargs + suc (length xs)) (omega arith),
        few,
        pop_expressions-append env (x ∷ xs) below st,
      )
      refl

-- What the arguments of a call are turned to: a function without optional arguments takes as many
-- as it has parameters, from the stack as it is; one with them may be given more, and finds the
-- list of those, in the order in which they were pushed, in their place.
pub data Takes (env : Env) (fnargs : ℕ) : Bool → ℕ → List Sexp → Type 0 where
  exactly : Takes env fnargs false fnargs env.datastack
  at_least :
      (optional below : List Sexp)
      → env.datastack ≡ optional ++ below
      → Takes env fnargs true (fnargs + length optional) (make_list (reverse optional) ∷ below)

module _ (host : Host) where
  check_arguments-Takes :
      (name : Bytes) (fnargs : ℕ) (varargs : Bool) (code : Code) (closure : Option (List ℕ))
      (env : Env) {nargs : ℕ} {args : List Sexp}
      → Takes env fnargs varargs nargs args
      → check_arguments host (script name fnargs varargs code closure) nargs env
        ≡ ok (record env { datastack = args })
  unfolding check_arguments
  check_arguments-Takes name fnargs varargs code closure env exactly = rw (==_refl fnargs) refl
  check_arguments-Takes name fnargs varargs code closure env (at_least optional below st) =
      wrangle_optargs_lem env fnargs optional below st

  -- A call of a script function, with optional arguments or without, and the return from it,
  -- without hooks. With the arguments that it takes, and a global scope, the call goes through: it
  -- starts at the first instruction, on a new scope above the closure's and the global one, with the
  -- optional arguments made a list. When the callee returns, whatever ran in between, if the two
  -- saving stacks are as the call has made them, the caller goes on behind the call, in its own
  -- function, scopes and frames; values, scopes and tables stay as the callee left them.
  pub call-return :
      (name : Bytes) (fnargs : ℕ) (varargs : Bool) (code : Code) (closure : Option (List ℕ))
      (env done : Env) {nargs global : ℕ} {args : List Sexp}
      → host.before ≡ []
      → host.after ≡ []
      → Takes env fnargs varargs nargs args
      → last? env.scopestack ≡ some global
      → done.addrstack ≡ (env.curfunc, env.pc +ℤ pos 1) ∷ env.addrstack
      → done.stackstack ≡ env.scopestack ∷ env.stackstack
      → (env' : Env) × (call_function host (script name fnargs varargs code closure) nargs env
          ≡ ok env')
        × (env'.pc ≡ pos 0)
        × (env'.curfunc ≡ script name fnargs varargs code closure)
        × (env'.datastack ≡ args)
        × (env'.scopestack ≡ length env.scopes ∷ (closure_of closure ++ global ∷ []))
        × (env'.addrstack ≡ done.addrstack)
        × (env'.stackstack ≡ done.stackstack)
        × (return_from_function host done
            ≡ ok (record done {
              curfunc = env.curfunc;
              pc = env.pc +ℤ pos 1;
              scopestack = env.scopestack;
              addrstack = env.addrstack;
              stackstack = env.stackstack;
            }))
  unfolding call_function return_from_function
  call-return name fnargs varargs code closure env done {nargs} {global} {args} no_before no_after
        takes has_global addr stacks =
      (
        enter (record env { datastack = args }) (script name fnargs varargs code closure) global
            (closure_of closure),
        rw (no_before, check_arguments-Takes name fnargs varargs code closure env takes, has_global)
            refl,
        refl,
        refl,
        refl,
        refl,
        sym addr,
        sym stacks,
        rw (no_after, addr, stacks) refl,
      )
