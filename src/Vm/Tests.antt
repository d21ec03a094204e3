-- ===== src/Vm/Tests.antt =====
-- The machine at concrete states.
use glisp.Prelude.{
  not_a_function, List, pos, ◌+ℤ◌, true, false, codes, [], ◌∷◌, some, none, ok, err, out_of_bounds,
  ◌≡◌, refl, arith,
}
use glisp.Sexp.{
  Sexp, int, sentinel, marker, Symbol, Function, script, Code, code_of, get, call, ret, push, jump,
  make_list,
}
use glisp.Numbers.{whole_floats}
use glisp.Vm.State.{Env, Host, current_function_size}
use glisp.Vm.Scopes.{
  bind_symbol, lookup_symbol, push_scope, pop_scope, scope_get, scope_at, lookup_symbol_non_global,
  drop_last,
}
use glisp.Vm.Calls.{call_function, return_from_function, last?, enter}
use glisp.Vm.Execute.{close_over, execute}
use glisp.Vm.Scoping.{Bound, lookup-let}
use glisp.Vm.Closures.{close_over-holds, held}
use glisp.Vm.Frames.{at_least, call-return}
use glisp.Vm.Bounds.{AtInstr, Ends, InCode, execute-InCode}
use glisp.Vm.Iterate.{Call}

abbrev no_host : Host
no_host = record { userfun = λ _ env _ _. ok (sentinel marker, env); before = []; after = [] }

abbrev x_sym : Symbol
x_sym = record { name = codes "x"; number = 1 }

abbrev y_sym : Symbol
y_sym = record { name = codes "y"; number = 2 }

abbrev one : Sexp
one = int (pos 1)

abbrev body : Code
body = code_of (get x_sym ∷ ret ∷ [])

abbrev main : Function
main = script (codes "__main") 0 false (code_of (push one ∷ call y_sym 0 ∷ [])) none

-- The global scope 0 binds y, the local scope 1 binds x.
abbrev env : Env
env = record {
  datastack = [];
  scopestack = 1 ∷ 0 ∷ [];
  addrstack = [];
  stackstack = [];
  builtins = [];
  curfunc = main;
  pc = pos 0;
  scopes = ((2, one) ∷ []) ∷ ((1, int (pos 7)) ∷ []) ∷ [];
  hashes = [];
}

env-Bound : Bound env.scopes env.scopestack
env-Bound = (omega arith, (omega arith, tt))

below-Bound : Bound env.scopes (drop_last env.scopestack)
unfolding drop_last
below-Bound = (omega arith, tt)

lookup-let_example :
    (env' env'' : Env) × (bind_symbol (push_scope env) x_sym one ≡ ok env')
    × (pop_scope env' ≡ ok env'')
    × (lookup_symbol env' x_sym ≡ ok one)
    × (lookup_symbol env'' x_sym ≡ lookup_symbol env x_sym)
    × (env''.scopestack ≡ env.scopestack)
lookup-let_example = lookup-let env x_sym x_sym one env-Bound

close_over-holds_example :
    (env' : Env) × (close_over (script (codes "f") 0 false body none) env
      ≡ (script (codes "f") 0 false body (some (2 ∷ [])), env'))
    × (scope_get (scope_at env'.scopes 2) 1 ≡ held true (lookup_symbol_non_global env x_sym) none)
    × (lookup_symbol env' x_sym ≡ lookup_symbol env x_sym)
close_over-holds_example =
    close_over-holds (codes "f") 0 false body none env x_sym x_sym env-Bound below-Bound

captures_seven : lookup_symbol_non_global env x_sym ≡ ok (int (pos 7))
unfolding lookup_symbol_non_global
captures_seven = refl

-- The callee leaves a value.
-- A call of a function of one parameter and optional ones, with three arguments.
abbrev many : Function
many = script (codes "f") 1 true body none

abbrev caller : Env
caller = record env { datastack = int (pos 3) ∷ int (pos 2) ∷ one ∷ [] }

abbrev callee : Env
callee = record (enter caller many 0 []) {
  datastack = make_list (int (pos 2) ∷ int (pos 3) ∷ []) ∷ one ∷ [];
}

abbrev at_end : Env
at_end = record callee { datastack = one ∷ []; pc = pos 1 }

called : call_function no_host many 3 caller ≡ ok callee
unfolding call_function make_list last?
called = refl

call-return_example :
    (env' : Env) × (call_function no_host many 3 caller ≡ ok env')
    × (env'.pc ≡ pos 0)
    × (env'.curfunc ≡ many)
    × (env'.datastack ≡ make_list (int (pos 2) ∷ int (pos 3) ∷ []) ∷ one ∷ [])
    × (env'.scopestack ≡ 2 ∷ 0 ∷ [])
    × (env'.addrstack ≡ at_end.addrstack)
    × (env'.stackstack ≡ at_end.stackstack)
    × (return_from_function no_host at_end
        ≡ ok (record at_end {
          curfunc = main;
          pc = pos 0 +ℤ pos 1;
          scopestack = 1 ∷ 0 ∷ [];
          addrstack = [];
          stackstack = [];
        }))
unfolding last? enter
call-return_example =
    call-return no_host (codes "f") 1 true body none caller at_end refl refl
      (at_least (int (pos 3) ∷ int (pos 2) ∷ []) (one ∷ []) refl) refl refl refl

at_first : AtInstr env
unfolding current_function_size
at_first = omega arith

-- A jump behind the code.
jumps_out : execute whole_floats no_host (jump (pos 3)) env ≡ err out_of_bounds
unfolding execute ◌+ℤ◌
jumps_out = refl

execute-InCode_example : Ends InCode (execute whole_floats no_host (jump (pos 2)) env)
execute-InCode_example = execute-InCode whole_floats no_host (jump (pos 2)) env refl at_first

abbrev marked : Env
marked = record env { datastack = int (pos 2) ∷ one ∷ sentinel marker ∷ [] }

-- A function that adds two numbers, doubles one, and fails on other values.
abbrev add_call : Call
add_call (int a ∷ int b ∷ []) e = ok (int (a +ℤ b), e)
add_call (int a ∷ []) e = ok (int (a +ℤ a), e)
add_call _ e = err not_a_function

abbrev few : List Sexp
few = one ∷ int (pos 2) ∷ []
