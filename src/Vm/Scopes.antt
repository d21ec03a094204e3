-- ===== src/Vm/Scopes.antt =====
-- scopes.go: bindings and lookups through a stack of shared scopes.
use glisp.Prelude.{
  ℕ, ◌==◌, List, [], ◌∷◌, ◌++◌, Option, none, some, length, get_elem?, set, if◌then◌else◌, Outcome,
  ok, err, ◌>>=◌, symbol_not_found, no_scope, invalid_stack_access,
}
use glisp.Sexp.{Sexp, Symbol}
use glisp.Vm.State.{Scope, Env}

unfoldable pub scope_get : Scope → ℕ → Option Sexp
scope_get [] n = none
scope_get ((m, e) ∷ s) n = if m == n then some e else scope_get s n

unfoldable pub scope_put : Scope → ℕ → Sexp → Scope
scope_put s n e = (n, e) ∷ s

-- The contents of the scope that a reference leads to.
unfoldable pub scope_at : List Scope → ℕ → Scope
scope_at scopes r = elim (get_elem? scopes r) [ some s ↦ s | none ↦ [] ]

-- The loop of `lookupSymbol`, from the top of the stack.
unfoldable pub lookup_in : List Scope → List ℕ → ℕ → Outcome Sexp
unfolding scope_get scope_at
lookup_in scopes [] n = err symbol_not_found
lookup_in scopes (r ∷ refs) n = elim (scope_get (scope_at scopes r) n) [
  | some e ↦ ok e
  | none ↦ lookup_in scopes refs n
]

unfoldable pub lookup_symbol : Env → Symbol → Outcome Sexp
unfolding lookup_in
lookup_symbol env sym = lookup_in env.scopes env.scopestack sym.number

-- The stack without its lowest scope, which is the global one.
unfoldable pub drop_last : List ℕ → List ℕ
drop_last [] = []
drop_last (r ∷ []) = []
drop_last (r ∷ s ∷ refs) = r ∷ drop_last (s ∷ refs)

unfoldable pub lookup_symbol_non_global : Env → Symbol → Outcome Sexp
unfolding lookup_in drop_last
lookup_symbol_non_global env sym = lookup_in env.scopes (drop_last env.scopestack) sym.number

-- A write through a reference.
unfoldable pub bind_at : List Scope → ℕ → ℕ → Sexp → List Scope
unfolding scope_at scope_put
bind_at scopes r n e = set scopes r (scope_put (scope_at scopes r) n e)

unfoldable pub bind_symbol : Env → Symbol → Sexp → Outcome Env
unfolding bind_at
bind_symbol env sym e = elim env.scopestack [
  | [] ↦ err no_scope
  | r ∷ _ ↦ ok (record env { scopes = bind_at env.scopes r sym.number e })
]

-- The loop of `swapSymbol`: the first scope that has the symbol is written.
unfoldable pub swap_in : List Scope → List ℕ → ℕ → Sexp → Outcome (List Scope)
unfolding scope_get scope_at bind_at
swap_in scopes [] n e = err symbol_not_found
swap_in scopes (r ∷ refs) n e = elim (scope_get (scope_at scopes r) n) [
  | some _ ↦ ok (bind_at scopes r n e)
  | none ↦ swap_in scopes refs n e
]

unfoldable pub swap_symbol : Env → Symbol → Sexp → Outcome Env
unfolding swap_in
swap_symbol env sym e =
    swap_in env.scopes env.scopestack sym.number e >>= λ scopes. ok (record env { scopes = scopes })

unfoldable pub push_scope : Env → Env
push_scope env = record env {
  scopestack = length env.scopes ∷ env.scopestack;
  scopes = env.scopes ++ [] ∷ [];
}

unfoldable pub pop_scope : Env → Outcome Env
pop_scope env = elim env.scopestack [
  | [] ↦ err invalid_stack_access
  | _ ∷ refs ↦ ok (record env { scopestack = refs })
]
