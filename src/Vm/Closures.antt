-- ===== src/Vm/Closures.antt =====
-- What the scope of a closure holds.
use glisp.Prelude.{
  Bytes, ℕ, ◌==◌, ==_iff, ==_refl, Bool, true, false, ◌||◌, List, [], ◌∷◌, ◌++◌, Option, none, some,
  length, Outcome, ok, err, panic, out_of_fuel, ◌≡◌, refl, ap, ◌∙◌, arith, Bool-cases, inl, inr,
}
use glisp.Sexp.{Sexp, Symbol, Instr, script, Code, instrs}
use glisp.Vm.State.{Scope, Env}
use glisp.Vm.Scopes.{
  scope_get, scope_put, scope_at, lookup_in, lookup_symbol, bind_at, drop_last,
  lookup_symbol_non_global,
}
use glisp.Vm.Execute.{capture, symbol_in, close_over}
use glisp.Vm.Scoping.{Bound, lookup_in-fresh, scope_at-last, bind_at-fresh}

abbrev pub named : Option Symbol → ℕ → Bool
named none n = false
named (some y) n = y.number == n

-- The code names the symbol with this number.
abbrev pub names : List Instr → ℕ → Bool
names [] n = false
names (i ∷ is) n = named (symbol_in i) n || names is n

-- What the new scope of a closure holds of a symbol.
abbrev pub held : Bool → Outcome Sexp → Option Sexp → Option Sexp
held true (ok e) old = some e
held _ _ old = old

-- What one instruction adds to the scope.
abbrev put_found : Outcome Sexp → Scope → ℕ → Scope
put_found (ok e) s n = scope_put s n e
put_found _ s n = s

abbrev added : Option Symbol → List Scope → List ℕ → Scope → Scope
added none scopes refs s = s
added (some y) scopes refs s = put_found (lookup_in scopes refs y.number) s y.number

-- The step of `capture`, in the source's terms.
abbrev captured : Option Symbol → List ℕ → ℕ → List Scope → List Scope
captured o refs r scopes = elim o [
  | none ↦ scopes
  | some y ↦ elim (lookup_in scopes refs y.number) [
    | ok e ↦ bind_at scopes r y.number e
    | _ ↦ scopes
  ]
]

put_found_lem :
    (scopes : List Scope) (s : Scope) (n : ℕ) (o : Outcome Sexp)
    → (elim o [ ok e ↦ bind_at (scopes ++ s ∷ []) (length scopes) n e | _ ↦ scopes ++ s ∷ [] ])
      ≡ scopes ++ put_found o s n ∷ []
put_found_lem scopes s n (ok e) = bind_at-fresh scopes s n e
put_found_lem scopes s n (err _) = refl
put_found_lem scopes s n panic = refl
put_found_lem scopes s n out_of_fuel = refl

captured-added :
    (o : Option Symbol) (refs : List ℕ) (scopes : List Scope) (s : Scope)
    → Bound scopes refs
    → captured o refs (length scopes) (scopes ++ s ∷ []) ≡ scopes ++ added o scopes refs s ∷ []
captured-added none refs scopes s bound = refl
captured-added (some y) refs scopes s bound =
    put_found_lem scopes s y.number (lookup_in (scopes ++ s ∷ []) refs y.number)
    ∙ ap (λ o. scopes ++ put_found o s y.number ∷ []) (lookup_in-fresh scopes s refs y.number bound)

scope_get-put_found :
    (s : Scope) (n m : ℕ) (o : Outcome Sexp)
    → scope_get (put_found o s m) n ≡ held (m == n) o (scope_get s n)
unfolding scope_get scope_put
scope_get-put_found s n m (ok e) = ground arith
scope_get-put_found s n m (err _) = ground arith
scope_get-put_found s n m panic = ground arith
scope_get-put_found s n m out_of_fuel = ground arith

held-false : (a b : Outcome Sexp) (old : Option Sexp) → held false a old ≡ held false b old
held-false a b old = refl

scope_get-added :
    (o : Option Symbol) (scopes : List Scope) (refs : List ℕ) (s : Scope) (n : ℕ)
    → scope_get (added o scopes refs s) n
      ≡ held (named o n) (lookup_in scopes refs n) (scope_get s n)
scope_get-added none scopes refs s n = refl
scope_get-added (some y) scopes refs s n = elim (Bool-cases (y.number == n)) [
  | inl same ↦
      rw
        (
          scope_get-put_found s n y.number (lookup_in scopes refs y.number),
          (==_iff y.number n).0 same,
          ==_refl n,
        )
        refl
  | inr differ ↦
      rw (scope_get-put_found s n y.number (lookup_in scopes refs y.number), differ)
        (held-false (lookup_in scopes refs y.number) (lookup_in scopes refs n) (scope_get s n))
]

held_or :
    (a b : Bool) (o : Outcome Sexp) (old : Option Sexp)
    → held b o (held a o old) ≡ held (a || b) o old
held_or true true (ok e) old = refl
held_or true false (ok e) old = refl
held_or false b o old = refl
held_or true true (err _) old = refl
held_or true true panic old = refl
held_or true true out_of_fuel old = refl
held_or true false (err _) old = refl
held_or true false panic old = refl
held_or true false out_of_fuel old = refl

capture_lem :
    (is : List Instr) (refs : List ℕ) (scopes : List Scope) (s : Scope) (n : ℕ)
    → Bound scopes refs
    → (s' : Scope) × (capture is refs (length scopes) (scopes ++ s ∷ []) ≡ scopes ++ s' ∷ [])
      × (scope_get s' n ≡ held (names is n) (lookup_in scopes refs n) (scope_get s n))
unfolding capture
capture_lem [] refs scopes s n bound = (s, refl, refl)
capture_lem (i ∷ is) refs scopes s n bound =
    let s₁ = added (symbol_in i) scopes refs s in
    let (s', ran, got) = capture_lem is refs scopes s₁ n bound in
    (
      s',
      ap (capture is refs (length scopes)) (captured-added (symbol_in i) refs scopes s bound) ∙ ran,
      got
          ∙ ap (held (names is n) (lookup_in scopes refs n))
              (scope_get-added (symbol_in i) scopes refs s n)
          ∙ held_or (named (symbol_in i) n) (names is n) (lookup_in scopes refs n) (scope_get s n),
    )

-- Where the scope stack's references lead into the store, the closure of a script function is one
-- new scope. It holds, for each symbol that the code names and that a scope below the global one
-- binds, the value of that moment, and nothing else; every lookup through the stack gives what it
-- gave.
pub close_over-holds :
    (name : Bytes) (nargs : ℕ) (varargs : Bool) (fun : Code) (old : Option (List ℕ)) (env : Env)
    (s other : Symbol)
    → Bound env.scopes env.scopestack
    → Bound env.scopes (drop_last env.scopestack)
    → (env' : Env) × (close_over (script name nargs varargs fun old) env
        ≡ (script name nargs varargs fun (some (length env.scopes ∷ [])), env'))
      × (scope_get (scope_at env'.scopes (length env.scopes)) s.number
          ≡ held (names (instrs fun) s.number) (lookup_symbol_non_global env s) none)
      × (lookup_symbol env' other ≡ lookup_symbol env other)
unfolding close_over lookup_symbol lookup_symbol_non_global scope_get
close_over-holds name nargs varargs fun old env s other bound below =
    let (made, ran, got) =
      capture_lem (instrs fun) (drop_last env.scopestack) env.scopes [] s.number below in
    (
      record env { scopes = env.scopes ++ made ∷ [] },
      rw ran refl,
      rw (scope_at-last env.scopes made) got,
      lookup_in-fresh env.scopes made env.scopestack other.number bound,
    )
