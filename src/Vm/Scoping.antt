-- ===== src/Vm/Scoping.antt =====
-- Bindings: what a write changes for the lookups, and what a scope hides and gives back.
use glisp.Prelude.{
  ℕ, ◌<◌, ◌==◌, ==_iff, ◌&&◌, List, [], ◌∷◌, ◌++◌, some, length, set, get_elem?-set,
  get_elem?-append, get_elem?-last, if◌then◌else◌, ok, ◌≡◌, ◌≢◌, refl, ap, arith, Bool-cases, inl,
  inr,
}
use glisp.Sexp.{Sexp, Symbol}
use glisp.Vm.State.{Scope, Env}
use glisp.Vm.Scopes.{
  scope_get, scope_put, scope_at, lookup_in, lookup_symbol, bind_at, bind_symbol, push_scope,
  pop_scope,
}

scope_at-set :
    (scopes : List Scope) (r q : ℕ) (s : Scope)
    → r < length scopes
    → scope_at (set scopes r s) q ≡ (if r == q then s else scope_at scopes q)
unfolding scope_at
scope_at-set scopes r q s h = elim (Bool-cases (r == q)) [
  | inl same ↦ rw (get_elem?-set scopes r q s h, same, scope_at) refl
  | inr differ ↦ rw (get_elem?-set scopes r q s h, differ, scope_at) refl
]

-- The value that the scope at `q` has for `m`, after a write for `n` at `r`.
pub scope_get-bind_at :
    (scopes : List Scope) (r q n m : ℕ) (e : Sexp)
    → r < length scopes
    → scope_get (scope_at (bind_at scopes r n e) q) m
      ≡ (if (r == q) && (n == m) then some e else scope_get (scope_at scopes q) m)
unfolding bind_at scope_get
scope_get-bind_at scopes r q n m e h = ground (
  arith,
  scope_at-set scopes r q (scope_put (scope_at scopes r) n e) h,
  ap (scope_at scopes) ((==_iff r q).0 _),
)

-- A write for one number leaves the lookups of every other number.
lookup_in-bind_at_ne :
    (scopes : List Scope) (refs : List ℕ) (r n m : ℕ) (e : Sexp)
    → r < length scopes
    → n ≢ m
    → lookup_in (bind_at scopes r n e) refs m ≡ lookup_in scopes refs m
unfolding lookup_in
lookup_in-bind_at_ne scopes [] r n m e h ne = refl
lookup_in-bind_at_ne scopes (q ∷ refs) r n m e h ne =
    ground
      (arith, scope_get-bind_at scopes r q n m e h, lookup_in-bind_at_ne scopes refs r n m e h ne)

-- A binding in the innermost scope: the symbol has the new value, and every other symbol what it
-- had.
pub lookup-bind :
    (env : Env) (s other : Symbol) (e : Sexp) (r : ℕ) (refs : List ℕ)
    → env.scopestack ≡ r ∷ refs
    → r < length env.scopes
    → (env' : Env) × (bind_symbol env s e ≡ ok env')
      × (lookup_symbol env' other
          ≡ (if s.number == other.number then ok e else lookup_symbol env other))
unfolding bind_symbol lookup_symbol lookup_in
lookup-bind env s other e r refs st h = (
  record env { scopes = bind_at env.scopes r s.number e },
  rw st refl,
  rw st (
      ground (
        arith,
        scope_get-bind_at env.scopes r r s.number other.number e h,
        lookup_in-bind_at_ne env.scopes refs r s.number other.number e h,
      )),
)

-- Every reference leads into the store.
abbrev pub Bound : List Scope → List ℕ → Type 0
Bound scopes [] = Unit
Bound scopes (r ∷ refs) = (r < length scopes) × Bound scopes refs

scope_at-append :
    (scopes : List Scope) (s : Scope) (q : ℕ)
    → q < length scopes
    → scope_at (scopes ++ s ∷ []) q ≡ scope_at scopes q
unfolding scope_at
scope_at-append scopes s q h = rw (get_elem?-append scopes s q h, scope_at) refl

-- A new scope, and what is written into it, is not seen through references to the others.
pub lookup_in-fresh :
    (scopes : List Scope) (s : Scope) (refs : List ℕ) (m : ℕ)
    → Bound scopes refs
    → lookup_in (scopes ++ s ∷ []) refs m ≡ lookup_in scopes refs m
unfolding lookup_in
lookup_in-fresh scopes s [] m h = refl
lookup_in-fresh scopes s (q ∷ refs) m (here, later) =
    ground (arith, scope_at-append scopes s q here, lookup_in-fresh scopes s refs m later)

set-append :
    (scopes : List Scope) (old new : Scope)
    → set (scopes ++ old ∷ []) (length scopes) new ≡ scopes ++ new ∷ []
set-append [] old new = refl
set-append (x ∷ xs) old new = ap (◌∷◌ x) (set-append xs old new)

pub scope_at-last :
    (scopes : List Scope) (s : Scope) → scope_at (scopes ++ s ∷ []) (length scopes) ≡ s
unfolding scope_at
scope_at-last scopes s = rw (get_elem?-last scopes s, scope_at) refl

pub bind_at-fresh :
    (scopes : List Scope) (s : Scope) (n : ℕ) (e : Sexp)
    → bind_at (scopes ++ s ∷ []) (length scopes) n e ≡ scopes ++ scope_put s n e ∷ []
unfolding bind_at
bind_at-fresh scopes s n e = rw (scope_at-last scopes s) (set-append scopes s (scope_put s n e))

lookup_in-last :
    (scopes : List Scope) (refs : List ℕ) (n : ℕ) (e : Sexp)
    → lookup_in (scopes ++ scope_put [] n e ∷ []) (length scopes ∷ refs) n ≡ ok e
unfolding lookup_in scope_get scope_put
lookup_in-last scopes refs n e = ground (arith, scope_at-last scopes (scope_put [] n e))

-- `let`, where the scope stack's references lead into the store: a scope is pushed, a symbol
-- bound in it, and the scope popped. In between the symbol has the new value; afterwards every
-- symbol has again what it had.
pub lookup-let :
    (env : Env) (s other : Symbol) (e : Sexp)
    → Bound env.scopes env.scopestack
    → (env' env'' : Env) × (bind_symbol (push_scope env) s e ≡ ok env')
      × (pop_scope env' ≡ ok env'')
      × (lookup_symbol env' s ≡ ok e)
      × (lookup_symbol env'' other ≡ lookup_symbol env other)
      × (env''.scopestack ≡ env.scopestack)
unfolding bind_symbol push_scope pop_scope lookup_symbol
lookup-let env s other e bound =
    let scopes = bind_at (env.scopes ++ [] ∷ []) (length env.scopes) s.number e in
    (
      record (push_scope env) { scopes = scopes },
      record env { scopes = scopes },
      refl,
      refl,
      rw (bind_at-fresh env.scopes [] s.number e)
          (lookup_in-last env.scopes env.scopestack s.number e),
      rw (bind_at-fresh env.scopes [] s.number e)
          (lookup_in-fresh env.scopes (scope_put [] s.number e) env.scopestack other.number bound),
      refl,
    )
