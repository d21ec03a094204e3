-- ===== src/Loading/Tables.antt =====
-- The loop of `NewGlisp` in environment.go: what it binds, and what it leaves bound.
use glisp.Prelude.{
  ℕ, suc, zero, ◌≡◌, ◌≢◌, ◌==◌, refl, ap, sym, ◌∙◌, pos, false, Bytes, ==_ne, ==_refl, Option-cases,
  inl, inr, List, [], ◌∷◌, none, some, get_elem?, All, ok,
}
use glisp.Sexp.{Symbol, func, user, Function, make_user_function}
use glisp.Parser.{Symbols, lookup, make_symbol}
use glisp.Vm.{Scope, scope_get, scope_put, builtin, bind_at}
use glisp.Loading.State.{Glisp, main_function, add_builtins, add_function, add_global, bind_global}
use glisp.Loading.Symbols.{
  IsTable, with_name, lookup_self, make_symbol_new, make_symbol_old, make_symbol-Keeps,
}

-- What changes while an interpreter is made.
pub record Parts : Type 0 where
  pub symbols : Symbols
  pub scope : Scope
  pub builtins : List (ℕ × Function)

abbrev pub glisp_of : Parts → Glisp
glisp_of p = record {
  env = record {
    datastack = [];
    scopestack = 0 ∷ [];
    addrstack = [];
    stackstack = [];
    builtins = p.builtins;
    curfunc = main_function;
    pc = pos 0;
    scopes = p.scope ∷ [];
    hashes = [];
  };
  symbols = p.symbols;
  macros = [];
  imports = [];
  mainfunc = main_function;
}

abbrev pub entry : Bytes → ℕ → Parts → Symbol × Symbols → Parts
entry key fn p (made, symbols) = record {
  symbols = symbols;
  scope = (made.number, func (user key fn none)) ∷ p.scope;
  builtins = (made.number, user key fn none) ∷ p.builtins;
}

abbrev pub bind_one : Bytes → ℕ → Parts → Parts
bind_one key fn p = entry key fn p (make_symbol p.symbols key)

-- A name that is made a symbol again gives the same symbol.
make_symbol_again : (t : Symbols) (s : Bytes) → make_symbol (make_symbol t s).1 s ≡ make_symbol t s
make_symbol_again t s = elim (Option-cases (lookup s t.symtable)) [
  | inl new ↦
      let made = make_symbol_new t s new in
      ap (λ r. make_symbol r.1 s) made
      ∙ make_symbol_old (with_name s t) s t.nextsymbol (lookup_self s t.nextsymbol t.symtable)
      ∙ sym made
  | inr (n, old) ↦ ap (λ r. make_symbol r.1 s) (make_symbol_old t s n old)
]

add_builtins-step :
    (key : Bytes) (fn : ℕ) (table : List (Bytes × ℕ)) (p : Parts)
    → add_builtins ((key, fn) ∷ table) (glisp_of p)
      ≡ add_builtins table (glisp_of (bind_one key fn p))
unfolding add_builtins add_function add_global bind_global bind_at make_user_function scope_put
add_builtins-step key fn table p =
    ap
      (λ r. add_builtins table (
        glisp_of (record {
          symbols = r.1;
          scope = (r.0.number, func (user key fn none)) ∷ p.scope;
          builtins = ((make_symbol p.symbols key).0.number, user key fn none) ∷ p.builtins;
        })))
      (make_symbol_again p.symbols key)

abbrev pub bind_table : List (Bytes × ℕ) → Parts → Parts
bind_table [] p = p
bind_table ((key, fn) ∷ table) p = bind_table table (bind_one key fn p)

pub add_builtins-bind_table :
    (table : List (Bytes × ℕ)) (p : Parts)
    → add_builtins table (glisp_of p) ≡ ok (glisp_of (bind_table table p))
unfolding add_builtins
add_builtins-bind_table [] p = refl
add_builtins-bind_table ((key, fn) ∷ table) p =
    add_builtins-step key fn table p ∙ add_builtins-bind_table table (bind_one key fn p)

pub record IsBound (name : Bytes) (fn : ℕ) (p : Parts) : Type 0 where
  pub number : ℕ
  pub known : lookup name p.symbols.symtable ≡ some number
  pub bound : scope_get p.scope number ≡ some (func (user name fn none))
  pub called : builtin number p.builtins ≡ some (user name fn none)

bind_one-IsTable :
    (key : Bytes) (fn : ℕ) (p : Parts) → IsTable p.symbols → IsTable (bind_one key fn p).symbols
bind_one-IsTable key fn p h = (make_symbol-Keeps p.symbols key h).0

bind_one-IsBound :
    (key : Bytes) (fn : ℕ) (p : Parts) → IsTable p.symbols → IsBound key fn (bind_one key fn p)
unfolding scope_get builtin
bind_one-IsBound key fn p h =
    let n = (make_symbol p.symbols key).0.number in
    record {
      number = n;
      known = (make_symbol-Keeps p.symbols key h).1;
      bound = rw (==_refl n) refl;
      called = rw (==_refl n) refl;
    }

bind_other-IsBound :
    (key name : Bytes) (fn gn : ℕ) (p : Parts)
    → IsTable p.symbols
    → key ≢ name
    → IsBound name fn p
    → IsBound name fn (bind_one key gn p)
unfolding scope_get builtin
bind_other-IsBound key name fn gn p h other b =
    let keeps = make_symbol-Keeps p.symbols key h in
    let n = (make_symbol p.symbols key).0.number in
    let known = keeps.2 name (λ same. other (sym same)) ∙ b.known in
    let differ : (n == b.number) ≡ false =
      ==_ne n b.number
        (λ same. other (keeps.0.apart key name b.number (keeps.1 ∙ ap some same) known)) in
    record {
      number = b.number;
      known = known;
      bound = rw differ b.bound;
      called = rw differ b.called;
    }

bind_rest-IsBound :
    (name : Bytes) (fn : ℕ) (table : List (Bytes × ℕ)) (p : Parts)
    → IsTable p.symbols
    → All (λ (key, _). key ≢ name) table
    → IsBound name fn p
    → IsBound name fn (bind_table table p)
bind_rest-IsBound name fn [] p h others b = b
bind_rest-IsBound name fn ((key, gn) ∷ table) p h others b =
    bind_rest-IsBound name fn table (bind_one key gn p) (bind_one-IsTable key gn p h) others.1
      (bind_other-IsBound key name fn gn p h others.0 b)

-- No name stands twice in a table.
abbrev pub IsDistinct : List (Bytes × ℕ) → Type 0
IsDistinct [] = Unit
IsDistinct ((name, _) ∷ table) = All (λ (key, _). key ≢ name) table × IsDistinct table

pub bind_table-IsBound :
    (table : List (Bytes × ℕ)) (p : Parts) (i : ℕ) (name : Bytes) (fn : ℕ)
    → IsTable p.symbols
    → IsDistinct table
    → get_elem? table i ≡ some (name, fn)
    → IsBound name fn (bind_table table p)
bind_table-IsBound [] p i name fn h d e = cc
bind_table-IsBound ((key, gn) ∷ table) p zero name fn h d e =
    let same_name : key ≡ name = cc in
    let same_fn : gn ≡ fn = cc in
    rw (sym same_name, sym same_fn)
      (bind_rest-IsBound key gn table (bind_one key gn p) (bind_one-IsTable key gn p h) d.0
        (bind_one-IsBound key gn p h))
bind_table-IsBound ((key, gn) ∷ table) p (suc i) name fn h d e =
    bind_table-IsBound table (bind_one key gn p) i name fn (bind_one-IsTable key gn p h) d.1 e
