-- ===== src/Loading/Bindings.antt =====
-- `NewGlisp` of environment.go: every function of the table is bound to its name.
use glisp.Prelude.{
  ℕ, ◌≡◌, ap, ◌∙◌, Bytes, List, [], ◌∷◌, Option, none, some, get_elem?, Outcome, ok, err, panic,
  out_of_fuel, symbol_not_found,
}
use glisp.Sexp.{Sexp, func, user}
use glisp.Parser.{lookup, make_symbol}
use glisp.Vm.{Scope, scope_get, lookup_in, builtin, lookup_symbol}
use glisp.Loading.State.{Glisp, new_glisp, find_object}
use glisp.Loading.Symbols.{IsTable, make_symbol_old}
use glisp.Loading.Tables.{
  Parts, glisp_of, bind_table, add_builtins-bind_table, IsBound, IsDistinct, bind_table-IsBound,
}

abbrev start : Parts
start = record { symbols = record { symtable = []; nextsymbol = 1 }; scope = []; builtins = [] }

start-IsTable : IsTable start.symbols
unfolding lookup
start-IsTable = record { low = λ k n e. cc; apart = λ k l n e e'. cc }

lookup_global :
    (s : Scope) (n : ℕ) (e : Sexp) → scope_get s n ≡ some e → lookup_in (s ∷ []) (0 ∷ []) n ≡ ok e
unfolding lookup_in
lookup_global s n e h = go (scope_get s n) h
  where
    go :
        (o : Option Sexp)
        → o ≡ some e
        → (elim o [ none ↦ err symbol_not_found | some e' ↦ ok e' ]) ≡ ok e
    go (some v) h = cc
    go none h = cc

find_bound :
    (name : Bytes) (fn : ℕ) (p : Parts)
    → IsBound name fn p
    → (find_object name (glisp_of p)).0 ≡ some (func (user name fn none))
unfolding find_object lookup_symbol
find_bound name fn p b =
    ap (λ r. (elim (lookup_in (p.scope ∷ []) (0 ∷ []) r.0.number) [ ok obj ↦ some obj | _ ↦ none ]))
      (make_symbol_old p.symbols name b.number b.known)
    ∙ go (lookup_in (p.scope ∷ []) (0 ∷ []) b.number)
        (lookup_global p.scope b.number (func (user name fn none)) b.bound)
  where
    go :
        (o : Outcome Sexp)
        → o ≡ ok (func (user name fn none))
        → (elim o [ ok obj ↦ some obj | _ ↦ none ]) ≡ some (func (user name fn none))
    go (ok e) h = cc
    go (err e) h = cc
    go panic h = cc
    go out_of_fuel h = cc

-- A new interpreter finds every function of its table under its name, as a variable and as what a
-- call by the name calls, whatever the order of the table, if no name stands twice in it.
pub new_glisp-find_object :
    (table : List (Bytes × ℕ)) (i : ℕ) (name : Bytes) (fn : ℕ)
    → IsDistinct table
    → get_elem? table i ≡ some (name, fn)
    → (g : Glisp) × (new_glisp table ≡ ok g)
      × ((find_object name g).0 ≡ some (func (user name fn none)))
      × (builtin ((make_symbol g.symbols name).0.number) g.env.builtins ≡ some (user name fn none))
unfolding new_glisp
new_glisp-find_object table i name fn d e =
    let b = bind_table-IsBound table start i name fn start-IsTable d e in
    (
      glisp_of (bind_table table start),
      add_builtins-bind_table table start,
      find_bound name fn (bind_table table start) b,
      ap (λ r. builtin r.0.number (bind_table table start).builtins)
            (make_symbol_old (bind_table table start).symbols name b.number b.known)
          ∙ b.called,
    )
