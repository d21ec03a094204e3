-- ===== src/Loading/Symbols.antt =====
-- `MakeSymbol` and `Duplicate` of environment.go: what keeps symbols apart, and where they are not.
use glisp.Prelude.{
  ℕ, ◌+◌, ◌<◌, ◌≡◌, ◌≢◌, refl, ap, sym, ◌∙◌, Bool, true, false, Bytes, bytes_eq, bytes_eq_iff,
  bytes_eq_refl, Bool-cases, Option-cases, ◌⊎◌, inl, inr, List, ◌∷◌, Option, none, some, arith,
  Outcome, ok, >>=-eq-ok, if◌then◌else◌,
}
use glisp.Sexp.{Symbol}
use glisp.Parser.{Symbols, lookup, make_symbol, symbol_of}
use glisp.Generator.{duplicate}
use glisp.Loading.State.{Glisp, duplicate_glisp, shared_back}

-- A symbol table: every number is below the next one, and no two names share one.
pub record IsTable (t : Symbols) : Type 0 where
  pub low : (k : Bytes) (n : ℕ) → lookup k t.symtable ≡ some n → n < t.nextsymbol
  pub apart :
      (k l : Bytes) (n : ℕ) → lookup k t.symtable ≡ some n → lookup l t.symtable ≡ some n → k ≡ l

-- A table with a new name.
abbrev pub with_name : Bytes → Symbols → Symbols
with_name s t = record { symtable = (s, t.nextsymbol) ∷ t.symtable; nextsymbol = t.nextsymbol + 1 }

-- `MakeSymbol` by what the name was found to be.
abbrev made : Symbols → Bytes → Option ℕ → Symbol × Symbols
made t s (some n) = (symbol_of s n, t)
made t s none = (symbol_of s t.nextsymbol, with_name s t)

make_symbol-made : (t : Symbols) (s : Bytes) → make_symbol t s ≡ made t s (lookup s t.symtable)
unfolding make_symbol
make_symbol-made t s = go (lookup s t.symtable)
  where
    go :
        (o : Option ℕ)
        → (elim o [
          | some n ↦ (symbol_of s n, t)
          | none ↦ (symbol_of s t.nextsymbol, with_name s t)
        ])
          ≡ made t s o
    go (some n) = refl
    go none = refl

pub make_symbol_new :
    (t : Symbols) (s : Bytes)
    → lookup s t.symtable ≡ none
    → make_symbol t s ≡ (symbol_of s t.nextsymbol, with_name s t)
make_symbol_new t s h = make_symbol-made t s ∙ ap (made t s) h

pub make_symbol_old :
    (t : Symbols) (s : Bytes) (n : ℕ)
    → lookup s t.symtable ≡ some n
    → make_symbol t s ≡ (symbol_of s n, t)
make_symbol_old t s n h = make_symbol-made t s ∙ ap (made t s) h

lookup_new :
    (k s : Bytes) (m n : ℕ) (table : List (Bytes × ℕ))
    → lookup k ((s, m) ∷ table) ≡ some n
    → ((k ≡ s) × (m ≡ n)) ⊎ (lookup k table ≡ some n)
unfolding lookup
lookup_new k s m n table e = go (bytes_eq s k) (bytes_eq_iff s k).0 e
  where
    go :
        (b : Bool)
        → (b ≡ true → s ≡ k)
        → (if b then some m else lookup k table) ≡ some n
        → ((k ≡ s) × (m ≡ n)) ⊎ (lookup k table ≡ some n)
    go true same e = inl (sym (same refl), cc)
    go false same e = inr e

with_name-IsTable : (t : Symbols) (s : Bytes) → IsTable t → IsTable (with_name s t)
with_name-IsTable t s h = record {
  low = λ k n e. elim (lookup_new k s t.nextsymbol n t.symtable e) [
    | inl (_, e') ↦ omega arith
    | inr old ↦ omega (arith, h.low k n old)
  ];
  apart = λ k l n e e'.
      both k l n (lookup_new k s t.nextsymbol n t.symtable e)
        (lookup_new l s t.nextsymbol n t.symtable e');
}
  where
    both :
        (k l : Bytes) (n : ℕ)
        → ((k ≡ s) × (t.nextsymbol ≡ n)) ⊎ (lookup k t.symtable ≡ some n)
        → ((l ≡ s) × (t.nextsymbol ≡ n)) ⊎ (lookup l t.symtable ≡ some n)
        → k ≡ l
    both k l n (inl (e, _)) (inl (e', _)) = e ∙ sym e'
    both k l n (inl (_, e)) (inr old) = absurd (omega (arith, h.low l n old))
    both k l n (inr old) (inl (_, e)) = absurd (omega (arith, h.low k n old))
    both k l n (inr old) (inr old') = h.apart k l n old old'

pub lookup_self :
    (s : Bytes) (n : ℕ) (table : List (Bytes × ℕ)) → lookup s ((s, n) ∷ table) ≡ some n
unfolding lookup
lookup_self s n table = rw (bytes_eq_refl s) refl

pub lookup_other :
    (k s : Bytes) (n : ℕ) (table : List (Bytes × ℕ))
    → k ≢ s
    → lookup k ((s, n) ∷ table) ≡ lookup k table
unfolding lookup
lookup_other k s n table h = elim (Bool-cases (bytes_eq s k)) [
  | inl same ↦ absurd (h (sym ((bytes_eq_iff s k).0 same)))
  | inr other ↦ rw other refl
]

-- What a symbol and a table are to the table before.
abbrev pub Keeps : Symbols → Bytes → Symbol × Symbols → Type 0
Keeps t s (made, t') =
    IsTable t'
    × (lookup s t'.symtable ≡ some made.number)
    × ((k : Bytes) → k ≢ s → lookup k t'.symtable ≡ lookup k t.symtable)

-- `MakeSymbol` keeps the symbols apart: if before each number was below the next one and belonged to
-- one name, it does so afterwards, the name has the number of its symbol, and every other name
-- keeps what it had.
pub make_symbol-Keeps : (t : Symbols) (s : Bytes) → IsTable t → Keeps t s (make_symbol t s)
make_symbol-Keeps t s h = elim (Option-cases (lookup s t.symtable)) [
  | inl new ↦ rw (make_symbol_new t s new) (
    with_name-IsTable t s h,
    lookup_self s t.nextsymbol t.symtable,
    λ k other. lookup_other k s t.nextsymbol t.symtable other,
  )
  | inr (n, old) ↦ rw (make_symbol_old t s n old) (h, old, λ k other. refl)
]

abbrev symbols_of : Symbols → Outcome Glisp → Symbols
symbols_of t (ok g) = g.symbols
symbols_of t _ = t

shared_symbols : (g dup : Glisp) → duplicate_glisp g ≡ ok dup → dup.symbols ≡ g.symbols
unfolding duplicate_glisp
shared_symbols g dup e =
    let (env, _, made) = >>=-eq-ok (duplicate g.env) _ e in sym (ap (symbols_of g.symbols) made)

abbrev pub first_number : Bytes → Symbols → ℕ
first_number k t = (make_symbol t k).0.number

-- The interpreter after its duplicate has made a symbol.
abbrev pub after_symbol : Bytes → Glisp → Glisp → Glisp
after_symbol k dup g = shared_back (record dup { symbols = (make_symbol dup.symbols k).1 }) g

abbrev second_number : Bytes → Bytes → Symbols → Symbols → ℕ
second_number k l t u =
    (make_symbol (record u { symtable = (make_symbol t k).1.symtable }) l).0.number

collides :
    (t : Symbols) (k l : Bytes)
    → lookup k t.symtable ≡ none
    → lookup l t.symtable ≡ none
    → l ≢ k
    → first_number k t ≡ second_number k l t t
collides t k l new new' other =
    let made = make_symbol_new t k new in
    let u = record t { symtable = (k, t.nextsymbol) ∷ t.symtable } in
    let none_yet = lookup_other l k t.nextsymbol t.symtable other ∙ new' in
    ap (λ r. r.0.number) made
    ∙ sym (ap (λ r. r.0.number) (make_symbol_new u l none_yet))
    ∙ sym (ap (λ r. (make_symbol (record t { symtable = r.1.symtable }) l).0.number) made)

-- A duplicate does not keep its symbols apart from those of the interpreter that it was made from:
-- of two different new names, the first made in the duplicate, as `eval` does, and the second
-- afterwards in the interpreter, both have the same number.
pub duplicate_glisp_collision :
    (g dup : Glisp) (k l : Bytes)
    → duplicate_glisp g ≡ ok dup
    → lookup k g.symbols.symtable ≡ none
    → lookup l g.symbols.symtable ≡ none
    → l ≢ k
    → first_number k dup.symbols ≡ first_number l (after_symbol k dup g).symbols
unfolding shared_back
duplicate_glisp_collision g dup k l e new new' other =
    let same = shared_symbols g dup e in
    ap (first_number k) same
    ∙ collides g.symbols k l new new' other
    ∙ ap (λ t. second_number k l t g.symbols) (sym same)
