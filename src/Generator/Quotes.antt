-- ===== src/Generator/Quotes.antt =====
-- `GenerateSyntaxQuote` and its three helpers. They drop the errors of the expressions in them.
use mathlib.Core.List.{reverse}
use glisp.Prelude.{
  ℕ, zero, suc, ltb, Bool, true, false, bytes_eq, codes, List, [], ◌∷◌, Option, none, some, length,
  take, get_elem?, if◌then◌else◌, Outcome, ok, err, panic, out_of_fuel, syntax_quote_argument,
}
use glisp.Sexp.{
  Sexp, symbol, pair, array, hash, sentinel, marker, to_list, is_list, list_to_array, push, explode,
  squash, vectorize, hashize,
}
use glisp.Numbers.{Floats}
use glisp.Hash.{Hash, hash_count_keys, hash_get}
use glisp.Generator.State.{Gens, done, fail, ◌>>>◌, ignore, add, add_instructions}

-- The body of `(unquote e)` and `(unquote-splicing e)`, and whether it is the second.
unfoldable pub unquoted : List Sexp → Option (Sexp × Bool)
unquoted (symbol s ∷ e ∷ []) =
    if bytes_eq s.name (codes "unquote")
    then some (e, false)
    else if bytes_eq s.name (codes "unquote-splicing")
    then some (e, true)
    else none
unquoted _ = none

-- The values of a list; of what is no list, none, since the error is dropped.
abbrev pub items_of : Outcome (List Sexp) → List Sexp
items_of (ok es) = es
items_of _ = []

module _ (f : Floats) (generate quote_one : Sexp → Gens) where
  unfoldable pub quote_all : List Sexp → Gens
  quote_all [] = done
  quote_all (e ∷ es) = ignore (quote_one e) >>> quote_all es

  -- One value on top of its own marker, gathered and taken apart again.
  abbrev pub quote_spliced : Sexp → Gens
  quote_spliced e =
      add (push (sentinel marker)) >>> ignore (quote_one e) >>> add squash >>> add explode

  unfoldable pub quote_list : List Sexp → Gens
  unfolding unquoted quote_all add_instructions
  quote_list body = elim (unquoted body) [
    | some (e, false) ↦ ignore (generate e)
    | some (e, true) ↦ ignore (generate e) >>> add explode
    | none ↦ add (push (sentinel marker)) >>> quote_all body >>> add squash
  ]

  unfoldable pub quote_elements : List Sexp → Gens
  unfolding add_instructions
  quote_elements [] = done
  quote_elements (e ∷ es) = quote_spliced e >>> quote_elements es

  unfoldable pub quote_array : List Sexp → Gens
  unfolding quote_elements add_instructions
  quote_array es = add (push (sentinel marker)) >>> quote_elements es >>> add vectorize

  -- The keys with their values, each value before its key.
  unfoldable pub quote_keys : Hash → List Sexp → Gens
  unfolding add_instructions hash_get
  quote_keys h [] = done
  quote_keys h (key ∷ keys) = elim (hash_get f h key) [
    | ok val ↦ quote_spliced val >>> quote_spliced key >>> quote_keys h keys
    | err x ↦ fail x
    | panic ↦ λ _. panic
    | out_of_fuel ↦ λ _. out_of_fuel
  ]

  -- The keys are read from the end of their order; an index out of range panics.
  unfoldable pub quote_hash : Hash → Gens
  unfolding quote_keys add_instructions hash_count_keys
  quote_hash h = elim (hash_count_keys h) [
    | ok n ↦
        if ltb (length h.key_order) n
        then (λ _. panic)
        else add (push (sentinel marker))
          >>> quote_keys h (reverse (take n h.key_order))
          >>> add (hashize n h.type_name)
    | err x ↦ fail x
    | panic ↦ λ _. panic
    | out_of_fuel ↦ λ _. out_of_fuel
  ]

  -- The switch of `GenerateSyntaxQuote`. A reference always leads to a table.
  unfoldable pub quote_value : Sexp → Gens
  unfolding quote_list quote_array quote_hash add_instructions list_to_array is_list
  quote_value (array es) gen = ignore (quote_array (to_list es)) gen
  quote_value (pair h t) gen =
      if is_list t
      then ignore (quote_list (items_of (list_to_array (pair h t)))) gen
      else add (push (pair h t)) gen
  quote_value (hash r) gen = elim (get_elem? gen.env.hashes r) [
    | some h ↦ ignore (quote_hash h) gen
    | none ↦ panic
  ]
  quote_value e gen = add (push e) gen

module _ (f : Floats) (generate : Sexp → Gens) where
  unfoldable pub syntax_quote : ℕ → Sexp → Gens
  unfolding quote_value
  syntax_quote zero e gen = out_of_fuel
  syntax_quote (suc fuel) e gen = quote_value f generate (syntax_quote fuel) e gen

  unfoldable pub generate_syntax_quote : ℕ → List Sexp → Gens
  unfolding syntax_quote
  generate_syntax_quote fuel (e ∷ []) = syntax_quote fuel e
  generate_syntax_quote fuel _ = fail syntax_quote_argument
