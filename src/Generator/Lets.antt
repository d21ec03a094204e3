-- ===== src/Generator/Lets.antt =====
-- `GenerateLet` and `GenerateAssert` of generator.go, given `generate`, the way back into the
-- generator.
use mathlib.Core.List.{reverse}
use glisp.Prelude.{
  ◌+◌, ◌-◌, ◌%◌, ◌==◌, not, pos, Bool, true, List, [], ◌∷◌, map, length, Option, none, some,
  if◌then◌else◌, ok, name_not_symbol, malformed_let, let_not_array, uneven_let, wrong_nargs,
}
use glisp.Sexp.{
  Sexp, symbol, Symbol, array, to_list, put, push, branch, raise, add_scope, remove_scope,
  sexp_null,
}
use glisp.Generator.State.{Gens, done, fail, ◌>>>◌, add, add_instructions}
use glisp.Generator.Forms.{generate_all, generate_begin}

module _ (generate : Sexp → Gens) where
  -- The bindings of a `let`: symbols and expressions in pairs.
  unfoldable pub let_bindings : List Sexp → Option (List (Symbol × Sexp))
  let_bindings [] = some []
  let_bindings (symbol s ∷ e ∷ rest) = elim (let_bindings rest) [
    | none ↦ none
    | some bs ↦ some ((s, e) ∷ bs)
  ]
  let_bindings _ = none

  -- `let*` binds each value before the next is computed.
  unfoldable pub sequential : List (Symbol × Sexp) → Gens
  unfolding add_instructions
  sequential [] = done
  sequential ((s, e) ∷ bs) = generate e >>> add (put s) >>> sequential bs

  abbrev pub parallel : List (Symbol × Sexp) → Gens
  parallel bs =
      generate_all generate (map (λ b. b.1) bs)
      >>> add_instructions (map (λ b. put b.0) (reverse bs))

  abbrev pub scopes_up : Gens
  scopes_up gen = ok (record gen { scopes = gen.scopes + 1 }, none)

  abbrev pub scopes_down : Gens
  scopes_down gen = ok (record gen { scopes = gen.scopes - 1 }, none)

  -- `GenerateLet`; the flag says `let*`.
  unfoldable pub generate_let : Bool → List Sexp → Gens
  unfolding let_bindings sequential generate_all generate_begin add_instructions
  generate_let star (array bindings ∷ e ∷ body) =
      if not (length (to_list bindings) % 2 == 0)
      then fail uneven_let
      else elim (let_bindings (to_list bindings)) [
        | none ↦ fail name_not_symbol
        | some bs ↦
            add add_scope
            >>> scopes_up
            >>> (if star then sequential bs else parallel bs)
            >>> generate_begin generate (e ∷ body)
            >>> add remove_scope
            >>> scopes_down
      ]
  generate_let star (_ ∷ _ ∷ _) = fail let_not_array
  generate_let star _ = fail malformed_let

  unfoldable pub generate_assert : List Sexp → Gens
  unfolding add_instructions
  generate_assert (e ∷ []) =
      generate e >>> add (branch true (pos 2)) >>> add raise >>> add (push sexp_null)
  generate_assert _ = fail wrong_nargs
