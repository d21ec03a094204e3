-- ===== src/Loading/Generated.antt =====
-- What the generator makes of an arithmetic expression: `GenerateCallBySymbol` and `Generate`.
use glisp.Prelude.{
  ℕ, zero, suc, ◌≤◌, ◌≡◌, refl, ap, sym, ◌∙◌, List, [], ◌∷◌, ◌++◌, append_assoc, some, none, Option,
  ok, arith, false, Outcome, Error,
}
use Prim.Native.Nat.{max}
use glisp.Sexp.{Sexp, Symbol, Instr, call, Function}
use glisp.Numbers.{Floats}
use glisp.Vm.{Host}
use glisp.Generator.{
  Gen, FileParser, generate, generate_plain_call, generate_call_by_symbol, macro_at, expand,
}
use glisp.Loading.Arithmetic.{Op, plus, minus, times, Arith, lit, node, op_symbol, expression, code}

-- How deep an expression nests.
abbrev pub depth : Arith → ℕ
depth (lit i) = 1
depth (node op a b) = suc (max (depth a) (depth b))

-- A generator in the middle of its work, outside of a tail position.
abbrev pub at : Gen → List Instr → Gen
at gen is = record gen { tail = false; instructions = is }

-- The operators name no macros.
abbrev pub NoMacros : (Op → ℕ) → List (ℕ × Function) → Type 0
NoMacros number macros = (op : Op) → macro_at (number op) macros ≡ none

module _ (number : Op → ℕ) (f : Floats) (host : Host) (parse_file : FileParser) where
  no_macro :
      (fuel : ℕ) (sub : Sexp → Gen → Outcome (Gen × Option Error)) (sym : Symbol) (args : List Sexp)
      (gen : Gen) (o : Option Function)
      → o ≡ none
      → (elim o [
        | some macro ↦ expand f host parse_file fuel macro args sub gen
        | none ↦ generate_plain_call f host parse_file fuel sub sym args gen
      ])
        ≡ generate_plain_call f host parse_file fuel sub sym args gen
  no_macro fuel sub sym args gen (some m) h = cc
  no_macro fuel sub sym args gen none h = refl

  generate_op :
      (fuel : ℕ) (op : Op) (a b : Sexp) (gen : Gen)
      → NoMacros number gen.macros
      → generate_call_by_symbol f host parse_file fuel
          (generate f host parse_file fuel)
          (op_symbol number op)
          (a ∷ b ∷ [])
          gen
        ≡ generate_plain_call f host parse_file fuel
            (generate f host parse_file fuel)
            (op_symbol number op)
            (a ∷ b ∷ [])
            gen
  unfolding generate_call_by_symbol
  generate_op fuel plus a b gen h =
      no_macro fuel (generate f host parse_file fuel) (op_symbol number plus) (a ∷ b ∷ []) gen
        (macro_at (number plus) gen.macros) (h plus)
  generate_op fuel minus a b gen h =
      no_macro fuel (generate f host parse_file fuel) (op_symbol number minus) (a ∷ b ∷ []) gen
        (macro_at (number minus) gen.macros) (h minus)
  generate_op fuel times a b gen h =
      no_macro fuel (generate f host parse_file fuel) (op_symbol number times) (a ∷ b ∷ []) gen
        (macro_at (number times) gen.macros) (h times)

  generate_node :
      (fuel : ℕ) (op : Op) (a b : Arith) (gen : Gen)
      → NoMacros number gen.macros
      → generate f host parse_file (suc fuel) (expression number (node op a b)) gen
        ≡ generate_plain_call f host parse_file fuel
            (generate f host parse_file fuel)
            (op_symbol number op)
            (expression number a ∷ expression number b ∷ [])
            gen
  unfolding generate
  generate_node fuel op a b gen h =
      generate_op fuel op (expression number a) (expression number b) gen h

  -- What generating an expression does to a generator.
  abbrev pub Generates : ℕ → Arith → Type 0
  Generates fuel e =
      (gen : Gen) (is : List Instr)
      → NoMacros number gen.macros
      → generate f host parse_file fuel (expression number e) (at gen is)
        ≡ ok (at gen (is ++ code number e), none)

  node-Generates :
      (fuel : ℕ) (op : Op) (a b : Arith)
      → Generates fuel a
      → Generates fuel b
      → Generates (suc fuel) (node op a b)
  unfolding generate_plain_call
  node-Generates fuel op a b ga gb gen is h =
      generate_node fuel op a b (at gen is) h
      ∙ rw (ga gen is h, gb gen (is ++ code number a) h)
          (ap (λ l. ok (at gen l, none))
            (append_assoc (is ++ code number a) (code number b) (call (op_symbol number op) 2 ∷ [])
              ∙ append_assoc is (code number a)
                  (code number b ++ call (op_symbol number op) 2 ∷ [])))

  pub generate-Generates : (e : Arith) (fuel : ℕ) → depth e ≤ fuel → Generates fuel e
  unfolding generate
  generate-Generates (lit i) zero h gen is none_yet = absurd (omega arith)
  generate-Generates (lit i) (suc fuel) h gen is none_yet = refl
  generate-Generates (node op a b) zero h gen is none_yet = absurd (omega arith)
  generate-Generates (node op a b) (suc fuel) h gen is none_yet =
      node-Generates fuel op a b (generate-Generates a fuel (omega arith))
        (generate-Generates b fuel (omega arith)) gen is none_yet
