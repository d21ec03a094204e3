-- ===== src/Generator/CondPieces.antt =====
-- `GenerateCond`, from the code that its tests and bodies are generated to, up to its run.
use glisp.Prelude.{
  ℕ, suc, ◌%◌, ◌==◌, pos, false, List, [], ◌∷◌, ◌++◌, length, length-append, append_assoc, none, ok,
  ◌≡◌, refl, ap, ◌∙◌, arith,
}
use glisp.Sexp.{Sexp, Instr}
use glisp.Numbers.{Floats}
use glisp.Vm.{Env, Host, code_of_function}
use glisp.Vm.Runs.{Runs}
use glisp.Generator.State.{Gen, Gens, new_generator, add_instructions}
use glisp.Generator.Forms.{cond_code, generate_cond}
use glisp.Generator.Clauses.{clauses_of, Chooses, clauses_of-Computes}
use glisp.Generator.Pieces.{Shared, shared_of, with_shared, begun, instructions_of}

module _ (generate : Sexp → Gens) (gen : Gen) where
  -- What the tests, the bodies and the default are generated to, the default first and then the
  -- clauses from the last: the bodies and the default stand where the whole expression stands, so
  -- that they may be tail calls, the tests do not.
  pub data Clauses : List Sexp → Shared → List (List Instr × List Instr) → List Instr → Type 0 where
    only_default :
        {e : Sexp} {sub : Gen}
        → generate e (begun (shared_of gen) gen.funcname gen.tail gen.scopes) ≡ ok (sub, none)
        → Clauses (e ∷ []) (shared_of sub) [] sub.instructions
    more_clauses :
        {p b : Sexp} {es : List Sexp} {sh : Shared} {cs : List (List Instr × List Instr)}
        {d : List Instr} {test body : Gen}
        → Clauses es sh cs d
        → generate p (begun sh gen.funcname false 0) ≡ ok (test, none)
        → generate b (begun (shared_of test) gen.funcname gen.tail gen.scopes) ≡ ok (body, none)
        → Clauses (p ∷ b ∷ es) (shared_of body) ((test.instructions, body.instructions) ∷ cs) d

  odd :
      {args : List Sexp} {sh : Shared} {cs : List (List Instr × List Instr)} {d : List Instr}
      → Clauses args sh cs d
      → (length args % 2 == 0) ≡ false
  odd (only_default got) = refl
  odd (more_clauses {es} rest got got') = two (length es) (odd rest)
    where
      two : (n : ℕ) → (n % 2 == 0) ≡ false → (suc (suc n) % 2 == 0) ≡ false
      two n h = ground arith

  cond_code-Clauses :
      {args : List Sexp} {sh : Shared} {cs : List (List Instr × List Instr)} {d : List Instr}
      → Clauses args sh cs d
      → cond_code generate args gen ≡ ok (with_shared gen sh, ok (clauses_of cs d))
  unfolding cond_code new_generator
  cond_code-Clauses (only_default got) = rw (got) refl
  cond_code-Clauses (more_clauses rest got got') = rw (cond_code-Clauses rest, got, got') refl

  generate-Clauses :
      {args : List Sexp} {sh : Shared} {cs : List (List Instr × List Instr)} {d : List Instr}
      → Clauses args sh cs d
      → generate_cond generate args gen
        ≡ ok (
          record (with_shared gen sh) { instructions = gen.instructions ++ clauses_of cs d },
          none,
        )
  unfolding generate_cond add_instructions
  generate-Clauses parts = rw (odd parts, cond_code-Clauses parts) refl

  -- `cond` is generated as it should be. If the tests, the bodies and the default can be generated
  -- without an error, the bodies and the default in the position of the whole and the tests in none,
  -- `GenerateCond` goes through. Where the code that it leaves stands at the start of the current
  -- function, and the tests are run one after the other until one is true and then its body, or the
  -- default if none is, each from its start to its end, the machine runs from the old end of the
  -- code to the new one, and does just that.
  pub generate_cond-Chooses :
      (f : Floats) (host : Host) {args : List Sexp} {sh : Shared}
      {cs : List (List Instr × List Instr)} {d : List Instr} {env env' : Env} (post : List Instr)
      → Clauses args sh cs d
      → Chooses f host d (length gen.instructions) cs env env'
      → code_of_function env.curfunc ≡ instructions_of (generate_cond generate args gen) ++ post
      → (gen' : Gen) × (generate_cond generate args gen ≡ ok (gen', none))
        × Runs f host env (record env' { pc = pos (length gen'.instructions) })
  generate_cond-Chooses f host {args} {sh} {cs} {d} {env} {env'} post parts does placed =
      let made = generate-Clauses parts in
      let code = clauses_of cs d in
      let there : code_of_function env.curfunc ≡ gen.instructions ++ (code ++ post) =
        placed
        ∙ ap (λ r. instructions_of r ++ post) made
        ∙ append_assoc gen.instructions code post in
      let run = clauses_of-Computes f host gen.instructions post does there refl in
      (
        record (with_shared gen sh) { instructions = gen.instructions ++ code },
        made,
        rw (length-append gen.instructions code) run.runs,
      )
