-- ===== src/Generator/TailCalls.antt =====
-- The code of a function's call of itself in tail position, run.
use glisp.Prelude.{
  ℕ, ◌+◌, pos, true, bytes_eq, List, [], ◌∷◌, ◌++◌, append_assoc, length, length-append, replicate,
  Option, ok, Error, ◌≡◌, refl, ap, sym, ◌∙◌, arith,
}
use glisp.Sexp.{Symbol, Instr, goto, remove_scope}
use glisp.Numbers.{Floats}
use glisp.Vm.{Env, Host, code_of_function, execute}
use glisp.Vm.Runs.{Runs, stop, one, fetch-at, jump_to-ok, pos-add}
use glisp.Generator.State.{Gen, add_instructions}
use glisp.Generator.Generate.{call_code}

module _ (f : Floats) (host : Host) where
  execute-remove_scope :
      (env : Env) (n r : ℕ) (refs : List ℕ)
      → env.pc ≡ pos n
      → env.scopestack ≡ r ∷ refs
      → execute f host remove_scope env ≡ ok (record env { scopestack = refs; pc = pos (n + 1) })
  unfolding execute
  execute-remove_scope env n r refs at st = rw (st, at, pos-add n 1) refl

  execute-goto_start :
      (env : Env) → execute f host (goto (pos 0)) env ≡ ok (record env { pc = pos 0 })
  unfolding execute
  execute-goto_start env = jump_to-ok 0 env (omega arith)

  leaves :
      (xs refs : List ℕ) (env : Env) (pre post : List Instr)
      → code_of_function env.curfunc
        ≡ pre ++ (replicate (length xs) remove_scope ++ goto (pos 0) ∷ post)
      → env.pc ≡ pos (length pre)
      → env.scopestack ≡ xs ++ refs
      → Runs f host env (record env { scopestack = refs; pc = pos 0 })
  leaves [] refs env pre post code at st =
      rw (← st) (one (fetch-at env pre (goto (pos 0)) post code at) (execute-goto_start env) stop)
  leaves (x ∷ xs) refs env pre post code at st =
      let rest = replicate (length xs) remove_scope ++ goto (pos 0) ∷ post in
      let left = record env { scopestack = xs ++ refs; pc = pos (length pre + 1) } in
      one (fetch-at env pre remove_scope rest code at)
        (execute-remove_scope env (length pre) x (xs ++ refs) at st)
        (leaves xs refs left (pre ++ remove_scope ∷ []) post
          (code ∙ sym (append_assoc pre (remove_scope ∷ []) rest))
          (ap pos (sym (length-append pre (remove_scope ∷ [])))) refl)

  -- In tail position the code of a function's call of itself, run where the generator put it with
  -- as many opened scopes on the stack as the generator counts, leaves these scopes and goes back
  -- to the first instruction; no frame is added, and the values stay on the stack.
  pub call_code-tail :
      (sym : Symbol) (nargs : ℕ) (gen : Gen) {gen' : Gen} {x : Option Error} (post : List Instr)
      (env : Env) (xs refs : List ℕ)
      → bytes_eq sym.name gen.funcname ≡ true
      → call_code true sym nargs gen ≡ ok (gen', x)
      → code_of_function env.curfunc ≡ gen'.instructions ++ post
      → env.pc ≡ pos (length gen.instructions)
      → env.scopestack ≡ xs ++ refs
      → length xs ≡ gen.scopes
      → Runs f host env (record env { scopestack = refs; pc = pos 0 })
  unfolding call_code add_instructions
  call_code-tail s nargs gen {gen'} post env xs refs own made code at st count =
      let added : (gen.instructions ++ replicate gen.scopes remove_scope) ++ goto (pos 0) ∷ []
          ≡ gen'.instructions =
        cc (rw own at made) in
      leaves xs refs env gen.instructions post
        (code
          ∙ ap (λ l. l ++ post) (sym added)
          ∙ append_assoc (gen.instructions ++ replicate gen.scopes remove_scope) (goto (pos 0) ∷ [])
              post
          ∙ append_assoc gen.instructions (replicate gen.scopes remove_scope) (goto (pos 0) ∷ post)
          ∙ ap (λ n. gen.instructions ++ (replicate n remove_scope ++ goto (pos 0) ∷ post))
              (sym count))
        at st
