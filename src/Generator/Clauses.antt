-- ===== src/Generator/Clauses.antt =====
-- The code of `cond`, run.
use glisp.Prelude.{
  ℕ, ◌+◌, ◌≤◌, pos, true, false, not, List, [], ◌∷◌, ◌++◌, append_assoc, length, length-append, ◌≡◌,
  refl, ap, sym, ◌∙◌, arith,
}
use glisp.Sexp.{Sexp, Instr, branch, jump, is_truthy}
use glisp.Numbers.{Floats}
use glisp.Vm.{Env, Host, code_of_function, current_function_size}
use glisp.Vm.Runs.{
  Runs, stop, one, Runs-append, fetch-at, execute-jump, execute-branch_passed, execute-branch_taken,
}
use glisp.Generator.Layout.{clause}
use glisp.Generator.Jumps.{Computes, regroup}

-- The code of several clauses, each a test and a body, and of the default, as `GenerateCond` puts
-- it together.
abbrev pub clauses_of : List (List Instr × List Instr) → List Instr → List Instr
clauses_of [] default = default
clauses_of ((p, b) ∷ cs) default = clause p b (clauses_of cs default)

module _ (f : Floats) (host : Host) where
  -- What `cond` means for the codes of its clauses, the first at position `n`: the tests are run
  -- one after the other until one is true, and then its body; the default is run if none is.
  pub data Chooses (default : List Instr)
      : ℕ → List (List Instr × List Instr) → Env → Env → Type 0 where
    by_default :
        {n : ℕ} {env env' : Env}
        → Computes f host n default env env'
        → Chooses default n [] env env'
    chosen :
        {n : ℕ} {p b : List Instr} {cs : List (List Instr × List Instr)} {env env₁ env' : Env}
        {v : Sexp} {st : List Sexp}
        → Computes f host n p env env₁
        → env₁.datastack ≡ v ∷ st
        → is_truthy v ≡ true
        → Computes f host
            (n + length p + 1)
            b
            (record env₁ { datastack = st; pc = pos (n + length p + 1) })
            env'
        → Chooses default n ((p, b) ∷ cs) env env'
    passed :
        {n : ℕ} {p b : List Instr} {cs : List (List Instr × List Instr)} {env env₁ env' : Env}
        {v : Sexp} {st : List Sexp}
        → Computes f host n p env env₁
        → env₁.datastack ≡ v ∷ st
        → is_truthy v ≡ false
        → Chooses default
            (n + length p + (length b + 2))
            cs
            (record env₁ { datastack = st; pc = pos (n + length p + (length b + 2)) })
            env'
        → Chooses default n ((p, b) ∷ cs) env env'

  -- Behind a test: the branch, the body, the jump, and the rest.
  abbrev choice : ℕ → List Instr → ℕ → List Instr → List Instr
  choice k b r rest = branch false (pos (k + 2)) ∷ (b ++ (jump (pos (r + 1)) ∷ rest))

  branch-passes :
      (env : Env) (pre : List Instr) (k : ℕ) (rest : List Instr) (v : Sexp) (st : List Sexp)
      → code_of_function env.curfunc ≡ pre ++ (branch false (pos (k + 2)) ∷ rest)
      → env.pc ≡ pos (length pre)
      → env.datastack ≡ v ∷ st
      → is_truthy v ≡ true
      → Runs f host env (record env { datastack = st; pc = pos (length pre + 1) })
  branch-passes env pre k rest v st code at top yes_v =
      one (fetch-at env pre (branch false (pos (k + 2))) rest code at)
        (execute-branch_passed f host env (length pre) at v st top false (k + 2) (ap not yes_v))
        stop

  branch-skips :
      (env : Env) (pre b : List Instr) (r : ℕ) (rest : List Instr) (v : Sexp) (st : List Sexp)
      → code_of_function env.curfunc ≡ pre ++ choice (length b) b r rest
      → env.pc ≡ pos (length pre)
      → env.datastack ≡ v ∷ st
      → is_truthy v ≡ false
      → Runs f host env (record env { datastack = st; pc = pos (length pre + (length b + 2)) })
  unfolding current_function_size
  branch-skips env pre b r rest v st code at top no_v =
      let block = choice (length b) b r rest in
      let room : length pre + (length b + 2) ≤ length (code_of_function env.curfunc) =
        rw code
          (omega (arith, length-append pre block, length-append b (jump (pos (r + 1)) ∷ rest))) in
      one (fetch-at env pre (branch false (pos (length b + 2))) _ code at)
        (execute-branch_taken f host env (length pre) at v st top false (length b + 2) (ap not no_v)
          room)
        stop

  jump-skips :
      (env : Env) (pre rest post : List Instr)
      → code_of_function env.curfunc ≡ pre ++ (jump (pos (length rest + 1)) ∷ (rest ++ post))
      → env.pc ≡ pos (length pre)
      → Runs f host env (record env { pc = pos (length pre + (length rest + 1)) })
  unfolding current_function_size
  jump-skips env pre rest post code at =
      let room : length pre + (length rest + 1) ≤ length (code_of_function env.curfunc) = rw code (
        omega (
          arith,
          length-append pre (jump (pos (length rest + 1)) ∷ (rest ++ post)),
          length-append rest post,
        )) in
      one (fetch-at env pre (jump (pos (length rest + 1))) _ code at)
        (execute-jump f host env (length pre) at (length rest + 1) room) stop

  -- `cond`: wherever the code of a number of clauses and a default stands in the current
  -- function, and the tests and the chosen part run each from its start to its end within it,
  -- running the code does what the clauses mean, and ends behind it.
  pub clauses_of-Computes :
      {default : List Instr} {n : ℕ} {cs : List (List Instr × List Instr)} {env env' : Env}
      (pre post : List Instr)
      → Chooses default n cs env env'
      → code_of_function env.curfunc ≡ pre ++ (clauses_of cs default ++ post)
      → n ≡ length pre
      → Computes f host n
          (clauses_of cs default)
          env
          (record env' { pc = pos (n + length (clauses_of cs default)) })
  unfolding clause
  clauses_of-Computes pre post (by_default c) code at = record {
    runs = rw (← c.ends) c.runs;
    ends = refl;
    same = c.same;
  }
  clauses_of-Computes {default} {n} {env'} pre post
        (chosen {p} {b} {cs} {env₁} {v} {st} test top yes_v body) code at =
      let rest = clauses_of cs default in
      let block = choice (length b) b (length rest) rest in
      let before = branch false (pos (length b + 2)) ∷ b in
      let here : length (pre ++ p) ≡ n + length p = omega (arith, length-append pre p) in
      let there : length ((pre ++ p) ++ before) ≡ n + length p + 1 + length b =
        omega (arith, here, length-append (pre ++ p) before) in
      let placed = ap code_of_function test.same ∙ code ∙ regroup pre p block post in
      let placed' =
        ap code_of_function (body.same ∙ test.same)
        ∙ code
        ∙ regroup pre p block post
        ∙ regroup (pre ++ p) before (jump (pos (length rest + 1)) ∷ rest) post in
      let fell =
        branch-passes env₁ (pre ++ p) (length b) _ v st placed (test.ends ∙ ap pos (sym here)) top
          yes_v in
      let jumped =
        jump-skips env' ((pre ++ p) ++ before) rest post placed' (body.ends ∙ ap pos (sym there)) in
      let next : length (pre ++ p) + 1 ≡ n + length p + 1 = omega (arith, here) in
      let all : length ((pre ++ p) ++ before) + (length rest + 1) ≡ n + length (p ++ block) =
        omega (
          arith,
          there,
          length-append p block,
          length-append b (jump (pos (length rest + 1)) ∷ rest),
        ) in
      record {
        runs = Runs-append f host test.runs (
            Runs-append f host (rw next at fell) (Runs-append f host body.runs (rw all at jumped)));
        ends = refl;
        same = body.same ∙ test.same;
      }
  clauses_of-Computes {default} {n} {env'} pre post
        (passed {p} {b} {cs} {env₁} {v} {st} test top no_v more) code at =
      let rest = clauses_of cs default in
      let block = choice (length b) b (length rest) rest in
      let before = branch false (pos (length b + 2)) ∷ b in
      let last = jump (pos (length rest + 1)) ∷ [] in
      let here : length (pre ++ p) ≡ n + length p = omega (arith, length-append pre p) in
      let placed = ap code_of_function test.same ∙ code ∙ regroup pre p block post in
      let placed' =
        placed
        ∙ regroup (pre ++ p) before (jump (pos (length rest + 1)) ∷ rest) post
        ∙ sym (append_assoc ((pre ++ p) ++ before) last (rest ++ post)) in
      let skipped =
        branch-skips env₁ (pre ++ p) b (length rest) _ v st
          (placed
            ∙ ap (λ l. (pre ++ p) ++ (branch false (pos (length b + 2)) ∷ l))
                (append_assoc b (jump (pos (length rest + 1)) ∷ rest) post))
          (test.ends ∙ ap pos (sym here)) top no_v in
      let later = clauses_of-Computes (((pre ++ p) ++ before) ++ last) post more placed' (
        omega (
          arith,
          here,
          length-append ((pre ++ p) ++ before) last,
          length-append (pre ++ p) before,
        )) in
      let next : length (pre ++ p) + (length b + 2) ≡ n + length p + (length b + 2) =
        omega (arith, here) in
      let all : n + length p + (length b + 2) + length rest ≡ n + length (p ++ block) =
        omega
          (arith, length-append p block, length-append b (jump (pos (length rest + 1)) ∷ rest)) in
      record {
        runs =
            Runs-append f host test.runs
              (Runs-append f host (rw next at skipped) (rw all at later.runs));
        ends = refl;
        same = later.same ∙ test.same;
      }
