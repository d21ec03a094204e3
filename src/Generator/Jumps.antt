-- ===== src/Generator/Jumps.antt =====
-- The code of `and` and `or`, run.
use glisp.Prelude.{
  ℕ, ◌+◌, ◌≤◌, pos, Bool, true, false, List, [], ◌∷◌, ◌++◌, append_assoc, length, length-append,
  ◌≡◌, refl, ap, sym, ◌∙◌, arith,
}
use glisp.Sexp.{Sexp, Instr, dup, branch, pop, is_truthy}
use glisp.Numbers.{Floats}
use glisp.Vm.{Env, Host, code_of_function, current_function_size, eq_bool}
use glisp.Vm.Runs.{
  Runs, stop, one, Runs-append, fetch-at, fetch-in, execute-dup, execute-pop, execute-branch_passed,
  execute-branch_taken,
}
use glisp.Generator.Layout.{operand}

-- The code of several operands, as `GenerateShortCircuit` puts it together.
abbrev pub joined : Bool → List (List Instr) → List Instr
joined or [] = []
joined or (c ∷ []) = c
joined or (c ∷ c' ∷ cs) = operand or c (joined or (c' ∷ cs))

pub regroup :
    (pre c rest post : List Instr) → pre ++ ((c ++ rest) ++ post) ≡ (pre ++ c) ++ (rest ++ post)
regroup pre c rest post =
    ap (λ l. pre ++ l) (append_assoc c rest post) ∙ sym (append_assoc pre c (rest ++ post))

module _ (f : Floats) (host : Host) where
  -- Code at a position, run from its start to its end within one function.
  pub record Computes (n : ℕ) (code : List Instr) (env env' : Env) : Type 0 where
    pub runs : Runs f host env env'
    pub ends : env'.pc ≡ pos (n + length code)
    pub same : env'.curfunc ≡ env.curfunc

  -- What `and` and `or` mean for the codes of their operands, the first at position `n`: one after
  -- the other is run, until the value of one decides or none is left.
  pub data Evaluates (or : Bool) : ℕ → List (List Instr) → Env → Env → Type 0 where
    last :
        {n : ℕ} {c : List Instr} {env env' : Env}
        → Computes n c env env'
        → Evaluates or n (c ∷ []) env env'
    decides :
        {n : ℕ} {c c' : List Instr} {cs : List (List Instr)} {env env' : Env} {v : Sexp}
        {st : List Sexp}
        → Computes n c env env'
        → env'.datastack ≡ v ∷ st
        → eq_bool or (is_truthy v) ≡ true
        → Evaluates or n (c ∷ c' ∷ cs) env env'
    goes_on :
        {n : ℕ} {c c' : List Instr} {cs : List (List Instr)} {env env₁ env' : Env} {v : Sexp}
        {st : List Sexp}
        → Computes n c env env₁
        → env₁.datastack ≡ v ∷ st
        → eq_bool or (is_truthy v) ≡ false
        → Evaluates or
            (n + length c + 3)
            (c' ∷ cs)
            (record env₁ { datastack = st; pc = pos (n + length c + 3) })
            env'
        → Evaluates or n (c ∷ c' ∷ cs) env env'

  -- Behind an operand: the copy of its value, the branch, and the pop.
  abbrev joint : Bool → ℕ → List Instr → List Instr
  joint or k rest = dup ∷ branch or (pos (k + 2)) ∷ pop ∷ rest

  -- The value decides: the branch leads behind the rest.
  joint-decides :
      (or : Bool) (env : Env) (pre rest post : List Instr) (v : Sexp) (st : List Sexp)
      → code_of_function env.curfunc ≡ pre ++ joint or (length rest) (rest ++ post)
      → env.pc ≡ pos (length pre)
      → env.datastack ≡ v ∷ st
      → eq_bool or (is_truthy v) ≡ true
      → Runs f host env
          (record env { datastack = v ∷ st; pc = pos (length pre + 1 + (length rest + 2)) })
  unfolding current_function_size
  joint-decides or env pre rest post v st code at top yes_v =
      let block = joint or (length rest) (rest ++ post) in
      let copied = record env { datastack = v ∷ v ∷ st; pc = pos (length pre + 1) } in
      let room : length pre + 1 + (length rest + 2) ≤ length (code_of_function env.curfunc) =
        rw code (omega (arith, length-append pre block, length-append rest post)) in
      one (fetch-at env pre dup _ code at) (execute-dup f host env (length pre) at v st top) (
        one (fetch-in copied pre block 1 code refl refl)
          (execute-branch_taken f host copied (length pre + 1) refl v (v ∷ st) refl or
            (length rest + 2) yes_v room)
          stop)

  -- The value does not decide: it is dropped, and the rest is next.
  joint-goes_on :
      (or : Bool) (env : Env) (pre : List Instr) (k : ℕ) (rest : List Instr) (v : Sexp)
      (st : List Sexp)
      → code_of_function env.curfunc ≡ pre ++ joint or k rest
      → env.pc ≡ pos (length pre)
      → env.datastack ≡ v ∷ st
      → eq_bool or (is_truthy v) ≡ false
      → Runs f host env (record env { datastack = st; pc = pos (length pre + 1 + 1 + 1) })
  joint-goes_on or env pre k rest v st code at top no_v =
      let block = joint or k rest in
      let copied = record env { datastack = v ∷ v ∷ st; pc = pos (length pre + 1) } in
      let tested = record env { datastack = v ∷ st; pc = pos (length pre + 1 + 1) } in
      one (fetch-at env pre dup _ code at) (execute-dup f host env (length pre) at v st top) (
        one (fetch-in copied pre block 1 code refl refl)
          (execute-branch_passed f host copied (length pre + 1) refl v (v ∷ st) refl or (k + 2)
            no_v)
          (one (fetch-in tested pre block 2 code (ap pos (omega arith)) refl)
            (execute-pop f host tested (length pre + 1 + 1) refl v st refl) stop))

  settle :
      (env : Env) (st : List Sexp) (a b : ℕ)
      → env.datastack ≡ st
      → a ≡ b
      → record env { datastack = st; pc = pos a } ≡ record env { pc = pos b }
  settle env st a b top e = rw (top, e) refl

  -- `and` and `or`: wherever the code of a number of operands stands in the current function, and
  -- the operands that are run run each from its start to its end within it, running the code does
  -- what the operands mean one after the other, and ends behind it.
  pub joined-Computes :
      {or : Bool} {n : ℕ} {codes : List (List Instr)} {env env' : Env} (pre post : List Instr)
      → Evaluates or n codes env env'
      → code_of_function env.curfunc ≡ pre ++ (joined or codes ++ post)
      → n ≡ length pre
      → Computes n (joined or codes) env (record env' { pc = pos (n + length (joined or codes)) })
  unfolding operand
  joined-Computes pre post (last c) code at = record {
    runs = rw (← c.ends) c.runs;
    ends = refl;
    same = c.same;
  }
  joined-Computes {or} {n} {env'} pre post (decides {c} {c'} {cs} {v} {st} comp top yes_v) code at =
      let rest = joined or (c' ∷ cs) in
      let here : length (pre ++ c) ≡ n + length c = omega (arith, length-append pre c) in
      let placed : code_of_function env'.curfunc
          ≡ (pre ++ c) ++ joint or (length rest) (rest ++ post) =
        ap code_of_function comp.same ∙ code ∙ regroup pre c (joint or (length rest) rest) post in
      let jumped =
        joint-decides or env' (pre ++ c) rest post v st placed (comp.ends ∙ ap pos (sym here)) top
          yes_v in
      record {
        runs = Runs-append f host comp.runs (
            rw
              (settle env' (v ∷ st) (length (pre ++ c) + 1 + (length rest + 2))
                (n + length (joined or (c ∷ c' ∷ cs))) top
                (omega (arith, here, length-append c (joint or (length rest) rest))))
              at jumped);
        ends = refl;
        same = comp.same;
      }
  joined-Computes {or} {n} {env'} pre post
        (goes_on {c} {c'} {cs} {env₁} {v} {st} comp top no_v more) code at =
      let rest = joined or (c' ∷ cs) in
      let joint_code = dup ∷ branch or (pos (length rest + 2)) ∷ pop ∷ [] in
      let here : length (pre ++ c) ≡ n + length c = omega (arith, length-append pre c) in
      let placed : code_of_function env₁.curfunc
          ≡ (pre ++ c) ++ joint or (length rest) (rest ++ post) =
        ap code_of_function comp.same ∙ code ∙ regroup pre c (joint or (length rest) rest) post in
      let passed =
        joint-goes_on or env₁ (pre ++ c) (length rest) (rest ++ post) v st placed
          (comp.ends ∙ ap pos (sym here)) top no_v in
      let later =
        joined-Computes ((pre ++ c) ++ joint_code) post more
          (placed ∙ sym (append_assoc (pre ++ c) joint_code (rest ++ post)))
          (omega (arith, here, length-append (pre ++ c) joint_code)) in
      let three : length (pre ++ c) + 1 + 1 + 1 ≡ n + length c + 3 = omega (arith, here) in
      let all : n + length c + 3 + length rest ≡ n + length (joined or (c ∷ c' ∷ cs)) =
        omega (arith, length-append c (joint or (length rest) rest)) in
      record {
        runs =
            Runs-append f host comp.runs
              (Runs-append f host (rw three at passed) (rw all at later.runs));
        ends = refl;
        same = later.same ∙ comp.same;
      }
