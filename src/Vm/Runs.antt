-- ===== src/Vm/Runs.antt =====
-- Runs of the machine as a relation, beside the loop of `Run`.
use glisp.Prelude.{
  ℕ, suc, ◌+◌, ◌<◌, ◌≤◌, ◌+ℤ◌, ltb_ℤ, eq_ℤ, ℤ, pos, negsuc, pos_part, Bool, true, false, ◌||◌, List,
  [], ◌∷◌, ◌++◌, Option, some, none, length, get_elem?, get_elem?-lt, if◌then◌else◌, ok, panic, ◌≡◌,
  refl, arith,
}
use native.Mathlib.Nat.{zero-add, suc-add}
use glisp.Sexp.{Sexp, Instr, jump, branch, dup, pop, is_truthy}
use glisp.Numbers.{Floats}
use glisp.Vm.State.{Env, Host, code_of_function, current_function_size}
use glisp.Vm.Execute.{jump_to, eq_bool, fetch, execute, run, finish, is_done}

get_elem?-at :
    (pre : List Instr) (i : Instr) (post : List Instr)
    → get_elem? (pre ++ i ∷ post) (length pre) ≡ some i
get_elem?-at [] i post = refl
get_elem?-at (x ∷ pre) i post = get_elem?-at pre i post

not_negative : (n : ℕ) → ltb_ℤ (pos n) (pos 0) ≡ false
not_negative n = ground arith

-- The instruction at the counter.
pub fetch-at :
    (env : Env) (pre : List Instr) (i : Instr) (post : List Instr)
    → code_of_function env.curfunc ≡ pre ++ i ∷ post
    → env.pc ≡ pos (length pre)
    → fetch env ≡ ok i
fetch-at env pre i post code at =
    rw (at, not_negative (length pre), code, get_elem?-at pre i post) refl

not_done_at : (n size : ℕ) → n < size → (eq_ℤ (pos n) (negsuc 0) || eq_ℤ (pos n) (pos size)) ≡ false
not_done_at n size h = ground arith

instr_or_panic :
    (is : List Instr) (n : ℕ) (o : Option Instr) {i : Instr}
    → get_elem? is n ≡ o
    → (elim o [ some i ↦ ok i | none ↦ panic ]) ≡ ok i
    → n < length is
instr_or_panic is n (some j) at h = get_elem?-lt is n at
instr_or_panic is n none at h = cc

negative : (n : ℕ) → ltb_ℤ (negsuc n) (pos 0) ≡ true
negative n = ground arith

fetched :
    (is : List Instr) (z : ℤ) {i : Instr}
    → (if ltb_ℤ z (pos 0)
        then panic
        else elim (get_elem? is (pos_part z)) [ some i ↦ ok i | none ↦ panic ])
      ≡ ok i
    → (n : ℕ) × (z ≡ pos n) × (n < length is)
fetched is (pos n) e =
    (n, refl, instr_or_panic is n (get_elem? is n) refl (rw (not_negative n) at e))
fetched is (negsuc n) e = cc (rw (negative n) at e)

-- A machine with an instruction to fetch has not finished.
pub fetch-is_done : (env : Env) {i : Instr} → fetch env ≡ ok i → is_done env ≡ false
unfolding is_done current_function_size
fetch-is_done env e =
    let (n, at, lt) = fetched (code_of_function env.curfunc) env.pc e in
    rw at (not_done_at n (length (code_of_function env.curfunc)) lt)

module _ (f : Floats) (host : Host) where
  -- One instruction after the other, each at the counter.
  pub data Runs : Env → Env → Type 0 where
    stop : {env : Env} → Runs env env
    one :
        {env env' env'' : Env} {i : Instr}
        → fetch env ≡ ok i
        → execute f host i env ≡ ok env'
        → Runs env' env''
        → Runs env env''

  pub Runs-append : {a b c : Env} → Runs a b → Runs b c → Runs a c
  Runs-append stop later = later
  Runs-append (one got ran rest) later = one got ran (Runs-append rest later)

  -- From a state with an instruction to run, if a run leads to a machine that has finished with a
  -- value on its stack, the loop of `Run` gives that value after some number of steps.
  pub run-Runs :
      (env : Env) {first final : Env} {i : Instr} (exp : Option Sexp) (v : Sexp) (rest : List Sexp)
      → fetch env ≡ ok i
      → execute f host i env ≡ ok first
      → Runs first final
      → is_done final ≡ true
      → final.datastack ≡ v ∷ rest
      → (fuel : ℕ) × (run f host fuel exp env ≡ ok (some v, record final { datastack = rest }))
  unfolding run finish
  run-Runs env {final} exp v rest got ran stop done st =
      (1, rw (fetch-is_done env got, got, ran, done, st) (rw (still final rest done) refl))
    where
      still :
          (e : Env) (r : List Sexp) → is_done e ≡ true → is_done (record e { datastack = r }) ≡ true
      still e r h = h
  run-Runs env {first} exp v rest got ran (one got' ran' more) done st =
      let (fuel, result) = run-Runs first none v rest got' ran' more done st in
      (suc fuel, rw (fetch-is_done env got, got, ran, fetch-is_done first got') result)

get_elem?-append :
    (pre is : List Instr) (k : ℕ) → get_elem? (pre ++ is) (length pre + k) ≡ get_elem? is k
get_elem?-append [] is k = rw (zero-add k) refl
get_elem?-append (x ∷ pre) is k = rw (suc-add (length pre) k) (get_elem?-append pre is k)

-- An instruction of a block that stands behind others.
pub fetch-in :
    (env : Env) (pre is : List Instr) (k : ℕ) {i : Instr}
    → code_of_function env.curfunc ≡ pre ++ is
    → env.pc ≡ pos (length pre + k)
    → get_elem? is k ≡ some i
    → fetch env ≡ ok i
fetch-in env pre is k code at here =
    rw (at, not_negative (length pre + k), code, get_elem?-append pre is k, here) refl

pub pos-add : (a b : ℕ) → pos a +ℤ pos b ≡ pos (a + b)
unfolding ◌+ℤ◌
pos-add a b = ground arith

in_bounds : (n size : ℕ) → n ≤ size → (ltb_ℤ (pos n) (pos 0) || ltb_ℤ (pos size) (pos n)) ≡ false
in_bounds n size h = ground arith

pub jump_to-ok :
    (n : ℕ) (env : Env)
    → n ≤ current_function_size env
    → jump_to (pos n) env ≡ ok (record env { pc = pos n })
unfolding jump_to
jump_to-ok n env h = rw (in_bounds n (current_function_size env) h) refl

-- The instructions of the generator's control flow, one step each.
module _ (f : Floats) (host : Host) (env : Env) (n : ℕ) (at : env.pc ≡ pos n) where
  pub execute-jump :
      (k : ℕ)
      → n + k ≤ current_function_size env
      → execute f host (jump (pos k)) env ≡ ok (record env { pc = pos (n + k) })
  unfolding execute
  execute-jump k h = rw (at, pos-add n k) (jump_to-ok (n + k) env h)

  module _ (v : Sexp) (st : List Sexp) (top : env.datastack ≡ v ∷ st) where
    pub execute-dup :
        execute f host dup env ≡ ok (record env { datastack = v ∷ v ∷ st; pc = pos (n + 1) })
    unfolding execute
    execute-dup = rw (top, at, pos-add n 1) refl

    pub execute-pop : execute f host pop env ≡ ok (record env { datastack = st; pc = pos (n + 1) })
    unfolding execute
    execute-pop = rw (top, at, pos-add n 1) refl

    pub execute-branch_passed :
        (direction : Bool) (k : ℕ)
        → eq_bool direction (is_truthy v) ≡ false
        → execute f host (branch direction (pos k)) env
          ≡ ok (record env { datastack = st; pc = pos (n + 1) })
    unfolding execute
    execute-branch_passed direction k h = rw (top, h, at, pos-add n 1) refl

    pub execute-branch_taken :
        (direction : Bool) (k : ℕ)
        → eq_bool direction (is_truthy v) ≡ true
        → n + k ≤ current_function_size env
        → execute f host (branch direction (pos k)) env
          ≡ ok (record env { datastack = st; pc = pos (n + k) })
    unfolding execute current_function_size
    execute-branch_taken direction k h le =
        rw (top, h, at, pos-add n k) (jump_to-ok (n + k) (record env { datastack = st }) le)
