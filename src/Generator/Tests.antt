-- ===== src/Generator/Tests.antt =====
-- Whole programs, generated and run.
use glisp.Prelude.{
  ℕ, pos, true, false, Bytes, codes, List, [], ◌∷◌, ◌+◌, length, Option, some, none, Outcome, ok,
  err, Error, ◌+ℤ◌, not_a_list, ◌≡◌, refl,
}
use glisp.Sexp.{
  Sexp, symbol, int, array, bool, of_list, Symbol, Function, script, code_of, Instr, get, push,
  branch, jump, goto, make_list, remove_scope, sentinel, marker,
}
use glisp.Numbers.{whole_floats}
use glisp.Vm.{Env, Host, run, execute, is_done}
use glisp.Vm.Runs.{Runs, stop, one, run-Runs}
use glisp.Generator.State.{Gen}
use glisp.Generator.Includes.{FileParser}
use glisp.Generator.Generate.{generate, call_code}
use glisp.Generator.Layout.{operand, clause}
use glisp.Generator.Forms.{generate_short_circuit, generate_cond}
use glisp.Generator.Jumps.{joined, Computes, Evaluates, last, goes_on, joined-Computes}
use glisp.Generator.Clauses.{clauses_of, Chooses, passed, by_default, clauses_of-Computes}
use glisp.Generator.Pieces.{
  shared_of, Operands, last_operand, more_operands, generate_short_circuit-Evaluates,
}
use glisp.Generator.CondPieces.{Clauses, only_default, more_clauses, generate_cond-Chooses}
use glisp.Generator.TailCalls.{call_code-tail}

abbrev no_host : Host
no_host = record { userfun = λ _ env _ _. ok (sentinel marker, env); before = []; after = [] }

abbrev no_files : FileParser
no_files name symbols = (symbols, err not_a_list)

abbrev sym : Bytes → ℕ → Sexp
sym s n = symbol (record { name = s; number = n })

abbrev main : List Instr → Function
main code = script (codes "__main") 0 false (code_of code) none

abbrev start : List Instr → Env
start code = record {
  datastack = [];
  scopestack = 0 ∷ [];
  addrstack = [];
  stackstack = [];
  builtins = [];
  curfunc = main code;
  pc = pos 0;
  scopes = [] ∷ [];
  hashes = [];
}

abbrev gen : Gen
gen = record {
  env = start [];
  symbols = record { symtable = []; nextsymbol = 100 };
  macros = [];
  imports = [];
  funcname = [];
  tail = false;
  scopes = 0;
  instructions = [];
}

abbrev instructions_of : Outcome (Gen × Option Error) → List Instr
instructions_of (ok (g, none)) = g.instructions
instructions_of _ = []

abbrev code_for : Sexp → List Instr
code_for e = instructions_of (generate whole_floats no_host no_files 20 e gen)

abbrev value_of : Outcome (Option Sexp × Env) → Option Sexp
value_of (ok (v, _)) = v
value_of _ = none

-- `(cond x 1 2)`
cond_code_of :
    code_for (make_list (sym (codes "cond") 1 ∷ sym (codes "x") 2 ∷ int (pos 1) ∷ int (pos 2) ∷ []))
    ≡ get (record { name = codes "x"; number = 2 })
      ∷ branch false (pos 3)
      ∷ push (int (pos 1))
      ∷ jump (pos 2)
      ∷ push (int (pos 2))
      ∷ []
unfolding generate make_list
cond_code_of = refl

-- `((fn [x] (and x y)) 3)` where `y` was defined as 7
abbrev program : Sexp
program = make_list (
    sym (codes "begin") 1
    ∷ make_list (sym (codes "def") 2 ∷ sym (codes "y") 3 ∷ int (pos 7) ∷ [])
    ∷ make_list (
        make_list (
          sym (codes "fn") 4
          ∷ array (of_list (sym (codes "x") 5 ∷ []))
          ∷ make_list (sym (codes "and") 6 ∷ sym (codes "x") 5 ∷ sym (codes "y") 3 ∷ [])
          ∷ [])
        ∷ int (pos 3)
        ∷ [])
    ∷ [])

runs : value_of (run whole_floats no_host 40 none (start (code_for program))) ≡ some (int (pos 7))
unfolding generate make_list run ◌+ℤ◌
runs = refl

abbrev truth : Sexp
truth = bool true

abbrev falsity : Sexp
falsity = bool false

abbrev five : Sexp
five = int (pos 5)

run-Runs_example :
    (fuel : ℕ) × (run whole_floats no_host fuel none (start (push five ∷ []))
      ≡ ok (some five, record (start (push five ∷ [])) { pc = pos 1 }))
unfolding execute ◌+ℤ◌ is_done
run-Runs_example =
    run-Runs whole_floats no_host (start (push five ∷ []))
      {first = record (start (push five ∷ [])) { datastack = five ∷ []; pc = pos 1 }} none five []
      refl refl stop refl refl

-- `(and true 5)`
abbrev operands : List (List Instr)
operands = (push truth ∷ []) ∷ (push five ∷ []) ∷ []

abbrev both : Env
both = start (joined false operands)

evaluates :
    Evaluates whole_floats no_host false 0 operands both
      (record both { datastack = five ∷ []; pc = pos 5 })
unfolding operand execute ◌+ℤ◌
evaluates =
    goes_on {env₁ = record both { datastack = truth ∷ []; pc = pos 1 }} {v = truth} {st = []}
      (record { runs = one refl refl stop; ends = refl; same = refl }) refl refl
      (last (record { runs = one refl refl stop; ends = refl; same = refl }))

joined-Computes_example :
    Computes whole_floats no_host 0
      (joined false operands)
      both
      (record both { datastack = five ∷ []; pc = pos (0 + length (joined false operands)) })
unfolding operand
joined-Computes_example = joined-Computes whole_floats no_host [] [] evaluates refl refl

-- `(cond false true 5)`
abbrev one_clause : List (List Instr × List Instr)
one_clause = (push falsity ∷ [], push truth ∷ []) ∷ []

abbrev choice : Env
choice = start (clauses_of one_clause (push five ∷ []))

chooses :
    Chooses whole_floats no_host
      (push five ∷ [])
      0
      one_clause
      choice
      (record choice { datastack = five ∷ []; pc = pos 5 })
unfolding clause execute ◌+ℤ◌
chooses =
    passed {env₁ = record choice { datastack = falsity ∷ []; pc = pos 1 }} {v = falsity} {st = []}
      (record { runs = one refl refl stop; ends = refl; same = refl }) refl refl
      (by_default (record { runs = one refl refl stop; ends = refl; same = refl }))

clauses_of-Computes_example :
    Computes whole_floats no_host 0 (clauses_of one_clause (push five ∷ [])) choice (record choice {
      datastack = five ∷ [];
      pc = pos (0 + length (clauses_of one_clause (push five ∷ [])));
    })
unfolding clause
clauses_of-Computes_example = clauses_of-Computes whole_floats no_host [] [] chooses refl refl

abbrev generator : Sexp → Gen → Outcome (Gen × Option Error)
generator = generate whole_floats no_host no_files 3

abbrev with_code : List Instr → Gen
with_code code = record gen { instructions = code }

generates_and :
    generate_short_circuit generator false (truth ∷ five ∷ []) gen
    ≡ ok (with_code (joined false operands), none)
unfolding generate_short_circuit generate operand
generates_and = refl

and_operands : Operands generator gen (truth ∷ five ∷ []) (shared_of gen) operands
unfolding generate
and_operands =
    more_operands {sub = with_code (push truth ∷ [])}
      (last_operand {sub = with_code (push five ∷ [])} refl) refl

generate_short_circuit-Evaluates_example :
    (gen' : Gen) × (generate_short_circuit generator false (truth ∷ five ∷ []) gen
      ≡ ok (gen', none))
    × Runs whole_floats no_host both
        (record both { datastack = five ∷ []; pc = pos (length gen'.instructions) })
unfolding operand
generate_short_circuit-Evaluates_example =
    generate_short_circuit-Evaluates generator gen whole_floats no_host false [] and_operands
      evaluates (rw (generates_and) refl)

generates_cond :
    generate_cond generator (falsity ∷ truth ∷ five ∷ []) gen
    ≡ ok (with_code (clauses_of one_clause (push five ∷ [])), none)
unfolding generate_cond generate clause
generates_cond = refl

cond-Clauses :
    Clauses generator gen (falsity ∷ truth ∷ five ∷ []) (shared_of gen) one_clause (push five ∷ [])
unfolding generate
cond-Clauses =
    more_clauses {test = with_code (push falsity ∷ [])} {body = with_code (push truth ∷ [])}
      (only_default {sub = with_code (push five ∷ [])} refl) refl refl

generate_cond-Chooses_example :
    (gen' : Gen) × (generate_cond generator (falsity ∷ truth ∷ five ∷ []) gen ≡ ok (gen', none))
    × Runs whole_floats no_host choice
        (record choice { datastack = five ∷ []; pc = pos (length gen'.instructions) })
unfolding clause
generate_cond-Chooses_example =
    generate_cond-Chooses generator gen whole_floats no_host [] cond-Clauses chooses
      (rw (generates_cond) refl)

abbrev f_sym : Symbol
f_sym = record { name = codes "f"; number = 8 }

-- Inside `f`, with one scope opened.
abbrev inside_f : Gen
inside_f = record gen { funcname = codes "f"; scopes = 1; instructions = push five ∷ [] }

abbrev after_call : Gen
after_call = record inside_f { instructions = push five ∷ remove_scope ∷ goto (pos 0) ∷ [] }

codes_call : call_code true f_sym 1 inside_f ≡ ok (after_call, none)
unfolding call_code
codes_call = refl

abbrev before_jump : Env
before_jump = record (start after_call.instructions) {
  datastack = five ∷ [];
  pc = pos 1;
  scopestack = 2 ∷ 1 ∷ 0 ∷ [];
}

call_code-tail_example :
    Runs whole_floats no_host before_jump
      (record before_jump { scopestack = 1 ∷ 0 ∷ []; pc = pos 0 })
call_code-tail_example =
    call_code-tail whole_floats no_host f_sym 1 inside_f [] before_jump (2 ∷ []) (1 ∷ 0 ∷ []) refl
      codes_call refl refl refl refl
