-- ===== src/Generator/Layout.antt =====
-- The code that `and`, `or` and `cond` are made of, from the code of their parts.
use glisp.Prelude.{◌+◌, pos, Bool, false, List, ◌∷◌, ◌++◌, length}
use glisp.Sexp.{Instr, dup, branch, pop, jump}

-- One operand in front of the rest, which the branch jumps over.
unfoldable pub operand : Bool → List Instr → List Instr → List Instr
operand or code rest = code ++ (dup ∷ branch or (pos (length rest + 2)) ∷ pop ∷ rest)

-- One clause of `cond` in front of the rest.
unfoldable pub clause : List Instr → List Instr → List Instr → List Instr
clause pred_code body_code rest =
    pred_code
    ++ (branch false (pos (length body_code + 2))
        ∷ (body_code ++ (jump (pos (length rest + 1)) ∷ rest)))
