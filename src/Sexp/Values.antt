-- ===== src/Sexp/Values.antt =====
-- expressions.go and the instructions of vm.go, as data.
use glisp.Prelude.{ℕ, ℤ, Bytes, Bool, List, [], ◌∷◌, Option, none, ◌≡◌, refl, ap, true, false}

-- `SexpSentinel`.
pub data Sentinel : Type 0 where
  null end marker : Sentinel

pub record Symbol : Type 0 where
  pub name : Bytes
  pub number : ℕ

mutual
  pub data Sexp : Type 0 where
    sentinel : Sentinel → Sexp
    pair : Sexp → Sexp → Sexp
    array : Items → Sexp
    hash : ℕ → Sexp
    int : ℤ → Sexp
    bool : Bool → Sexp
    float : ℕ → Sexp
    char : ℤ → Sexp
    str : Bytes → Sexp
    bin : Bytes → Sexp
    event : ℤ → Sexp
    symbol : Symbol → Sexp
    func : Function → Sexp
    stackmark : Symbol → Sexp
    -- a value of a type that another package declares, such as an extension
    foreign : ℕ → Sexp

  -- `[]Sexp`, and `SexpArray`
  pub data Items : Type 0 where
    nil : Items
    cons : Sexp → Items → Items

  -- `SexpFunction`: a script function with its code and its closure, or a function of the host
  -- with its number. A closure is a list of references to scopes, the last pushed first.
  pub data Function : Type 0 where
    script : Bytes → ℕ → Bool → Code → Option (List ℕ) → Function
    user : Bytes → ℕ → Option (List ℕ) → Function

  pub data Instr : Type 0 where
    jump goto : ℤ → Instr
    branch : Bool → ℤ → Instr
    push : Sexp → Instr
    push_closure : Function → Instr
    pop dup : Instr
    get put : Symbol → Instr
    call : Symbol → ℕ → Instr
    dispatch : ℕ → Instr
    ret : Instr
    -- `ReturnInstr` with an error
    raise : Instr
    add_scope remove_scope explode squash vectorize : Instr
    bindlist : List Symbol → Instr
    hashize : ℕ → Bytes → Instr

  -- `GlispFunction`
  pub data Code : Type 0 where
    done : Code
    step : Instr → Code → Code

abbrev pub to_list : Items → List Sexp
to_list nil = []
to_list (cons x xs) = x ∷ to_list xs

abbrev pub of_list : List Sexp → Items
of_list [] = nil
of_list (x ∷ xs) = cons x (of_list xs)

abbrev pub instrs : Code → List Instr
instrs done = []
instrs (step i c) = i ∷ instrs c

abbrev pub code_of : List Instr → Code
code_of [] = done
code_of (i ∷ is) = step i (code_of is)

pub to_list-of_list : (xs : List Sexp) → to_list (of_list xs) ≡ xs
to_list-of_list [] = refl
to_list-of_list (x ∷ xs) = ap (◌∷◌ x) (to_list-of_list xs)

pub of_list-to_list : (xs : Items) → of_list (to_list xs) ≡ xs
of_list-to_list nil = refl
of_list-to_list (cons x xs) = ap (cons x) (of_list-to_list xs)

pub instrs-code_of : (is : List Instr) → instrs (code_of is) ≡ is
instrs-code_of [] = refl
instrs-code_of (i ∷ is) = ap (◌∷◌ i) (instrs-code_of is)

abbrev pub sexp_null : Sexp
sexp_null = sentinel null

-- `e == SexpNull`, `e == SexpEnd` and `e == SexpMarker`: interface comparison with a sentinel.
abbrev pub is_sentinel : Sentinel → Sexp → Bool
is_sentinel null (sentinel null) = true
is_sentinel end (sentinel end) = true
is_sentinel marker (sentinel marker) = true
is_sentinel _ _ = false

-- `MakeFunction`, `MakeUserFunction` and `MissingFunction`.
unfoldable pub make_function : Bytes → ℕ → Bool → Code → Function
make_function name nargs varargs fun = script name nargs varargs fun none

unfoldable pub make_user_function : Bytes → ℕ → Function
make_user_function name ufun = user name ufun none

abbrev pub function_name : Function → Bytes
function_name (script name _ _ _ _) = name
function_name (user name _ _) = name
