-- ===== src/Builtins/Arguments.antt =====
-- What the functions of functions.go do with their names and arguments: the switches on the name,
-- the prefix of the coalescing variants, and the arguments that have to be integers.
use glisp.Prelude.{
  ◌==◌, ℤ, Bool, ◌&&◌, false, true, Bytes, bytes_eq, List, [], ◌∷◌, none, some, get_elem?,
  if◌then◌else◌, Outcome, ok, err, panic, Error,
}
use glisp.Sexp.{Sexp, null, array, hash, int, char, is_sentinel, to_list}
use glisp.Hash.{Hash, hash_is_empty}

-- A builtin function that only reads its arguments.
abbrev pub Builtin : Type 0
Builtin = Bytes → List Sexp → Outcome Sexp

-- What a `switch name` gives, and what was set before it.
abbrev pub select {ℓ} : {A : Type ℓ} → A → List (Bytes × A) → Bytes → A
select default [] name = default
select default ((key, a) ∷ rest) name = if bytes_eq key name then a else select default rest name

-- `name[0] == '?'`
unfoldable pub coalesces : Bytes → Outcome Bool
coalesces [] = panic
coalesces (c ∷ _) = ok (c == b'?')

-- The switches that set an `int` from a `SexpInt` or a `SexpChar`, each with its error.
unfoldable pub int_argument : Error → Sexp → Outcome ℤ
int_argument why (int i) = ok i
int_argument why (char c) = ok c
int_argument why _ = err why

-- `IsEmpty`, with the tables that the hashes lead to; a hash always leads to one.
unfoldable pub is_empty : List Hash → Sexp → Bool
unfolding hash_is_empty
is_empty hashes (array es) = elim (to_list es) [ [] ↦ true | _ ↦ false ]
is_empty hashes (hash r) = elim (get_elem? hashes r) [ some h ↦ hash_is_empty h | none ↦ false ]
is_empty hashes e = is_sentinel null e

-- The arguments that a coalescing variant keeps: those that are not empty.
unfoldable pub kept : List Hash → Bool → List Sexp → List Sexp
unfolding is_empty
kept hashes coalesce [] = []
kept hashes coalesce (arg ∷ args) =
    let rest = kept hashes coalesce args in
    if coalesce && is_empty hashes arg then rest else arg ∷ rest
