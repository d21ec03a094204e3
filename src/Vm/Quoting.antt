-- ===== src/Vm/Quoting.antt =====
-- The instructions of syntax-quote: a marker, values above it, and `squash`, `vectorize` or
-- `hashize` to gather them; `explode` takes a list apart again.
use mathlib.Core.List.{reverse, reverse-append}
use glisp.Prelude.{false, List, [], ◌∷◌, ◌++◌, append_assoc, ok, ◌≡◌, refl, ap, sym, ◌∙◌, All}
use glisp.Sexp.{
  Sexp, sentinel, marker, array, is_sentinel, make_list, of_list, list_to_array-make_list, squash,
  vectorize, explode,
}
use glisp.Numbers.{Floats}
use glisp.Vm.State.{Env, Host}
use glisp.Vm.Calls.{push_exprs, push_expr}
use glisp.Vm.Execute.{pop_to_marker, execute, next}

-- No value of the list is the marker.
abbrev pub Unmarked : List Sexp → Type 0
Unmarked = All λ e. is_sentinel marker e ≡ false

pop_to_marker-lem :
    (xs below : List Sexp)
    → Unmarked xs
    → pop_to_marker (xs ++ sentinel marker ∷ below) ≡ ok (xs, below)
unfolding pop_to_marker
pop_to_marker-lem [] below h = refl
pop_to_marker-lem (x ∷ xs) below (here, later) = rw (here, pop_to_marker-lem xs below later) refl

push_exprs-reverse :
    (xs : List Sexp) (env : Env)
    → push_exprs env xs ≡ record env { datastack = reverse xs ++ env.datastack }
unfolding push_exprs push_expr
push_exprs-reverse [] env = refl
push_exprs-reverse (x ∷ xs) env =
    push_exprs-reverse xs (push_expr env x)
    ∙ ap (λ (l : List Sexp). record env { datastack = l })
        (sym (
          ap (λ l. l ++ env.datastack) (reverse-append (x ∷ []) xs)
          ∙ append_assoc (reverse xs) (x ∷ []) env.datastack))

module _ (f : Floats) (host : Host) where
  -- `squash` turns the values above the topmost marker, none of them the marker, into the list of
  -- them, the first pushed first, and `vectorize` into an array.
  pub execute-squash :
      (env : Env) (xs below : List Sexp)
      → Unmarked xs
      → env.datastack ≡ xs ++ sentinel marker ∷ below
      → (execute f host squash env
          ≡ ok (next (record env { datastack = make_list (reverse xs) ∷ below })))
        × (execute f host vectorize env
            ≡ ok (next (record env { datastack = array (of_list (reverse xs)) ∷ below })))
  unfolding execute
  execute-squash env xs below h st =
      (rw (st, pop_to_marker-lem xs below h) refl, rw (st, pop_to_marker-lem xs below h) refl)

  -- `explode` undoes `squash`: on the list of some values it pushes them again, in order.
  pub execute-explode :
      (env : Env) (xs below : List Sexp)
      → env.datastack ≡ make_list xs ∷ below
      → execute f host explode env ≡ ok (next (record env { datastack = reverse xs ++ below }))
  unfolding execute
  execute-explode env xs below st =
      rw (st, list_to_array-make_list xs)
        (ap (λ (e : Env). ok (next e)) (push_exprs-reverse xs (record env { datastack = below })))
