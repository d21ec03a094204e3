-- ===== src/Builtins/Queries.antt =====
-- Tests on values: the comparisons of functions.go beside one another, and its type tests.
use glisp.Prelude.{
  ◌≡◌, refl, ap, ◌∙◌, ℤ, Bool, true, false, not, ◌||◌, Bytes, bytes_eq, codes, List, [], ◌∷◌,
  Outcome, ok, err, panic, out_of_fuel, ◌>>=◌, Bool-cases, inl, inr,
}
use glisp.Sexp.{Sexp, sentinel, null, pair, array, bool, is_list, is_pair, is_array}
use glisp.Numbers.{Floats, add}
use glisp.Compare.{compare}
use glisp.Hash.{Hash}
use glisp.Builtins.Numeric.{
  comparison, compare_function, not_function, arithmetic_op, numeric_fold, numeric_function,
}
use glisp.Builtins.Types.{type_test, type_query_function}

abbrev pub negated : Outcome Sexp → Outcome Sexp
negated m = m >>= λ e. not_function (codes "not") (e ∷ [])

-- A test that a comparison leads to, and its negation.
tested_not :
    (m : Outcome ℤ) (test negative : ℤ → Bool)
    → ((res : ℤ) → negative res ≡ not (test res))
    → (m >>= λ res. ok (bool (negative res))) ≡ negated (m >>= λ res. ok (bool (test res)))
unfolding not_function
tested_not (ok res) test negative h = ap (λ b. ok (bool b)) (h res)
tested_not (err e) test negative h = refl
tested_not panic test negative h = refl
tested_not out_of_fuel test negative h = refl

-- `<=`, `>=` and `not=` answer the opposite of `>`, `<` and `=` on the same arguments, and fail,
-- panic or run on where these do.
pub compare_function-not :
    (f : Floats) (args : List Sexp)
    → (compare_function f (codes "<=") args ≡ negated (compare_function f (codes ">") args))
      × (compare_function f (codes ">=") args ≡ negated (compare_function f (codes "<") args))
      × (compare_function f (codes "not=") args ≡ negated (compare_function f (codes "=") args))
unfolding compare_function comparison not_function
compare_function-not f [] = (refl, refl, refl)
compare_function-not f (a ∷ []) = (refl, refl, refl)
compare_function-not f (a ∷ b ∷ []) =
    let m = compare f a b in
    (
      tested_not m (comparison (codes ">")) (comparison (codes "<=")) (λ res. refl),
      tested_not m (comparison (codes "<")) (comparison (codes ">=")) (λ res. refl),
      tested_not m (comparison (codes "=")) (comparison (codes "not=")) (λ res. refl),
    )
compare_function-not f (a ∷ b ∷ c ∷ args) = (refl, refl, refl)

-- Every chain of pairs either is a list or answers to `pair?`, and not both.
is_pair-not : (h t : Sexp) → is_pair (pair h t) ≡ not (is_list t)
unfolding is_pair is_list
is_pair-not h (sentinel null) = refl
is_pair-not h (pair h' t') = is_pair-not h' t'
is_pair-not h _ = refl

either_holds : (b : Bool) → (b || not b) ≡ true
either_holds true = refl
either_holds false = refl

-- What `seq?` says is true: null, pairs and arrays.
abbrev pub is_seq : Sexp → Bool
is_seq (sentinel null) = true
is_seq (pair _ _) = true
is_seq (array _) = true
is_seq _ = false

seq_pair : (h t : Sexp) → (is_list t || is_pair (pair h t)) ≡ true
seq_pair h t = ap (λ b. is_list t || b) (is_pair-not h t) ∙ either_holds (is_list t)

seq_test : (e : Sexp) → (is_list e || is_pair e || is_array e) ≡ is_seq e
unfolding is_list is_pair is_array
seq_test (pair h t) = ap (λ b. b || false) (seq_pair h t)
seq_test (sentinel null) = refl
seq_test _ = refl

-- `seq?` holds of null, of arrays and of every pair, and of nothing else; and of a pair, exactly one
-- of `list?` and `pair?` holds.
pub type_query_function-seq :
    (hashes : List Hash) (h t e : Sexp)
    → (type_query_function hashes (codes "seq?") (e ∷ []) ≡ ok (bool (is_seq e)))
      × (type_query_function hashes (codes "pair?") (pair h t ∷ [])
          ≡ negated (type_query_function hashes (codes "list?") (pair h t ∷ [])))
unfolding type_query_function type_test not_function
type_query_function-seq hashes h t e =
    let b = seq_test e in
    let c = is_pair-not h t in (ap (λ v. ok (bool v)) b, ap (λ v. ok (bool v)) c)

renamed_op :
    (name : Bytes)
    → bytes_eq (codes "-") name ≡ false
    → bytes_eq (codes "*") name ≡ false
    → bytes_eq (codes "/") name ≡ false
    → arithmetic_op name ≡ add
unfolding arithmetic_op
renamed_op name h₁ h₂ h₃ = elim (Bool-cases (bytes_eq (codes "+") name)) [
  | inl h ↦ rw h refl
  | inr h ↦ rw (h, h₁, h₂, h₃) refl
]

-- Under a name that is none of `-`, `*` and `/`, as that of a variable bound to one of these, the
-- arithmetic functions add.
pub numeric_function_renamed :
    (f : Floats) (name : Bytes) (args : List Sexp)
    → bytes_eq (codes "-") name ≡ false
    → bytes_eq (codes "*") name ≡ false
    → bytes_eq (codes "/") name ≡ false
    → numeric_function f name args ≡ numeric_function f (codes "+") args
unfolding numeric_function arithmetic_op
numeric_function_renamed f name [] h₁ h₂ h₃ = refl
numeric_function_renamed f name (a ∷ args) h₁ h₂ h₃ =
    ap (λ op. numeric_fold f op a args) (renamed_op name h₁ h₂ h₃)
