-- ===== src/Builtins/Joins.antt =====
-- `append` and `concat` of functions.go, with their helpers in strutils.go and arrayutils.go.
use glisp.Prelude.{
  Bool, Bytes, List, [], ◌∷◌, ◌++◌, if◌then◌else◌, Outcome, ok, err, panic, ◌>>=◌, wrong_nargs,
  not_a_string, not_a_char, not_an_array, not_a_list, bad_first_argument,
}
use glisp.Sexp.{
  Sexp, sentinel, null, pair, array, char, str, bin, to_list, of_list, is_sentinel, make_list,
  append_list, concat_list,
}
use glisp.Hash.{Hash}
use glisp.Builtins.Arguments.{Builtin, coalesces, kept}
use glisp.Builtins.Encoding.{rune_bytes, make_data_function}

unfoldable pub append_str : Bytes → Sexp → Outcome Bytes
unfolding rune_bytes
append_str s (char c) = ok (s ++ rune_bytes c)
append_str s (sentinel _) = ok s
append_str s _ = err not_a_char

unfoldable pub concat_str : Bytes → Sexp → Outcome Bytes
concat_str s (str s2) = ok (s ++ s2)
concat_str s (sentinel _) = ok (s ++ [])
concat_str s _ = err not_a_string

unfoldable pub concat_array : List Sexp → Sexp → Outcome (List Sexp)
concat_array arr (array arr2) = ok (arr ++ to_list arr2)
concat_array arr (sentinel _) = ok arr
concat_array arr _ = err not_an_array

-- `ot.(SexpPair)` holds of whatever `ConcatList` returns.
abbrev pub concat_pair : Sexp → Sexp → Outcome Sexp
concat_pair (pair h t) arg = concat_list h t arg
concat_pair _ arg = panic

-- The loops of `AppendFunction` and `ConcatFunction`: `t, err = join(t, arg)`.
unfoldable pub join_all {ℓ} : {A : Type ℓ} → (A → Sexp → Outcome A) → A → List Sexp → Outcome A
join_all join t [] = ok t
join_all join t (arg ∷ args) = join t arg >>= λ t'. join_all join t' args

-- The switch of `AppendFunction`, on the arguments that are kept.
unfoldable pub append_to : List Hash → Bytes → Bool → Sexp → List Sexp → Outcome Sexp
unfolding kept join_all append_str make_list append_list make_data_function
append_to hashes name coalesce (array es) args =
    ok (array (of_list (to_list es ++ kept hashes coalesce args)))
append_to hashes name coalesce (str s) args =
    join_all append_str s (kept hashes coalesce args) >>= λ t. ok (str t)
append_to hashes name coalesce (bin d) args = make_data_function hashes name (bin d ∷ args)
append_to hashes name coalesce (sentinel _) args = ok (make_list (kept hashes coalesce args))
append_to hashes name coalesce (pair h t) args = append_list (pair h t) (kept hashes coalesce args)
append_to hashes name coalesce _ args = err bad_first_argument

unfoldable pub append_function : List Hash → Builtin
unfolding coalesces append_to
append_function hashes name (t ∷ arg ∷ args) =
    coalesces name >>= λ coalesce. append_to hashes name coalesce t (arg ∷ args)
append_function hashes name _ = err wrong_nargs

-- The switch of `ConcatFunction`.
unfoldable pub concat_to : List Hash → Bytes → Bool → Sexp → List Sexp → Outcome Sexp
unfolding kept join_all concat_array concat_str concat_list make_data_function
concat_to hashes name coalesce (array es) args =
    join_all concat_array (to_list es) (kept hashes coalesce args) >>= λ t. ok (array (of_list t))
concat_to hashes name coalesce (str s) args =
    join_all concat_str s (kept hashes coalesce args) >>= λ t. ok (str t)
concat_to hashes name coalesce (pair h t) args =
    join_all concat_pair (pair h t) (kept hashes coalesce args)
concat_to hashes name coalesce (bin d) args = make_data_function hashes name (bin d ∷ args)
concat_to hashes name coalesce _ args = err bad_first_argument

-- Behind a null first argument, the second has to be a list.
unfoldable pub concat_skipped : List Hash → Bytes → Bool → Sexp → List Sexp → Outcome Sexp
unfolding concat_to
concat_skipped hashes name coalesce (pair h t) args = concat_to hashes name coalesce (pair h t) args
concat_skipped hashes name coalesce _ args = err not_a_list

unfoldable pub concat_function : List Hash → Builtin
unfolding coalesces concat_to concat_skipped
concat_function hashes name (t ∷ arg ∷ args) = coalesces name >>= λ coalesce.
    if is_sentinel null t
    then concat_skipped hashes name coalesce arg args
    else concat_to hashes name coalesce t (arg ∷ args)
concat_function hashes name _ = err wrong_nargs

-- `StringArrayToArray`
unfoldable pub string_array_to_array : List Bytes → List Sexp
string_array_to_array [] = []
string_array_to_array (v ∷ list) = str v ∷ string_array_to_array list
