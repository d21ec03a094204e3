-- ===== src/Builtins/Access.antt =====
-- The functions of functions.go that take a sequence apart: `first`, `rest`, `aget`, `aset!`,
-- `sget`, `slice` and `len`.
use glisp.Prelude.{
  ℕ, zero, suc, ◌-◌, ◌%◌, leb, ◌==◌, ℤ, pos, negsuc, ◌+ℤ◌, ◌&&◌, Bytes, bytes_eq, codes, List, [],
  ◌∷◌, ◌++◌, Option, none, some, length, get_elem?, take, drop, if◌then◌else◌, Outcome, ok, err,
  panic, out_of_fuel, ◌>>=◌, wrong_nargs, wrong_type, out_of_bounds, bad_first_argument,
  bad_second_argument, bad_third_argument,
}
use glisp.Sexp.{Sexp, sentinel, pair, array, hash, int, char, str, bin, to_list, of_list, sexp_null}
use glisp.Hash.{Hash, hash_count_keys}
use glisp.Builtins.Arguments.{Builtin, int_argument}

unfoldable pub cons_function : Builtin
cons_function name (a ∷ b ∷ []) = ok (pair a b)
cons_function name _ = err wrong_nargs

-- The first element, if there is one.
abbrev head_or_null {ℓ} : {A : Type ℓ} → (A → Sexp) → List A → Sexp
head_or_null value [] = sexp_null
head_or_null value (x ∷ _) = value x

abbrev byte_char : ℕ → Sexp
byte_char c = char (pos c)

abbrev byte_int : ℕ → Sexp
byte_int c = int (pos c)

unfoldable pub first_function : Builtin
first_function name (pair h t ∷ []) = ok h
first_function name (array es ∷ []) = ok (head_or_null (λ e. e) (to_list es))
first_function name (str s ∷ []) = ok (head_or_null byte_char s)
first_function name (bin d ∷ []) = ok (head_or_null byte_int d)
first_function name (_ ∷ []) = err bad_first_argument
first_function name _ = err wrong_nargs

-- What is behind the first element; of nothing, null.
abbrev tail_or_null {ℓ} : {A : Type ℓ} → (List A → Sexp) → List A → Sexp
tail_or_null value [] = sexp_null
tail_or_null value (_ ∷ xs) = value xs

unfoldable pub rest_function : Builtin
rest_function name (pair h t ∷ []) = ok t
rest_function name (array es ∷ []) = ok (tail_or_null (λ xs. array (of_list xs)) (to_list es))
rest_function name (str s ∷ []) = ok (tail_or_null str s)
rest_function name (bin d ∷ []) = ok (tail_or_null bin d)
rest_function name (sentinel _ ∷ []) = ok sexp_null
rest_function name (_ ∷ []) = err wrong_type
rest_function name _ = err wrong_nargs

-- `for i < 0 { i += alen }`, for as many rounds as there is fuel.
unfoldable pub raise_index : ℕ → ℕ → ℤ → Outcome ℕ
unfolding ◌+ℤ◌
raise_index fuel alen (pos i) = ok i
raise_index zero alen (negsuc i) = out_of_fuel
raise_index (suc fuel) alen (negsuc i) = raise_index fuel alen (negsuc i +ℤ pos alen)

-- The index that an access uses; the remainder by 0 panics.
unfoldable pub array_index : ℕ → ℕ → ℤ → Outcome ℕ
unfolding raise_index
array_index fuel alen i = raise_index fuel alen i >>= λ i'.
    if alen == 0 then panic else if leb alen (i' % alen) then err out_of_bounds else ok (i' % alen)

abbrev element {ℓ} : {A : Type ℓ} → List A → ℕ → Outcome A
element xs i = elim (get_elem? xs i) [ some x ↦ ok x | none ↦ panic ]

-- `aget` gives the element, any other name the write that `arr[i] = args[2]` does.
unfoldable pub access : Bytes → List Sexp → ℕ → List Sexp → Outcome (Sexp × Option (ℕ × Sexp))
access name arr i more =
    if bytes_eq name (codes "aget")
    then (element arr i >>= λ e. ok (e, none))
    else elim more [ e ∷ [] ↦ ok (sexp_null, some (i, e)) | _ ↦ err wrong_nargs ]

-- The value that is returned, and the write to the array of the first argument, if there is one.
unfoldable pub array_access_function : ℕ → Bytes → List Sexp → Outcome (Sexp × Option (ℕ × Sexp))
unfolding int_argument array_index access
array_access_function fuel name (array es ∷ at ∷ more) =
    int_argument bad_second_argument at >>= λ i.
    array_index fuel (length (to_list es)) i >>= λ j. access name (to_list es) j more
array_access_function fuel name (_ ∷ _ ∷ _) = err bad_first_argument
array_access_function fuel name _ = err wrong_nargs

-- `str[i]`
abbrev byte_at : Bytes → ℤ → Outcome Sexp
byte_at s (pos i) = element s i >>= λ c. ok (byte_char c)
byte_at s (negsuc i) = panic

unfoldable pub sget_function : Builtin
unfolding int_argument
sget_function name (str s ∷ at ∷ []) = int_argument bad_second_argument at >>= λ i. byte_at s i
sget_function name (_ ∷ _ ∷ []) = err bad_first_argument
sget_function name _ = err wrong_nargs

-- `t[start:end]` of a slice with its elements `xs` and, behind them up to its capacity, `spare`.
unfoldable pub slice_of {ℓ} : {A : Type ℓ} → List A → List A → ℤ → ℤ → Outcome (List A)
slice_of xs spare (pos start) (pos end) =
    if leb start end && leb end (length (xs ++ spare))
    then ok (take (end - start) (drop start (xs ++ spare)))
    else panic
slice_of xs spare _ _ = panic

-- The first two arguments are what stands behind an array, and behind a data value, up to its
-- capacity.
unfoldable pub slice_function : List Sexp → Bytes → Builtin
unfolding int_argument slice_of
slice_function items bytes name (seq ∷ from ∷ to ∷ []) = do
  start ← int_argument bad_second_argument from
  end ← int_argument bad_third_argument to
  elim seq [
    | array es ↦ slice_of (to_list es) items start end >>= λ xs. ok (array (of_list xs))
    | str s ↦ slice_of s [] start end >>= λ part. ok (str part)
    | bin d ↦ slice_of d bytes start end >>= λ part. ok (bin part)
    | _ ↦ err bad_first_argument
  ]
slice_function items bytes name _ = err wrong_nargs

unfoldable pub len_function : List Hash → Builtin
unfolding hash_count_keys
len_function hashes name (array es ∷ []) = ok (int (pos (length (to_list es))))
len_function hashes name (str s ∷ []) = ok (int (pos (length s)))
len_function hashes name (bin d ∷ []) = ok (int (pos (length d)))
len_function hashes name (hash r ∷ []) =
    element hashes r >>= λ h. hash_count_keys h >>= λ num. ok (int (pos num))
len_function hashes name (_ ∷ []) = err bad_first_argument
len_function hashes name _ = err wrong_nargs
