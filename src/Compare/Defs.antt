-- ===== src/Compare/Defs.antt =====
-- comparisons.go. A result is -1, 0 or 1.
use glisp.Prelude.{
  ℕ, ℤ, pos, negsuc, sub_ℕ, ◌-ℤ◌, ltb_ℤ, eq_ℤ, wrap, Bool, true, false, Bytes, [], ◌∷◌, ltb,
  if◌then◌else◌, Outcome, ok, err, ◌>>=◌, cannot_compare,
}
use glisp.Sexp.{
  Sexp, sentinel, pair, array, int, bool, float, char, str, bin, symbol, Symbol, null, Items, nil,
  cons,
}
use glisp.Numbers.{Floats}

unfoldable pub signum_int : ℤ → ℤ
signum_int i = if ltb_ℤ (pos 0) i then pos 1 else if ltb_ℤ i (pos 0) then negsuc 0 else pos 0

-- `bytes.Compare`.
unfoldable pub bytes_compare : Bytes → Bytes → ℤ
bytes_compare [] [] = pos 0
bytes_compare [] (y ∷ ys) = negsuc 0
bytes_compare (x ∷ xs) [] = pos 1
bytes_compare (x ∷ xs) (y ∷ ys) =
    if ltb x y then negsuc 0 else if ltb y x then pos 1 else bytes_compare xs ys

unfoldable pub compare_string : Bytes → Sexp → Outcome ℤ
unfolding bytes_compare
compare_string s (str e) = ok (bytes_compare s e)
compare_string s _ = err cannot_compare

unfoldable pub compare_symbol : Symbol → Sexp → Outcome ℤ
unfolding signum_int
compare_symbol sym (symbol e) = ok (signum_int (wrap 64 (sub_ℕ sym.number e.number)))
compare_symbol sym _ = err cannot_compare

-- true > false
unfoldable pub compare_bool : Bool → Sexp → Outcome ℤ
compare_bool true (bool true) = ok (pos 0)
compare_bool true (bool false) = ok (pos 1)
compare_bool false (bool true) = ok (negsuc 0)
compare_bool false (bool false) = ok (pos 0)
compare_bool a _ = err cannot_compare

unfoldable pub compare_data : Bytes → Sexp → Outcome ℤ
unfolding bytes_compare
compare_data a (bin b) = ok (bytes_compare a b)
compare_data a _ = err cannot_compare

module _ (f : Floats) where
  unfoldable pub signum_float : ℕ → ℤ
  signum_float x = if f.is_positive x then pos 1 else if f.is_negative x then negsuc 0 else pos 0

  unfoldable pub compare_float : ℕ → Sexp → Outcome ℤ
  unfolding signum_float
  compare_float x (int e) = ok (signum_float (f.fsub x (f.of_int e)))
  compare_float x (float e) = ok (signum_float (f.fsub x e))
  compare_float x (char e) = ok (signum_float (f.fsub x (f.of_int e)))
  compare_float x _ = err cannot_compare

  unfoldable pub compare_int : ℤ → Sexp → Outcome ℤ
  unfolding signum_float signum_int
  compare_int i (int e) = ok (signum_int (wrap 64 (i -ℤ e)))
  compare_int i (float e) = ok (signum_float (f.fsub (f.of_int i) e))
  compare_int i (char e) = ok (signum_int (wrap 64 (i -ℤ e)))
  compare_int i _ = err cannot_compare

  unfoldable pub compare_char : ℤ → Sexp → Outcome ℤ
  unfolding signum_float signum_int
  compare_char c (int e) = ok (signum_int (wrap 64 (c -ℤ e)))
  compare_char c (float e) = ok (signum_float (f.fsub (f.of_int c) e))
  compare_char c (char e) = ok (signum_int (wrap 32 (c -ℤ e)))
  compare_char c _ = err cannot_compare

  -- A result other than 0 is final; at 0 the rest decides.
  abbrev pub compare_then : Outcome ℤ → Outcome ℤ → Outcome ℤ
  compare_then first rest = first >>= λ res. if eq_ℤ res (pos 0) then rest else ok res

  -- `compare_items` is the loop of `compareArray`, and its last line where an array ends: the
  -- sign of the difference of the lengths.
  unfoldable mutual
    unfolding compare_string compare_symbol compare_bool compare_data compare_float compare_int
        compare_char

    pub compare : Sexp → Sexp → Outcome ℤ
    compare (int a) b = compare_int a b
    compare (char a) b = compare_char a b
    compare (float a) b = compare_float a b
    compare (bool a) b = compare_bool a b
    compare (str a) b = compare_string a b
    compare (symbol a) b = compare_symbol a b
    compare (pair h t) (pair h' t') = compare_then (compare h h') (compare t t')
    compare (pair h t) _ = err cannot_compare
    compare (array a) (array b) = compare_items a b
    compare (array a) _ = err cannot_compare
    compare (bin a) b = compare_data a b
    compare (sentinel null) (sentinel null) = ok (pos 0)
    compare (sentinel _) b = ok (negsuc 0)
    compare _ b = err cannot_compare

    pub compare_items : Items → Items → Outcome ℤ
    compare_items nil nil = ok (pos 0)
    compare_items nil (cons y ys) = ok (negsuc 0)
    compare_items (cons x xs) nil = ok (pos 1)
    compare_items (cons x xs) (cons y ys) = compare_then (compare x y) (compare_items xs ys)
