-- ===== src/Sexp/Kinds.antt =====
-- typeutils.go and `IsTruthy` of expressions.go.
use glisp.Prelude.{pos, Bool, not, ◌||◌, true, false, ◌==◌, eq_ℤ}
use glisp.Sexp.Values.{
  Sexp, sentinel, pair, array, hash, int, bool, float, char, str, bin, symbol, null,
}

unfoldable pub is_data : Sexp → Bool
is_data (bin _) = true
is_data _ = false

unfoldable pub is_array : Sexp → Bool
is_array (array _) = true
is_array _ = false

unfoldable pub is_list : Sexp → Bool
is_list (sentinel null) = true
is_list (pair _ t) = is_list t
is_list _ = false

-- A chain of pairs that does not end in the empty list.
unfoldable pub is_pair : Sexp → Bool
is_pair (pair _ (sentinel null)) = false
is_pair (pair _ (pair h t)) = is_pair (pair h t)
is_pair (pair _ _) = true
is_pair _ = false

unfoldable pub is_float : Sexp → Bool
is_float (float _) = true
is_float _ = false

unfoldable pub is_int : Sexp → Bool
is_int (int _) = true
is_int _ = false

unfoldable pub is_string : Sexp → Bool
is_string (str _) = true
is_string _ = false

unfoldable pub is_char : Sexp → Bool
is_char (char _) = true
is_char _ = false

unfoldable pub is_number : Sexp → Bool
is_number (float _) = true
is_number (int _) = true
is_number (char _) = true
is_number _ = false

unfoldable pub is_symbol : Sexp → Bool
is_symbol (symbol _) = true
is_symbol _ = false

unfoldable pub is_hash : Sexp → Bool
is_hash (hash _) = true
is_hash _ = false

-- The float test `float64(e) == 0.0` holds of the patterns of 0 and of -0.
unfoldable pub is_zero : Sexp → Bool
is_zero (int i) = eq_ℤ i (pos 0)
is_zero (char c) = eq_ℤ c (pos 0)
is_zero (float b) = (b == 0) || (b == 0x8000000000000000)
is_zero _ = false

-- What the conditional instructions take for true.
unfoldable pub is_truthy : Sexp → Bool
is_truthy (bool b) = b
is_truthy (int i) = not (eq_ℤ i (pos 0))
is_truthy (char c) = not (eq_ℤ c (pos 0))
is_truthy (sentinel null) = false
is_truthy _ = true
