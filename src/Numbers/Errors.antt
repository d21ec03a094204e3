-- ===== src/Numbers/Errors.antt =====
-- When arithmetic succeeds, when it returns an error, and when it panics.
use glisp.Prelude.{
  ℕ, ℤ, pos, Bool, true, false, ◌&&◌, eq_ℤ, rem_ℤ, Outcome, ok, err, panic, ◌>>=◌, wrong_type, ◌≡◌,
  refl, Bool-cases, inl, inr,
}
use glisp.Sexp.{Sexp, int, char, float, is_number}
use glisp.Numbers.Machine.{Floats}
use glisp.Numbers.Tower.{
  NumericOp, add, sub, mult, div, numeric_float_do, numeric_int_do, as_char, numeric_do,
}

-- Both operands are integers or characters, the second is zero, and they are to be divided.
abbrev pub is_div : NumericOp → Bool
is_div div = true
is_div _ = false

abbrev pub divides_by_zero : NumericOp → Sexp → Sexp → Bool
divides_by_zero op (int _) (int b) = is_div op && eq_ℤ b (pos 0)
divides_by_zero op (int _) (char b) = is_div op && eq_ℤ b (pos 0)
divides_by_zero op (char _) (int b) = is_div op && eq_ℤ b (pos 0)
divides_by_zero op (char _) (char b) = is_div op && eq_ℤ b (pos 0)
divides_by_zero _ _ _ = false

abbrev pub Number : Outcome Sexp → Type 0
Number (ok v) = is_number v ≡ true
Number _ = ⊥

-- What an outcome is, given whether both operands are numbers and whether a division is by zero.
abbrev pub Classified : Bool → Bool → Outcome Sexp → Type 0
Classified false _ r = r ≡ err wrong_type
Classified true true r = r ≡ panic
Classified true false r = Number r

module _ (f : Floats) where
  float_number : (op : NumericOp) (a b : ℕ) → is_number (numeric_float_do f op a b) ≡ true
  unfolding numeric_float_do is_number
  float_number add a b = refl
  float_number sub a b = refl
  float_number mult a b = refl
  float_number div a b = refl

  as_char-Number : (op : NumericOp) (a b : ℕ) → Number (as_char f (numeric_float_do f op a b))
  unfolding numeric_float_do is_number as_char
  as_char-Number add a b = refl
  as_char-Number sub a b = refl
  as_char-Number mult a b = refl
  as_char-Number div a b = refl

  ints :
      (op : NumericOp) (a b : ℤ)
      → Classified true (divides_by_zero op (int a) (int b)) (numeric_int_do f op a b)
  unfolding numeric_int_do is_number
  ints add a b = refl
  ints sub a b = refl
  ints mult a b = refl
  ints div a b = elim (Bool-cases (eq_ℤ b (pos 0))) [
    | inl z ↦ rw z refl
    | inr nz ↦ rw nz (elim (Bool-cases (eq_ℤ (rem_ℤ a b) (pos 0))) [
      | inl whole ↦ rw whole refl
      | inr left ↦ rw left refl
    ])
  ]

  chars :
      (op : NumericOp) (a b : ℤ)
      → Classified true (divides_by_zero op (int a) (int b)) (numeric_int_do f op a b >>= as_char f)
  unfolding numeric_int_do is_number as_char
  chars add a b = refl
  chars sub a b = refl
  chars mult a b = refl
  chars div a b = elim (Bool-cases (eq_ℤ b (pos 0))) [
    | inl z ↦ rw z refl
    | inr nz ↦ rw nz (elim (Bool-cases (eq_ℤ (rem_ℤ a b) (pos 0))) [
      | inl whole ↦ rw whole refl
      | inr left ↦ rw left refl
    ])
  ]

  -- Arithmetic gives a number on two numbers, except that an integer division by zero panics;
  -- on any other operands it returns `WrongType`, and it returns no other error.
  pub numeric_do-Classified :
      (op : NumericOp) (a b : Sexp)
      → Classified (is_number a && is_number b) (divides_by_zero op a b) (numeric_do f op a b)
  unfolding numeric_do is_number
  numeric_do-Classified op (float a) (float b) = float_number op a b
  numeric_do-Classified op (float a) (int b) = float_number op a (f.of_int b)
  numeric_do-Classified op (float a) (char b) = float_number op a (f.of_int b)
  numeric_do-Classified op (float a) _ = refl
  numeric_do-Classified op (int a) (float b) = float_number op (f.of_int a) b
  numeric_do-Classified op (int a) (int b) = ints op a b
  numeric_do-Classified op (int a) (char b) = ints op a b
  numeric_do-Classified op (int a) _ = refl
  numeric_do-Classified op (char a) (float b) = as_char-Number op (f.of_int a) b
  numeric_do-Classified op (char a) (int b) = chars op a b
  numeric_do-Classified op (char a) (char b) = chars op a b
  numeric_do-Classified op (char a) _ = refl
  numeric_do-Classified op _ b = refl
