-- ===== src/Compare/Ints.antt =====
-- Where the order of integers is the order of the numbers, and where it is not.
use glisp.Prelude.{
  ℤ, pos, negsuc, ◌-ℤ◌, ltb_ℤ, wrap, Fits, if◌then◌else◌, ok, ◌≡◌, arith, wrap64-eq_of_Fits,
}
use glisp.Sexp.{int}
use glisp.Numbers.{Floats}
use glisp.Compare.Defs.{signum_int, compare}

-- The order of two numbers, as the source means it.
abbrev pub sign_of : ℤ → ℤ → ℤ
sign_of a b = if ltb_ℤ b a then pos 1 else if ltb_ℤ a b then negsuc 0 else pos 0

signum_int_sub : (a b : ℤ) → signum_int (a -ℤ b) ≡ sign_of a b
unfolding signum_int ◌-ℤ◌
signum_int_sub a b = ground arith

signum_int_wraps :
    (a b : ℤ)
    → Fits 64 a
    → Fits 64 b
    → ¬ Fits 64 (a -ℤ b)
    → signum_int (wrap 64 (a -ℤ b)) ≡ sign_of b a
unfolding signum_int ◌-ℤ◌ wrap
signum_int_wraps (pos a) (pos b) h k n = absurd (ground arith)
signum_int_wraps (pos a) (negsuc b) h k n = ground arith
signum_int_wraps (negsuc a) (pos b) h k n = ground arith
signum_int_wraps (negsuc a) (negsuc b) h k n = absurd (ground arith)

module _ (f : Floats) where
  -- Two integers whose difference is in the range of `int` are ordered as numbers.
  pub compare-int : (a b : ℤ) → Fits 64 (a -ℤ b) → compare f (int a) (int b) ≡ ok (sign_of a b)
  unfolding compare
  compare-int a b h = rw (wrap64-eq_of_Fits (a -ℤ b) h, signum_int_sub)

  -- Two integers whose difference overflows are ordered the wrong way round.
  pub compare-int_overflow :
      (a b : ℤ)
      → Fits 64 a
      → Fits 64 b
      → ¬ Fits 64 (a -ℤ b)
      → compare f (int a) (int b) ≡ ok (sign_of b a)
  unfolding compare
  compare-int_overflow a b h k n = rw (signum_int_wraps a b h k n)
