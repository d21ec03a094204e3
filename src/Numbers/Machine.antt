-- ===== src/Numbers/Machine.antt =====
-- The float64 operations that the source applies. A float is its 64-bit pattern; the operations
-- are those of the machine, a parameter of what uses them.
use glisp.Prelude.{ℕ, ℤ, Bool}

pub record Floats : Type 0 where
  pub fadd : ℕ → ℕ → ℕ
  pub fsub : ℕ → ℕ → ℕ
  pub fmul : ℕ → ℕ → ℕ
  pub fdiv : ℕ → ℕ → ℕ
  -- the conversion `SexpFloat(i)` of an integer
  pub of_int : ℤ → ℕ
  -- the tests `f > 0` and `f < 0`
  pub is_positive : ℕ → Bool
  pub is_negative : ℕ → Bool

-- Numbers that stand in for floats in examples: whole numbers that are not negative.
abbrev pub whole_floats : Floats
whole_floats = record {
  fadd = Prim.Native.Nat.◌+◌;
  fsub = Prim.Native.Nat.◌-◌;
  fmul = Prim.Native.Nat.◌*◌;
  fdiv = Prim.Native.Nat.◌/◌;
  of_int = glisp.Prelude.pos_part;
  is_positive = glisp.Prelude.ltb 0;
  is_negative = λ _. mathlib.Core.Bool.false;
}
