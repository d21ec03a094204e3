-- ===== src/Compare/Reflexive.antt =====
-- A value compared with itself.
use glisp.Prelude.{
  ℕ, ℤ, pos, ◌-ℤ◌, Bool, true, false, Bytes, [], ◌∷◌, ok, ◌≡◌, refl, arith, sub_ℕ, wrap,
}
use glisp.Sexp.{
  Sexp, sentinel, pair, array, int, bool, float, char, str, bin, symbol, Symbol, null, Items, nil,
  cons,
}
use glisp.Numbers.{Floats}
use glisp.Compare.Defs.{
  signum_int, bytes_compare, compare, compare_items, compare_bool, signum_float,
}

signum_sub_self : (i : ℤ) → signum_int (wrap 64 (i -ℤ i)) ≡ pos 0
unfolding signum_int wrap ◌-ℤ◌
signum_sub_self i = ground arith

signum32_sub_self : (i : ℤ) → signum_int (wrap 32 (i -ℤ i)) ≡ pos 0
unfolding signum_int wrap ◌-ℤ◌
signum32_sub_self i = ground arith

signum_name_self : (n : ℕ) → signum_int (wrap 64 (sub_ℕ n n)) ≡ pos 0
unfolding signum_int wrap
signum_name_self n = ground arith

bytes_compare_self : (s : Bytes) → bytes_compare s s ≡ pos 0
unfolding bytes_compare
bytes_compare_self [] = refl
bytes_compare_self (x ∷ s) = ground (arith, bytes_compare_self s)

compare_bool_self : (b : Bool) → compare_bool b (bool b) ≡ ok (pos 0)
unfolding compare_bool
compare_bool_self true = refl
compare_bool_self false = refl

module _ (f : Floats) where
  -- What `Compare` has a case for, apart from the marks that no program can name; of a float,
  -- that its difference to itself is neither positive nor negative.
  mutual
    pub data IsComparable : Sexp → Type 0 where
      int_c : {i : ℤ} → IsComparable (int i)
      char_c : {c : ℤ} → IsComparable (char c)
      bool_c : {b : Bool} → IsComparable (bool b)
      str_c : {s : Bytes} → IsComparable (str s)
      bin_c : {s : Bytes} → IsComparable (bin s)
      symbol_c : {s : Symbol} → IsComparable (symbol s)
      null_c : IsComparable (sentinel null)
      float_c : {x : ℕ} → signum_float f (f.fsub x x) ≡ pos 0 → IsComparable (float x)
      pair_c : {h t : Sexp} → IsComparable h → IsComparable t → IsComparable (pair h t)
      array_c : {xs : Items} → AreComparable xs → IsComparable (array xs)

    pub data AreComparable : Items → Type 0 where
      nil_c : AreComparable nil
      cons_c :
          {x : Sexp} {xs : Items} → IsComparable x → AreComparable xs → AreComparable (cons x xs)

  mutual
    unfolding compare

    self : {v : Sexp} → IsComparable v → compare f v v ≡ ok (pos 0)
    self (int_c {i}) = rw (signum_sub_self i)
    self (char_c {c}) = rw (signum32_sub_self c)
    self (bool_c {b}) = compare_bool_self b
    self (str_c {s}) = rw (bytes_compare_self s)
    self (bin_c {s}) = rw (bytes_compare_self s)
    self (symbol_c {s}) = rw (signum_name_self s.number)
    self null_c = refl
    self (float_c h) = rw h
    self (pair_c h t) = rw (self h) (self t)
    self (array_c xs) = selves xs

    selves : {xs : Items} → AreComparable xs → compare_items f xs xs ≡ ok (pos 0)
    selves nil_c = refl
    selves (cons_c x xs) = rw (self x) (selves xs)

  -- A value that is made of integers, characters, booleans, texts, symbols, null, pairs, arrays,
  -- and floats whose difference to themselves is neither positive nor negative, equals itself.
  pub compare_self : {v : Sexp} → IsComparable v → compare f v v ≡ ok (pos 0)
  compare_self h = self h
