-- ===== src/Compare/Keys.antt =====
-- When two keys of a hash are one key: the test that the bucket loops make.
use glisp.Prelude.{
  ℕ, ◌^◌, ◌<◌, ℤ, pos, negsuc, ◌-ℤ◌, sub_ℕ, eq_ℤ, wrap, Fits, Outcome, ok, ◌≡◌, arith, ap, Bool,
  true, false, Bytes, [], ◌∷◌, ◌↔◌,
}
use glisp.Sexp.{Sexp, int, char, str, symbol, Symbol}
use glisp.Numbers.{Floats}
use glisp.Compare.Defs.{signum_int, bytes_compare, compare}

-- `err == nil && res == 0`, for the result of a comparison.
abbrev pub is_match : Outcome ℤ → Bool
is_match (ok res) = eq_ℤ res (pos 0)
is_match _ = false

-- What a key stands for: a number, a symbol's number, or a text.
pub data KeyId : Type 0 where
  number : ℤ → KeyId
  name : ℕ → KeyId
  text : Bytes → KeyId

-- The keys that can be hashed, each in the range of its Go type.
pub data IsKey : Sexp → KeyId → Type 0 where
  int_key : {i : ℤ} → Fits 64 i → IsKey (int i) (number i)
  char_key : {c : ℤ} → Fits 32 c → IsKey (char c) (number c)
  symbol_key : {s : Symbol} → s.number < 2 ^ 63 → IsKey (symbol s) (name s.number)
  str_key : {s : Bytes} → IsKey (str s) (text s)

signum64_zero :
    (a b : ℤ)
    → Fits 64 a
    → Fits 64 b
    → (eq_ℤ (signum_int (wrap 64 (a -ℤ b))) (pos 0) ≡ true) ↔ (a ≡ b)
unfolding signum_int wrap ◌-ℤ◌
signum64_zero (pos a) (pos b) h k = ground arith
signum64_zero (pos a) (negsuc b) h k = ground arith
signum64_zero (negsuc a) (pos b) h k = ground arith
signum64_zero (negsuc a) (negsuc b) h k = ground arith

signum32_zero :
    (a b : ℤ)
    → Fits 32 a
    → Fits 32 b
    → (eq_ℤ (signum_int (wrap 32 (a -ℤ b))) (pos 0) ≡ true) ↔ (a ≡ b)
unfolding signum_int wrap ◌-ℤ◌
signum32_zero (pos a) (pos b) h k = ground arith
signum32_zero (pos a) (negsuc b) h k = ground arith
signum32_zero (negsuc a) (pos b) h k = ground arith
signum32_zero (negsuc a) (negsuc b) h k = ground arith

name_zero :
    (m n : ℕ)
    → m < 2 ^ 63
    → n < 2 ^ 63
    → (eq_ℤ (signum_int (wrap 64 (sub_ℕ m n))) (pos 0) ≡ true) ↔ (m ≡ n)
unfolding signum_int wrap
name_zero m n h k = ground arith

pub bytes_compare_zero : (a b : Bytes) → (eq_ℤ (bytes_compare a b) (pos 0) ≡ true) ↔ (a ≡ b)
unfolding bytes_compare
bytes_compare_zero [] [] = ground arith
bytes_compare_zero [] (y ∷ b) = ground arith
bytes_compare_zero (x ∷ a) [] = ground arith
bytes_compare_zero (x ∷ a) (y ∷ b) = ground (arith, bytes_compare_zero a b)

number_iff : {b : Bool} {i e : ℤ} → (b ≡ true) ↔ (i ≡ e) → (b ≡ true) ↔ (number i ≡ number e)
number_iff h = (λ m. ap number (h.0 m), λ e. h.1 (cc))

char-Fits : (c : ℤ) → Fits 32 c → Fits 64 c
char-Fits (pos n) h = omega arith
char-Fits (negsuc n) h = omega arith

module _ (f : Floats) where
  -- Two keys that can be hashed, each in the range of its Go type, match exactly when they stand
  -- for the same number, symbol or text; an integer and a character of one number are one key.
  pub is_match-compare :
      {a b : Sexp} {ka kb : KeyId}
      → IsKey a ka
      → IsKey b kb
      → (is_match (compare f a b) ≡ true) ↔ (ka ≡ kb)
  unfolding compare
  is_match-compare (int_key {i} h) (int_key {i = e} k) = number_iff (signum64_zero i e h k)
  is_match-compare (int_key {i} h) (char_key {c} k) =
      number_iff (signum64_zero i c h (char-Fits c k))
  is_match-compare (char_key {c} h) (int_key {i} k) =
      number_iff (signum64_zero c i (char-Fits c h) k)
  is_match-compare (char_key {c} h) (char_key {c = e} k) = number_iff (signum32_zero c e h k)
  is_match-compare (symbol_key {s} h) (symbol_key {s = e} k) =
      let z = name_zero s.number e.number h k in (λ m. ap name (z.0 m), λ p. z.1 (cc))
  is_match-compare (str_key {s}) (str_key {s = e}) =
      let z = bytes_compare_zero s e in (λ m. ap text (z.0 m), λ p. z.1 (cc))
  is_match-compare (int_key h) (symbol_key k) = (λ m. cc, λ p. cc)
  is_match-compare (int_key h) str_key = (λ m. cc, λ p. cc)
  is_match-compare (char_key h) (symbol_key k) = (λ m. cc, λ p. cc)
  is_match-compare (char_key h) str_key = (λ m. cc, λ p. cc)
  is_match-compare (symbol_key h) (int_key k) = (λ m. cc, λ p. cc)
  is_match-compare (symbol_key h) (char_key k) = (λ m. cc, λ p. cc)
  is_match-compare (symbol_key h) str_key = (λ m. cc, λ p. cc)
  is_match-compare str_key (int_key k) = (λ m. cc, λ p. cc)
  is_match-compare str_key (char_key k) = (λ m. cc, λ p. cc)
  is_match-compare str_key (symbol_key k) = (λ m. cc, λ p. cc)
