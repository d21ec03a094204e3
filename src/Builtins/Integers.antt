-- ===== src/Builtins/Integers.antt =====
-- Integers as bytes and as text: `make-data` and `cvert-int64`, `str` and the parser.
use glisp.Prelude.{
  ℕ, zero, suc, ◌/◌, ◌^◌, ◌<◌, ◌≡◌, refl, ap, ℤ, Fits, to_bits, of_bits, wrap64-eq_of_Fits, wrap,
  Bytes, codes, List, [], ◌∷◌, arith, ok,
}
use glisp.Sexp.{array, int, bin, of_list}
use glisp.Numbers.{Floats}
use glisp.Hash.{Hash}
use glisp.Builtins.Arguments.{coalesces, kept}
use glisp.Builtins.Encoding.{
  little_endian, from_little_endian, make_data, make_data_all, make_data_function,
}
use glisp.Builtins.Convert.{Conversions, read_bits, convert_int, convert_all, convert_function}

from-little_endian :
    (width bits : ℕ) → bits < 256 ^ width → from_little_endian (little_endian width bits) ≡ bits
unfolding little_endian from_little_endian
from-little_endian zero bits h = omega arith
from-little_endian (suc width) bits h =
    omega (arith, from-little_endian width (bits / 256) (omega arith))

to_bits64_lt : (i : ℤ) → to_bits 64 i < 2 ^ 64
unfolding to_bits
to_bits64_lt i = ground arith

-- An integer in the range of `int` that `make-data` puts into 8 bytes is the integer that
-- `cvert-int64` takes from them.
pub make_data-cvert_int64 :
    (f : Floats) (conv : Conversions) (hashes : List Hash) (i : ℤ)
    → Fits 64 i
    → (d : Bytes) × (make_data_function hashes (codes "make-data") (int i ∷ []) ≡ ok (bin d))
      × (convert_function f conv (codes "cvert-int64") (bin d ∷ [])
          ≡ ok (array (of_list (int i ∷ []))))
unfolding make_data_function coalesces kept make_data_all make_data convert_function convert_all
    convert_int read_bits little_endian from_little_endian wrap
make_data-cvert_int64 f conv hashes i h =
    let same = from-little_endian 8 (to_bits 64 i) (to_bits64_lt i) in
    let back : of_bits 64 (from_little_endian (little_endian 8 (to_bits 64 i))) ≡ i =
      rw same (wrap64-eq_of_Fits i h) in
    (_, refl, ap (λ n. ok (array (of_list (int n ∷ [])))) back)
