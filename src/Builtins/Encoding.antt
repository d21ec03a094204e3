-- ===== src/Builtins/Encoding.antt =====
-- `make-data` of functions.go: values as bytes. Integers and floats are 8 bytes, the lowest first.
use glisp.Prelude.{
  ℕ, zero, suc, ◌+◌, ◌*◌, ◌/◌, ◌%◌, ltb, leb, ◌&&◌, ◌||◌, ℤ, pos, negsuc, to_bits, Bytes, List, [],
  ◌∷◌, ◌++◌, if◌then◌else◌, Outcome, ok, err, ◌>>=◌, no_conversion,
}
use glisp.Sexp.{Sexp, Items, nil, cons, pair, array, int, bool, float, char, str, bin}
use glisp.Hash.{Hash}
use glisp.Lexer.{utf8_rune}
use glisp.Builtins.Arguments.{coalesces, kept}

-- `binary.Write` and `binary.Read` with `binary.LittleEndian`, on the bits of a number.
unfoldable pub little_endian : ℕ → ℕ → Bytes
little_endian zero bits = []
little_endian (suc width) bits = bits % 256 ∷ little_endian width (bits / 256)

unfoldable pub from_little_endian : Bytes → ℕ
from_little_endian [] = 0
from_little_endian (c ∷ cs) = c + 256 * from_little_endian cs

-- `WriteRune`, and the conversion of a rune to a string: what is no code point is U+FFFD.
unfoldable pub rune_bytes : ℤ → Bytes
unfolding utf8_rune
rune_bytes (negsuc n) = utf8_rune 0xfffd
rune_bytes (pos r) =
    if leb 0xd800 r && ltb r 0xe000 || leb 0x110000 r then utf8_rune 0xfffd else utf8_rune r

-- What `makeData` adds to the buffer. Its count of the items is never read.
unfoldable mutual
  unfolding little_endian rune_bytes

  pub make_data : Sexp → Outcome Bytes
  make_data (array es) = make_data_items es
  make_data (pair h t) = make_data h >>= λ head. make_data t >>= λ tail. ok (head ++ tail)
  make_data (str s) = ok s
  make_data (bin d) = ok d
  make_data (int i) = ok (little_endian 8 (to_bits 64 i))
  make_data (float bits) = ok (little_endian 8 bits)
  make_data (bool b) = ok ((if b then 1 else 0) ∷ [])
  make_data (char c) = ok (rune_bytes c)
  make_data _ = err no_conversion

  pub make_data_items : Items → Outcome Bytes
  make_data_items nil = ok []
  make_data_items (cons e es) =
      make_data e >>= λ head. make_data_items es >>= λ tail. ok (head ++ tail)

-- The loop of `MakeDataFunction`.
unfoldable pub make_data_all : List Sexp → Outcome Bytes
unfolding make_data
make_data_all [] = ok []
make_data_all (e ∷ es) = make_data e >>= λ head. make_data_all es >>= λ tail. ok (head ++ tail)

unfoldable pub make_data_function : List Hash → Bytes → List Sexp → Outcome Sexp
unfolding coalesces kept make_data_all
make_data_function hashes name args = coalesces name >>= λ coalesce.
    make_data_all (kept hashes coalesce args) >>= λ made. ok (bin made)
