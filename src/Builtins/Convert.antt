-- ===== src/Builtins/Convert.antt =====
-- `MatchEndFunction` and `ConvertFunction` of functions.go.
use glisp.Prelude.{
  ℕ, ◌*◌, ◌-◌, ◌^◌, ltb, leb, ◌==◌, ℤ, pos, sub_ℕ, of_bits, Bool, true, false, ◌&&◌, Bytes,
  bytes_eq, codes, List, [], ◌∷◌, ◌++◌, Option, none, some, length, take, drop, if◌then◌else◌,
  Outcome, ok, err, ◌>>=◌, wrong_nargs, bad_number, no_conversion, short_data, different_types,
  unsupported_type,
}
use glisp.Sexp.{Sexp, array, int, bool, float, str, bin, of_list}
use glisp.Numbers.{Floats}
use glisp.Lexer.{is_digit}
use glisp.Parser.{digits_value}
use glisp.Builtins.Arguments.{Builtin}
use glisp.Builtins.Encoding.{from_little_endian}

-- `HasPrefix` and `HasSuffix`.
unfoldable pub has_prefix : Bytes → Bytes → Bool
has_prefix s part = leb (length part) (length s) && bytes_eq (take (length part) s) part

unfoldable pub has_suffix : Bytes → Bytes → Bool
has_suffix s part = leb (length part) (length s) && bytes_eq (drop (length s - length part) s) part

unfoldable pub has_end : Bytes → Bytes → Bytes → Sexp
unfolding has_prefix has_suffix
has_end name s part =
    bool (if bytes_eq name (codes "ends-with") then has_suffix s part else has_prefix s part)

-- The types that two arguments can share without being text or data.
unfoldable pub same_type : Sexp → Sexp → Bool
same_type (Sexp.sentinel _) (Sexp.sentinel _) = true
same_type (Sexp.pair _ _) (Sexp.pair _ _) = true
same_type (array _) (array _) = true
same_type (Sexp.hash _) (Sexp.hash _) = true
same_type (int _) (int _) = true
same_type (bool _) (bool _) = true
same_type (float _) (float _) = true
same_type (Sexp.char _) (Sexp.char _) = true
same_type (str _) (str _) = true
same_type (bin _) (bin _) = true
same_type (Sexp.event _) (Sexp.event _) = true
same_type (Sexp.symbol _) (Sexp.symbol _) = true
same_type (Sexp.func _) (Sexp.func _) = true
same_type (Sexp.stackmark _) (Sexp.stackmark _) = true
same_type (Sexp.foreign a) (Sexp.foreign b) = a == b
same_type _ _ = false

unfoldable pub match_end_function : Builtin
unfolding has_end same_type
match_end_function name (str s ∷ str part ∷ []) = ok (has_end name s part)
match_end_function name (bin s ∷ bin part ∷ []) = ok (has_end name s part)
match_end_function name (a ∷ b ∷ []) =
    if same_type a b then err unsupported_type else err different_types
match_end_function name _ = err wrong_nargs

-- What Go's libraries convert: a float to an int, a `float32` to a `float64`, both by their bits,
-- a text to a float of 32 or of 64 bits, and any value to the text of `fmt.Sprint`.
pub record Conversions : Type 0 where
  pub int_of_float : ℕ → ℤ
  pub float_of_single : ℕ → ℕ
  pub parse_float : ℕ → Bytes → Option ℕ
  pub sprint : Sexp → Bytes

unfoldable pub all_digits : Bytes → Bool
all_digits [] = true
all_digits (c ∷ cs) = is_digit c && all_digits cs

abbrev magnitude : Bytes → Outcome ℕ
magnitude [] = err bad_number
magnitude (c ∷ cs) = if all_digits (c ∷ cs) then ok (digits_value 10 0 (c ∷ cs)) else err bad_number

abbrev negative : ℕ → Outcome ℤ
negative n = if leb n (2 ^ 63) then ok (sub_ℕ 0 n) else err bad_number

abbrev positive : ℕ → Outcome ℤ
positive n = if ltb n (2 ^ 63) then ok (pos n) else err bad_number

-- `strconv.Atoi`
unfoldable pub atoi : Bytes → Outcome ℤ
unfolding all_digits digits_value
atoi [] = err bad_number
atoi (c ∷ cs) =
    if c == b'-'
    then (magnitude cs >>= negative)
    else if c == b'+'
    then (magnitude cs >>= positive)
    else (magnitude (c ∷ cs) >>= positive)

-- `binary.Read` takes the bytes that it needs, and leaves the others.
unfoldable pub read_bits : ℕ → Bytes → Outcome ℕ
unfolding from_little_endian
read_bits width d =
    if ltb (length d) width then err short_data else ok (from_little_endian (take width d))

module _ (f : Floats) (conv : Conversions) where
  abbrev truth : Bool → ℤ
  truth b = if b then pos 1 else pos 0

  -- An argument of `cvert-int64` or `cvert-int32`; an integer is not converted.
  unfoldable pub convert_int : ℕ → Sexp → Outcome Sexp
  unfolding read_bits atoi
  convert_int width (bin d) = read_bits width d >>= λ bits. ok (int (of_bits (8 * width) bits))
  convert_int width (str s) = atoi s >>= λ i. ok (int i)
  convert_int width (float bits) = ok (int (conv.int_of_float bits))
  convert_int width (bool b) = ok (int (truth b))
  convert_int width _ = err no_conversion

  -- An argument of `cvert-float64` or `cvert-float32`.
  unfoldable pub convert_float : ℕ → Sexp → Outcome Sexp
  unfolding read_bits
  convert_float width (bin d) = read_bits width d >>= λ bits.
      ok (float (if width == 4 then conv.float_of_single bits else bits))
  convert_float width (str s) = elim (conv.parse_float (8 * width) s) [
    | some bits ↦ ok (float bits)
    | none ↦ err bad_number
  ]
  convert_float width (int i) = ok (float (f.of_int i))
  convert_float width (bool b) = ok (float (f.of_int (truth b)))
  convert_float width _ = err no_conversion

  -- The loops of `ConvertFunction`, up to the first error.
  unfoldable pub convert_all : (Sexp → Outcome Sexp) → List Sexp → Outcome (List Sexp)
  convert_all convert [] = ok []
  convert_all convert (arg ∷ args) =
      convert arg >>= λ val. convert_all convert args >>= λ vals. ok (val ∷ vals)

  unfoldable pub convert_str : List Sexp → Bytes
  convert_str [] = []
  convert_str (bin d ∷ args) = d ++ convert_str args
  convert_str (arg ∷ args) = conv.sprint arg ++ convert_str args

  abbrev converted : (Sexp → Outcome Sexp) → List Sexp → Outcome Sexp
  converted convert args = convert_all convert args >>= λ ret. ok (array (of_list ret))

  unfoldable pub convert_function : Builtin
  unfolding convert_int convert_float convert_all convert_str
  convert_function name [] = err wrong_nargs
  convert_function name (arg ∷ args) =
      if bytes_eq name (codes "cvert-str")
      then ok (str (convert_str (arg ∷ args)))
      else if bytes_eq name (codes "cvert-int64")
      then converted (convert_int 8) (arg ∷ args)
      else if bytes_eq name (codes "cvert-int32")
      then converted (convert_int 4) (arg ∷ args)
      else if bytes_eq name (codes "cvert-float32")
      then converted (convert_float 4) (arg ∷ args)
      else if bytes_eq name (codes "cvert-float64")
      then converted (convert_float 8) (arg ∷ args)
      else err no_conversion
