-- ===== src/Builtins/Runes.antt =====
-- Go's reading of bytes as UTF-8: the runes of a text. `ReadRune` and `range` over a string do it.
use glisp.Prelude.{
  ℕ, zero, suc, ◌+◌, ◌-◌, ◌*◌, ltb, leb, ◌==◌, Bool, false, ◌&&◌, Bytes, [], ◌∷◌, if◌then◌else◌,
}
use glisp.Lexer.{Runes}

abbrev pub between : ℕ → ℕ → ℕ → Bool
between low high c = leb low c && leb c high

abbrev pub follows : Bytes → Bool
follows [] = false
follows (c ∷ _) = between 0x80 0xbf c

-- The ranges of the second byte of a form of three or four bytes.
abbrev pub second_of_three : ℕ → ℕ → Bool
second_of_three c d =
    between (if c == 0xe0 then 0xa0 else 0x80) (if c == 0xed then 0x9f else 0xbf) d

abbrev pub second_of_four : ℕ → ℕ → Bool
second_of_four c d = between (if c == 0xf0 then 0x90 else 0x80) (if c == 0xf4 then 0x8f else 0xbf) d

abbrev pub three_follow : ℕ → Bytes → Bool
three_follow c (d ∷ cs) = second_of_three c d && follows cs
three_follow c _ = false

abbrev pub four_follow : ℕ → Bytes → Bool
four_follow c (d ∷ e ∷ cs) = second_of_four c d && follows (e ∷ []) && follows cs
four_follow c _ = false

-- How many bytes behind the first one belong to its rune; none if the bytes are no UTF-8 form.
unfoldable pub rune_rest : ℕ → Bytes → ℕ
rune_rest c cs =
    if between 0xc2 0xdf c && follows cs
    then 1
    else if between 0xe0 0xef c && three_follow c cs
    then 2
    else if between 0xf0 0xf4 c && four_follow c cs
    then 3
    else 0

-- The low six bits of a byte.
abbrev pub six_bits : Bytes → ℕ
six_bits [] = 0
six_bits (c ∷ _) = c - 0x80

abbrev pub behind : Bytes → Bytes
behind [] = []
behind (_ ∷ cs) = cs

-- The rune at the start of a text, by the number of bytes behind its first.
unfoldable pub rune_value : ℕ → ℕ → Bytes → ℕ
rune_value zero c cs = if ltb c 0x80 then c else 0xfffd
rune_value (suc zero) c cs = (c - 0xc0) * 64 + six_bits cs
rune_value (suc (suc zero)) c cs = (c - 0xe0) * 4096 + six_bits cs * 64 + six_bits (behind cs)
rune_value (suc (suc (suc _))) c cs =
    (c - 0xf0) * 262144
    + six_bits cs * 4096
    + six_bits (behind cs) * 64
    + six_bits (behind (behind cs))

-- The runes of a text, behind the bytes that belong to the rune before.
unfoldable pub decode_behind : ℕ → Bytes → Runes
unfolding rune_rest rune_value
decode_behind skip [] = []
decode_behind (suc skip) (c ∷ cs) = decode_behind skip cs
decode_behind zero (c ∷ cs) = rune_value (rune_rest c cs) c cs ∷ decode_behind (rune_rest c cs) cs

unfoldable pub decode_runes : Bytes → Runes
unfolding decode_behind
decode_runes s = decode_behind 0 s
