-- ===== src/Builtins/Utf8.antt =====
-- The lexer's text and its bytes: Go's decoding undoes the UTF-8 form.
use native.Mathlib.Decide.{dec_lt}
use glisp.Prelude.{
  ℕ, ◌+◌, ◌-◌, ◌*◌, ◌/◌, ◌%◌, ◌≤◌, ◌<◌, ◌≡◌, refl, ap, ◌∙◌, true, false, ◌⊎◌, Bytes, [], ◌∷◌, ◌++◌,
  arith, All, lt→ltb, le→ltb,
}
use glisp.Lexer.{Runes, utf8_rune, utf8}
use glisp.Builtins.Runes.{
  between, second_of_three, second_of_four, rune_rest, rune_value, decode_behind, decode_runes,
}

-- The code points: no surrogate, and none past the last plane.
abbrev pub IsCodePoint : ℕ → Type 0
IsCodePoint r = (r < 0xd800) ⊎ ((0xe000 ≤ r) × (r < 0x110000))

between-true : (low high c : ℕ) → low ≤ c → c ≤ high → between low high c ≡ true
between-true low high c h h' = ground arith

below_range : (low high c : ℕ) → c < low → between low high c ≡ false
below_range low high c h = ground arith

above_range : (low high c : ℕ) → high < c → between low high c ≡ false
above_range low high c h = ground arith

rest_one : (c : ℕ) (cs : Bytes) → c < 0x80 → rune_rest c cs ≡ 0
unfolding rune_rest
rest_one c cs h =
    rw
      (
        below_range 0xc2 0xdf c (omega arith),
        below_range 0xe0 0xef c (omega arith),
        below_range 0xf0 0xf4 c (omega arith),
      )
      refl

rest_two :
    (c d : ℕ) (cs : Bytes)
    → (0xc2 ≤ c) × (c ≤ 0xdf) × (0x80 ≤ d) × (d ≤ 0xbf)
    → rune_rest c (d ∷ cs) ≡ 1
unfolding rune_rest
rest_two c d cs (h₁, h₂, h₃, h₄) =
    rw (between-true 0xc2 0xdf c h₁ h₂, between-true 0x80 0xbf d h₃ h₄) refl

-- Three bytes of a code point that is no surrogate.
rest_three :
    (c d e : ℕ) (cs : Bytes)
    → (0xe0 ≤ c) × (c ≤ 0xef) × (second_of_three c d ≡ true) × (0x80 ≤ e) × (e ≤ 0xbf)
    → rune_rest c (d ∷ e ∷ cs) ≡ 2
unfolding rune_rest
rest_three c d e cs (h₁, h₂, h₃, h₄, h₅) =
    rw
      (
        above_range 0xc2 0xdf c (omega arith),
        between-true 0xe0 0xef c h₁ h₂,
        h₃,
        between-true 0x80 0xbf e h₄ h₅,
      )
      refl

rest_four :
    (c d e g : ℕ) (cs : Bytes)
    → (0xf0 ≤ c)
      × (c ≤ 0xf4)
      × (second_of_four c d ≡ true)
      × (0x80 ≤ e)
      × (e ≤ 0xbf)
      × (0x80 ≤ g)
      × (g ≤ 0xbf)
    → rune_rest c (d ∷ e ∷ g ∷ cs) ≡ 3
unfolding rune_rest
rest_four c d e g cs (h₁, h₂, h₃, h₄, h₅, h₆, h₇) =
    rw
      (
        above_range 0xc2 0xdf c (omega arith),
        above_range 0xe0 0xef c (omega arith),
        between-true 0xf0 0xf4 c h₁ h₂,
        h₃,
        between-true 0x80 0xbf e h₄ h₅,
        between-true 0x80 0xbf g h₆ h₇,
      )
      refl

decode_step :
    (c : ℕ) (cs : Bytes) (n : ℕ)
    → rune_rest c cs ≡ n
    → decode_behind 0 (c ∷ cs) ≡ rune_value n c cs ∷ decode_behind n cs
unfolding decode_behind
decode_step c cs n h = ap (λ k. rune_value k c cs ∷ decode_behind k cs) h

second_of_three_byte :
    (r : ℕ)
    → (0x800 ≤ r) × (r < 0x10000)
    → IsCodePoint r
    → second_of_three (0xe0 + r / 4096) (0x80 + r / 64 % 64) ≡ true
second_of_three_byte r h p = ground arith

second_of_four_byte :
    (r : ℕ)
    → (0x10000 ≤ r) × (r < 0x110000)
    → second_of_four (0xf0 + r / 262144) (0x80 + r / 4096 % 64) ≡ true
second_of_four_byte r h = ground arith

-- The rune that a text starts with, in each of its four forms.
module _ (r : ℕ) (cs : Bytes) where
  abbrev Decodes : Type 0
  Decodes = decode_behind 0 (utf8_rune r ++ cs) ≡ r ∷ decode_behind 0 cs

  abbrev seen : ℕ → ℕ
  seen n = 0x80 + n % 64

  decode_one : r < 0x80 → Decodes
  unfolding utf8_rune decode_behind rune_value
  decode_one h =
      rw (lt→ltb r 0x80 h) (decode_step r cs 0 (rest_one r cs h) ∙ rw (lt→ltb r 0x80 h) refl)

  decode_two : 0x80 ≤ r → r < 0x800 → Decodes
  unfolding utf8_rune decode_behind rune_value
  decode_two h h' =
      let value : (0xc0 + r / 64 - 0xc0) * 64 + (seen r - 0x80) ≡ r = omega arith in
      rw (le→ltb 0x80 r h, lt→ltb r 0x800 h')
        (decode_step (0xc0 + r / 64) (seen r ∷ cs) 1
            (rest_two (0xc0 + r / 64) (seen r) cs (ground arith))
          ∙ ap (λ v. v ∷ decode_behind 0 cs) value)

  decode_three : 0x800 ≤ r → r < 0x10000 → IsCodePoint r → Decodes
  unfolding utf8_rune decode_behind rune_value
  decode_three h h' p =
      let c = 0xe0 + r / 4096 in
      let d = seen (r / 64) in
      let value : (c - 0xe0) * 4096 + (d - 0x80) * 64 + (seen r - 0x80) ≡ r = omega arith in
      let second : second_of_three c d ≡ true = second_of_three_byte r (h, h') p in
      rw (le→ltb 0x80 r (omega arith), le→ltb 0x800 r h, lt→ltb r 0x10000 h')
        (decode_step c (d ∷ seen r ∷ cs) 2 (
            rest_three c d (seen r) cs (omega arith, omega arith, second, omega arith, omega arith))
          ∙ ap (λ v. v ∷ decode_behind 0 cs) value)

  decode_four : 0x10000 ≤ r → r < 0x110000 → Decodes
  unfolding utf8_rune decode_behind rune_value
  decode_four h h' =
      let c = 0xf0 + r / 262144 in
      let d = seen (r / 4096) in
      let e = seen (r / 64) in
      let value : (c - 0xf0) * 262144 + (d - 0x80) * 4096 + (e - 0x80) * 64 + (seen r - 0x80) ≡ r =
        omega arith in
      let second : second_of_four c d ≡ true = second_of_four_byte r (h, h') in
      rw (le→ltb 0x80 r (omega arith), le→ltb 0x800 r (omega arith), le→ltb 0x10000 r h)
        (decode_step c (d ∷ e ∷ seen r ∷ cs) 3 (
            rest_four c d e (seen r) cs (
              omega arith,
              omega arith,
              second,
              omega arith,
              omega arith,
              omega arith,
              omega arith,
            ))
          ∙ ap (λ v. v ∷ decode_behind 0 cs) value)

  decode-utf8_rune : IsCodePoint r → Decodes
  decode-utf8_rune p = elim (dec_lt r 0x80) [
    | yes h ↦ decode_one h
    | no h ↦ elim (dec_lt r 0x800) [
      | yes h' ↦ decode_two (omega arith) h'
      | no h' ↦ elim (dec_lt r 0x10000) [
        | yes h'' ↦ decode_three (omega arith) h'' p
        | no h'' ↦ decode_four (omega arith) (ground arith)
      ]
    ]
  ]

-- Decoding undoes the UTF-8 form of a text of code points.
pub decode_runes-utf8 : (rs : Runes) → All IsCodePoint rs → decode_runes (utf8 rs) ≡ rs
unfolding decode_runes utf8
decode_runes-utf8 [] p = refl
decode_runes-utf8 (r ∷ rs) p =
    decode-utf8_rune r (utf8 rs) p.0 ∙ ap (λ xs. r ∷ xs) (decode_runes-utf8 rs p.1)
