-- ===== src/Text/Escape.antt =====
-- game_patch/my_string.h: `parse_hex_digit`, `parse_octal_digit`, `unescape_char`,
-- `unescape_string`. A result of -1 is `none`. A `char` is its value modulo 256.
pub mod Bounds
pub mod Quote
use ps3_plugins.Base.{
  ℕ, zero, suc, ◌+◌, ◌-◌, ◌*◌, ◌%◌, not, ◌&&◌, ◌||◌, Option, none, some, [], ◌∷◌, leb, ◌==◌,
  if◌then◌else◌, Bytes, length, get_or, drop,
}
use ps3_plugins.CString.{isdigit, peek}

abbrev pub backslash : ℕ
backslash = b'\\'

abbrev pub quote_mark : ℕ
quote_mark = b'"'

unfoldable pub parse_hex_digit : ℕ → Option ℕ
parse_hex_digit c =
    if leb b'0' c && leb c b'9'
    then some (c - b'0')
    else if leb b'a' c && leb c b'f'
    then some (c - b'a' + 10)
    else if leb b'A' c && leb c b'F'
    then some (c - b'A' + 10)
    else none

unfoldable pub parse_octal_digit : ℕ → Option ℕ
parse_octal_digit c = if leb b'0' c && leb c b'7' then some (c - b'0') else none

-- What a round of the digit loops, and of `unescape_char`, gives back.
pub record Unescaped : Type 0 where
  pub dest : ℕ
  pub consumed : ℕ

-- The loops over at most `n` digits: `src` is `src + consumed`, `base` is 8 or 16.
unfoldable pub digit_loop : (ℕ → Option ℕ) → ℕ → ℕ → Bytes → Unescaped → Unescaped
digit_loop digit base zero src r = r
digit_loop digit base (suc n) [] r = r
digit_loop digit base (suc n) (c ∷ src) r = elim (digit c) [
  | none ↦ r
  | some d ↦
      digit_loop digit base n src (record { dest = r.dest * base + d; consumed = r.consumed + 1 })
]

-- The escapes of one letter.
unfoldable pub letter_escape : ℕ → Option ℕ
letter_escape c =
    if c == b'n'
    then some b'\n'
    else if c == b't'
    then some b'\t'
    else if c == b'r'
    then some b'\r'
    else if c == b'b'
    then some 8
    else if c == b'f'
    then some 12
    else if c == b'v'
    then some 11
    else if c == b'a'
    then some 7
    else if c == backslash
    then some backslash
    else if c == b'\''
    then some b'\''
    else if c == quote_mark
    then some quote_mark
    else if c == b'?'
    then some b'?'
    else none

-- `case '0'` to `case '7'`: `tail` is `src + 1`.
unfoldable pub octal_escape : Bytes → Unescaped
unfolding digit_loop parse_octal_digit
octal_escape tail =
    let r = digit_loop parse_octal_digit 8 3 tail (record { dest = 0; consumed = 1 }) in
    record { dest = r.dest % 256; consumed = r.consumed }

-- `case 'x'`: `tail` is `src + 2`.
unfoldable pub hex_escape : Bytes → Unescaped
unfolding digit_loop parse_hex_digit
hex_escape tail =
    let r = digit_loop parse_hex_digit 16 2 tail (record { dest = 0; consumed = 2 }) in
    if r.consumed == 2
    then record { dest = b'x'; consumed = 2 }
    else record { dest = r.dest % 256; consumed = r.consumed }

-- The switch on `src[1]`, with `tail` for `src + 1`.
unfoldable pub escape_switch : Bytes → Unescaped
unfolding letter_escape octal_escape hex_escape isdigit
escape_switch tail =
    let c = peek tail in
    elim (letter_escape c) [
      | some d ↦ record { dest = d; consumed = 2 }
      | none ↦
          if c == b'0' && (get_or tail 1 0 == 0 || not (isdigit (get_or tail 1 0)))
          then record { dest = 0; consumed = 2 }
          else if leb b'0' c && leb c b'7'
          then octal_escape tail
          else if c == b'x'
          then hex_escape (drop 1 tail)
          else record { dest = c; consumed = 2 }
    ]

unfoldable pub unescape_char : Bytes → Unescaped
unfolding escape_switch
unescape_char src =
    if not (peek src == backslash)
    then record { dest = peek src; consumed = 1 }
    else escape_switch (drop 1 src)

-- `while (src_pos < len)`; `src` is `str + src_pos`, and a round takes at least one byte, so that
-- the length of the text is fuel enough.
unfoldable pub unescape_loop : ℕ → Bytes → Bytes
unescape_loop zero src = []
unescape_loop (suc fuel) [] = []
unescape_loop (suc fuel) (c ∷ s) =
    let r = unescape_char (c ∷ s) in r.dest ∷ unescape_loop fuel (drop r.consumed (c ∷ s))

-- The bytes written before the final NUL; an escape may have put a NUL among them.
unfoldable pub unescape_string : Bytes → Bytes
unfolding unescape_loop unescape_char
unescape_string str = unescape_loop (length str) str

-- A buffer read as a C string: up to its first NUL.
unfoldable pub c_string : Bytes → Bytes
c_string [] = []
c_string (c ∷ s) = if c == 0 then [] else c ∷ c_string s
