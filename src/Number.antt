-- ===== src/Number.antt =====
-- game_patch/lv2_stdio.h `strtoul`, with its callers `strtoull` and `strtoll` and those of
-- game_patch/patch.c: `isHex`, `isHexBase`, `string_to_uint`, `string_to_int`.
-- `unsigned long` has `bits` bits; the text is not NULL.
pub mod Digits
use ps3_plugins.Base.{
  ℕ, ◌+◌, ◌-◌, ◌*◌, ◌%◌, ◌^◌, Bool, true, false, not, ◌&&◌, ◌||◌, Option, none, some, [], ◌∷◌, ltb,
  leb, ◌==◌, if◌then◌else◌, Bytes, drop, ◌>>=◌,
}
use ps3_plugins.CString.{peek, skip_space}

-- The digits of the switch, in any base: `none` for another byte.
unfoldable pub digit_value : ℕ → Option ℕ
digit_value c =
    if leb b'0' c && leb c b'9'
    then some (c - b'0')
    else if leb b'A' c && leb c b'Z'
    then some (c - b'A' + 10)
    else if leb b'a' c && leb c b'z'
    then some (c - b'a' + 10)
    else none

-- A digit below the base, where the loop goes on.
unfoldable pub digit_in : ℕ → ℕ → Option ℕ
unfolding digit_value
digit_in base c = do val ← digit_value c; if leb base val then none else some val

-- What the loop leaves: `result`, `sawdigs` and `nptr`.
pub record Scan : Type 0 where
  pub result : ℕ
  pub sawdigs : Bool
  pub nptr : Bytes

unfoldable pub digits_loop : ℕ → ℕ → Bytes → ℕ → Bool → Scan
unfolding digit_in
digits_loop bits base [] result sawdigs = record { result = result; sawdigs = sawdigs; nptr = [] }
digits_loop bits base (c ∷ nptr) result sawdigs = elim (digit_in base c) [
  | none ↦ record { result = result; sawdigs = sawdigs; nptr = c ∷ nptr }
  | some val ↦ digits_loop bits base nptr ((result * base % 2 ^ bits + val) % 2 ^ bits) true
]

-- The sign behind the blanks.
abbrev pub is_minus : Bytes → Bool
is_minus nptr = peek nptr == b'-'

abbrev pub skip_sign : Bytes → Bytes
skip_sign nptr = if peek nptr == b'+' || peek nptr == b'-' then drop 1 nptr else nptr

-- The base, `sawdigs` and `nptr` behind a prefix.
pub record Prefix : Type 0 where
  pub base : ℕ
  pub sawdigs : Bool
  pub nptr : Bytes

unfoldable pub read_prefix : ℕ → Bytes → Prefix
read_prefix base nptr =
    if (base == 0 || base == 16)
      && (peek nptr == b'0' && (peek (drop 1 nptr) == b'x' || peek (drop 1 nptr) == b'X'))
    then record { base = 16; sawdigs = false; nptr = drop 2 nptr }
    else if (base == 0 || base == 8) && peek nptr == b'0'
    then record { base = 8; sawdigs = true; nptr = drop 1 nptr }
    else if base == 0
    then record { base = 10; sawdigs = false; nptr = nptr }
    else record { base = base; sawdigs = false; nptr = nptr }

-- The last part: ULONG_MAX stays, any other result is negated modulo 2 ^ bits.
abbrev pub negated : ℕ → ℕ → ℕ
negated bits result = if result == 2 ^ bits - 1 then result else (2 ^ bits - result) % 2 ^ bits

-- The result, and `*endptr`. Where `endptr` is wanted and no digit was seen, that is the whole text.
unfoldable pub strtoul : ℕ → Bool → Bytes → ℕ → ℕ × Bytes
unfolding digits_loop read_prefix skip_space
strtoul bits want_end nptr base =
    if not (base == 0) && (ltb base 2 || ltb 36 base)
    then (0, nptr)
    else (let signed = skip_space nptr in
        let p = read_prefix base (skip_sign signed) in
        let scan = digits_loop bits p.base p.nptr 0 p.sawdigs in
        if want_end && not scan.sawdigs
        then (0, nptr)
        else (if is_minus signed then negated bits scan.result else scan.result, scan.nptr))

-- `strtoull`, and `strtoll` as a bit pattern.
abbrev pub strtoull : ℕ → Bool → Bytes → ℕ → ℕ × Bytes
strtoull = strtoul

unfoldable pub is_hex : Bytes → Bool
is_hex s = peek s == b'0' && (peek (drop 1 s) == b'x' || peek (drop 1 s) == b'X')

unfoldable pub is_hex_base : Bytes → ℕ
unfolding is_hex
is_hex_base s = if is_hex s then 16 else 10

-- `string_to_uint`; `string_to_int` has the same bits.
unfoldable pub string_to_uint : ℕ → Bytes → ℕ
unfolding strtoul is_hex_base
string_to_uint bits str = (strtoul bits false str (is_hex_base str)).0
