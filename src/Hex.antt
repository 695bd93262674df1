-- ===== src/Hex.antt =====
-- Hexadecimal output: `%x` with and without a width, as shared/my_memory.cpp and bin2c/bin2c.c use
-- it.
use ps3_plugins.Base.{
  ℕ, zero, suc, ◌+◌, ◌-◌, ◌/◌, ◌%◌, [], ◌∷◌, ◌++◌, ltb, ◌==◌, if◌then◌else◌, Bytes,
}

-- A digit of `%x`, and the last n digits, the highest first.
abbrev pub hex_digit : ℕ → ℕ
hex_digit d = if ltb d 10 then b'0' + d else b'a' + (d - 10)

unfoldable pub hex_digits : ℕ → ℕ → Bytes
hex_digits zero v = []
hex_digits (suc n) v = hex_digits n (v / 16) ++ (hex_digit (v % 16) ∷ [])

-- `%lx`: as many digits as the value has, and one for 0; the first argument bounds them.
unfoldable pub hex_number : ℕ → ℕ → Bytes
hex_number zero v = []
hex_number (suc n) v =
    let above = hex_number n (v / 16) in
    (if v / 16 == 0 then [] else above) ++ (hex_digit (v % 16) ∷ [])
