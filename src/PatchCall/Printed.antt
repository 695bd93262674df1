-- ===== src/PatchCall/Printed.antt =====
-- What `hex_dump` prints: printable text in rows, with a place for every byte.
use ps3_plugins.Base.{
  ℕ, zero, suc, ◌+◌, ◌*◌, ◌/◌, ◌%◌, ◌≤◌, ◌<◌, min, ◌≡◌, refl, ◌⊎◌, inl, inr, Bool, true, false, [],
  ◌∷◌, ◌++◌, arith, ◌==◌, if◌then◌else◌, Bytes, codes, length, drop, length-append, length-drop,
  All, All-append,
}
use ps3_plugins.Hex.{hex_digit, hex_digits, hex_number}
use ps3_plugins.PatchCall.{hex_cells, text_cells, isprint, hex_row, hex_rows, hex_dump}

-- A printable ASCII character or the end of a line.
abbrev pub Printable : ℕ → Type 0
Printable c = ((0x20 ≤ c) × (c < 0x7f)) ⊎ (c ≡ 10)

abbrev pub IsByte : ℕ → Type 0
IsByte b = b < 256

hex_digit-Printable : (d : ℕ) → Printable (hex_digit (d % 16))
hex_digit-Printable d = inl (ground arith)

append : (xs ys : Bytes) → All Printable xs → All Printable ys → All Printable (xs ++ ys)
append = All-append Printable

hex_digits-Printable : (n v : ℕ) → All Printable (hex_digits n v)
unfolding hex_digits
hex_digits-Printable zero v = tt
hex_digits-Printable (suc n) v =
    append _ _ (hex_digits-Printable n (v / 16)) (hex_digit-Printable v, tt)

hex_number-Printable : (n v : ℕ) → All Printable (hex_number n v)
unfolding hex_number
hex_number-Printable zero v = tt
hex_number-Printable (suc n) v =
    append _ _ (shorter _ (v / 16 == 0) (hex_number-Printable n (v / 16)))
      (hex_digit-Printable v, tt)
  where
    shorter : (xs : Bytes) (b : Bool) → All Printable xs → All Printable (if b then [] else xs)
    shorter xs true h = tt
    shorter xs false h = h

space : Printable 32
space = inl (omega arith)

hex_cells-Printable : (n : ℕ) (p : Bytes) → All Printable (hex_cells n p)
unfolding hex_cells
hex_cells-Printable zero p = tt
hex_cells-Printable (suc n) [] = (space, (space, (space, hex_cells-Printable n [])))
hex_cells-Printable (suc n) (b ∷ p) =
    append (hex_digits 2 b ++ codes " ") (hex_cells n p)
      (append (hex_digits 2 b) (codes " ") (hex_digits-Printable 2 b) (space, tt))
      (hex_cells-Printable n p)

text_cells-Printable : (n : ℕ) (p : Bytes) → All IsByte p → All Printable (text_cells n p)
unfolding text_cells isprint
text_cells-Printable zero p h = tt
text_cells-Printable (suc n) [] h = text_cells-Printable n [] tt
text_cells-Printable (suc n) (b ∷ p) (hb, h) = (inl (ground arith), text_cells-Printable n p h)

hex_row-Printable : (a : ℕ) (p : Bytes) → All IsByte p → All Printable (hex_row a p)
unfolding hex_row
hex_row-Printable a p h =
    (d _, (d _, (d _, (d _, (d _, (d _, (d _, (d _, (inl (omega arith), (space, cells))))))))))
  where
    d : (v : ℕ) → Printable (hex_digit (v % 16))
    d = hex_digit-Printable

    bar : Printable b'|'
    bar = inl (omega arith)

    cells :
        All Printable
          (((hex_cells 16 p ++ codes "  |") ++ text_cells 16 p ++ codes "|") ++ (10 ∷ []))
    cells =
        append ((hex_cells 16 p ++ codes "  |") ++ text_cells 16 p ++ codes "|") (10 ∷ [])
          (append ((hex_cells 16 p ++ codes "  |") ++ text_cells 16 p) (codes "|")
            (append (hex_cells 16 p ++ codes "  |") (text_cells 16 p)
              (append (hex_cells 16 p) (codes "  |") (hex_cells-Printable 16 p)
                (space, (space, (bar, tt))))
              (text_cells-Printable 16 p h))
            (bar, tt))
          (inr refl, tt)

drop-IsByte : (n : ℕ) (p : Bytes) → All IsByte p → All IsByte (drop n p)
drop-IsByte zero p h = h
drop-IsByte (suc n) [] h = tt
drop-IsByte (suc n) (b ∷ p) (_, h) = drop-IsByte n p h

hex_rows-Printable : (n real i : ℕ) (p : Bytes) → All IsByte p → All Printable (hex_rows n real i p)
unfolding hex_rows
hex_rows-Printable zero real i p h = tt
hex_rows-Printable (suc n) real i p h =
    append (hex_row (real + i) p) (hex_rows n real (i + 16) (drop 16 p))
      (hex_row-Printable (real + i) p h)
      (hex_rows-Printable n real (i + 16) (drop 16 p) (drop-IsByte 16 p h))

length-hex_digits : (n v : ℕ) → length (hex_digits n v) ≡ n
unfolding hex_digits
length-hex_digits zero v = refl
length-hex_digits (suc n) v = omega (
  arith,
  length-append (hex_digits n (v / 16)) (hex_digit (v % 16) ∷ []),
  length-hex_digits n (v / 16),
)

length-hex_cells : (n : ℕ) (p : Bytes) → length (hex_cells n p) ≡ 3 * n
unfolding hex_cells
length-hex_cells zero p = refl
length-hex_cells (suc n) [] = omega (arith, length-hex_cells n [])
length-hex_cells (suc n) (b ∷ p) = omega (
  arith,
  length-append (hex_digits 2 b ++ codes " ") (hex_cells n p),
  length-append (hex_digits 2 b) (codes " "),
  length-hex_digits 2 b,
  length-hex_cells n p,
)

length-text_cells : (n : ℕ) (p : Bytes) → length (text_cells n p) ≡ min n (length p)
unfolding text_cells
length-text_cells zero p = omega arith
length-text_cells (suc n) [] = omega (arith, length-text_cells n [])
length-text_cells (suc n) (b ∷ p) = omega (arith, length-text_cells n p)

length-hex_row : (a : ℕ) (p : Bytes) → length (hex_row a p) ≡ 63 + min 16 (length p)
unfolding hex_row
length-hex_row a p = omega (
  arith,
  length-append ((hex_cells 16 p ++ codes "  |") ++ text_cells 16 p ++ codes "|") (10 ∷ []),
  length-append ((hex_cells 16 p ++ codes "  |") ++ text_cells 16 p) (codes "|"),
  length-append (hex_cells 16 p ++ codes "  |") (text_cells 16 p),
  length-append (hex_cells 16 p) (codes "  |"),
  length-hex_cells 16 p,
  length-text_cells 16 p,
)

length-hex_rows :
    (n real i : ℕ) (p : Bytes) → length (hex_rows n real i p) ≡ 63 * n + min (16 * n) (length p)
unfolding hex_rows
length-hex_rows zero real i p = omega arith
length-hex_rows (suc n) real i p = omega (
  arith,
  length-append (hex_row (real + i) p) (hex_rows n real (i + 16) (drop 16 p)),
  length-hex_row (real + i) p,
  length-hex_rows n real (i + 16) (drop 16 p),
  length-drop 16 p,
)

-- All that is printed is printable text, and without a heading it has 63 characters for each row
-- of 16 bytes, the last one included, and one more for each byte.
pub hex_dump-Printable :
    (p : Bytes) (real : ℕ)
    → All IsByte p
    → All Printable (hex_dump p real)
      × (length (hex_dump p 0) ≡ 63 * ((length p + 15) / 16) + length p)
unfolding hex_dump
hex_dump-Printable p real h = (
  append (if real == 0 then [] else codes "offset: " ++ hex_number 8 real ++ (10 ∷ []))
      (hex_rows ((length p + 15) / 16) real 0 p) (heading (real == 0))
      (hex_rows-Printable ((length p + 15) / 16) real 0 p h),
  omega (arith, length-hex_rows ((length p + 15) / 16) 0 0 p),
)
  where
    offset : All Printable (codes "offset: ")
    offset = omega arith

    heading :
        (b : Bool)
        → All Printable (if b then [] else codes "offset: " ++ hex_number 8 real ++ (10 ∷ []))
    heading true = tt
    heading false =
        append (codes "offset: " ++ hex_number 8 real) (10 ∷ [])
          (append (codes "offset: ") (hex_number 8 real) offset (hex_number-Printable 8 real))
          (inr refl, tt)
