-- ===== src/Bin2c/Reading.antt =====
-- What a reader of the array finds in the text.
use ps3_plugins.Base.{
  ℕ, zero, suc, ◌+◌, ◌-◌, ◌*◌, ◌/◌, ◌%◌, ◌≤◌, ◌<◌, ◌≡◌, refl, sym, ap, ◌∙◌, Bool, true, false, List,
  [], ◌∷◌, ◌++◌, arith, leb, ◌==◌, if◌then◌else◌, Bytes, codes, length, All,
}
use Prim.Native.Nat.{max}
use ps3_plugins.Hex.{hex_digit, hex_digits}
use ps3_plugins.Bin2c.{items, Options, my_fgetc, print_items, ending}

-- The value of a hexadecimal digit.
abbrev value : ℕ → ℕ
value c = if leb c b'9' then c - b'0' else c - b'a' + 10

-- The items of an array: `0`, another character, two digits and two characters; all else is passed.
unfoldable pub read_items : Bytes → List ℕ
read_items (a ∷ b ∷ h ∷ l ∷ c ∷ d ∷ rest) = elim (a == b'0') [
  | true ↦ (value h * 16 + value l) ∷ read_items rest
  | false ↦ read_items (b ∷ h ∷ l ∷ c ∷ d ∷ rest)
]
read_items _ = []

value-hex_digit : (d : ℕ) → value (hex_digit (d % 16)) ≡ d % 16
value-hex_digit d = ground arith

read-item :
    (c : ℕ) (rest : Bytes)
    → c < 256
    → read_items ((codes "0x" ++ hex_digits 2 c ++ codes ", ") ++ rest) ≡ c ∷ read_items rest
unfolding read_items hex_digits
read-item c rest h =
    ap (λ n. n ∷ read_items rest) (omega (arith, value-hex_digit (c / 16), value-hex_digit c))

-- A line end before an item is passed.
read-line_end :
    (c : ℕ) (rest : Bytes)
    → read_items (10 ∷ (codes "0x" ++ hex_digits 2 c ++ codes ", ") ++ rest)
      ≡ read_items ((codes "0x" ++ hex_digits 2 c ++ codes ", ") ++ rest)
unfolding read_items hex_digits
read-line_end c rest = refl

read-ending : read_items ending ≡ []
unfolding read_items
read-ending = refl

abbrev pub IsByte : ℕ → Type 0
IsByte b = b < 256

-- One item, on the line or on a new one.
read-step :
    (b : Bool) (c : ℕ) (more : Bytes) (found : List ℕ)
    → c < 256
    → read_items (more ++ ending) ≡ found
    → read_items (
        ((if b then 10 ∷ [] else []) ++ (codes "0x" ++ hex_digits 2 c ++ codes ", ") ++ more)
        ++ ending)
      ≡ c ∷ found
unfolding hex_digits
read-step true c more found h e =
    read-line_end c (more ++ ending) ∙ read-item c (more ++ ending) h ∙ ap (λ t. c ∷ t) e
read-step false c more found h e = read-item c (more ++ ending) h ∙ ap (λ t. c ∷ t) e

read-print_items :
    (fuel : ℕ) (input : Bytes) (z : Bool) (col : ℕ)
    → length input + 2 ≤ fuel
    → All IsByte input
    → read_items (print_items fuel input z col ++ ending) ≡ input ++ (if z then 0 ∷ [] else [])
unfolding print_items my_fgetc
read-print_items zero input z col f h = absurd (omega arith)
read-print_items (suc fuel) (c ∷ rest) z col f (hc, h) =
    read-step (leb (78 - 6) col) c _ _ hc (read-print_items fuel rest z _ (omega arith) h)
read-print_items (suc zero) [] z col f h = absurd (omega arith)
read-print_items (suc (suc fuel)) [] true col f h =
    read-step (leb (78 - 6) col) 0 [] [] (omega arith) read-ending
read-print_items (suc (suc fuel)) [] false col f h = read-ending

-- The length of the longest line, where the first one goes on from a column.
unfoldable pub widest : ℕ → Bytes → ℕ
widest n [] = n
widest n (c ∷ cs) = elim (c == 10) [ true ↦ max n (widest 0 cs) | false ↦ widest (n + 1) cs ]

hex_digit-no_line_end : (d : ℕ) → (hex_digit (d % 16) == 10) ≡ false
hex_digit-no_line_end d = ground arith

widest-char : (c n : ℕ) (cs : Bytes) → (c == 10) ≡ false → widest n (c ∷ cs) ≡ widest (n + 1) cs
unfolding widest
widest-char c n cs e = rw (e, widest) refl

widest-item :
    (c n : ℕ) (more : Bytes)
    → widest n ((codes "0x" ++ hex_digits 2 c ++ codes ", ") ++ more) ≡ widest (n + 6) more
unfolding hex_digits
widest-item c n more =
    widest-char b'0' n _ refl
    ∙ widest-char b'x' (n + 1) _ refl
    ∙ widest-char _ (n + 1 + 1) _ (hex_digit-no_line_end (c / 16))
    ∙ widest-char _ (n + 1 + 1 + 1) _ (hex_digit-no_line_end c)
    ∙ widest-char b',' (n + 1 + 1 + 1 + 1) _ refl
    ∙ widest-char b' ' (n + 1 + 1 + 1 + 1 + 1) _ refl
    ∙ ap (λ k. widest k more) (omega arith)

widest-line_end :
    (c n : ℕ) (more : Bytes)
    → widest n (10 ∷ (codes "0x" ++ hex_digits 2 c ++ codes ", ") ++ more) ≡ max n (widest 6 more)
unfolding widest
widest-line_end c n more = ap (max n) (widest-item c 0 more)

widest-ending : (n : ℕ) → n ≤ 72 → widest n ending ≤ 72
unfolding widest
widest-ending n h = omega arith

-- The column of the code is one more than that of the text, which is a multiple of 6.
widest-step :
    (b : Bool) (c n : ℕ) (more : Bytes)
    → leb (78 - 6) (n + 1) ≡ b
    → n % 6 ≡ 0
    → n ≤ 72
    → ((k : ℕ)
        → k % 6 ≡ 0
        → k ≤ 72
        → k + 1 ≡ (if b then 1 else n + 1) + 6
        → widest k (more ++ ending) ≤ 72)
    → widest n (
        ((if b then 10 ∷ [] else []) ++ (codes "0x" ++ hex_digits 2 c ++ codes ", ") ++ more)
        ++ ending)
      ≤ 72
unfolding hex_digits
widest-step true c n more e m h rest =
    omega (
      arith,
      widest-line_end c n (more ++ ending),
      rest 6 (omega arith) (omega arith) (omega arith),
    )
widest-step false c n more e m h rest = omega (
  arith,
  widest-item c n (more ++ ending),
  rest (n + 6) (omega arith) (ground arith) (omega arith),
)

widest-print_items :
    (fuel : ℕ) (input : Bytes) (z : Bool) (n col : ℕ)
    → n % 6 ≡ 0
    → n ≤ 72
    → col ≡ n + 1
    → widest n (print_items fuel input z col ++ ending) ≤ 72
unfolding print_items my_fgetc
widest-print_items zero input z n col m h e = widest-ending n h
widest-print_items (suc fuel) (c ∷ rest) z n col m h e = rw e (
    widest-step (leb (78 - 6) (n + 1)) c n _ refl m h
      (λ k mk hk ek. widest-print_items fuel rest z k _ mk hk (sym ek)))
widest-print_items (suc fuel) [] true n col m h e = rw e (
    widest-step (leb (78 - 6) (n + 1)) 0 n _ refl m h
      (λ k mk hk ek. widest-print_items fuel [] false k _ mk hk (sym ek)))
widest-print_items (suc fuel) [] false n col m h e = widest-ending n h

-- The text of the array is read as the bytes of the file, with a zero behind them where that is
-- asked for, and no line is longer than 72 characters.
pub read_items-items :
    (o : Options) (input : Bytes)
    → All IsByte input
    → (read_items (items o input ++ ending) ≡ input ++ (if o.zero_terminated then 0 ∷ [] else []))
      × (widest 0 (items o input ++ ending) ≤ 72)
read_items-items o input h = (
  read-print_items (length input + 2) input o.zero_terminated 1 (omega arith) h,
  widest-print_items (length input + 2) input o.zero_terminated 0 1 (omega arith) (omega arith)
      (omega arith),
)
