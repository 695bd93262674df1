-- ===== src/Text/Escape/Bounds.antt =====
-- Bounds of `unescape_char`, and the loop of `unescape_string`.
use ps3_plugins.Base.{
  ℕ, zero, suc, ◌+◌, ◌*◌, ◌≤◌, ◌<◌, ◌≡◌, refl, ap, inl, inr, Option, [], ◌∷◌, arith, Bytes, length,
  drop, length-drop, All, Option-cases,
}
use ps3_plugins.CString.{peek}
use ps3_plugins.Text.Escape.{
  Unescaped, parse_hex_digit, parse_octal_digit, digit_loop, letter_escape, octal_escape,
  hex_escape, escape_switch, unescape_char, unescape_loop, unescape_string,
}

digit_loop_consumed :
    (digit : ℕ → Option ℕ) (base n : ℕ) (src : Bytes) (r : Unescaped)
    → (r.consumed ≤ (digit_loop digit base n src r).consumed)
      × ((digit_loop digit base n src r).consumed ≤ r.consumed + n)
unfolding digit_loop
digit_loop_consumed digit base zero src r = omega arith
digit_loop_consumed digit base (suc n) [] r = omega arith
digit_loop_consumed digit base (suc n) (c ∷ src) r = elim (Option-cases (digit c)) [
  | inl e ↦ rw (e, digit_loop) (omega arith)
  | inr (d, e) ↦
      rw (e, digit_loop)
        (omega (
          arith,
          digit_loop_consumed digit base n src
              (record { dest = r.dest * base + d; consumed = r.consumed + 1 }),
        ))
]

octal_escape_bounds :
    (tail : Bytes)
    → (1 ≤ (octal_escape tail).consumed)
      × ((octal_escape tail).consumed ≤ 4)
      × ((octal_escape tail).dest < 256)
unfolding octal_escape
octal_escape_bounds tail =
    ground
      (arith, digit_loop_consumed parse_octal_digit 8 3 tail (record { dest = 0; consumed = 1 }))

hex_escape_bounds :
    (tail : Bytes)
    → (1 ≤ (hex_escape tail).consumed)
      × ((hex_escape tail).consumed ≤ 4)
      × ((hex_escape tail).dest < 256)
unfolding hex_escape
hex_escape_bounds tail =
    ground
      (arith, digit_loop_consumed parse_hex_digit 16 2 tail (record { dest = 0; consumed = 2 }))

letter_escape_bound : (c d : ℕ) → letter_escape c ≡ Option.some d → d < 256
unfolding letter_escape
letter_escape_bound c d h = ground arith

escape_switch_consumed :
    (tail : Bytes) → (1 ≤ (escape_switch tail).consumed) × ((escape_switch tail).consumed ≤ 4)
unfolding escape_switch
escape_switch_consumed tail = elim (Option-cases (letter_escape (peek tail))) [
  | inr (d, e) ↦ rw (e, escape_switch) (omega arith)
  | inl e ↦
      rw (e, escape_switch)
        (ground (arith, octal_escape_bounds tail, hex_escape_bounds (drop 1 tail)))
]

escape_switch_dest : (tail : Bytes) → peek tail < 256 → (escape_switch tail).dest < 256
unfolding escape_switch
escape_switch_dest tail h = elim (Option-cases (letter_escape (peek tail))) [
  | inr (d, e) ↦ rw (e, escape_switch) (omega (arith, letter_escape_bound (peek tail) d e))
  | inl e ↦
      rw (e, escape_switch)
        (ground (arith, octal_escape_bounds tail, hex_escape_bounds (drop 1 tail)))
]

pub unescape_char_consumed :
    (src : Bytes) → (1 ≤ (unescape_char src).consumed) × ((unescape_char src).consumed ≤ 4)
unfolding unescape_char
unescape_char_consumed src = ground (arith, escape_switch_consumed (drop 1 src))

unescape_char_dest : (src : Bytes) → All (λ c. c < 256) src → (unescape_char src).dest < 256
unfolding unescape_char
unescape_char_dest [] h = ground (arith, escape_switch_dest [])
unescape_char_dest (c ∷ []) h = ground (arith, escape_switch_dest [])
unescape_char_dest (c ∷ d ∷ s) h = ground (arith, escape_switch_dest (d ∷ s))

All-drop : (n : ℕ) (s : Bytes) → All (λ c. c < 256) s → All (λ c. c < 256) (drop n s)
All-drop zero s h = h
All-drop (suc n) [] h = h
All-drop (suc n) (c ∷ s) h = All-drop n s h.1

-- More fuel than the length of the text changes nothing.
pub unescape_loop_fuel :
    (f g : ℕ) (s : Bytes) → length s ≤ f → length s ≤ g → unescape_loop f s ≡ unescape_loop g s
unfolding unescape_loop
unescape_loop_fuel zero zero s p q = refl
unescape_loop_fuel zero (suc g) [] p q = refl
unescape_loop_fuel (suc f) zero [] p q = refl
unescape_loop_fuel zero (suc g) (c ∷ s) p q = absurd (omega arith)
unescape_loop_fuel (suc f) zero (c ∷ s) p q = absurd (omega arith)
unescape_loop_fuel (suc f) (suc g) [] p q = refl
unescape_loop_fuel (suc f) (suc g) (c ∷ s) p q =
    let k = (unescape_char (c ∷ s)).consumed in
    let rest = drop k (c ∷ s) in
    let shorter : length rest ≤ length s =
      omega (arith, length-drop k (c ∷ s), unescape_char_consumed (c ∷ s)) in
    ap (λ t. (unescape_char (c ∷ s)).dest ∷ t)
      (unescape_loop_fuel f g rest (omega arith) (omega arith))

unescape_loop_bytes :
    (f : ℕ) (s : Bytes) → All (λ c. c < 256) s → All (λ c. c < 256) (unescape_loop f s)
unfolding unescape_loop
unescape_loop_bytes zero s h = tt
unescape_loop_bytes (suc f) [] h = tt
unescape_loop_bytes (suc f) (c ∷ s) h = (
  unescape_char_dest (c ∷ s) h,
  unescape_loop_bytes f _ (All-drop (unescape_char (c ∷ s)).consumed (c ∷ s) h),
)

-- The loop as a relation, without fuel: it ends at the end of the text, and a round writes one byte
-- and goes on behind those that it has taken. A loop that does not end is in no such relation.
pub data Unescapes : Bytes → Bytes → Type 0 where
  ended : Unescapes [] []
  round :
      {c : ℕ} {s out : Bytes}
      → Unescapes (drop (unescape_char (c ∷ s)).consumed (c ∷ s)) out
      → Unescapes (c ∷ s) ((unescape_char (c ∷ s)).dest ∷ out)

unescape_loop-Unescapes : (f : ℕ) (s : Bytes) → length s ≤ f → Unescapes s (unescape_loop f s)
unfolding unescape_loop
unescape_loop-Unescapes zero [] h = ended
unescape_loop-Unescapes zero (c ∷ s) h = absurd (omega arith)
unescape_loop-Unescapes (suc f) [] h = ended
unescape_loop-Unescapes (suc f) (c ∷ s) h = round (
    unescape_loop-Unescapes f (drop (unescape_char (c ∷ s)).consumed (c ∷ s)) (
      omega (
        arith,
        length-drop (unescape_char (c ∷ s)).consumed (c ∷ s),
        unescape_char_consumed (c ∷ s),
      )))

Unescapes-length : {s out : Bytes} → Unescapes s out → length out ≤ length s
Unescapes-length ended = omega arith
Unescapes-length (round {c} {s} {out} rest) = omega (
  arith,
  length-drop (unescape_char (c ∷ s)).consumed (c ∷ s),
  unescape_char_consumed (c ∷ s),
  Unescapes-length rest,
)

-- For a text of bytes the loop of `unescape_string` ends, and what the function gives is what its
-- rounds have written: bytes, and no more of them than the text has, so that they and the final NUL
-- fit into the `strlen(str) + 1` bytes that it allocates.
pub unescape_string-Unescapes :
    (s : Bytes)
    → All (λ c. c < 256) s
    → Unescapes s (unescape_string s)
      × (length (unescape_string s) + 1 ≤ length s + 1)
      × All (λ c. c < 256) (unescape_string s)
unfolding unescape_string
unescape_string-Unescapes s h =
    let ran = unescape_loop-Unescapes (length s) s (omega arith) in
    (ran, omega (arith, Unescapes-length ran), unescape_loop_bytes (length s) s h)
