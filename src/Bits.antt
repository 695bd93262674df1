-- ===== src/Bits.antt =====
-- `|` of fields that do not overlap, as arithmetic: what the word encoders of
-- game_patch_vsh_data/Memory/Detour.cpp need of it.
use Prim.Native.Nat.{max, digits, bit_or, bit_or-bitwise}
use native.Mathlib.Nat.{pow-suc, add-zero, mul_assoc}
use ps3_plugins.Base.{
  ℕ, zero, suc, ◌+◌, ◌*◌, ◌/◌, ◌%◌, ◌^◌, ◌≤◌, ◌<◌, ◌≡◌, refl, sym, ap, ◌∙◌, arith,
}

abbrev or_digits : ℕ → ℕ → ℕ → ℕ
or_digits = digits (λ b. b) max

or_digits_fuel : (n m a b : ℕ) → a ≤ n → a ≤ m → or_digits n a b ≡ or_digits m a b
or_digits_fuel zero zero a b p q = refl
or_digits_fuel zero (suc m) zero b p q = refl
or_digits_fuel zero (suc m) (suc a) b p q = absurd (omega arith)
or_digits_fuel (suc n) zero zero b p q = refl
or_digits_fuel (suc n) zero (suc a) b p q = absurd (omega arith)
or_digits_fuel (suc n) (suc m) zero b p q = refl
or_digits_fuel (suc n) (suc m) (suc a) b p q =
    omega (arith, or_digits_fuel n m (suc a / 2) (b / 2) (omega arith) (omega arith))

pub zero-bit_or : (b : ℕ) → bit_or 0 b ≡ b
zero-bit_or b = bit_or-bitwise 0 b

lowest_digit : (a b : ℕ) → bit_or a b ≡ bit_or (a / 2) (b / 2) * 2 + max (a % 2) (b % 2)
lowest_digit zero b = omega (arith, zero-bit_or b, zero-bit_or (b / 2))
lowest_digit (suc a) b = omega (
  arith,
  bit_or-bitwise (suc a) b,
  bit_or-bitwise (suc a / 2) (b / 2),
  or_digits_fuel a (suc a / 2) (suc a / 2) (b / 2) (omega arith) (omega arith),
)

bit_or-zero_fuel : (n a : ℕ) → a ≤ n → bit_or a 0 ≡ a
bit_or-zero_fuel n zero h = refl
bit_or-zero_fuel zero (suc a) h = absurd (omega arith)
bit_or-zero_fuel (suc n) (suc a) h =
    omega (arith, lowest_digit (suc a) 0, bit_or-zero_fuel n (suc a / 2) (omega arith))

-- What stands above bit k is not touched by an operand below it.
pub bit_or_below :
    (k q a b : ℕ) → a < 2 ^ k → b < 2 ^ k → bit_or (q * 2 ^ k + a) b ≡ q * 2 ^ k + bit_or a b
bit_or_below zero q zero zero ha hb =
    ap (λ t. bit_or t 0) (whole q) ∙ bit_or-zero_fuel q q (omega arith) ∙ sym (whole q)
  where
    whole : (n : ℕ) → n * 2 ^ 0 + 0 ≡ n
    whole n = omega arith
bit_or_below zero q (suc a) b ha hb = absurd (omega arith)
bit_or_below zero q zero (suc b) ha hb = absurd (omega arith)
bit_or_below (suc k) q a b ha hb = omega (
  arith,
  doubled,
  lowest_digit (q * 2 ^ suc k + a) b,
  lowest_digit a b,
  ap (λ t. bit_or t (b / 2)) half,
  ap (λ t. max t (b % 2)) last,
  bit_or_below k q (a / 2) (b / 2) (omega (arith, pow-suc 2 k)) (omega (arith, pow-suc 2 k)),
)
  where
    doubled : q * 2 ^ suc k ≡ q * 2 ^ k * 2
    doubled = rw (pow-suc 2 k) (sym (mul_assoc q (2 ^ k) 2))

    half : (q * 2 ^ suc k + a) / 2 ≡ q * 2 ^ k + a / 2
    half = omega (arith, doubled)

    last : (q * 2 ^ suc k + a) % 2 ≡ a % 2
    last = omega (arith, doubled)

-- A field below a multiple of 2 ^ k is added.
pub bit_or_field : (k q b : ℕ) → b < 2 ^ k → bit_or (q * 2 ^ k) b ≡ q * 2 ^ k + b
bit_or_field k q b hb =
    ap (λ t. bit_or t b) (sym (add-zero (q * 2 ^ k)))
    ∙ bit_or_below k q 0 b (omega arith) hb
    ∙ ap (λ t. q * 2 ^ k + t) (zero-bit_or b)
