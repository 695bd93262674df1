-- ===== src/Number/Digits.antt =====
-- What `strtoul` makes of a text of digits.
use ps3_plugins.Base.{
  ℕ, ◌+◌, ◌*◌, ◌/◌, ◌%◌, ◌^◌, ◌≤◌, ◌≡◌, refl, sym, ap, ◌∙◌, ◌≢◌, inl, inr, Bool, true, false, not,
  ◌&&◌, ◌||◌, none, some, [], ◌∷◌, ◌++◌, arith, ltb, ◌==◌, Bytes, All, Option-cases,
}
use native.Mathlib.Nat.{mod-add-mod, mod-add-div', add-mul-mod_self_right, zero-mod}
use ps3_plugins.CString.{skip_space, isspace}
use ps3_plugins.Number.{
  digit_in, Prefix, Scan, digits_loop, read_prefix, strtoul, is_hex, is_hex_base, string_to_uint,
}

-- The value of a digit, 0 for another byte.
abbrev pub digit : ℕ → ℕ → ℕ
digit base c = elim (digit_in base c) [ none ↦ 0 | some v ↦ v ]

-- The number that digits spell behind `n`, with no bound.
abbrev pub number : ℕ → ℕ → Bytes → ℕ
number base n [] = n
number base n (c ∷ ds) = number base (n * base + digit base c) ds

abbrev pub IsDigits : ℕ → Bytes → Type 0
IsDigits base = All (λ c. digit_in base c ≢ none)

-- No digit follows.
abbrev pub Ends : ℕ → Bytes → Type 0
Ends base [] = Unit
Ends base (c ∷ s) = digit_in base c ≡ none

mul_mod : (n m base v : ℕ) → (n % m * base % m + v) % m ≡ (n * base + v) % m
mul_mod n m base v =
    mod-add-mod (n % m * base) m v
    ∙ sym (add-mul-mod_self_right (n % m * base + v) (n / m * base) m)
    ∙ ap (λ t. t % m) (omega (arith, ap (λ (t : ℕ). t * base) (mod-add-div' n m)))

digits_loop_end :
    (bits base : ℕ) (rest : Bytes) (r : ℕ) (s : Bool)
    → Ends base rest
    → digits_loop bits base rest r s ≡ record { result = r; sawdigs = s; nptr = rest }
unfolding digits_loop
digits_loop_end bits base [] r s h = refl
digits_loop_end bits base (c ∷ rest) r s h = rw (h, digits_loop)

digits_loop_result :
    (bits base : ℕ) (ds rest : Bytes) (n : ℕ) (s : Bool)
    → IsDigits base ds
    → Ends base rest
    → (digits_loop bits base (ds ++ rest) (n % 2 ^ bits) s).result ≡ number base n ds % 2 ^ bits
unfolding digits_loop
digits_loop_result bits base [] rest n s h e =
    ap (λ (r : Scan). r.result) (digits_loop_end bits base rest (n % 2 ^ bits) s e)
digits_loop_result bits base (c ∷ ds) rest n s h e = elim (Option-cases (digit_in base c)) [
  | inl k ↦ absurd (h.0 k)
  | inr (v, k) ↦
      let value : digit base c ≡ v = rw (k, digit) in
      rw (k, digits_loop, mul_mod n (2 ^ bits) base v)
        (digits_loop_result bits base ds rest (n * base + v) true h.1 e
          ∙ ap (λ d. number base (n * base + d) ds % 2 ^ bits) (sym value))
]

digits_loop_zero :
    (bits base : ℕ) (ds rest : Bytes) (s : Bool)
    → IsDigits base ds
    → Ends base rest
    → (digits_loop bits base (ds ++ rest) 0 s).result ≡ number base 0 ds % 2 ^ bits
digits_loop_zero bits base ds rest s h e =
    ap (λ r. (digits_loop bits base (ds ++ rest) r s).result) (sym (zero-mod (2 ^ bits)))
    ∙ digits_loop_result bits base ds rest 0 s h e

decimal_range : (c : ℕ) → digit_in 10 c ≢ none → (b'0' ≤ c) × (c ≤ b'9')
unfolding digit_in
decimal_range c h = ground arith

-- A text that begins with no blank and no sign.
strtoul_unsigned :
    (bits base c : ℕ) (t : Bytes) (p : Prefix)
    → (not (base == 0) && (ltb base 2 || ltb 36 base)) ≡ false
    → isspace c ≡ false
    → (c == b'+' || c == b'-') ≡ false
    → read_prefix base (c ∷ t) ≡ p
    → (strtoul bits false (c ∷ t) base).0 ≡ (digits_loop bits p.base p.nptr 0 p.sawdigs).result
unfolding strtoul skip_space
strtoul_unsigned bits base c t p valid blank sign e =
    let minus : (c == b'-') ≡ false = ground arith in
    rw (valid, strtoul, blank, sign, minus)
      (ap (λ (p : Prefix). (digits_loop bits p.base p.nptr 0 p.sawdigs).result) e)

-- A text of decimal digits, ended by no digit, is read as its number modulo 2 ^ bits, where it does
-- not begin like a hexadecimal one.
pub string_to_uint_decimal :
    (bits : ℕ) (c : ℕ) (ds rest : Bytes)
    → IsDigits 10 (c ∷ ds)
    → Ends 10 rest
    → is_hex (c ∷ (ds ++ rest)) ≡ false
    → string_to_uint bits (c ∷ (ds ++ rest)) ≡ number 10 0 (c ∷ ds) % 2 ^ bits
unfolding string_to_uint
string_to_uint_decimal bits c ds rest h e plain =
    let range = decimal_range c h.0 in
    let base : is_hex_base (c ∷ (ds ++ rest)) ≡ 10 = unfold is_hex_base in rw plain in
    let blank : isspace c ≡ false = unfold isspace in ground arith in
    ap (λ b. (strtoul bits false (c ∷ (ds ++ rest)) b).0) base
    ∙ strtoul_unsigned bits 10 c (ds ++ rest)
        (record { base = 10; sawdigs = false; nptr = c ∷ (ds ++ rest) }) refl blank (ground arith)
        (unfold read_prefix in refl)
    ∙ digits_loop_zero bits 10 (c ∷ ds) rest false h e

-- A text of hexadecimal digits behind 0x or 0X is read as its number modulo 2 ^ bits.
pub string_to_uint_hex :
    (bits x : ℕ) (ds rest : Bytes)
    → (x == b'x' || x == b'X') ≡ true
    → IsDigits 16 ds
    → Ends 16 rest
    → string_to_uint bits (b'0' ∷ x ∷ (ds ++ rest)) ≡ number 16 0 ds % 2 ^ bits
unfolding string_to_uint
string_to_uint_hex bits x ds rest hx h e =
    let text : Bytes = b'0' ∷ x ∷ (ds ++ rest) in
    let base : is_hex_base text ≡ 16 = unfold is_hex_base in rw hx in
    let found : read_prefix 16 text ≡ record { base = 16; sawdigs = false; nptr = ds ++ rest } =
      unfold read_prefix in rw hx in
    ap (λ b. (strtoul bits false text b).0) base
    ∙ strtoul_unsigned bits 16 b'0' (x ∷ (ds ++ rest))
        (record { base = 16; sawdigs = false; nptr = ds ++ rest }) refl (unfold isspace in refl)
        refl found
    ∙ digits_loop_zero bits 16 ds rest false h e
