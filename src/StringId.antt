-- ===== src/StringId.antt =====
-- shared/stringid.h: the hash of a string, 32-bit FNV-1a; `char` is signed or not with the compiler.
pub mod Concat
pub mod Bounds
use ps3_plugins.Base.{
  ℕ, ◌+◌, ◌-◌, ◌*◌, ◌%◌, ◌^◌, Bool, ◌&&◌, [], ◌∷◌, leb, ◌==◌, if◌then◌else◌, Bytes,
}
use Prim.Native.Nat.{bit_xor}

abbrev pub u32 : ℕ
u32 = 2 ^ 32

abbrev pub fnv_prime : ℕ
fnv_prime = 0x01000193

abbrev pub fnv_offset : ℕ
fnv_offset = 0x811c9dc5

-- A `char` converted to uint32_t.
unfoldable pub char_word : Bool → ℕ → ℕ
char_word signed_char c = if signed_char && leb 128 c then c + (u32 - 256) else c

-- `base = 0x01000193 * (base ^ *str++)` until the NUL.
unfoldable pub fnv : Bool → Bytes → ℕ → ℕ
unfolding char_word
fnv signed_char [] base = base
fnv signed_char (c ∷ str) base =
    fnv signed_char str (fnv_prime * bit_xor base (char_word signed_char c) % u32)

-- A base of 0 stands for the usual one.
unfoldable pub stringid : Bool → Bytes → ℕ → ℕ
unfolding fnv
stringid signed_char str base = fnv signed_char str (if base == 0 then fnv_offset else base)
