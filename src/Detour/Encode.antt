-- ===== src/Detour/Encode.antt =====
-- The instruction words of game_patch_vsh_data/Memory/Detour.cpp: the `POWERPC_*` macros. Shifts are
-- products; the operands of `|` are 32-bit words as long as each field has its width.
pub mod Words
use Prim.Native.Nat.{bit_or}
use ps3_plugins.Base.{ℕ, ◌*◌, ◌/◌, ◌%◌, ◌^◌}

-- `POWERPC_HI` and `POWERPC_LO` of a 32-bit value.
unfoldable pub hi : ℕ → ℕ
hi x = x / 2 ^ 16 % 2 ^ 16

unfoldable pub lo : ℕ → ℕ
lo x = x % 2 ^ 16

abbrev pub opcode : ℕ → ℕ
opcode op = op * 2 ^ 26 % 2 ^ 32

abbrev pub opcode_addis : ℕ
opcode_addis = opcode 15

abbrev pub opcode_bc : ℕ
opcode_bc = opcode 16

abbrev pub opcode_b : ℕ
opcode_b = opcode 18

abbrev pub opcode_bcctr : ℕ
opcode_bcctr = opcode 19

abbrev pub opcode_ori : ℕ
opcode_ori = opcode 24

abbrev pub opcode_extended : ℕ
opcode_extended = opcode 31

abbrev pub opcode_ld : ℕ
opcode_ld = opcode 58

abbrev pub opcode_std : ℕ
opcode_std = opcode 62

-- `x & POWERPC_OPCODE_MASK`
unfoldable pub opcode_of : ℕ → ℕ
opcode_of x = x / 2 ^ 26 * 2 ^ 26

unfoldable pub exopcode : ℕ → ℕ
exopcode op = op * 2

-- `POWERPC_SPR`: the two halves of the number change places.
unfoldable pub spr_field : ℕ → ℕ
spr_field spr = bit_or (spr % 32 * 2 ^ 5) (spr / 2 ^ 5 % 32)

-- The form that the encoders share: opcode, a field from bit 10 and one from bit 15.
abbrev pub with_fields : ℕ → ℕ → ℕ → ℕ
with_fields op a b = bit_or (bit_or op (a * 2 ^ 21)) (b * 2 ^ 16)

unfoldable pub addis : ℕ → ℕ → ℕ → ℕ
addis rd ra simm = bit_or (with_fields opcode_addis rd ra) simm

unfoldable pub lis : ℕ → ℕ → ℕ
unfolding addis
lis rd simm = addis rd 0 simm

unfoldable pub mtspr : ℕ → ℕ → ℕ
unfolding spr_field exopcode
mtspr spr rs =
    bit_or (bit_or (bit_or opcode_extended (rs * 2 ^ 21)) (spr_field spr * 2 ^ 11)) (exopcode 467)

unfoldable pub mtctr : ℕ → ℕ
unfolding mtspr
mtctr rs = mtspr 9 rs

unfoldable pub ori : ℕ → ℕ → ℕ → ℕ
ori rs ra uimm = bit_or (with_fields opcode_ori rs ra) uimm

unfoldable pub bcctr : ℕ → ℕ → ℕ → ℕ
unfolding exopcode
bcctr bo bi lk = bit_or (bit_or (with_fields opcode_bcctr bo bi) (lk % 2)) (exopcode 528)

-- The displacement is the bit pattern of an `int16_t`.
unfoldable pub std : ℕ → ℕ → ℕ → ℕ
std rs ds ra = bit_or (with_fields opcode_std rs ra) ds

unfoldable pub ld : ℕ → ℕ → ℕ → ℕ
ld rs ds ra = bit_or (with_fields opcode_ld rs ra) ds
