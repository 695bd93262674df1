-- ===== src/PatchCall.antt =====
-- shared/my_memory.cpp and shared/memory.h: `patch_call_`, with the macros that make and read a
-- relative branch, and `hex_dump`. Addresses have 32 bits; what `patch_call_` prints is left out.
pub mod Redirect
pub mod Printed
use Prim.Native.Nat.{bit_or}
use ps3_plugins.Base.{
  ℕ, zero, suc, ◌+◌, ◌-◌, ◌*◌, ◌/◌, ◌%◌, ◌^◌, Bool, Option, none, some, List, [], ◌∷◌, ◌++◌, ltb,
  ◌==◌, if◌then◌else◌, Bytes, codes, length, drop,
}
use ps3_plugins.Hex.{hex_digits, hex_number}
use ps3_plugins.ProcessMemory.{Syscalls, Process, read_process_memory, write_process_memory}

pub record FunctionDescriptor : Type 0 where
  pub addr : ℕ
  pub toc : ℕ

-- `((to - (uint64_t)(addr)) >> 2) & 0xFFFFFF`, back at its place.
abbrev pub branch_field : ℕ → ℕ → ℕ
branch_field addr to = (to + 2 ^ 64 - addr) % 2 ^ 64 / 4 % 2 ^ 24 * 4

unfoldable pub make_jump_value : ℕ → ℕ → ℕ
make_jump_value addr to = bit_or (0x12 * 2 ^ 26) (branch_field addr to)

unfoldable pub make_call_value : ℕ → ℕ → ℕ
make_call_value addr to = bit_or (bit_or (0x12 * 2 ^ 26) (branch_field addr to)) 1

-- The offset as the bit pattern of an `int32_t`: up by 6 bits, and down with the sign.
unfoldable pub read_call_offset : ℕ → ℕ
read_call_offset value =
    let raised = value / 4 % 2 ^ 24 * 4 * 2 ^ 6 in
    if ltb raised (2 ^ 31) then raised / 2 ^ 6 else raised / 2 ^ 6 + (2 ^ 32 - 2 ^ 26)

-- `bl_original` is 0 where the read leaves nothing.
abbrev pub first_word : List ℕ → ℕ
first_word [] = 0
first_word (w ∷ ws) = w

abbrev pub write_word : Syscalls → Process → ℕ → ℕ → Process
write_word k p a w = (write_process_memory k p a (w ∷ [])).1

-- The jump to the function that was called, where a descriptor with an address asks for it.
unfoldable pub patch_original : Syscalls → Process → ℕ → ℕ → Option FunctionDescriptor → Process
unfolding make_jump_value read_call_offset
patch_original k p src bl_original none = p
patch_original k p src bl_original (some original) =
    let original_call = (src + read_call_offset bl_original) % 2 ^ 32 in
    if original.addr == 0
    then p
    else write_word k p original.addr (make_jump_value original.addr original_call)

unfoldable pub patch_call :
    Syscalls → Process → ℕ → FunctionDescriptor → Option FunctionDescriptor → Process
unfolding patch_original make_call_value
patch_call k p src dst original =
    let bl_to = make_call_value src dst.addr in
    let got = read_process_memory k p src 1 in
    write_word k (patch_original k got.2 src (first_word got.1) original) src bl_to

-- `isprint`; the difference is unsigned.
unfoldable pub isprint : ℕ → Bool
isprint c = ltb ((c + 2 ^ 32 - 0x20) % 2 ^ 32) 0x5f

-- The cells of a row: a byte in hexadecimal or three spaces.
unfoldable pub hex_cells : ℕ → Bytes → Bytes
unfolding hex_digits
hex_cells zero p = []
hex_cells (suc n) [] = codes "   " ++ hex_cells n []
hex_cells (suc n) (b ∷ p) = hex_digits 2 b ++ codes " " ++ hex_cells n p

unfoldable pub text_cells : ℕ → Bytes → Bytes
unfolding isprint
text_cells zero p = []
text_cells (suc n) [] = text_cells n []
text_cells (suc n) (b ∷ p) = (if isprint b then b else b'.') ∷ text_cells n p

unfoldable pub hex_row : ℕ → Bytes → Bytes
unfolding hex_cells text_cells hex_digits
hex_row address p =
    hex_digits 8 (address % 2 ^ 32)
    ++ codes ": "
    ++ hex_cells 16 p
    ++ codes "  |"
    ++ text_cells 16 p
    ++ codes "|"
    ++ (10 ∷ [])

-- The rows from index i, for a number of rows.
unfoldable pub hex_rows : ℕ → ℕ → ℕ → Bytes → Bytes
unfolding hex_row
hex_rows zero real i p = []
hex_rows (suc n) real i p = hex_row (real + i) p ++ hex_rows n real (i + 16) (drop 16 p)

-- All that `hex_dump` prints for these bytes; `size` is their number.
unfoldable pub hex_dump : Bytes → ℕ → Bytes
unfolding hex_rows hex_number
hex_dump p real =
    (if real == 0 then [] else codes "offset: " ++ hex_number 8 real ++ (10 ∷ []))
    ++ hex_rows ((length p + 15) / 16) real 0 p
