-- ===== src/Patch/Apply.antt =====
-- game_patch/patch.c: `write_patch`, `apply_patch`, `metadata_callback`, `entry_callback`, the
-- callbacks of the console plugin. An integer is written with its most significant byte first.
pub mod Types
use ps3_plugins.Base.{
  ℕ, zero, suc, ◌+◌, ◌/◌, ◌%◌, ◌^◌, Bool, ◌||◌, Option, none, some, List, [], ◌∷◌, ◌++◌,
  if◌then◌else◌, Bytes, codes, same,
}
use ps3_plugins.CString.{has_prefix}
use ps3_plugins.Number.{string_to_uint}
use ps3_plugins.ProgramArgs.{ProgramArgs, append_arg}
use ps3_plugins.Patch.{PatchMetadata, PatchEntry, min_patch_params}

-- `long` has 64 bits on the console, `uintptr_t` 32.
abbrev pub long_bits : ℕ
long_bits = 64

-- A call of `WriteProcessMemory`: the address and the bytes.
pub record MemoryWrite : Type 0 where
  pub address : ℕ
  pub bytes : Bytes

-- What a patch changes: the arguments of the game, and the writes made, in order. `count` is the
-- data of `metadata_callback`.
pub record Game : Type 0 where
  pub g_args : Option ProgramArgs
  pub writes : List MemoryWrite
  pub count : ℕ

-- The low `n` bytes of a number, the most significant one first.
unfoldable pub put_bytes : ℕ → ℕ → Bytes
put_bytes zero v = []
put_bytes (suc n) v = put_bytes n (v / 256) ++ (v % 256 ∷ [])

-- `write_patch` of an `n`-byte value, where the process has an id.
unfoldable pub write_patch : ℕ → Bytes → Bytes → Game → Game
unfolding put_bytes
write_patch n address value game = record game {
  writes =
      game.writes
      ++ (record {
        address = string_to_uint long_bits address % 2 ^ 32;
        bytes = put_bytes n (string_to_uint long_bits value);
      }
          ∷ []);
}

-- `strncmp2(type, a) == 0 || strncmp2(type, b) == 0`: a comparison up to the length of the name.
abbrev pub is_type : Bytes → Bytes → Bytes → Bool
is_type a b type = has_prefix a type || has_prefix b type

-- The width that the chain of tests finds, in bytes.
unfoldable pub write_width : Bytes → Option ℕ
write_width type =
    if is_type (codes "bytes8") (codes "byte") type
    then some 1
    else if is_type (codes "bytes16") (codes "be16") type
    then some 2
    else if is_type (codes "bytes32") (codes "be32") type
    then some 4
    else if is_type (codes "bytes64") (codes "be64") type
    then some 8
    else none

-- The loop over the parameters from the second one on; an empty one is skipped.
unfoldable pub append_args : List Bytes → ProgramArgs → ProgramArgs
append_args [] pargs = pargs
append_args (p ∷ params) pargs =
    append_args params (if same p [] then pargs else (append_arg pargs p).1)

unfoldable pub append_entry : List Bytes → Game → Game
unfolding append_args
append_entry params game = elim game.g_args [
  | none ↦ game
  | some pargs ↦ record game { g_args = some (append_args params pargs) }
]

unfoldable pub apply_patch : PatchEntry → Game → Game
unfolding write_patch append_entry
apply_patch (type ∷ address ∷ value ∷ more) game = elim (write_width type) [
  | some n ↦ write_patch n address value game
  | none ↦
      if same type (codes "append_arg") then append_entry (address ∷ value ∷ more) game else game
]
apply_patch entry game = game

unfoldable pub metadata_callback : PatchMetadata → Game → Game
metadata_callback meta game = record game { count = (game.count + 1) % 2 ^ 32 }

unfoldable pub entry_callback : PatchMetadata → PatchEntry → Game → Game
unfolding apply_patch
entry_callback meta entry game = if meta.enabled then apply_patch entry game else game
