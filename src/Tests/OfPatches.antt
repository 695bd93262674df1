-- ===== src/Tests/OfPatches.antt =====
-- game_patch/patch.c on given patches.
use ps3_plugins.Base.{◌%◌, ◌^◌, ◌≡◌, refl, false, none, [], ◌∷◌, arith, codes, length, replicate}
use ps3_plugins.Tests.Checks.{All-empty}
use ps3_plugins.ProgramArgs.{ProgramArgs}
use ps3_plugins.ProgramArgs.Bounds.{IsValid}
use ps3_plugins.Number.{string_to_uint}
use ps3_plugins.Patch.Apply.{Game, MemoryWrite, apply_patch, long_bits}
use ps3_plugins.Patch.Apply.Types.{big_endian, two, apply_patch_writes}

abbrev no_game : Game
no_game = record { g_args = none; writes = []; count = 0 }

apply_patch_writes_example :
    (w : MemoryWrite) × (apply_patch (codes "be16" ∷ codes "0x10" ∷ codes "258" ∷ []) no_game
      ≡ record no_game { writes = w ∷ [] })
    × (w.address ≡ string_to_uint long_bits (codes "0x10") % 2 ^ 32)
    × (length w.bytes ≡ 2)
    × (big_endian 0 w.bytes ≡ string_to_uint long_bits (codes "258") % 256 ^ 2)
apply_patch_writes_example =
    apply_patch_writes (codes "be16") (codes "0x10") (codes "258") [] no_game 2 (two [])

-- A game started with no argument.
abbrev args : ProgramArgs
args = record {
  argc = 0;
  argv = [];
  new_argv = replicate 32 none;
  replace_args = replicate 32 [];
  changed = false;
  overruns = 0;
}

args-IsValid : IsValid args
args-IsValid = record {
  argc_le = omega arith;
  new_argv_size = refl;
  replace_args_size = refl;
  terminated = All-empty 292 32;
}
