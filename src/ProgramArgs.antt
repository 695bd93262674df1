-- ===== src/ProgramArgs.antt =====
-- game_patch/plugins.h `program_args` and game_patch/plugins.c `append_arg`;
-- game_plugin_bootloader/prx.cpp `copy_main_args`. A string pointer is `none` where it is NULL.
pub mod Bounds
pub mod Copying
use ps3_plugins.Base.{
  ℕ, zero, suc, ◌+◌, ◌-◌, min, Bool, true, false, Option, none, some, List, [], ◌∷◌, ltb, leb,
  if◌then◌else◌, Bytes, length, set, take,
}

-- max_args and the bytes of a replacement buffer before its last one (max_arg_buf).
abbrev pub max_args : ℕ
max_args = 32

abbrev pub max_arg_buf : ℕ
max_arg_buf = 292

-- `new_argv` has max_args places. `replace_args` holds the text in each of the max_args buffers.
-- `argv` is the vector that the process was started with. `overruns` is no field of the struct: it
-- counts the writes of `append_arg` that an array has no place for.
pub record ProgramArgs : Type 0 where
  pub argc : ℕ
  pub argv : List (Option Bytes)
  pub new_argv : List (Option Bytes)
  pub replace_args : List Bytes
  pub changed : Bool
  pub overruns : ℕ

-- A write to place `i` of an array, with the one overrun that it is where there is no such place.
abbrev pub store : {A : Type 0} → List A → ℕ → A → List A × ℕ
store xs i x = (set xs i x, if ltb i (length xs) then 0 else 1)

-- `strncpy(buffer, arg, max_arg_buf)` into a buffer whose last byte is NUL, and `new_argv` pointed
-- at it. The result is the boolean one; the entry behind the last one is cleared.
unfoldable pub append_arg : ProgramArgs → Bytes → Bool × ProgramArgs
append_arg pargs arg =
    if leb max_args pargs.argc
    then (false, pargs)
    else (let idx = pargs.argc in
        let stored = take max_arg_buf arg in
        let buffers = store pargs.replace_args idx stored in
        let pointed = store pargs.new_argv idx (some stored) in
        let ended : List (Option Bytes) × ℕ =
          if ltb (idx + 1) max_args then store pointed.0 (idx + 1) none else (pointed.0, 0) in
        (
          true,
          record pargs {
            argc = idx + 1;
            new_argv = ended.0;
            replace_args = buffers.0;
            changed = true;
            overruns = pargs.overruns + buffers.1 + pointed.1 + ended.1;
          },
        ))

-- `for (i = 0; i < argc && i < max_args; i++)`, with `rounds` left and the pointers from `i` on; a
-- NULL is skipped.
unfoldable pub copy_loop : ℕ → ℕ → List (Option Bytes) → List (Option Bytes) → List (Option Bytes)
copy_loop zero i argv new_argv = new_argv
copy_loop (suc rounds) i [] new_argv = new_argv
copy_loop (suc rounds) i (none ∷ argv) new_argv = copy_loop rounds (i + 1) argv new_argv
copy_loop (suc rounds) i (some a ∷ argv) new_argv =
    copy_loop rounds (i + 1) argv (set new_argv i (some a))

-- `for (i = argc; i < max_args; i++) bzero(&new_argv[i], …)`
unfoldable pub clear_loop : ℕ → ℕ → List (Option Bytes) → List (Option Bytes)
clear_loop zero i new_argv = new_argv
clear_loop (suc rounds) i new_argv = clear_loop rounds (i + 1) (set new_argv i none)

unfoldable pub copy_main_args : ProgramArgs → ℕ → List (Option Bytes) → ProgramArgs
unfolding copy_loop clear_loop
copy_main_args pargs argc argv = record pargs {
  argc = argc;
  argv = argv;
  new_argv =
      clear_loop (max_args - argc) argc (copy_loop (min argc max_args) 0 argv pargs.new_argv);
}
