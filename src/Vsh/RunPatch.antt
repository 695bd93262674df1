-- ===== src/Vsh/RunPatch.antt =====
-- `run_patch` of game_patch_vsh_data/prx.cpp, the thread that prepares the folders and sends the
-- system's call at the start of a plugin to `load_plugin_main`. The wait of its build for debugging is
-- left out.
pub mod Redirects
use ps3_plugins.Base.{
  ℕ, ◌+◌, ◌*◌, ◌/◌, ◌^◌, Bool, true, false, Option, some, [], ◌∷◌, ◌==◌, if◌then◌else◌, Bytes,
  ◌>>=◌,
}
use ps3_plugins.ProcessMemory.{Syscalls, Process, Memory}
use ps3_plugins.PatchCall.{FunctionDescriptor, patch_call}
use ps3_plugins.Vsh.Files.{Stdio, FileSystem, make_folders}
use ps3_plugins.Vsh.Scan.{pattern_scan}

-- `GetVshSize`: the 64 bits at 0x00010068.
abbrev pub get_vsh_size : Memory → ℕ
get_vsh_size memory = memory 0x10068 * 2 ^ 32 + memory 0x1006c

-- The bytes of the eight words.
abbrev pub start_plugin_search : Bytes
start_plugin_search =
    0x80 ∷ 0x1f ∷ 0x00 ∷ 0x08 ∷ 0x2f ∷ 0x80 ∷ 0x00 ∷ 0x00 ∷ 0x78 ∷ 0x1f ∷ 0x00 ∷ 0x20 ∷ 0x7f ∷ 0xe3
    ∷ 0xfb ∷ 0x78 ∷ 0x41 ∷ 0x9e ∷ 0xff ∷ 0xff ∷ 0xff ∷ 0xff ∷ 0xff ∷ 0xff ∷ 0x7f ∷ 0xe3 ∷ 0xfb
    ∷ 0x78 ∷ 0xff ∷ 0xff ∷ 0xff ∷ 0xff ∷ []

-- `patch_okay`, the files and the process, which is the one that the search leaves: it writes nothing.
-- `read` is what `ReadProcessMemory` gives for the 256 bytes at an address, `main` and `main_ptr` are
-- the descriptors of `load_plugin_main` and of its stub. The search has fuel for each window of the
-- system's program and two more.
unfoldable pub run_patch :
    Stdio
    → Syscalls
    → (ℕ → Option Bytes)
    → (ℕ → ℕ)
    → Bytes
    → Bytes
    → ℕ
    → FunctionDescriptor
    → FunctionDescriptor
    → FileSystem
    → Process
    → Option (Bool × FileSystem × Process)
run_patch io k read behind yml sprx vsh_pid main main_ptr fs p =
    let fs' = make_folders io yml sprx fs in
    let vsh_size = get_vsh_size p.memory in
    if vsh_pid == 0 then some (false, fs', p) else do
      found ← pattern_scan read behind (vsh_size / 256 + 2) 0x10000 vsh_size start_plugin_search 20
      some (
          if found == 0
          then (false, fs', p)
          else (true, fs', patch_call k p found main (some main_ptr)))
