-- ===== src/Vsh/RunPatch/Redirects.antt =====
-- What the system's call at the start of a plugin does after `run_patch`.
use ps3_plugins.Base.{ℕ, ◌+◌, ◌-◌, ◌/◌, ◌%◌, ◌^◌, ◌≡◌, Option, some, ◌==◌, if◌then◌else◌, Bytes}
use ps3_plugins.ProcessMemory.{Syscalls, Process, Memory}
use ps3_plugins.ProcessMemory.Fallback.{Works}
use ps3_plugins.Vsh.Files.{Stdio, FileSystem}
use ps3_plugins.Vsh.Scan.Window.{bytes_at}
use ps3_plugins.Vsh.Scan.Walk.{Hit}
use ps3_plugins.Vsh.RunPatch.{get_vsh_size, start_plugin_search}

-- A byte of the words of a memory.
abbrev pub byte_of : Memory → ℕ → ℕ
byte_of m a =
    let w = m (a - a % 4) in
    if a % 4 == 0
    then w / 2 ^ 24 % 2 ^ 8
    else if a % 4 == 1
    then w / 2 ^ 16 % 2 ^ 8
    else if a % 4 == 2
    then w / 2 ^ 8 % 2 ^ 8
    else w % 2 ^ 8

-- A match in the system's program.
abbrev pub Site : (ℕ → ℕ) → Memory → ℕ → Type 0
Site behind m = Hit (byte_of m) behind start_plugin_search (0x10000 + get_vsh_size m - 32)

module _ (io : Stdio) (k : Syscalls) (works : Works k) (read : ℕ → Option Bytes) (behind : ℕ → ℕ)
    (yml sprx : Bytes) (fs : FileSystem) (p : Process)
    (reads : (seek : ℕ) → read seek ≡ some (bytes_at (byte_of p.memory) seek 256)) where
  abbrev size : ℕ
  size = get_vsh_size p.memory
