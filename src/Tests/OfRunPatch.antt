-- ===== src/Tests/OfRunPatch.antt =====
-- A run of the XMB plugin's start, on a small system program.
use ps3_plugins.Base.{ℕ, ◌≡◌, ◌⊎◌, false, Option, some, ◌==◌, if◌then◌else◌, Bytes}
use ps3_plugins.ProcessMemory.{Process, Memory}
use ps3_plugins.PatchCall.{FunctionDescriptor}
use ps3_plugins.Vsh.Scan.Window.{bytes_at, view}
use ps3_plugins.Vsh.RunPatch.Redirects.{byte_of}

-- A program of 0x100 bytes from 0x10000 on, with the words that are searched for at 0x10080, and the
-- call at 0x10094 that leads to 0x10040.
abbrev program : Memory
program q =
    if q == 0x1006c
    then 0x100
    else if q == 0x10080
    then 0x801f0008
    else if q == 0x10084
    then 0x2f800000
    else if q == 0x10088
    then 0x781f0020
    else if q == 0x1008c
    then 0x7fe3fb78
    else if q == 0x10090
    then 0x419e0040
    else if q == 0x10094
    then 0x4bffffad
    else if q == 0x10098
    then 0x7fe3fb78
    else 0

abbrev system : Process
system = record { memory = program; write_by_hen = false; read_by_hen = false }

abbrev main : FunctionDescriptor
main = record { addr = 0x20000; toc = 0 }

abbrev main_ptr : FunctionDescriptor
main_ptr = record { addr = 0x20100; toc = 0 }

abbrev nothing_behind : ℕ → ℕ
nothing_behind i = 0

abbrev read_all : ℕ → Option Bytes
read_all seek = some (bytes_at (byte_of program) seek 256)

-- The second byte of a match.
abbrev Second : ℕ → ℕ → Type 0
Second seek a = (view (byte_of program) nothing_behind seek a ≡ 0x1f) ⊎ ◌≡◌ {A = ℕ} 0x1f 0xff
