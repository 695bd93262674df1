-- ===== src/Tests/OfDetour.antt =====
-- Runs of the process's memory, the detours and the patched calls.
use ps3_plugins.Base.{
  ℕ, ◌+◌, ◌*◌, ◌/◌, ◌%◌, ◌≤◌, ◌<◌, ◌≡◌, refl, ◌⊎◌, inl, inr, true, false, some, List, [], ◌∷◌, ◌++◌,
  arith, ◌==◌, if◌then◌else◌, Bytes, codes, same, length, All,
}
use ps3_plugins.ProcessMemory.{
  update, Memory, Syscalls, Process, write_words, read_words, get_current_toc,
}
use ps3_plugins.ProcessMemory.Fallback.{Works}
use ps3_plugins.Detour.Encode.{lis, ori, mtctr, bcctr, std, ld, opcode_of}
use ps3_plugins.Detour.PowerPc.{Cpu, step, run, store_double}
use ps3_plugins.Detour.Relocate.{relocate_branch, branch_address, branch_fields}
use ps3_plugins.Detour.Relocate.Branches.{branched, destination_of, IsBranch}
use ps3_plugins.Detour.Relocate.Moved.{relocate_branch-SameBranch}
use ps3_plugins.Detour.Jump.Reaches.{slot}
use ps3_plugins.Detour.Hook.{Detour, World, hook, un_hook}
use ps3_plugins.Detour.Hook.Places.{Hooked}
use ps3_plugins.Detour.Hook.Undo.{hook-Hooked, hook-Redirects, un_hook-hook}
use ps3_plugins.Detour.Hook.Sizes.{start, hooks, Session-trampoline_size}
use ps3_plugins.Detour.PowerPc.{Holds}
use ps3_plugins.Detour.Fnid.{export_stub, address_table, find_export_by_name, find_import_by_name}
use ps3_plugins.Detour.Fnid.Table.{Library, TableAt, find_in, find_export_by_name_lem}
use ps3_plugins.PatchCall.{FunctionDescriptor, make_call_value, patch_call, hex_dump}
use ps3_plugins.PatchCall.Redirect.{Near, patch_call-Redirects}
use ps3_plugins.PatchCall.Printed.{Printable, hex_dump-Printable}

-- A system where only HEN's calls work.
abbrev pub hen_only : Syscalls
hen_only = record {
  dbg_write = λ m a ws. (1, m);
  hen_write = λ m a ws. (0, write_words m a ws);
  dbg_read = λ m a n. (1, []);
  hen_read = λ m a n. (0, read_words m a n);
}

pub hen_only-Works : Works hen_only
hen_only-Works = record {
  dbg_writes = λ m a ws e. absurd (omega arith);
  dbg_spares = λ m a ws ne. refl;
  hen_writes = λ m a ws. refl;
  dbg_reads = λ m a n e. absurd (omega arith);
  hen_reads = λ m a n. refl;
}

-- A memory with one word.
abbrev one_word : ℕ → ℕ → Process
one_word a w = record {
  memory = λ q. if q == a then w else 0;
  write_by_hen = false;
  read_by_hen = false;
}

-- The words that an assembler gives.
encoders :
    (lis 0 0x1234 ≡ 0x3c001234)
    × (ori 0 0 0x5678 ≡ 0x60005678)
    × (mtctr 0 ≡ 0x7c0903a6)
    × (bcctr 20 0 0 ≡ 0x4e800420)
    × (bcctr 20 0 1 ≡ 0x4e800421)
    × (std 0 0xffd0 1 ≡ 0xf801ffd0)
    × (ld 0 0xffd0 1 ≡ 0xe801ffd0)
unfolding lis ori mtctr bcctr std ld
encoders = (refl, refl, refl, refl, refl, refl, refl)

-- `beq` back by 16 bytes, and `bl` ahead by 256.
addresses : (branch_address 0x1000 0x4182fff0 ≡ 0xff0) × (branch_address 0x1000 0x48000101 ≡ 0x1100)
unfolding branch_address opcode_of
addresses = (refl, refl)

toc : get_current_toc (λ q. if q == 0x1001c then 0x2000 else if q == 0x2004 then 0x77 else 0) ≡ 0x77
unfolding get_current_toc
toc = refl

abbrev pub at : ℕ → Memory → Cpu
at pc memory = record { pc = pc; lr = 0; ctr = 0; cr = λ b. 0; gpr = λ r. 0x20000; memory = memory }

abbrev call_ahead : Process
call_ahead = one_word 0x1000 0x48000101

call_ahead-IsBranch : IsBranch (call_ahead.memory 0x1000)
unfolding opcode_of
call_ahead-IsBranch = (refl, inl refl)

relocate_branch-SameBranch_example :
    let o = at 0x1000 call_ahead.memory in
    let c = at 0x5000 (relocate_branch hen_only call_ahead 0x5000 0x1000).1.memory in
    let target = destination_of 0x1000 0x48000101 in
    (step o ≡ some (branched o 0x48000101 target 0x1004))
    × (run 6 c
        ≡ some (record (branched c 0x48000101 target 0x5018) {
          ctr = target;
          memory = store_double c.memory (slot c) (c.gpr 0);
        }))
unfolding branch_fields opcode_of
relocate_branch-SameBranch_example =
    relocate_branch-SameBranch hen_only hen_only-Works call_ahead 0x5000 0x1000 (omega arith)
      call_ahead-IsBranch refl (omega arith) (omega arith) (at 0x1000 call_ahead.memory)
      (at 0x5000 (relocate_branch hen_only call_ahead 0x5000 0x1000).1.memory) refl refl refl refl
      (inr (omega arith))

-- A function at 0x1000, hooked through the descriptor at 0x8000; the detour lies at 0x4000, the
-- buffer at 0x6000.
abbrev plain : World
plain = record {
  process = record {
    memory = λ q. if q == 0x8000 then 0x3000 else 0x60000000;
    write_by_hen = false;
    read_by_hen = false;
  };
  trampoline_size = 0;
}

abbrev detour : Detour
detour = record {
  hook_target = 0;
  hook_address = 0;
  trampoline_address = 0;
  trampoline_opd = (0, 0);
  original_instructions = 0x4000;
  original_length = 0;
}

abbrev hooked : Detour × World
hooked = hook hen_only 0x6000 detour plain 0x1000 0x8000 0

hook-Hooked_example : Hooked 0x6000 0x4000 0x1000 0x3000 plain hooked.1
hook-Hooked_example =
    hook-Hooked hen_only hen_only-Works 0x6000 detour plain 0x1000 0x8000 0 (omega arith)
      (omega arith) (inr (omega arith)) (inr (omega arith)) (inr (omega arith))

hook-Redirects_example :
    let c = at 0x1000 hooked.1.process.memory in
    run 4 c ≡ some (record c { pc = 0x3000; ctr = 0x3000; gpr = update c.gpr 0 0x3000 })
hook-Redirects_example =
    hook-Redirects hen_only hen_only-Works 0x6000 detour plain 0x1000 0x8000 0 (omega arith)
      (omega arith) (inr (omega arith)) (inr (omega arith)) (inr (omega arith)) (omega arith) refl
      (at 0x1000 hooked.1.process.memory) refl refl

un_hook-hook_example :
    let undone = un_hook hen_only hooked.0 hooked.1 in
    (undone.0 ≡ true)
    × Holds undone.2.process.memory 0x1000 (read_words plain.process.memory 0x1000 4)
    × (un_hook hen_only undone.1 undone.2 ≡ (false, undone.1, undone.2))
un_hook-hook_example =
    un_hook-hook hen_only hen_only-Works 0x6000 detour plain 0x1000 0x8000 0 (omega arith)
      (omega arith) (inr (omega arith)) (inr (omega arith)) (inr (omega arith))

Session-trampoline_size_example :
    (1 * 40 ≤ hooked.1.trampoline_size)
    × (hooked.1.trampoline_size ≤ 1 * 120)
    × ((17 < 1) ⊎ (hooked.1.trampoline_size ≤ 2048))
    × ((1 < 52) ⊎ (2048 < hooked.1.trampoline_size))
Session-trampoline_size_example =
    Session-trampoline_size {k = hen_only} {buffer = 0x6000} {s = plain}
      (hooks start detour 0x1000 0x8000 0) refl

-- One library, "ab", with the numbers 7 and 9.
abbrev pub table : Memory
table q =
    if q == 0x1008c
    then 0x20000
    else if q == 0x20984
    then 0x30000
    else if q == 0x30000
    then 0x1c000000
    else if q == 0x30004
    then 2
    else if q == 0x30010
    then 0x40000
    else if q == 0x30014
    then 0x50000
    else if q == 0x30018
    then 0x60000
    else if q == 0x40000
    then 0x61620000
    else if q == 0x50000
    then 7
    else if q == 0x50004
    then 9
    else if q == 0x60000
    then 0x110
    else if q == 0x60004
    then 0x228
    else 0

abbrev pub libraries : List Library
libraries = record { name = codes "ab"; functions = (7, 0x110) ∷ (9, 0x228) ∷ [] } ∷ []

table-TableAt : TableAt export_stub table (address_table table) libraries
table-TableAt = (
  refl,
  refl,
  (refl, (omega arith), (refl, omega arith, refl)),
  (refl, refl, (refl, refl, tt)),
  omega arith,
)

find_export_by_name_lem_example :
    find_export_by_name 2 table (codes "ab") 9 ≡ some (find_in libraries (codes "ab") 9)
find_export_by_name_lem_example =
    find_export_by_name_lem table (codes "ab") 9 libraries 2 (omega arith) (omega arith)
      table-TableAt

found : find_in libraries (codes "ab") 9 ≡ 0x228
unfolding find_in same
found = refl

-- The search for imports starts at the same address, and ends there.
no_import : find_import_by_name 2 table (codes "ab") 9 ≡ some 0
unfolding find_import_by_name
no_import = refl

-- A call at 0x1000 to 0x2000, patched to 0x3000, with a stub at 0x4000.
abbrev calling : Process
unfolding make_call_value
calling = one_word 0x1000 (make_call_value 0x1000 0x2000)

make_call : calling.memory 0x1000 ≡ make_call_value 0x1000 0x2000
unfolding make_call_value
make_call = refl

pub low-Near : (a b : ℕ) → a < 0x1000000 → b < 0x1000000 → a % 4 ≡ 0 → b % 4 ≡ 0 → Near a b
low-Near a b ha hb qa qb = record {
  addr_range = omega arith;
  to_range = omega arith;
  addr_aligned = qa;
  to_aligned = qb;
  ahead = omega arith;
  behind = omega arith;
}

abbrev replacement : FunctionDescriptor
replacement = record { addr = 0x3000; toc = 0 }

abbrev stub : FunctionDescriptor
stub = record { addr = 0x4000; toc = 0 }

patch_call-Redirects_example :
    let m = (patch_call hen_only calling 0x1000 replacement (some stub)).memory in
    (step (at 0x1000 m) ≡ some (record (at 0x1000 m) { pc = 0x3000; lr = 0x1004 }))
    × (step (at 0x4000 m) ≡ some (record (at 0x4000 m) { pc = 0x2000 }))
patch_call-Redirects_example =
    patch_call-Redirects hen_only hen_only-Works calling 0x1000 0x2000 replacement stub make_call
      (low-Near 0x1000 0x2000 (omega arith) (omega arith) (omega arith) (omega arith))
      (low-Near 0x1000 0x3000 (omega arith) (omega arith) (omega arith) (omega arith))
      (low-Near 0x4000 0x2000 (omega arith) (omega arith) (omega arith) (omega arith)) (omega arith)
      (omega arith) (at 0x1000 (patch_call hen_only calling 0x1000 replacement (some stub)).memory)
      (at 0x4000 (patch_call hen_only calling 0x1000 replacement (some stub)).memory) refl refl refl
      refl

abbrev three_bytes : Bytes
three_bytes = 0x41 ∷ 0x00 ∷ 0xff ∷ []

hex_dump-Printable_example :
    All Printable (hex_dump three_bytes 0)
    × (length (hex_dump three_bytes 0) ≡ 63 * ((length three_bytes + 15) / 16) + length three_bytes)
hex_dump-Printable_example = hex_dump-Printable three_bytes 0 (omega arith)

dumped :
    hex_dump three_bytes 0
    ≡ codes "00000000: 41 00 ff                                          |A..|" ++ (10 ∷ [])
unfolding hex_dump
dumped = refl
