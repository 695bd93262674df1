-- ===== src/Detour/Hook/Sizes.antt =====
-- How the trampoline buffer fills, whatever is hooked and unhooked.
use ps3_plugins.Base.{ℕ, zero, suc, ◌+◌, ◌*◌, ◌≤◌, ◌<◌, ◌≡◌, ◌⊎◌, arith}
use ps3_plugins.ProcessMemory.{Syscalls, Process, write_process_memory, read_words}
use ps3_plugins.Detour.Jump.{
  branch_asm, branch_far_asm, branch_far_asm_preserve, jump_with_options, jump, get_hook_size,
}
use ps3_plugins.Detour.Relocate.{relocate_branch, relocate_code}
use ps3_plugins.Detour.Hook.{
  Detour, World, relocate_step, relocate_loop, jump_back, hook, hook_code, un_hook,
  trampoline_buffer_size,
}

relocate_code-size :
    (k : Syscalls) (p : Process) (destination source : ℕ)
    → (4 ≤ (relocate_code k p destination source).0)
      × ((relocate_code k p destination source).0 ≤ 24)
unfolding relocate_code relocate_branch jump_with_options branch_asm branch_far_asm_preserve
relocate_code-size k p destination source = ground arith

relocate_loop-size :
    (k : Syscalls) (buffer a n i : ℕ) (w : World)
    → let size = (relocate_loop k buffer a n i w).trampoline_size in
      (w.trampoline_size + n * 4 ≤ size) × (size ≤ w.trampoline_size + n * 24)
unfolding relocate_loop relocate_step
relocate_loop-size k buffer a zero i w = omega arith
relocate_loop-size k buffer a (suc n) i w = omega (
  arith,
  relocate_code-size k w.process (buffer + w.trampoline_size) (a + i * 4),
  relocate_loop-size k buffer a n (i + 1) (relocate_step k buffer a i w),
)

hook-size :
    (k : Syscalls) (buffer : ℕ) (d : Detour) (w : World) (a callback toc : ℕ)
    → let size = (hook k buffer d w a callback toc).1.trampoline_size in
      (w.trampoline_size + 40 ≤ size) × (size ≤ w.trampoline_size + 120)
unfolding hook hook_code jump_back jump jump_with_options branch_asm branch_far_asm
    branch_far_asm_preserve get_hook_size
hook-size k buffer d w a callback toc = omega (
  arith,
  relocate_loop-size k buffer a 4 0 (record w {
    process =
        (write_process_memory k w.process d.original_instructions
          (read_words w.process.memory a 4)).1;
  }),
)

-- Hooks and unhooks in any order; the number is that of the hooks.
pub data Session (k : Syscalls) (buffer : ℕ) (s : World) : ℕ → World → Type 0 where
  start : Session k buffer s 0 s
  hooks :
      {n : ℕ} {w : World}
      → Session k buffer s n w
      → (d : Detour) (a callback toc : ℕ)
      → Session k buffer s (suc n) (hook k buffer d w a callback toc).1
  un_hooks :
      {n : ℕ} {w : World}
      → Session k buffer s n w
      → (d : Detour) → Session k buffer s n (un_hook k d w).2

un_hook-size :
    (k : Syscalls) (d : Detour) (w : World) → (un_hook k d w).2.trampoline_size ≡ w.trampoline_size
unfolding un_hook
un_hook-size k d w = ground arith

growth :
    {k : Syscalls} {buffer : ℕ} {s : World} {n : ℕ} {w : World}
    → Session k buffer s n w
    → (s.trampoline_size + n * 40 ≤ w.trampoline_size)
      × (w.trampoline_size ≤ s.trampoline_size + n * 120)
growth start = omega arith
growth {k} {buffer} (hooks {n} {w} session d a callback toc) =
    omega (arith, growth session, hook-size k buffer d w a callback toc)
growth {k} (un_hooks {n} {w} session d) = omega (arith, growth session, un_hook-size k d w)

-- From an empty buffer, after any hooks and unhooks: each of the n hooks has taken 40 to 120 bytes,
-- so that up to 17 hooks stay inside the buffer, and 52 do not.
pub Session-trampoline_size :
    {k : Syscalls} {buffer : ℕ} {s : World} {n : ℕ} {w : World}
    → Session k buffer s n w
    → s.trampoline_size ≡ 0
    → (n * 40 ≤ w.trampoline_size)
      × (w.trampoline_size ≤ n * 120)
      × ((17 < n) ⊎ (w.trampoline_size ≤ trampoline_buffer_size))
      × ((n < 52) ⊎ (trampoline_buffer_size < w.trampoline_size))
Session-trampoline_size session empty = ground (arith, growth session)
