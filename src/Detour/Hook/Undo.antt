-- ===== src/Detour/Hook/Undo.antt =====
-- `Hook` as the processor and as `UnHook` see it.
use mathlib.Core.Path.{subst}
use ps3_plugins.Base.{
  ℕ, ◌+◌, ◌%◌, ◌^◌, ◌<◌, ◌≡◌, refl, sym, ap, ◌∙◌, ◌≢◌, true, false, some, List, arith, ==_ne,
  length,
}
use ps3_plugins.ProcessMemory.{Syscalls, write_words, read_words}
use ps3_plugins.ProcessMemory.Fallback.{Works, write_process_memory_lem}
use ps3_plugins.ProcessMemory.{update}
use ps3_plugins.Detour.PowerPc.{Holds, Cpu, run}
use ps3_plugins.Detour.PowerPc.Holding.{Holds-write_words, read_words-Holds}
use ps3_plugins.Detour.Jump.{branch_asm, branch_far_asm, jump_with_options, get_hook_size}
use ps3_plugins.Detour.Jump.Reaches.{branch_far_asm-Reaches}
use ps3_plugins.Detour.Hook.{Detour, World, hook, un_hook}
use ps3_plugins.Detour.Hook.Loop.{Separate}
use ps3_plugins.Detour.Hook.Places.{Hooked, hook_code-Hooked, originals}

-- A detour that is set puts back the words it has saved, once.
un_hook_lem :
    (k : Syscalls) (works : Works k) (d : Detour) (w : World) (a : ℕ)
    → a ≢ 0
    → (ws : List ℕ) → length ws ≡ 4
    → Holds w.process.memory d.original_instructions ws
    → let undone = un_hook k (record d { hook_address = a; original_length = 16 }) w in
      (undone.0 ≡ true)
      × Holds undone.2.process.memory a ws
      × (un_hook k undone.1 undone.2 ≡ (false, undone.1, undone.2))
unfolding un_hook
un_hook_lem k works d w a na ws four saved = rw (==_ne a 0 na) (
  refl,
  subst (λ m. Holds m a ws) (sym (write_process_memory_lem k works w.process a _).1)
      (subst (λ us. Holds (write_words w.process.memory a us) a ws) (sym read)
        (Holds-write_words ws w.process.memory a)),
  refl,
)
  where
    read : read_words w.process.memory d.original_instructions 4 ≡ ws
    read =
        ap (read_words w.process.memory d.original_instructions) (sym four)
        ∙ read_words-Holds ws w.process.memory d.original_instructions saved

module _ (k : Syscalls) (works : Works k) (buffer : ℕ) (d : Detour) (w : World)
    (a callback toc : ℕ) where
  abbrev target : ℕ
  target = w.process.memory callback

  abbrev result : Detour × World
  result = hook k buffer d w a callback toc

  module _ (nb : buffer ≢ 0) (na : a ≢ 0) (apart_o : Separate d.original_instructions 16 a 16)
      (apart_a : Separate (buffer + w.trampoline_size) 120 a 16)
      (apart_t : Separate (buffer + w.trampoline_size) 120 d.original_instructions 16) where
    -- After `Hook`, where its three places do not meet: the function begins with the jump to the
    -- callback, the trampoline holds the four instructions at their new place and the jump behind the
    -- jump, the four words are saved, and the buffer has grown by the trampoline.
    pub hook-Hooked : Hooked buffer d.original_instructions a target w result.1
    unfolding hook get_hook_size jump_with_options branch_asm branch_far_asm
    hook-Hooked =
        hook_code-Hooked k works buffer d.original_instructions a target w nb na apart_o apart_a
          apart_t

    -- A call of a hooked function goes to the callback, where that lies at an address below 2 ^ 31
    -- that 4 divides: the processor gets there in four steps, with r0 and the counter changed and
    -- nothing else.
    pub hook-Redirects :
        target < 2 ^ 31
        → target % 4 ≡ 0
        → (c : Cpu) → c.pc ≡ a
        → c.memory ≡ result.1.process.memory
        → run 4 c ≡ some (record c { pc = target; ctr = target; gpr = update c.gpr 0 target })
    hook-Redirects small aligned c at held =
        branch_far_asm-Reaches target 20 0 false aligned (omega arith) (omega arith) refl 0 small
          (omega arith) c
          (subst (λ m. Holds m c.pc (branch_far_asm target 20 0 0 false)) (sym held)
            (rw at hook-Hooked.at_function))

    -- `UnHook` after `Hook` puts the four words of the function back and says so, and a second
    -- `UnHook` does nothing.
    pub un_hook-hook :
        let undone = un_hook k result.0 result.1 in
        (undone.0 ≡ true)
        × Holds undone.2.process.memory a (read_words w.process.memory a 4)
        × (un_hook k undone.1 undone.2 ≡ (false, undone.1, undone.2))
    unfolding hook get_hook_size jump_with_options branch_asm branch_far_asm read_words
    un_hook-hook =
        un_hook_lem k works result.0 result.1 a na (originals w.process.memory a) refl
          hook-Hooked.at_saved
