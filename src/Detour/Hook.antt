-- ===== src/Detour/Hook.antt =====
-- Hooks, game_patch_vsh_data/Memory/Detour.cpp and Detour.hpp: the class `Detour`, its constructors
-- and destructor, `Hook` and `UnHook`. A detour knows where its array `m_OriginalInstructions`
-- lies, and `buffer` is the address of `s_TrampolineBuffer`.
pub mod Loop
pub mod Places
pub mod Undo
pub mod Sizes
use ps3_plugins.Base.{
  ℕ, zero, suc, ◌+◌, ◌*◌, ◌/◌, Bool, true, false, not, ◌&&◌, ◌==◌, if◌then◌else◌,
}
use ps3_plugins.ProcessMemory.{Syscalls, Process, write_process_memory, get_current_toc, read_words}
use ps3_plugins.Detour.Relocate.{relocate_code}
use ps3_plugins.Detour.Jump.{jump, get_hook_size}

pub record Detour : Type 0 where
  pub hook_target : ℕ
  pub hook_address : ℕ
  pub trampoline_address : ℕ
  pub trampoline_opd : ℕ × ℕ
  pub original_instructions : ℕ
  pub original_length : ℕ

-- The process and `s_TrampolineSize`.
pub record World : Type 0 where
  pub process : Process
  pub trampoline_size : ℕ

abbrev pub trampoline_buffer_size : ℕ
trampoline_buffer_size = 2048

-- `Detour()`, for an object whose array lies at an address.
unfoldable pub new_detour : ℕ → Detour
new_detour original_instructions = record {
  hook_target = 0;
  hook_address = 0;
  trampoline_address = 0;
  trampoline_opd = (0, 0);
  original_instructions = original_instructions;
  original_length = 0;
}

module _ (k : Syscalls) (buffer : ℕ) where
  -- One round of the loop of `Hook`.
  unfoldable pub relocate_step : ℕ → ℕ → World → World
  relocate_step hook_address i w =
      let done = relocate_code k w.process (buffer + w.trampoline_size) (hook_address + i * 4) in
      record { process = done.1; trampoline_size = w.trampoline_size + done.0 }

  -- The rounds that are left, from round i.
  unfoldable pub relocate_loop : ℕ → ℕ → ℕ → World → World
  unfolding relocate_step
  relocate_loop hook_address zero i w = w
  relocate_loop hook_address (suc n) i w =
      relocate_loop hook_address n (i + 1) (relocate_step hook_address i w)

  -- `s_TrampolineSize += Jump(…)`
  unfoldable pub jump_back : ℕ → World → World
  jump_back after w =
      let done = jump k w.process (buffer + w.trampoline_size) after false true in
      record { process = done.1; trampoline_size = w.trampoline_size + done.0 }

  -- The memory of `Hook`: the bytes saved, the trampoline, the jump over the function.
  unfoldable pub hook_code : ℕ → ℕ → ℕ → ℕ → World → World
  unfolding relocate_loop jump_back
  hook_code original_instructions hook_address hook_target hook_size w =
      let saved =
        (write_process_memory k w.process original_instructions
          (read_words w.process.memory hook_address (hook_size / 4))).1 in
      let moved = relocate_loop hook_address (hook_size / 4) 0 (record w { process = saved }) in
      let back = jump_back (hook_address + hook_size) moved in
      record back { process = (jump k back.process hook_address hook_target false false).1 }

  unfoldable pub hook : Detour → World → ℕ → ℕ → ℕ → Detour × World
  unfolding hook_code
  hook d w fn_address fn_callback toc_override =
      let hook_target = w.process.memory fn_callback in
      let hook_size = get_hook_size k w.process hook_target false false in
      let done = hook_code d.original_instructions fn_address hook_target hook_size w in
      (
        record d {
          hook_address = fn_address;
          hook_target = hook_target;
          original_length = hook_size;
          trampoline_address = buffer + w.trampoline_size;
          trampoline_opd = (
            buffer + w.trampoline_size,
            if toc_override == 0 then get_current_toc done.process.memory else toc_override,
          );
        },
        done,
      )

  -- `Detour(fnAddress, fnCallback)`
  unfoldable pub hooked_detour : ℕ → World → ℕ → ℕ → Detour × World
  unfolding hook new_detour
  hooked_detour original_instructions w fn_address fn_callback =
      hook (new_detour original_instructions) w fn_address fn_callback 0

-- The result is what `UnHook` returns; `~Detour` calls it.
unfoldable pub un_hook : Syscalls → Detour → World → Bool × Detour × World
un_hook k d w =
    if not (d.hook_address == 0) && not (d.original_length == 0)
    then (
      true,
      record d { original_length = 0; hook_address = 0 },
      record w {
        process =
            (write_process_memory k w.process d.hook_address
              (read_words w.process.memory d.original_instructions (d.original_length / 4))).1;
      },
    )
    else (false, d, w)
