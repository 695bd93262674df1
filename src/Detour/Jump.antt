-- ===== src/Detour/Jump.antt =====
-- The jump of game_patch_vsh_data/Memory/Detour.cpp: `JumpWithOptions`, `Jump` and `GetHookSize`.
-- A destination of 0 is the null pointer, where only the size is wanted.
pub mod Reaches
use ps3_plugins.Base.{ℕ, ◌-◌, ◌*◌, ◌^◌, Bool, List, [], ◌∷◌, ◌==◌, if◌then◌else◌, length}
use ps3_plugins.ProcessMemory.{Syscalls, Process, write_process_memory}
use ps3_plugins.Detour.Encode.{hi, lo, lis, ori, mtctr, bcctr, std, ld}

-- `POWERPC_BRANCH_OPTIONS_ALWAYS`
abbrev pub options_always : ℕ
options_always = 20

-- The displacement -0x30 as an `int16_t`.
abbrev pub save_slot : ℕ
save_slot = 2 ^ 16 - 0x30

abbrev pub as_bit : Bool → ℕ
as_bit linked = if linked then 1 else 0

-- `BranchFarAsm` and `BranchFarAsmPreserve`
module _ (target bo bi r : ℕ) (linked : Bool) where
  unfoldable pub branch_far_asm : List ℕ
  branch_far_asm =
      lis r (hi target) ∷ ori r r (lo target) ∷ mtctr r ∷ bcctr bo bi (as_bit linked) ∷ []

  unfoldable pub branch_far_asm_preserve : List ℕ
  branch_far_asm_preserve =
      std r save_slot 1
      ∷ lis r (hi target)
      ∷ ori r r (lo target)
      ∷ mtctr r
      ∷ ld r save_slot 1
      ∷ bcctr bo bi (as_bit linked)
      ∷ []

  unfoldable pub branch_asm : Bool → List ℕ
  unfolding branch_far_asm branch_far_asm_preserve
  branch_asm preserve = if preserve then branch_far_asm_preserve else branch_far_asm

-- The size in bytes, and the process.
unfoldable pub jump_with_options :
    Syscalls → Process → ℕ → ℕ → Bool → Bool → ℕ → ℕ → ℕ → ℕ × Process
unfolding branch_asm
jump_with_options k p destination target linked preserve bo bi r =
    let asm = branch_asm target bo bi r linked preserve in
    (length asm * 4, if destination == 0 then p else (write_process_memory k p destination asm).1)

unfoldable pub jump : Syscalls → Process → ℕ → ℕ → Bool → Bool → ℕ × Process
unfolding jump_with_options
jump k p destination target linked preserve =
    jump_with_options k p destination target linked preserve options_always 0 0

unfoldable pub get_hook_size : Syscalls → Process → ℕ → Bool → Bool → ℕ
unfolding jump_with_options
get_hook_size k p target linked preserve =
    (jump_with_options k p 0 target linked preserve options_always 0 0).0
