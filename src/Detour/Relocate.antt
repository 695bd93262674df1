-- ===== src/Detour/Relocate.antt =====
-- The relocation of one instruction, game_patch_vsh_data/Memory/Detour.cpp: `RelocateBranch` and
-- `RelocateCode`. An `int32_t` is its bit pattern.
pub mod Branches
pub mod Moved
use ps3_plugins.Base.{
  ℕ, ◌+◌, ◌-◌, ◌*◌, ◌/◌, ◌%◌, ◌^◌, Bool, true, ◌||◌, [], ◌∷◌, ◌==◌, if◌then◌else◌,
}
use ps3_plugins.ProcessMemory.{Syscalls, Process, write_process_memory}
use ps3_plugins.Detour.Encode.{opcode_of, opcode_b, opcode_bc}
use ps3_plugins.Detour.Jump.{jump_with_options, options_always}

abbrev pub u32 : ℕ
u32 = 2 ^ 32

-- `Instruction & POWERPC_BRANCH_ABSOLUTE` and `Instruction & POWERPC_BRANCH_LINKED`
abbrev pub is_absolute : ℕ → Bool
is_absolute instruction = instruction / 2 % 2 == 1

abbrev pub is_linked : ℕ → Bool
is_linked instruction = instruction % 2 == 1

-- What the switch of `RelocateBranch` sets.
pub record BranchFields : Type 0 where
  pub offset_bit_size : ℕ
  pub offset_bit_base : ℕ
  pub options : ℕ
  pub condition_bit : ℕ

unfoldable pub branch_fields : ℕ → BranchFields
branch_fields instruction =
    if opcode_of instruction == opcode_b
    then record {
      offset_bit_size = 24;
      offset_bit_base = 2;
      options = options_always;
      condition_bit = 0;
    }
    else if opcode_of instruction == opcode_bc
    then record {
      offset_bit_size = 14;
      offset_bit_base = 2;
      options = instruction / 2 ^ 21 % 2 ^ 5;
      condition_bit = instruction / 2 ^ 16 % 2 ^ 5;
    }
    else record { offset_bit_size = 0; offset_bit_base = 0; options = 0; condition_bit = 0 }

-- The offset masked in place, and the bits that make it negative.
unfoldable pub branch_offset : ℕ → ℕ → ℕ → ℕ
branch_offset size base instruction =
    let offset = instruction / 2 ^ base % 2 ^ size * 2 ^ base in
    if offset / 2 ^ (size + base - 1) == 0 then offset else offset + (u32 - 2 ^ (size + base))

-- `InstructionAddress + BranchOffset`
unfoldable pub branch_address : ℕ → ℕ → ℕ
unfolding branch_fields branch_offset
branch_address source instruction =
    let f = branch_fields instruction in
    (source + branch_offset f.offset_bit_size f.offset_bit_base instruction) % u32

abbrev pub copy_instruction : Syscalls → Process → ℕ → ℕ → ℕ × Process
copy_instruction k p destination instruction =
    (4, (write_process_memory k p destination (instruction ∷ [])).1)

-- The size in bytes, and the process.
unfoldable pub relocate_branch : Syscalls → Process → ℕ → ℕ → ℕ × Process
unfolding branch_address
relocate_branch k p destination source =
    let instruction = p.memory source in
    let f = branch_fields instruction in
    if is_absolute instruction
    then copy_instruction k p destination instruction
    else jump_with_options k p destination (branch_address source instruction)
        (is_linked instruction) true f.options f.condition_bit 0

unfoldable pub relocate_code : Syscalls → Process → ℕ → ℕ → ℕ × Process
unfolding relocate_branch
relocate_code k p destination source =
    let instruction = p.memory source in
    if opcode_of instruction == opcode_b || opcode_of instruction == opcode_bc
    then relocate_branch k p destination source
    else copy_instruction k p destination instruction
