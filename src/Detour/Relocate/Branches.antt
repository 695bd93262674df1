-- ===== src/Detour/Relocate/Branches.antt =====
-- A relocated branch goes where the branch went.
use ps3_plugins.Base.{
  ℕ, ◌+◌, ◌*◌, ◌/◌, ◌%◌, ◌^◌, ◌<◌, ◌≡◌, refl, ◌⊎◌, inl, inr, some, arith, if◌then◌else◌,
}
use ps3_plugins.Detour.Encode.{opcode_of, opcode_b, opcode_bc}
use ps3_plugins.Detour.PowerPc.{Cpu, step, decode, exec, u64, cond_ok, sign_extend, Instruction}
use ps3_plugins.Detour.Relocate.{branch_fields, branch_offset, is_linked, u32}

-- What the architecture adds to the address: the sign of an offset of `size` bits and two zeros.
abbrev pub distance : ℕ → ℕ → ℕ
distance size w = sign_extend (2 ^ (size + 1)) (w / 4 % 2 ^ size * 4)

-- The address computed in 32 bits is that of the architecture, where it is in range.
pub address_near :
    (source size : ℕ) (w : ℕ)
    → size ≡ 24 ⊎ size ≡ 14
    → source < u32
    → (source + distance size w) % u64 < 2 ^ 31
    → (source + branch_offset size 2 w) % u32 ≡ (source + distance size w) % u64
unfolding branch_offset
address_near source size w (inl e) hs near = rw e (ground arith)
address_near source size w (inr e) hs near = rw e (ground arith)

-- `b`, or a `bc` that does not count down; relative in both cases.
abbrev pub IsBranch : ℕ → Type 0
IsBranch w =
    (w / 2 % 2 ≡ 0)
    × ((opcode_of w ≡ opcode_b) ⊎ ((opcode_of w ≡ opcode_bc) × (w / 2 ^ 23 % 2 ≡ 1)))

-- Where the architecture sends the branch, in 64 bits.
abbrev pub destination_of : ℕ → ℕ → ℕ
destination_of pc w = (pc + distance (branch_fields w).offset_bit_size w) % u64

-- A branch taken to `target`, with the place behind it.
abbrev pub branched : Cpu → ℕ → ℕ → ℕ → Cpu
branched c w target back = record c {
  pc = if cond_ok c (branch_fields w).options (branch_fields w).condition_bit then target else back;
  lr = if is_linked w then back else c.lr;
}

pub branch_fields-b :
    (w : ℕ)
    → opcode_of w ≡ opcode_b
    → branch_fields w
      ≡ record { offset_bit_size = 24; offset_bit_base = 2; options = 20; condition_bit = 0 }
unfolding branch_fields
branch_fields-b w e = rw e refl

pub branch_fields-bc :
    (w : ℕ)
    → opcode_of w ≡ opcode_bc
    → branch_fields w ≡ record {
      offset_bit_size = 14;
      offset_bit_base = 2;
      options = w / 2 ^ 21 % 2 ^ 5;
      condition_bit = w / 2 ^ 16 % 2 ^ 5;
    }
unfolding branch_fields
branch_fields-bc w e = rw e refl

decode-b :
    (w : ℕ) → opcode_of w ≡ opcode_b → decode w ≡ Instruction.b (w / 4 % 2 ^ 24) (w / 2 % 2) (w % 2)
unfolding decode opcode_of
decode-b w e = ground arith

decode-bc :
    (w : ℕ)
    → opcode_of w ≡ opcode_bc
    → decode w
      ≡ Instruction.bc (w / 2 ^ 21 % 32) (w / 2 ^ 16 % 32) (w / 4 % 2 ^ 14) (w / 2 % 2) (w % 2)
unfolding decode opcode_of
decode-bc w e = ground arith

-- What the branch itself does.
pub branch-branched :
    (c : Cpu) (w : ℕ)
    → IsBranch w
    → c.memory c.pc ≡ w
    → step c ≡ some (branched c w (destination_of c.pc w) (c.pc + 4))
unfolding step exec
branch-branched c w (rel, inl e) here = rw (here, decode-b w e, rel, branch_fields-b w e) refl
branch-branched c w (rel, inr (e, kept)) here =
    rw (here, decode-bc w e, rel, branch_fields-bc w e, not_counting) refl
  where
    not_counting : w / 2 ^ 21 % 32 / 4 % 2 ≡ 1
    not_counting = omega arith
