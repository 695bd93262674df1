-- ===== src/Detour/PowerPc/Steps.antt =====
-- What the processor does at each word that the encoders make.
use ps3_plugins.Bits.{bit_or_field}
use ps3_plugins.Base.{
  ℕ, ◌+◌, ◌-◌, ◌*◌, ◌/◌, ◌%◌, ◌^◌, ◌<◌, ◌≡◌, refl, ap, ◌∙◌, some, arith, if◌then◌else◌,
}
use ps3_plugins.Detour.Encode
use ps3_plugins.ProcessMemory.{update}
use ps3_plugins.Detour.Encode.Words.{lis_sum, ori_sum, std_sum, ld_sum, mtctr_sum, bcctr_sum}
use ps3_plugins.Detour.PowerPc.{
  bit_or, Cpu, Instruction, decode, exec, step, next, link, cond_ok, u64, store_double, load_double,
}

module _ (r : ℕ) (hr : r < 32) where
  decode-lis : (imm : ℕ) → imm < 2 ^ 16 → decode (Encode.lis r imm) ≡ Instruction.addis r 0 imm
  unfolding decode
  decode-lis imm hi = rw (lis_sum r hr imm hi) (ground arith)

  decode-ori : (imm : ℕ) → imm < 2 ^ 16 → decode (Encode.ori r r imm) ≡ Instruction.ori r r imm
  unfolding decode
  decode-ori imm hi = rw (ori_sum r hr imm hi) (ground arith)

  decode-mtctr : decode (Encode.mtctr r) ≡ Instruction.mtctr r
  unfolding decode
  decode-mtctr = rw (mtctr_sum r hr) (ground arith)

  decode-std : decode (Encode.std r 0xffd0 1) ≡ Instruction.std r 1 0xffd0
  unfolding decode
  decode-std = rw (std_sum r hr 0xffd0 1 (omega arith) (omega arith)) (ground arith)

  decode-ld : decode (Encode.ld r 0xffd0 1) ≡ Instruction.ld r 1 0xffd0
  unfolding decode
  decode-ld = rw (ld_sum r hr 0xffd0 1 (omega arith) (omega arith)) (ground arith)

decode-bcctr :
    (bo bi lk : ℕ)
    → bo < 32
    → bi < 32
    → lk < 2
    → decode (Encode.bcctr bo bi lk) ≡ Instruction.bcctr bo bi lk
unfolding decode
decode-bcctr bo bi lk ho hi hl = rw (bcctr_sum bo bi lk ho hi hl) (ground arith)

-- What a step does, where the word at the counter is one of these.
module _ (c : Cpu) (r : ℕ) (hr : r < 32) where
  pub step-lis :
      (imm : ℕ)
      → imm < 2 ^ 15
      → c.memory c.pc ≡ Encode.lis r imm
      → step c ≡ some (record (next c) { gpr = update c.gpr r (imm * 2 ^ 16) })
  unfolding step exec
  step-lis imm hi e =
      rw (e, decode-lis r hr imm (omega arith))
        (ap (λ v. some (record (next c) { gpr = update c.gpr r v })) (ground arith))

  pub step-ori :
      (q imm : ℕ)
      → imm < 2 ^ 16
      → c.gpr r ≡ q * 2 ^ 16
      → c.memory c.pc ≡ Encode.ori r r imm
      → step c ≡ some (record (next c) { gpr = update c.gpr r (q * 2 ^ 16 + imm) })
  unfolding step exec
  step-ori q imm hi held e =
      rw (e, decode-ori r hr imm hi)
        (ap (λ v. some (record (next c) { gpr = update c.gpr r v }))
          (ap (λ t. bit_or t imm) held ∙ bit_or_field 16 q imm hi))

  pub step-mtctr :
      c.memory c.pc ≡ Encode.mtctr r → step c ≡ some (record (next c) { ctr = c.gpr r })
  unfolding step exec
  step-mtctr e = rw (e, decode-mtctr r hr)

  pub step-std :
      c.memory c.pc ≡ Encode.std r 0xffd0 1
      → step c
        ≡ some (record (next c) {
          memory = store_double c.memory ((c.gpr 1 + (u64 - 0x30)) % u64) (c.gpr r);
        })
  unfolding step exec
  step-std e = rw (e, decode-std r hr)

  pub step-ld :
      c.memory c.pc ≡ Encode.ld r 0xffd0 1
      → step c
        ≡ some (record (next c) {
          gpr = update c.gpr r (load_double c.memory ((c.gpr 1 + (u64 - 0x30)) % u64));
        })
  unfolding step exec
  step-ld e = rw (e, decode-ld r hr)

pub step-bcctr :
    (c : Cpu) (bo bi lk : ℕ)
    → bo < 32
    → bi < 32
    → lk < 2
    → bo / 4 % 2 ≡ 1
    → c.memory c.pc ≡ Encode.bcctr bo bi lk
    → step c
      ≡ some (record c {
        pc = if cond_ok c bo bi then c.ctr - c.ctr % 4 else c.pc + 4;
        lr = link lk c;
      })
unfolding step exec
step-bcctr c bo bi lk ho hi hl valid e = rw (e, decode-bcctr bo bi lk ho hi hl) (rw valid refl)
