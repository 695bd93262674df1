-- ===== src/PatchCall/Redirect.antt =====
-- A patched call goes to the new function, and the old one is reached through the stub.
use mathlib.Core.Path.{subst}
use Prim.Native.Nat.{bit_or}
use native.Mathlib.Nat.{add-zero}
use ps3_plugins.Base.{
  ℕ, ◌+◌, ◌-◌, ◌*◌, ◌/◌, ◌%◌, ◌^◌, ◌≤◌, ◌<◌, ◌≡◌, sym, ap, ◌∙◌, ◌≢◌, some, [], ◌∷◌, arith, ltb,
  if◌then◌else◌, ==_ne,
}
use ps3_plugins.Bits.{bit_or_field}
use ps3_plugins.ProcessMemory.{
  Syscalls, Process, Memory, update, write_words, read_words, read_process_memory,
}
use ps3_plugins.ProcessMemory.Fallback.{Works, read_process_memory_lem, write_process_memory_lem}
use ps3_plugins.Detour.PowerPc.{Cpu, step, decode, exec, Instruction, u64, sign_extend}
use ps3_plugins.PatchCall.{
  FunctionDescriptor, branch_field, make_jump_value, make_call_value, read_call_offset, first_word,
  write_word, patch_original, patch_call,
}

-- Both words are sums.
make_jump_sum : (addr to : ℕ) → make_jump_value addr to ≡ 18 * 2 ^ 26 + branch_field addr to
unfolding make_jump_value
make_jump_sum addr to = bit_or_field 26 18 (branch_field addr to) (omega arith)

make_call_sum : (addr to : ℕ) → make_call_value addr to ≡ 18 * 2 ^ 26 + branch_field addr to + 1
unfolding make_call_value
make_call_sum addr to =
    ap (λ t. bit_or t 1) (bit_or_field 26 18 (branch_field addr to) (omega arith) ∙ upper)
    ∙ bit_or_field 2 (18 * 2 ^ 24 + (to + 2 ^ 64 - addr) % 2 ^ 64 / 4 % 2 ^ 24) 1 (omega arith)
    ∙ omega arith
  where
    upper :
        18 * 2 ^ 26 + branch_field addr to
        ≡ (18 * 2 ^ 24 + (to + 2 ^ 64 - addr) % 2 ^ 64 / 4 % 2 ^ 24) * 2 ^ 2
    upper = omega arith

-- Word aligned, and at most 32 MB away.
pub record Near (addr to : ℕ) : Type 0 where
  pub addr_range : addr < 2 ^ 32
  pub to_range : to < 2 ^ 32
  pub addr_aligned : addr % 4 ≡ 0
  pub to_aligned : to % 4 ≡ 0
  pub ahead : to < addr + 2 ^ 25
  pub behind : addr ≤ to + 2 ^ 25

-- The field, with its sign, leads from the one address to the other.
lands :
    (addr to : ℕ) → Near addr to → (addr + sign_extend (2 ^ 25) (branch_field addr to)) % u64 ≡ to
lands addr to near = ground arith

decode_b :
    (li lk : ℕ) → li < 2 ^ 24 → lk < 2 → decode (18 * 2 ^ 26 + li * 4 + lk) ≡ Instruction.b li 0 lk
unfolding decode
decode_b li lk hi hl = ground arith

-- The field before it is put at its place.
abbrev distance : ℕ → ℕ → ℕ
distance addr to = (to + 2 ^ 64 - addr) % 2 ^ 64 / 4 % 2 ^ 24

-- The processor at each word.
module _ (c : Cpu) (to : ℕ) (near : Near c.pc to) where
  pub step-jump : c.memory c.pc ≡ make_jump_value c.pc to → step c ≡ some (record c { pc = to })
  unfolding step exec
  step-jump e =
      rw
        (
          e,
          make_jump_sum c.pc to ∙ sym (add-zero _),
          decode_b (distance c.pc to) 0 (omega arith) (omega arith),
        )
        (ap (λ t. some (record c { pc = t })) (lands c.pc to near))

  pub step-call :
      c.memory c.pc ≡ make_call_value c.pc to → step c ≡ some (record c { pc = to; lr = c.pc + 4 })
  unfolding step exec
  step-call e =
      rw (e, make_call_sum c.pc to, decode_b (distance c.pc to) 1 (omega arith) (omega arith))
        (ap (λ t. some (record c { pc = t; lr = c.pc + 4 })) (lands c.pc to near))

-- The offset of a relative branch is read back as the architecture reads it.
read_call_offset-make_call_value :
    (addr to : ℕ) → Near addr to → (addr + read_call_offset (make_call_value addr to)) % 2 ^ 32 ≡ to
unfolding read_call_offset
read_call_offset-make_call_value addr to near = ap back (make_call_sum addr to) ∙ ground arith
  where
    back : ℕ → ℕ
    back v =
        (addr
          + (let raised = v / 4 % 2 ^ 24 * 4 * 2 ^ 6 in
              if ltb raised (2 ^ 31) then raised / 2 ^ 6 else raised / 2 ^ 6 + (2 ^ 32 - 2 ^ 26)))
        % 2 ^ 32

module _ (k : Syscalls) (works : Works k) (p : Process) (src old : ℕ)
    (dst original : FunctionDescriptor) where
  patch_call_memory :
      p.memory src ≡ make_call_value src old
      → Near src old
      → original.addr ≢ 0
      → (patch_call k p src dst (some original)).memory
        ≡ update
            (update p.memory original.addr (make_jump_value original.addr old))
            src
            (make_call_value src dst.addr)
  unfolding patch_call patch_original write_words read_words
  patch_call_memory call near nz = rw (==_ne original.addr 0 nz) (
      (write_process_memory_lem k works _ src (make_call_value src dst.addr ∷ [])).1
      ∙ (λ i. update (stub i) src (make_call_value src dst.addr)))
    where
      read : Process
      read = (read_process_memory k p src 1).2

      word : ℕ
      word = first_word (read_process_memory k p src 1).1

      word_read : word ≡ make_call_value src old
      word_read = ap first_word (read_process_memory_lem k works p src 1).1 ∙ call

      called : (src + read_call_offset word) % 2 ^ 32 ≡ old
      called =
          ap (λ w. (src + read_call_offset w) % 2 ^ 32) word_read
          ∙ read_call_offset-make_call_value src old near

      stub :
          (write_word k read original.addr
            (make_jump_value original.addr ((src + read_call_offset word) % 2 ^ 32))).memory
          ≡ update p.memory original.addr (make_jump_value original.addr old)
      stub = (write_process_memory_lem k works read original.addr _).1 ∙ (λ i.
          update ((read_process_memory_lem k works p src 1).2 i) original.addr
            (make_jump_value original.addr (called i)))

  -- A call to `old` at `src`, patched, where all are in reach of a relative branch: the same place
  -- calls `dst`, and the stub goes to `old`.
  pub patch_call-Redirects :
      p.memory src ≡ make_call_value src old
      → Near src old
      → Near src dst.addr
      → Near original.addr old
      → original.addr ≢ 0
      → original.addr ≢ src
      → (c s : Cpu) → c.pc ≡ src
      → c.memory ≡ (patch_call k p src dst (some original)).memory
      → s.pc ≡ original.addr
      → s.memory ≡ (patch_call k p src dst (some original)).memory
      → (step c ≡ some (record c { pc = dst.addr; lr = src + 4 }))
        × (step s ≡ some (record s { pc = old }))
  patch_call-Redirects call near_old near_dst near_stub nz ne c s hc mc hs ms = (
    subst
        (λ a.
          c.memory c.pc ≡ make_call_value a dst.addr
          → step c ≡ some (record c { pc = dst.addr; lr = a + 4 }))
        hc (step-call c dst.addr (subst (λ a. Near a dst.addr) (sym hc) near_dst))
        (ap (λ (m : Memory). m c.pc) (mc ∙ patched) ∙ ap after hc ∙ at_src),
    step-jump s old (subst (λ a. Near a old) (sym hs) near_stub) (
        ap (λ (m : Memory). m s.pc) (ms ∙ patched)
        ∙ ap after hs
        ∙ at_stub
        ∙ ap (λ a. make_jump_value a old) (sym hs)),
  )
    where
      stubbed : Memory
      stubbed = update p.memory original.addr (make_jump_value original.addr old)

      after : Memory
      after = update stubbed src (make_call_value src dst.addr)

      patched : (patch_call k p src dst (some original)).memory ≡ after
      patched = patch_call_memory call near_old nz

      at_src : after src ≡ make_call_value src dst.addr
      at_src = ground arith

      at_stub : after original.addr ≡ make_jump_value original.addr old
      at_stub = ground arith
