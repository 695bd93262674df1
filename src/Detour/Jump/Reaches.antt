-- ===== src/Detour/Jump/Reaches.antt =====
-- The jump that is written does what a branch to its target does, with the register it borrows
-- given back where that is asked for.
use mathlib.Core.Path.{fun_ext}
use ps3_plugins.Base.{
  ℕ, suc, ◌+◌, ◌-◌, ◌*◌, ◌/◌, ◌%◌, ◌^◌, ◌≤◌, ◌<◌, ◌≡◌, refl, sym, ap, ◌∙◌, ◌≢◌, ◌⊎◌, inl, inr, Bool,
  some, List, [], ◌∷◌, arith, ◌==◌, if◌then◌else◌, length,
}
use ps3_plugins.ProcessMemory.{Memory, update}
use ps3_plugins.Detour.Encode.{hi, lo, lis, ori, mtctr, bcctr}
use ps3_plugins.Detour.PowerPc.{load_double, u64, store_double, Cpu, step, run, cond_ok, Holds}
use ps3_plugins.Detour.PowerPc.Steps.{step-ld, step-std, step-lis, step-ori, step-mtctr, step-bcctr}
use ps3_plugins.Detour.Jump.{branch_far_asm_preserve, as_bit, branch_far_asm}

run-suc : (n : ℕ) (c : Cpu) {d : Cpu} → step c ≡ some d → run (suc n) c ≡ run n d
unfolding run
run-suc n c e = rw e

update-update : (m : Memory) (a v w : ℕ) → update (update m a v) a w ≡ update m a w
update-update m a v w = fun_ext λ q. ground arith

update-held : (m : Memory) (a v : ℕ) → update m a v a ≡ v
update-held m a v = ground arith

update-other : (m : Memory) (a b v : ℕ) → b ≢ a → update m a v b ≡ m b
update-other m a b v h = ground arith

-- A register that gets its own value back.
update-same : (m : Memory) (a v : ℕ) → m a ≡ v → update m a v ≡ m
update-same m a v e = fun_ext λ q. ground arith

hi-lo : (target : ℕ) → target < 2 ^ 31 → hi target * 2 ^ 16 + lo target ≡ target
unfolding hi lo
hi-lo target h = omega arith

hi-small : (target : ℕ) → target < 2 ^ 31 → hi target < 2 ^ 15
unfolding hi
hi-small target h = omega arith

lo-small : (target : ℕ) → lo target < 2 ^ 16
unfolding lo
lo-small target = omega arith

module _ (target r : ℕ) (small : target < 2 ^ 31) (hr : r < 32) where
  -- The three words that bring the target into the counter.
  loaded : Cpu → Cpu
  loaded c = record c { pc = c.pc + 4 + 4 + 4; ctr = target; gpr = update c.gpr r target }

  run-loaded :
      (n : ℕ) (c : Cpu)
      → Holds c.memory c.pc (lis r (hi target) ∷ ori r r (lo target) ∷ mtctr r ∷ [])
      → run (suc (suc (suc n))) c ≡ run n (loaded c)
  unfolding loaded
  run-loaded n c (e₁, (e₂, (e₃, _))) =
      run-suc _ c (step-lis c r hr (hi target) (hi-small target small) e₁)
      ∙ run-suc _ c₁
          (step-ori c₁ r hr (hi target) (lo target) (lo-small target) (update-held c.gpr r high) e₂)
      ∙ run-suc n c₂ (step-mtctr c₂ r hr e₃)
      ∙ (λ i. run n (record c { pc = c.pc + 4 + 4 + 4; ctr = counter i; gpr = registers i }))
    where
      high : ℕ
      high = hi target * 2 ^ 16

      c₁ : Cpu
      c₁ = record c { pc = c.pc + 4; gpr = update c.gpr r high }

      c₂ : Cpu
      c₂ = record c₁ { pc = c₁.pc + 4; gpr = update c₁.gpr r (high + lo target) }

      counter : c₂.gpr r ≡ target
      counter = update-held c₁.gpr r _ ∙ hi-lo target small

      registers : c₂.gpr ≡ update c.gpr r target
      registers =
          update-update c.gpr r high (high + lo target) ∙ ap (update c.gpr r) (hi-lo target small)

as_bit-lt : (linked : Bool) → as_bit linked < 2
as_bit-lt linked = ground arith

-- Words away from a double word are spared by a store of it.
pub Holds-store :
    (ws : List ℕ) (m : Memory) (a s v : ℕ)
    → (s + 8 ≤ a) ⊎ (a + length ws * 4 ≤ s)
    → Holds m a ws
    → Holds (store_double m s v) a ws
Holds-store [] m a s v apart h = tt
Holds-store (w ∷ ws) m a s v (inl before) (e, h) = (
  update-other (update m s (v / 2 ^ 32)) (s + 4) a (v % 2 ^ 32) (omega arith)
      ∙ update-other m s a (v / 2 ^ 32) (omega arith)
      ∙ e,
  Holds-store ws m (a + 4) s v (inl (omega arith)) h,
)
Holds-store (w ∷ ws) m a s v (inr behind) (e, h) = (
  update-other (update m s (v / 2 ^ 32)) (s + 4) a (v % 2 ^ 32) (omega arith)
      ∙ update-other m s a (v / 2 ^ 32) (omega arith)
      ∙ e,
  Holds-store ws m (a + 4) s v (inr (omega arith)) h,
)

load-store : (m : Memory) (s v : ℕ) → load_double (store_double m s v) s ≡ v
load-store m s v = omega (
  arith,
  update-other (update m s (v / 2 ^ 32)) (s + 4) s (v % 2 ^ 32) (omega arith),
  update-held m s (v / 2 ^ 32),
  update-held (update m s (v / 2 ^ 32)) (s + 4) (v % 2 ^ 32),
)

-- The place below the stack pointer where the borrowed register is kept.
abbrev pub slot : Cpu → ℕ
slot c = (c.gpr 1 + (u64 - 0x30)) % u64

-- Where the last word leads, from the place behind the words.
module _ (target bo bi : ℕ) (linked : Bool) where
  -- The state behind a jump whose words end at `back`.
  abbrev pub landed : Cpu → ℕ → Cpu
  landed c back = record c {
    pc = if cond_ok c bo bi then target else back;
    lr = if linked then back else c.lr;
    ctr = target;
  }

  module _ (aligned : target % 4 ≡ 0) (ho : bo < 32) (hi : bi < 32) (valid : bo / 4 % 2 ≡ 1) where
    run-last :
        (c : Cpu) (back : ℕ)
        → c.ctr ≡ target
        → c.pc + 4 ≡ back
        → c.memory c.pc ≡ bcctr bo bi (as_bit linked)
        → run 1 c ≡ some (landed c back)
    unfolding run
    run-last c back held end e =
        run-suc 0 c (step-bcctr c bo bi (as_bit linked) ho hi (as_bit-lt linked) valid e)
        ∙ (λ i. some (record c { pc = goes i; lr = links linked i; ctr = held i }))
      where
        goes :
            (if cond_ok c bo bi then c.ctr - c.ctr % 4 else c.pc + 4)
            ≡ (if cond_ok c bo bi then target else back)
        goes = ground (arith, held, end, aligned)

        links : (l : Bool) → (if as_bit l == 1 then c.pc + 4 else c.lr) ≡ (if l then back else c.lr)
        links l = ground (arith, end)

    module _ (r : ℕ) (small : target < 2 ^ 31) (hr : r < 32) where
      -- The four words without preserving the register.
      pub branch_far_asm-Reaches :
          (c : Cpu)
          → Holds c.memory c.pc (branch_far_asm target bo bi r linked)
          → run 4 c ≡ some (landed (record c { gpr = update c.gpr r target }) (c.pc + 16))
      unfolding branch_far_asm loaded
      branch_far_asm-Reaches c (e₁, (e₂, (e₃, (e₄, _)))) =
          run-loaded target r small hr 1 c (e₁, (e₂, (e₃, tt)))
          ∙ run-last (loaded target r small hr c) (c.pc + 16) refl (omega arith) e₄

      -- The six words with the register preserved: it is kept below the stack and read back.
      pub branch_far_asm_preserve-Reaches :
          (c : Cpu)
          → r ≢ 1
          → (slot c + 8 ≤ c.pc) ⊎ (c.pc + 24 ≤ slot c)
          → Holds c.memory c.pc (branch_far_asm_preserve target bo bi r linked)
          → run 6 c
            ≡ some (
                landed (record c { memory = store_double c.memory (slot c) (c.gpr r) }) (c.pc + 24))
      unfolding branch_far_asm_preserve loaded
      branch_far_asm_preserve-Reaches c ne apart (e₁, (e₂, (e₃, (e₄, (e₅, (e₆, _)))))) =
          run-suc 5 c (step-std c r hr e₁)
          ∙ run-loaded target r small hr 2 c₁ (kept.1.0, (kept.1.1.0, (kept.1.1.1.0, tt)))
          ∙ run-suc 1 c₂ (step-ld c₂ r hr kept.1.1.1.1.0)
          ∙ run-last c₃ (c.pc + 24) refl (omega arith) kept.1.1.1.1.1.0
          ∙ ap (λ g. some (landed (record c₁ { gpr = g }) (c.pc + 24))) given_back
        where
          c₁ : Cpu
          c₁ = record c { pc = c.pc + 4; memory = store_double c.memory (slot c) (c.gpr r) }

          c₂ : Cpu
          c₂ = loaded target r small hr c₁

          c₃ : Cpu
          c₃ = record c₂ { pc = c₂.pc + 4; gpr = update c₂.gpr r (load_double c₂.memory (slot c₂)) }

          kept : Holds c₁.memory c.pc (branch_far_asm_preserve target bo bi r linked)
          kept =
              Holds-store (branch_far_asm_preserve target bo bi r linked) c.memory c.pc (slot c)
                (c.gpr r) apart (e₁, (e₂, (e₃, (e₄, (e₅, (e₆, tt))))))

          given_back : c₃.gpr ≡ c.gpr
          given_back =
              update-update c.gpr r target _
              ∙ update-same c.gpr r _ (
                  sym (
                    ap (load_double c₁.memory) (
                      ap (λ t. (t + (u64 - 0x30)) % u64)
                        (update-other c.gpr r 1 target (λ e. ne (sym e))))
                    ∙ load-store c.memory (slot c) (c.gpr r)))
