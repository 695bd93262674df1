-- ===== src/Detour/PowerPc.antt =====
-- The instructions that game_patch_vsh_data/Memory/Detour.cpp writes and relocates, as the PowerPC
-- architecture defines them: decoding a word, and what an instruction does to the processor. This
-- description is independent of the encoders.
pub mod Steps
pub mod Holding
use Prim.Native.Nat.{bit_or}
use ps3_plugins.Base.{
  ℕ, zero, suc, ◌+◌, ◌-◌, ◌*◌, ◌/◌, ◌%◌, ◌^◌, ◌≡◌, Bool, ◌&&◌, ◌||◌, Option, none, some, List, [],
  ◌∷◌, ltb, ◌==◌, if◌then◌else◌, ◌>>=◌,
}
use ps3_plugins.ProcessMemory.{Memory, update}

pub data Instruction : Type 0 where
  addis ori std ld : ℕ → ℕ → ℕ → Instruction
  mtctr : ℕ → Instruction
  bcctr : ℕ → ℕ → ℕ → Instruction
  b : ℕ → ℕ → ℕ → Instruction
  bc : ℕ → ℕ → ℕ → ℕ → ℕ → Instruction
  other : ℕ → Instruction

-- The fields of a word: from bit 6, from bit 11, and the lower half.
abbrev pub first : ℕ → ℕ
first w = w / 2 ^ 21 % 32

abbrev pub second : ℕ → ℕ
second w = w / 2 ^ 16 % 32

abbrev pub half : ℕ → ℕ
half w = w % 2 ^ 16

unfoldable pub decode : ℕ → Instruction
decode w =
    let op = w / 2 ^ 26 in
    if op == 15
    then addis (first w) (second w) (half w)
    else if op == 16
    then bc (first w) (second w) (w / 4 % 2 ^ 14) (w / 2 % 2) (w % 2)
    else if op == 18
    then b (w / 4 % 2 ^ 24) (w / 2 % 2) (w % 2)
    else if op == 19 && w / 2 % 1024 == 528
    then bcctr (first w) (second w) (w % 2)
    else if op == 24
    then ori (first w) (second w) (half w)
    else if op == 31 && w / 2 % 1024 == 467 && w / 2 ^ 16 % 32 == 9 && w / 2 ^ 11 % 32 == 0
    then mtctr (first w)
    else if op == 58 && w % 4 == 0
    then ld (first w) (second w) (half w)
    else if op == 62 && w % 4 == 0
    then std (first w) (second w) (half w)
    else other w

-- Registers hold 64 bits; `cr` is the condition register, bit by bit.
pub record Cpu : Type 0 where
  pub pc : ℕ
  pub lr : ℕ
  pub ctr : ℕ
  pub cr : ℕ → ℕ
  pub gpr : ℕ → ℕ
  pub memory : Memory

abbrev pub u64 : ℕ
u64 = 2 ^ 64

-- A field of k bits whose top bit weighs `top`, extended by its sign.
abbrev pub sign_extend : ℕ → ℕ → ℕ
sign_extend top v = if ltb v top then v else u64 - 2 * top + v

-- A double word takes two words, the upper half first.
abbrev pub load_double : Memory → ℕ → ℕ
load_double m a = m a * 2 ^ 32 + m (a + 4)

abbrev pub store_double : Memory → ℕ → ℕ → Memory
store_double m a v = update (update m a (v / 2 ^ 32)) (a + 4) (v % 2 ^ 32)

abbrev pub effective : Cpu → ℕ → ℕ → ℕ
effective c ra ds = ((if ra == 0 then 0 else c.gpr ra) + sign_extend (2 ^ 15) ds) % u64

-- The two tests of a conditional branch: the bit of the condition register, and the counter.
abbrev pub cond_ok : Cpu → ℕ → ℕ → Bool
cond_ok c bo bi = bo / 16 % 2 == 1 || c.cr bi == bo / 8 % 2

abbrev pub count_kept : ℕ → Bool
count_kept bo = bo / 4 % 2 == 1

abbrev pub count_ok : ℕ → ℕ → Bool
count_ok bo count = count_kept bo || (if count == 0 then 1 else 0) == bo / 2 % 2

abbrev pub next : Cpu → Cpu
next c = record c { pc = c.pc + 4 }

abbrev pub link : ℕ → Cpu → ℕ
link lk c = if lk == 1 then c.pc + 4 else c.lr

abbrev pub relative : Cpu → ℕ → ℕ → ℕ → ℕ
relative c top offset aa = ((if aa == 1 then 0 else c.pc) + sign_extend top (offset * 4)) % u64

-- The counter after a conditional branch has counted down.
abbrev pub counted : ℕ → ℕ → ℕ
counted bo count = if count_kept bo then count else (count + u64 - 1) % u64

unfoldable pub exec : Instruction → Cpu → Option Cpu
exec (addis rd ra imm) c =
    let base = if ra == 0 then 0 else c.gpr ra in
    some
      (record (next c) { gpr = update c.gpr rd ((base + sign_extend (2 ^ 15) imm * 2 ^ 16) % u64) })
exec (ori rs ra imm) c = some (record (next c) { gpr = update c.gpr ra (bit_or (c.gpr rs) imm) })
exec (std rs ra ds) c =
    some (record (next c) { memory = store_double c.memory (effective c ra ds) (c.gpr rs) })
exec (ld rd ra ds) c =
    some (record (next c) { gpr = update c.gpr rd (load_double c.memory (effective c ra ds)) })
exec (mtctr rs) c = some (record (next c) { ctr = c.gpr rs })
-- the form that would count down is not valid with the counter as its target
exec (bcctr bo bi lk) c =
    if count_kept bo
    then some
        (record c { pc = if cond_ok c bo bi then c.ctr - c.ctr % 4 else c.pc + 4; lr = link lk c })
    else none
exec (b li aa lk) c = some (record c { pc = relative c (2 ^ 25) li aa; lr = link lk c })
exec (bc bo bi bd aa lk) c =
    let count = counted bo c.ctr in
    some (record c {
      ctr = count;
      pc = if count_ok bo count && cond_ok c bo bi then relative c (2 ^ 15) bd aa else c.pc + 4;
      lr = link lk c;
    })
exec (other w) c = none

unfoldable pub step : Cpu → Option Cpu
step c = exec (decode (c.memory c.pc)) c

unfoldable pub run : ℕ → Cpu → Option Cpu
run zero c = some c
run (suc n) c = step c >>= run n

-- The words that lie from an address.
abbrev pub Holds : Memory → ℕ → List ℕ → Type 0
Holds m a [] = Unit
Holds m a (w ∷ ws) = (m a ≡ w) × Holds m (a + 4) ws
