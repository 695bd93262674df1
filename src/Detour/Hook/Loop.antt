-- ===== src/Detour/Hook/Loop.antt =====
-- What the loop of `Hook` writes: the instructions, each at its new place.
use mathlib.Core.Path.{subst}
use ps3_plugins.Base.{
  ℕ, ◌+◌, ◌*◌, ◌≤◌, ◌≡◌, refl, sym, ap, ◌∙◌, ◌≢◌, ◌⊎◌, inl, inr, Bool, true, not, ◌&&◌, ◌||◌, List,
  [], ◌∷◌, ◌++◌, arith, ◌==◌, if◌then◌else◌, Bool-cases, length, length-append,
}
use ps3_plugins.ProcessMemory.{Syscalls, Process, Memory, update, write_words, write_process_memory}
use ps3_plugins.ProcessMemory.Fallback.{Works, write_process_memory_lem}
use ps3_plugins.Detour.Encode.{opcode_of, opcode_b, opcode_bc}
use ps3_plugins.Detour.PowerPc.{Holds}
use ps3_plugins.Detour.PowerPc.Holding.{Holds-below, Holds-behind}
use ps3_plugins.Detour.Jump.{branch_asm, branch_far_asm_preserve, jump_with_options}
use ps3_plugins.Detour.Relocate.{
  branch_fields, branch_address, is_absolute, is_linked, relocate_branch, relocate_code,
}
use ps3_plugins.Detour.Relocate.Moved.{jump_with_options_lem}
use ps3_plugins.Detour.Hook.{World, relocate_step, relocate_loop}

-- The words that an instruction from `source` becomes.
abbrev pub relocated : ℕ → ℕ → List ℕ
relocated source instruction =
    if (opcode_of instruction == opcode_b || opcode_of instruction == opcode_bc)
      && not (is_absolute instruction)
    then branch_far_asm_preserve (branch_address source instruction)
        (branch_fields instruction).options (branch_fields instruction).condition_bit 0
        (is_linked instruction)
    else instruction ∷ []

abbrev pub relocated_all : ℕ → List ℕ → List ℕ
relocated_all source [] = []
relocated_all source (w ∷ ws) = relocated source w ++ relocated_all (source + 4) ws

-- Two ranges of addresses that do not meet.
abbrev pub Separate : ℕ → ℕ → ℕ → ℕ → Type 0
Separate a n b m = (a + n ≤ b) ⊎ (b + m ≤ a)

pub Separate-flip : (a n b m : ℕ) → Separate a n b m → Separate b m a n
Separate-flip a n b m (inl h) = inr h
Separate-flip a n b m (inr h) = inl h

pub Separate-narrow : (a n b m n' m' : ℕ) → n' ≤ n → m' ≤ m → Separate a n b m → Separate a n' b m'
Separate-narrow a n b m n' m' p q (inl h) = inl (omega arith)
Separate-narrow a n b m n' m' p q (inr h) = inr (omega arith)

pub Holds-write :
    (us ws : List ℕ) (m : Memory) (a q : ℕ)
    → Separate q (length us * 4) a (length ws * 4)
    → Holds m q us
    → Holds (write_words m a ws) q us
Holds-write us ws m a q (inl below) h = Holds-below us ws m a q below h
Holds-write us ws m a q (inr behind) h = Holds-behind us ws m a q behind h

pub write_words-append :
    (us ws : List ℕ) (m : Memory) (a : ℕ)
    → write_words (write_words m a us) (a + length us * 4) ws ≡ write_words m a (us ++ ws)
unfolding write_words
write_words-append [] ws m a = ap (λ t. write_words m t ws) (omega arith)
write_words-append (u ∷ us) ws m a =
    ap (λ t. write_words (write_words (update m a u) (a + 4) us) t ws) (omega arith)
    ∙ write_words-append us ws (update m a u) (a + 4)

pub length-relocated :
    (source w : ℕ) → (1 ≤ length (relocated source w)) × (length (relocated source w) ≤ 6)
unfolding branch_far_asm_preserve
length-relocated source w = ground arith

pub length-relocated_all :
    (source : ℕ) (ws : List ℕ)
    → (length ws ≤ length (relocated_all source ws))
      × (length (relocated_all source ws) ≤ length ws * 6)
length-relocated_all source [] = (omega arith, omega arith)
length-relocated_all source (w ∷ ws) = omega (
  arith,
  length-relocated source w,
  length-relocated_all (source + 4) ws,
  length-append (relocated source w) (relocated_all (source + 4) ws),
)

abbrev is_branch : ℕ → Bool
is_branch w = opcode_of w == opcode_b || opcode_of w == opcode_bc

module _ (k : Syscalls) (works : Works k) where
  copied :
      (p : Process) (destination w : ℕ)
      → (write_process_memory k p destination (w ∷ [])).1.memory
        ≡ write_words p.memory destination (w ∷ [])
  copied p destination w = (write_process_memory_lem k works p destination (w ∷ [])).1

  -- One instruction: its size, and its words.
  relocate_code_lem :
      (p : Process) (destination source : ℕ)
      → destination ≢ 0
      → ((relocate_code k p destination source).0 ≡ length (relocated source (p.memory source)) * 4)
        × ((relocate_code k p destination source).1.memory
            ≡ write_words p.memory destination (relocated source (p.memory source)))
  unfolding relocate_code relocate_branch branch_asm jump_with_options branch_far_asm_preserve
  relocate_code_lem p destination source ne = elim (Bool-cases (is_branch (p.memory source))) [
    | inl branch ↦ elim (Bool-cases (is_absolute (p.memory source))) [
      | inl absolute ↦ rw (branch, absolute) (refl, copied p destination (p.memory source))
      | inr relative ↦
          rw (branch, relative)
            (refl, jump_with_options_lem k works p destination _ _ true _ _ _ ne)
    ]
    | inr plain ↦ rw plain (refl, copied p destination (p.memory source))
  ]

  -- The loop over these instructions leaves their new words behind what the buffer holds.
  abbrev pub Relocates : ℕ → ℕ → List ℕ → ℕ → World → Type 0
  Relocates buffer hook_address ws i w =
      let out = relocated_all (hook_address + i * 4) ws in
      let w' = relocate_loop k buffer hook_address (length ws) i w in
      (w'.trampoline_size ≡ w.trampoline_size + length out * 4)
      × (w'.process.memory ≡ write_words w.process.memory (buffer + w.trampoline_size) out)

  -- All of them, in order, behind what the buffer holds.
  pub relocate_loop_lem :
      (buffer hook_address : ℕ) (ws : List ℕ) (i : ℕ) (w : World)
      → buffer ≢ 0
      → Holds w.process.memory (hook_address + i * 4) ws
      → Separate
          (hook_address + i * 4)
          (length ws * 4)
          (buffer + w.trampoline_size)
          (length ws * 24)
      → Relocates buffer hook_address ws i w
  unfolding relocate_loop relocate_step write_words
  relocate_loop_lem buffer hook_address [] i w ne held apart = (omega arith, refl)
  relocate_loop_lem buffer hook_address (u ∷ ws) i w ne (e, held) apart = extended (
      relocate_loop_lem buffer hook_address ws (i + 1) one ne rest
        (ground (arith, length-relocated source u, grown)))
    where
      source : ℕ
      source = hook_address + i * 4

      start : ℕ
      start = buffer + w.trampoline_size

      one : World
      one = relocate_step k buffer hook_address i w

      first : List ℕ
      first = relocated source u

      moved :
          ((relocate_code k w.process start source).0 ≡ length first * 4)
          × ((relocate_code k w.process start source).1.memory
              ≡ write_words w.process.memory start first)
      moved =
          subst
            (λ v.
              ((relocate_code k w.process start source).0 ≡ length (relocated source v) * 4)
              × ((relocate_code k w.process start source).1.memory
                  ≡ write_words w.process.memory start (relocated source v)))
            e (relocate_code_lem w.process start source (omega arith))

      grown : one.trampoline_size ≡ w.trampoline_size + length first * 4
      grown = ap (λ n. w.trampoline_size + n) moved.0

      written : one.process.memory ≡ write_words w.process.memory start first
      written = moved.1

      behind : buffer + one.trampoline_size ≡ start + length first * 4
      behind = omega (arith, grown)

      at : hook_address + (i + 1) * 4 ≡ source + 4
      at = omega arith

      rest : Holds one.process.memory (hook_address + (i + 1) * 4) ws
      rest =
          subst (λ s. Holds one.process.memory s ws) (sym at)
            (subst (λ m. Holds m (source + 4) ws) (sym written)
              (Holds-write ws first w.process.memory start (source + 4)
                (ground (arith, length-relocated source u)) held))

      extended :
          Relocates buffer hook_address ws (i + 1) one → Relocates buffer hook_address (u ∷ ws) i w
      extended ih = (
        omega (
          arith,
          ih.0,
          grown,
          ap (λ s. length (relocated_all s ws)) at,
          length-append first (relocated_all (source + 4) ws),
        ),
        ih.1
            ∙ (λ j. write_words (written j) (behind j) (relocated_all (at j) ws))
            ∙ write_words-append first (relocated_all (source + 4) ws) w.process.memory start,
      )
