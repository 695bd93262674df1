-- ===== src/Detour/Hook/Places.antt =====
-- What `Hook` leaves at the function, in the trampoline and in the saved bytes, and what `UnHook`
-- makes of it.
use mathlib.Core.Path.{subst}
use ps3_plugins.Base.{
  ℕ, ◌+◌, ◌*◌, ◌≤◌, ◌≡◌, refl, sym, ap, ◌∙◌, ◌≢◌, true, false, List, ◌++◌, arith, length,
  length-append,
}
use ps3_plugins.ProcessMemory.{
  Syscalls, Process, Memory, write_words, read_words, write_process_memory,
}
use ps3_plugins.ProcessMemory.Fallback.{Works, write_process_memory_lem}
use ps3_plugins.Detour.PowerPc.{Holds}
use ps3_plugins.Detour.PowerPc.Holding.{Holds-write_words, Holds-read_words}
use ps3_plugins.Detour.Jump.{
  branch_asm, branch_far_asm, branch_far_asm_preserve, jump_with_options, jump,
}
use ps3_plugins.Detour.Relocate.Moved.{jump_with_options_lem}
use ps3_plugins.Detour.Hook.{World, hook_code, jump_back, relocate_loop}
use ps3_plugins.Detour.Hook.Loop.{
  relocated_all, Separate, Separate-flip, Separate-narrow, Holds-write, write_words-append,
  relocate_loop_lem, Relocates, length-relocated_all,
}

-- The four words that the jump replaces.
abbrev pub originals : Memory → ℕ → List ℕ
unfolding read_words
originals m a = read_words m a 4

-- The trampoline: these words at their new place, and the jump behind the jump.
abbrev pub trampoline : Memory → ℕ → List ℕ
unfolding originals
trampoline m a = relocated_all a (originals m a) ++ branch_far_asm_preserve (a + 16) 20 0 0 false

-- What lies where after `hook_code`.
pub record Hooked (buffer o a target : ℕ) (w w' : World) : Type 0 where
  pub at_function : Holds w'.process.memory a (branch_far_asm target 20 0 0 false)
  pub at_trampoline :
      Holds w'.process.memory (buffer + w.trampoline_size) (trampoline w.process.memory a)
  pub at_saved : Holds w'.process.memory o (originals w.process.memory a)
  pub size : w'.trampoline_size ≡ w.trampoline_size + length (trampoline w.process.memory a) * 4

trampoline_words :
    (m : Memory) (a : ℕ) → length (trampoline m a) ≡ length (relocated_all a (originals m a)) + 6
unfolding trampoline originals branch_far_asm_preserve
trampoline_words m a =
    length-append (relocated_all a (originals m a)) (branch_far_asm_preserve (a + 16) 20 0 0 false)

pub length-trampoline :
    (m : Memory) (a : ℕ) → (10 ≤ length (trampoline m a)) × (length (trampoline m a) ≤ 30)
unfolding trampoline originals branch_far_asm_preserve
length-trampoline m a = omega (
  arith,
  length-relocated_all a (originals m a),
  length-append (relocated_all a (originals m a)) (branch_far_asm_preserve (a + 16) 20 0 0 false),
)

fits : (m : Memory) (a : ℕ) → length (trampoline m a) * 4 ≤ 120
fits m a = omega (arith, length-trampoline m a)

module _ (k : Syscalls) (works : Works k) (buffer : ℕ) where
  jump_back_lem :
      (after : ℕ) (w : World)
      → buffer ≢ 0
      → ((jump_back k buffer after w).trampoline_size ≡ w.trampoline_size + 24)
        × ((jump_back k buffer after w).process.memory
            ≡ write_words w.process.memory
                (buffer + w.trampoline_size)
                (branch_far_asm_preserve after 20 0 0 false))
  unfolding jump_back jump branch_asm jump_with_options branch_far_asm_preserve
  jump_back_lem after w ne =
      (refl, jump_with_options_lem k works w.process _ after false true 20 0 0 (omega arith))

  jump_over_lem :
      (p : Process) (a target : ℕ)
      → a ≢ 0
      → (jump k p a target false false).1.memory
        ≡ write_words p.memory a (branch_far_asm target 20 0 0 false)
  unfolding jump branch_asm
  jump_over_lem p a target ne = jump_with_options_lem k works p a target false false 20 0 0 ne

  -- Hooking writes three places, which must not meet.
  pub hook_code-Hooked :
      (o a target : ℕ) (w : World)
      → buffer ≢ 0
      → a ≢ 0
      → Separate o 16 a 16
      → Separate (buffer + w.trampoline_size) 120 a 16
      → Separate (buffer + w.trampoline_size) 120 o 16
      → Hooked buffer o a target w (hook_code k buffer o a target 16 w)
  unfolding hook_code branch_far_asm branch_far_asm_preserve read_words
  hook_code-Hooked o a target w nb na apart_o apart_a apart_t = record {
    at_function =
        subst (λ m. Holds m a over) (sym last) (Holds-write_words over back.process.memory a);
    at_trampoline =
        subst (λ m. Holds m t (trampoline w.process.memory a)) (sym last)
          (Holds-write (trampoline w.process.memory a) over back.process.memory a t
            (Separate-narrow t 120 a 16 _ 16 (fits w.process.memory a) (omega arith) apart_a)
            (subst (λ m. Holds m t (trampoline w.process.memory a)) (sym whole)
              (Holds-write_words (trampoline w.process.memory a) saved.memory t)));
    at_saved =
        subst (λ m. Holds m o olds) (sym last)
          (Holds-write olds over back.process.memory a o apart_o (
            subst (λ m. Holds m o olds) (sym whole)
              (Holds-write olds (trampoline w.process.memory a) saved.memory t o
                (Separate-flip t _ o 16
                  (Separate-narrow t 120 o 16 _ 16 (fits w.process.memory a) (omega arith) apart_t))
                (subst (λ m. Holds m o olds) (sym save)
                  (Holds-write_words olds w.process.memory o)))));
    size =
        backs.0
        ∙ sum w₂.trampoline_size w.trampoline_size
            (moves.0 ∙ ap (λ s. w.trampoline_size + length (relocated_all s olds) * 4) (sym start));
  }
    where
      t : ℕ
      t = buffer + w.trampoline_size

      olds : List ℕ
      olds = originals w.process.memory a

      out : List ℕ
      out = relocated_all a olds

      over : List ℕ
      over = branch_far_asm target 20 0 0 false

      saved : Process
      saved = (write_process_memory k w.process o olds).1

      save : saved.memory ≡ write_words w.process.memory o olds
      save = (write_process_memory_lem k works w.process o olds).1

      w₁ : World
      w₁ = record w { process = saved }

      w₂ : World
      w₂ = relocate_loop k buffer a 4 0 w₁

      back : World
      back = jump_back k buffer (a + 16) w₂

      sum :
          (s u : ℕ)
          → s ≡ u + length out * 4
          → s + 24 ≡ u + length (trampoline w.process.memory a) * 4
      sum s u e = omega (arith, e, trampoline_words w.process.memory a)

      start : a ≡ a + 0 * 4
      start = omega arith

      moves : Relocates k works buffer a olds 0 w₁
      moves =
          relocate_loop_lem k works buffer a olds 0 w₁ nb
            (subst (λ m. Holds m (a + 0 * 4) olds) (sym save)
              (Holds-write olds olds w.process.memory o (a + 0 * 4)
                (subst (λ s. Separate s 16 o 16) start (Separate-flip o 16 a 16 apart_o))
                (subst (λ s. Holds w.process.memory s olds) start
                  (Holds-read_words 4 w.process.memory a))))
            (subst (λ s. Separate s 16 t 96) start
              (Separate-flip t 96 a 16
                (Separate-narrow t 120 a 16 96 16 (omega arith) (omega arith) apart_a)))

      behind : buffer + w₂.trampoline_size ≡ t + length (relocated_all (a + 0 * 4) olds) * 4
      behind = omega (arith, moves.0)

      backs :
          (back.trampoline_size ≡ w₂.trampoline_size + 24)
          × (back.process.memory
              ≡ write_words w₂.process.memory
                  (buffer + w₂.trampoline_size)
                  (branch_far_asm_preserve (a + 16) 20 0 0 false))
      backs = jump_back_lem (a + 16) w₂ nb

      whole : back.process.memory ≡ write_words saved.memory t (trampoline w.process.memory a)
      whole =
          backs.1
          ∙ (λ j.
              write_words (moves.1 j) (behind j) (branch_far_asm_preserve (a + 16) 20 0 0 false))
          ∙ write_words-append (relocated_all (a + 0 * 4) olds) _ saved.memory t
          ∙ ap
              (λ s.
                write_words saved.memory t
                  (relocated_all s olds ++ branch_far_asm_preserve (a + 16) 20 0 0 false))
              (sym start)

      last :
          (jump k back.process a target false false).1.memory
          ≡ write_words back.process.memory a over
      last = jump_over_lem back.process a target na
