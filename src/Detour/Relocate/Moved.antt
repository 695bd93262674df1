-- ===== src/Detour/Relocate/Moved.antt =====
-- A branch at its old and at its new place: the same decision, the same target, the way back behind
-- each.
use mathlib.Core.Path.{subst}
use ps3_plugins.Base.{
  ℕ, ◌+◌, ◌/◌, ◌%◌, ◌^◌, ◌≤◌, ◌<◌, ◌≡◌, refl, sym, ap, ◌∙◌, ◌≢◌, ◌⊎◌, inl, inr, Bool, true, some,
  List, arith, ==_ne,
}
use ps3_plugins.ProcessMemory.{Syscalls, Process, Memory, write_words}
use ps3_plugins.ProcessMemory.Fallback.{Works, write_process_memory_lem}
use ps3_plugins.Detour.PowerPc.{Cpu, step, run, store_double, Holds}
use ps3_plugins.Detour.PowerPc.Holding.{Holds-write_words}
use ps3_plugins.Detour.Jump.{branch_asm, branch_far_asm_preserve, jump_with_options}
use ps3_plugins.Detour.Jump.Reaches.{branch_far_asm_preserve-Reaches, landed, slot}
use ps3_plugins.Detour.Relocate.{
  branch_fields, branch_address, is_linked, u32, relocate_branch, branch_offset,
}
use ps3_plugins.Detour.Relocate.Branches.{
  IsBranch, branched, destination_of, branch-branched, address_near, branch_fields-b,
  branch_fields-bc,
}

-- The fields that the code reads suit the counter's branch.
fields_valid :
    (w : ℕ)
    → IsBranch w
    → ((branch_fields w).options < 32)
      × ((branch_fields w).condition_bit < 32)
      × ((branch_fields w).options / 4 % 2 ≡ 1)
      × (((branch_fields w).offset_bit_size ≡ 24) ⊎ ((branch_fields w).offset_bit_size ≡ 14))
      × ((branch_fields w).offset_bit_base ≡ 2)
fields_valid w (rel, inl e) =
    rw (branch_fields-b w e) (omega arith, omega arith, omega arith, inl refl, refl)
fields_valid w (rel, inr (e, kept)) =
    rw (branch_fields-bc w e) (omega arith, omega arith, omega arith, inr refl, refl)

branch_address_lem :
    (source w : ℕ)
    → IsBranch w
    → source < u32
    → destination_of source w < 2 ^ 31
    → branch_address source w ≡ destination_of source w
unfolding branch_address
branch_address_lem source w is hs near =
    ap (λ b. (source + branch_offset (branch_fields w).offset_bit_size b w) % u32)
      (fields_valid w is).4
    ∙ address_near source (branch_fields w).offset_bit_size w (fields_valid w is).3 hs near

destination_of-aligned :
    (source w : ℕ) → IsBranch w → source % 4 ≡ 0 → destination_of source w % 4 ≡ 0
destination_of-aligned source w (rel, inl e) h = rw (branch_fields-b w e) (ground arith)
destination_of-aligned source w (rel, inr (e, kept)) h = rw (branch_fields-bc w e) (ground arith)

module _ (k : Syscalls) (works : Works k) where
  pub jump_with_options_lem :
      (p : Process) (destination target : ℕ) (linked preserve : Bool) (bo bi r : ℕ)
      → destination ≢ 0
      → (jump_with_options k p destination target linked preserve bo bi r).1.memory
        ≡ write_words p.memory destination (branch_asm target bo bi r linked preserve)
  unfolding jump_with_options
  jump_with_options_lem p destination target linked preserve bo bi r ne =
      rw (==_ne destination 0 ne) ((write_process_memory_lem k works p destination _).1)

  pub relocate_branch_lem :
      (p : Process) (destination source : ℕ)
      → destination ≢ 0
      → IsBranch (p.memory source)
      → (relocate_branch k p destination source).1.memory
        ≡ write_words p.memory destination (
            branch_far_asm_preserve
              (branch_address source (p.memory source))
              (branch_fields (p.memory source)).options
              (branch_fields (p.memory source)).condition_bit
              0
              (is_linked (p.memory source)))
  unfolding relocate_branch branch_asm
  relocate_branch_lem p destination source ne is =
      rw is.0 (jump_with_options_lem p destination _ _ true _ _ _ ne)

  -- The branch at `source`, which 4 divides, a relative `b` or a relative `bc` that does not count, with
  -- a target below 2 ^ 31, and what was written for it at `destination`, where the doubleword below the
  -- stack does not meet that: both send the processor to the same target under the same test, and else
  -- on to what lies behind them.
  pub relocate_branch-SameBranch :
      (p : Process) (destination source : ℕ)
      → destination ≢ 0
      → IsBranch (p.memory source)
      → source % 4 ≡ 0
      → source < u32
      → destination_of source (p.memory source) < 2 ^ 31
      → (o c : Cpu) → o.pc ≡ source
      → o.memory ≡ p.memory
      → c.pc ≡ destination
      → c.memory ≡ (relocate_branch k p destination source).1.memory
      → (slot c + 8 ≤ destination) ⊎ (destination + 24 ≤ slot c)
      → let w = p.memory source in
        let target = destination_of source w in
        (step o ≡ some (branched o w target (source + 4)))
        × (run 6 c
            ≡ some (record (branched c w target (destination + 24)) {
              ctr = target;
              memory = store_double c.memory (slot c) (c.gpr 0);
            }))
  relocate_branch-SameBranch p destination source ne is aligned below near o c ho hm hc hw apart = (
    branch-branched o w is (ap (λ (m : Memory). m o.pc) hm ∙ ap p.memory ho)
        ∙ ap (λ s. some (branched o w (destination_of s w) (s + 4))) ho,
    branch_far_asm_preserve-Reaches target (branch_fields w).options (branch_fields w).condition_bit
          (is_linked w) (destination_of-aligned source w is aligned) (fields_valid w is).0
          (fields_valid w is).1 (fields_valid w is).2 0 near (omega arith) c (omega arith)
          (rw hc apart)
          (subst (λ m. Holds m c.pc words) (sym (hw ∙ written))
            (rw hc (Holds-write_words words p.memory destination)))
        ∙ ap
            (λ d. some (
              landed target (branch_fields w).options (branch_fields w).condition_bit (is_linked w)
                (record c { memory = store_double c.memory (slot c) (c.gpr 0) }) (d + 24)))
            hc,
  )
    where
      w : ℕ
      w = p.memory source

      target : ℕ
      target = destination_of source w

      words : List ℕ
      words =
          branch_far_asm_preserve target (branch_fields w).options (branch_fields w).condition_bit 0
            (is_linked w)

      written :
          (relocate_branch k p destination source).1.memory ≡ write_words p.memory destination words
      written =
          relocate_branch_lem p destination source ne is
          ∙ ap
              (λ t. write_words p.memory destination (
                branch_far_asm_preserve t (branch_fields w).options (branch_fields w).condition_bit
                  0 (is_linked w)))
              (branch_address_lem source w is below near)
