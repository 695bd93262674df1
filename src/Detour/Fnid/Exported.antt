-- ===== src/Detour/Fnid/Exported.antt =====
-- A detour of an exported function, from its construction to its end.
use ps3_plugins.Base.{
  ℕ, ◌+◌, ◌%◌, ◌^◌, ◌<◌, ◌≡◌, refl, ap, ◌∙◌, ◌≢◌, some, List, ==_ne, Bytes, length, All, ◌>>=◌,
}
use ps3_plugins.ProcessMemory.{Syscalls, update, read_words}
use ps3_plugins.ProcessMemory.Fallback.{Works}
use ps3_plugins.Detour.PowerPc.{Holds, Cpu, run}
use ps3_plugins.Detour.Hook.{Detour, World, new_detour, hook}
use ps3_plugins.Detour.Hook.Loop.{Separate}
use ps3_plugins.Detour.Hook.Undo.{hook-Redirects, un_hook-hook}
use ps3_plugins.Detour.Fnid.{
  address_table, export_stub, export_hook, hook_opd, import_export_detour, destroy_import_export,
}
use ps3_plugins.Detour.Fnid.Table.{Library, TableAt, find_in, find_export_by_name_lem}

module _ (k : Syscalls) (buffer original_instructions : ℕ) (w : World) (library : Bytes)
    (fnid callback : ℕ) (ls : List Library) where
  -- The descriptor that the table has, the function, and where calls shall go.
  abbrev pub opd : ℕ
  opd = find_in ls library fnid

  abbrev pub function : ℕ
  function = w.process.memory opd

  abbrev pub target : ℕ
  target = w.process.memory callback

  abbrev pub hooked : Detour × World
  hooked =
      hook k buffer (new_detour original_instructions) w function callback
        (w.process.memory (opd + 4))

  constructed :
      (fuel : ℕ)
      → All (λ c. c ≢ 0) library
      → length ls < fuel
      → TableAt export_stub w.process.memory (address_table w.process.memory) ls
      → opd ≢ 0
      → import_export_detour k buffer fuel original_instructions w export_hook library fnid callback
        ≡ some hooked
  unfolding import_export_detour
  constructed fuel named enough table there =
      ap (λ r. r >>= λ o. some (hook_opd k buffer (new_detour original_instructions) w callback o))
        (find_export_by_name_lem w.process.memory library fnid ls fuel named enough table)
      ∙ rw (==_ne opd 0 there) refl

  -- Where the table of exports has a function for the library and the number, the three places of its
  -- detour do not meet, and the callback lies below 2 ^ 31 where 4 divides: the construction hooks that function, a call of it goes to the
  -- callback in four steps, and the end of the detour puts the four words of the function back.
  pub import_export_detour-Redirects :
      (works : Works k) (fuel : ℕ)
      → All (λ c. c ≢ 0) library
      → length ls < fuel
      → TableAt export_stub w.process.memory (address_table w.process.memory) ls
      → opd ≢ 0
      → buffer ≢ 0
      → function ≢ 0
      → Separate original_instructions 16 function 16
      → Separate (buffer + w.trampoline_size) 120 function 16
      → Separate (buffer + w.trampoline_size) 120 original_instructions 16
      → target < 2 ^ 31
      → target % 4 ≡ 0
      → (c : Cpu) → c.pc ≡ function
      → c.memory ≡ hooked.1.process.memory
      → (import_export_detour k buffer fuel original_instructions w export_hook library fnid
            callback
          ≡ some hooked)
        × (run 4 c ≡ some (record c { pc = target; ctr = target; gpr = update c.gpr 0 target }))
        × Holds
            (destroy_import_export k hooked.0 hooked.1).1.process.memory
            function
            (read_words w.process.memory function 4)
  unfolding destroy_import_export new_detour
  import_export_detour-Redirects works fuel named enough table there nb nf apart_o apart_f apart_t
        small aligned c at held =
      (
        constructed fuel named enough table there,
        hook-Redirects k works buffer (new_detour original_instructions) w function callback
            (w.process.memory (opd + 4)) nb nf apart_o apart_f apart_t small aligned c at held,
        (un_hook-hook k works buffer (new_detour original_instructions) w function callback
            (w.process.memory (opd + 4)) nb nf apart_o apart_f apart_t).1,
      )
