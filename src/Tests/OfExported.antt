-- ===== src/Tests/OfExported.antt =====
-- A detour of an exported function, made and taken off.
use ps3_plugins.Base.{◌≡◌, refl, inr, some, arith, ◌==◌, if◌then◌else◌, codes, same, false}
use ps3_plugins.ProcessMemory.{Memory, update, read_words}
use ps3_plugins.Detour.PowerPc.{Holds, run}
use ps3_plugins.Detour.Hook.{World}
use ps3_plugins.Detour.Fnid.{
  address_table, export_stub, export_hook, import_export_detour, destroy_import_export,
}
use ps3_plugins.Detour.Fnid.Table.{TableAt, find_in}
use ps3_plugins.Detour.Fnid.Exported.{hooked, import_export_detour-Redirects}
use ps3_plugins.Tests.OfDetour.{hen_only, hen_only-Works, at, table, libraries}

-- The function with the number 9 is at 0x1000, and the callback at 0x3000.
abbrev exporting : Memory
exporting q = if q == 0x228 then 0x1000 else if q == 0x8000 then 0x3000 else table q

abbrev world : World
world = record {
  process = record { memory = exporting; write_by_hen = false; read_by_hen = false };
  trampoline_size = 0;
}

exporting-TableAt : TableAt export_stub exporting (address_table exporting) libraries
exporting-TableAt = (
  refl,
  refl,
  (refl, (omega arith), (refl, omega arith, refl)),
  (refl, refl, (refl, refl, tt)),
  omega arith,
)

import_export_detour-Redirects_example :
    let (d, w) = hooked hen_only 0x6000 0x4000 world (codes "ab") 9 0x8000 libraries in
    let c = at 0x1000 w.process.memory in
    (import_export_detour hen_only 0x6000 2 0x4000 world export_hook (codes "ab") 9 0x8000
      ≡ some (d, w))
    × (run 4 c ≡ some (record c { pc = 0x3000; ctr = 0x3000; gpr = update c.gpr 0 0x3000 }))
    × Holds
        (destroy_import_export hen_only d w).1.process.memory
        0x1000
        (read_words exporting 0x1000 4)
unfolding find_in same
import_export_detour-Redirects_example =
    import_export_detour-Redirects hen_only 0x6000 0x4000 world (codes "ab") 9 0x8000 libraries
      hen_only-Works 2 (omega arith) (omega arith) exporting-TableAt (omega arith) (omega arith)
      (omega arith) (inr (omega arith)) (inr (omega arith)) (inr (omega arith)) (omega arith) refl
      (at 0x1000
        (hooked hen_only 0x6000 0x4000 world (codes "ab") 9 0x8000 libraries).1.process.memory)
      refl refl
