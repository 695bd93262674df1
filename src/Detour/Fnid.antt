-- ===== src/Detour/Fnid.antt =====
-- Functions found by module and number, game_patch_vsh_data/Memory/Detour.cpp: `FindExportByName`
-- and `FindImportByName` with the stubs of Memory.hpp, and the class `ImportExportDetour`. The walk
-- over the stubs takes fuel, and `none` means that it ran out; a null pointer is 0.
pub mod Table
pub mod Exported
use ps3_plugins.Base.{
  ℕ, zero, suc, ◌+◌, ◌-◌, ◌*◌, ◌/◌, ◌%◌, ◌^◌, Bool, false, ◌&&◌, Option, none, some, [], ◌∷◌, ltb,
  ◌==◌, if◌then◌else◌, Bytes, ◌>>=◌,
}
use ps3_plugins.ProcessMemory.{Memory, Syscalls}
use ps3_plugins.Detour.Hook.{Detour, World, hook, un_hook, new_detour}

-- A byte of a word: the first is the highest.
abbrev pub byte_at : Memory → ℕ → ℕ
byte_at m a = m (a - a % 4) / 256 ^ (3 - a % 4) % 256

-- `!strcmp(module, name)`
unfoldable pub same_text : Memory → ℕ → Bytes → Bool
same_text m a [] = byte_at m a == 0
same_text m a (c ∷ cs) = byte_at m a == c && same_text m (a + 1) cs

-- What the two searches differ in: `ssize` of a stub, and its size in bytes.
pub record StubKind : Type 0 where
  pub ssize : ℕ
  pub size : ℕ

abbrev pub export_stub : StubKind
export_stub = record { ssize = 0x1c00; size = 28 }

abbrev pub import_stub : StubKind
import_stub = record { ssize = 0x2c00; size = 44 }

-- The fields of a stub at an address; the count is an `int16_t`.
abbrev pub ssize_at : Memory → ℕ → ℕ
ssize_at m a = m a / 2 ^ 16 % 2 ^ 16

abbrev pub count_at : Memory → ℕ → ℕ
count_at m a = let count = m (a + 4) % 2 ^ 16 in if ltb count (2 ^ 15) then count else 0

abbrev pub name_at : Memory → ℕ → ℕ
name_at m a = m (a + 16)

abbrev pub fnids_at : Memory → ℕ → ℕ
fnids_at m a = m (a + 20)

abbrev pub stubs_at : Memory → ℕ → ℕ
stubs_at m a = m (a + 24)

-- The inner loop, from index i.
unfoldable pub find_fnid : Memory → ℕ → ℕ → ℕ → ℕ → ℕ → Option ℕ
find_fnid m fnids stubs fnid zero i = none
find_fnid m fnids stubs fnid (suc n) i =
    let rest = find_fnid m fnids stubs fnid n (i + 1) in
    if m (fnids + i * 4) == fnid then some (m (stubs + i * 4)) else rest

unfoldable pub find_stub : StubKind → Memory → Bytes → ℕ → ℕ → ℕ → Option ℕ
unfolding same_text find_fnid
find_stub kind m module_name fnid zero a = none
find_stub kind m module_name fnid (suc fuel) a =
    let rest = find_stub kind m module_name fnid fuel (a + kind.size) in
    if ssize_at m a == kind.ssize
    then (if same_text m (name_at m a) module_name
        then elim (find_fnid m (fnids_at m a) (stubs_at m a) fnid (count_at m a) 0) [
          | some opd ↦ some opd
          | none ↦ rest
        ]
        else rest)
    else some 0

-- `segment15[0x984 / sizeof(uint32_t)]`
abbrev pub address_table : Memory → ℕ
address_table m = m (m 0x1008c + 0x984)

unfoldable pub find_export_by_name : ℕ → Memory → Bytes → ℕ → Option ℕ
unfolding find_stub
find_export_by_name fuel m module_name fnid =
    find_stub export_stub m module_name fnid fuel (address_table m)

unfoldable pub find_import_by_name : ℕ → Memory → Bytes → ℕ → Option ℕ
unfolding find_stub
find_import_by_name fuel m module_name fnid =
    find_stub import_stub m module_name fnid fuel (address_table m)

pub data HookType : Type 0 where
  import_hook export_hook : HookType

abbrev pub find_by_type : HookType → ℕ → Memory → Bytes → ℕ → Option ℕ
find_by_type import_hook = find_import_by_name
find_by_type export_hook = find_export_by_name

-- `HookByFnid` once the search has given the descriptor.
unfoldable pub hook_opd : Syscalls → ℕ → Detour → World → ℕ → ℕ → Detour × World
hook_opd k buffer d w callback opd =
    if opd == 0
    then (d, w)
    else hook k buffer d w (w.process.memory opd) callback (w.process.memory (opd + 4))

unfoldable pub hook_by_fnid :
    Syscalls → ℕ → ℕ → Detour → World → HookType → Bytes → ℕ → ℕ → Option (Detour × World)
unfolding hook_opd
hook_by_fnid k buffer fuel d w type library fnid callback = do
  opd ← find_by_type type fuel w.process.memory library fnid
  some (hook_opd k buffer d w callback opd)

-- `ImportExportDetour(type, libaryName, fnid, fnCallback)`
unfoldable pub import_export_detour :
    Syscalls → ℕ → ℕ → ℕ → World → HookType → Bytes → ℕ → ℕ → Option (Detour × World)
unfolding hook_by_fnid
import_export_detour k buffer fuel original_instructions w =
    hook_by_fnid k buffer fuel (new_detour original_instructions) w

-- `ImportExportDetour::UnHook` is not implemented there.
unfoldable pub import_export_un_hook : Detour → World → Bool × Detour × World
import_export_un_hook d w = (false, d, w)

-- `~ImportExportDetour`, then `~Detour`.
unfoldable pub destroy_import_export : Syscalls → Detour → World → Detour × World
unfolding import_export_un_hook
destroy_import_export k d w =
    let first = import_export_un_hook d w in
    let last = un_hook k first.1 first.2 in (last.1, last.2)
