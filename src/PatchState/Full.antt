-- ===== src/PatchState/Full.antt =====
-- Toggling a patch where the file system has no room for the file.
use ps3_plugins.Base.{ℕ, ◌%◌, Option, List, Bytes, length}
use ps3_plugins.PatchState.{
  u32, PatchState, put_header, patch_state_magic, patch_state_version, read_patch_states_internal,
  updated_states, toggle_target, read_patch_state,
}

abbrev header_of : List PatchState → Bytes
header_of states = put_header (record {
  magic = patch_state_magic;
  version = patch_state_version;
  count = length states % u32;
})

-- The states that a toggle writes.
abbrev pub toggled : Option Bytes → ℕ → List PatchState
toggled file hash =
    updated_states hash (toggle_target (read_patch_state file hash))
      (read_patch_states_internal file)
