-- ===== src/Detour.antt =====
-- game_patch_vsh_data/Memory/Detour.cpp and Detour.hpp: the encoders of instructions, the jump, the
-- relocation of instructions, hooks and the search for imports and exports.
pub mod Encode
pub mod PowerPc
pub mod Jump
pub mod Relocate
pub mod Hook
pub mod Fnid
