-- ===== src/Vsh.antt =====
-- The XMB plugin, game_patch_vsh_data/prx.cpp: its search for code, its files, and the two threads
-- that it starts.
pub mod Scan
pub mod Files
pub mod RunPatch
