-- ===== src/StringId/Concat.antt =====
-- The loop of `calculate_patch_hash` of game_patch/patch.c, which hashes a text in pieces.
use ps3_plugins.Base.{ℕ, Bool, List, [], ◌∷◌, Bytes}
use ps3_plugins.StringId.{stringid}

-- The loop over several strings.
abbrev pub stringid_all : Bool → List Bytes → ℕ → ℕ
stringid_all signed_char [] hash = hash
stringid_all signed_char (s ∷ strs) hash =
    stringid_all signed_char strs (stringid signed_char s hash)
