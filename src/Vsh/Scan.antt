-- ===== src/Vsh/Scan.antt =====
-- `PatternScan` of game_patch_vsh_data/prx.cpp. A read gives 256 bytes at an address or fails. The
-- bytes behind the buffer, which the comparison reaches near its end, are a parameter. The walk
-- takes fuel, and `none` means that it ran out.
pub mod Window
pub mod Walk
pub mod Finds
use ps3_plugins.Base.{
  ℕ, zero, suc, ◌+◌, ◌-◌, ◌%◌, ◌^◌, Bool, true, ◌&&◌, ◌||◌, Option, none, some, [], ◌∷◌, ltb, ◌==◌,
  if◌then◌else◌, Bytes, length, get_or, ◌>>=◌,
}

abbrev pub seek_size : ℕ
seek_size = 256

module _ (read : ℕ → Option Bytes) (behind : ℕ → ℕ) where
  -- `scanBytes[i]`
  abbrev pub scan_byte : Bytes → ℕ → ℕ
  scan_byte buf i = get_or buf i (behind (i - seek_size))

  -- The inner loop: the signature from place i, where 0xff stands for any byte.
  unfoldable pub matches_at : Bytes → ℕ → Bytes → Bool
  matches_at buf i [] = true
  matches_at buf i (p ∷ ps) = (scan_byte buf i == p || p == 0xff) && matches_at buf (i + 1) ps

  -- The first place from i on, for the places left.
  unfoldable pub find_in_window : Bytes → Bytes → ℕ → ℕ → Option ℕ
  unfolding matches_at
  find_in_window buf signature zero i = none
  find_in_window buf signature (suc n) i =
      let rest = find_in_window buf signature n (i + 1) in
      if matches_at buf i signature then some i else rest

  -- A window that is read; `none` also where the read fails.
  unfoldable pub scan_window : Bytes → ℕ → Option ℕ
  scan_window signature seek = do buf ← read seek; find_in_window buf signature seek_size 0

  -- The outer loop: `seek` has 32 bits, the end 64.
  unfoldable pub scan_windows : Bytes → ℕ → ℕ → ℕ → ℕ → Option ℕ
  scan_windows signature offset end zero seek = none
  scan_windows signature offset end (suc fuel) seek =
      let rest = scan_windows signature offset end fuel ((seek + seek_size) % 2 ^ 32) in
      if ltb seek end
      then elim (scan_window signature seek) [
        | some i ↦ some ((seek + i + offset) % 2 ^ 32)
        | none ↦ rest
      ]
      else some 0

  unfoldable pub pattern_scan : ℕ → ℕ → ℕ → Bytes → ℕ → Option ℕ
  pattern_scan fuel module_base module_size signature offset =
      if module_base == 0
        || (module_size == 0 || (length signature == 0 || ltb seek_size (length signature)))
      then some 0
      else scan_windows signature offset
          ((module_base + module_size + 2 ^ 64 - length signature) % 2 ^ 64) fuel module_base
