-- ===== src/Vsh/Scan/Finds.antt =====
-- What the search finds, over memory that can be read.
use ps3_plugins.Base.{
  ℕ, ◌+◌, ◌-◌, ◌*◌, ◌^◌, ◌≤◌, ◌≡◌, ap, ◌∙◌, ◌≢◌, false, some, arith, ltb, ==_ne, Bytes, length,
}
use ps3_plugins.Vsh.Scan.{seek_size, scan_windows, pattern_scan}
use ps3_plugins.Vsh.Scan.Walk.{whole, Found, scan_windows_sound, scan_windows_total}

module _ (m : ℕ → ℕ) (behind : ℕ → ℕ) where
  -- A module and a signature that the search takes.
  module _ (base size offset : ℕ) (ps : Bytes) (placed : base ≢ 0) (filled : length ps ≤ size)
      (some_bytes : 1 ≤ length ps) (short : length ps ≤ 256)
      (below : base + size + 256 ≤ 2 ^ 32) where
    abbrev pub end : ℕ
    end = base + size - length ps

    searched :
        (fuel : ℕ)
        → pattern_scan (whole m behind) behind fuel base size ps offset
          ≡ scan_windows (whole m behind) behind ps offset end fuel base
    unfolding pattern_scan
    searched fuel =
        rw
          (
            ==_ne base 0 placed,
            ==_ne size 0 (λ e. ground arith),
            ==_ne (length ps) 0 (λ e. ground arith),
            fits,
          )
          (ap (λ e. scan_windows (whole m behind) behind ps offset e fuel base) (omega arith))
      where
        fits : ltb seek_size (length ps) ≡ false
        fits = ground arith

    -- The search ends, and what it gives is 0 or the address of a match moved by the offset; what a
    -- window does not hold is compared with what lies behind the buffer.
    pub pattern_scan_sound :
        (fuel : ℕ)
        → size + 256 ≤ fuel * 256
        → (r : ℕ) × (pattern_scan (whole m behind) behind fuel base size ps offset ≡ some r)
          × Found m behind ps offset end r
    pattern_scan_sound fuel f =
        let (r, e) =
          scan_windows_total m behind ps offset end fuel base (omega arith) (omega arith)
            (omega arith) in
        (r, searched fuel ∙ e, scan_windows_sound m behind ps offset end fuel base r e)
