-- ===== src/Vsh/Scan/Walk.antt =====
-- The walk over the windows, over memory that can be read.
use mathlib.Core.Path.{subst}
use ps3_plugins.Base.{
  ℕ, zero, suc, ◌+◌, ◌*◌, ◌%◌, ◌^◌, ◌≤◌, ◌<◌, ◌≡◌, refl, sym, ◌∙◌, ◌⊎◌, inl, inr, true, false,
  Option, none, some, arith, ltb, Bool-cases, ltb→lt, Bytes, length, Option-cases,
}
use ps3_plugins.Vsh.Scan.{find_in_window, scan_window, scan_windows, matches_at}
use ps3_plugins.Vsh.Scan.Window.{
  bytes_at, view, Match, Match-view, matches_at_iff, found_sound, found_first,
}

-- The search over memory that can be read throughout.
module _ (m : ℕ → ℕ) (behind : ℕ → ℕ) where
  abbrev pub whole : ℕ → Option Bytes
  whole seek = some (bytes_at m seek 256)

  scan_window-whole :
      (ps : Bytes) (seek : ℕ)
      → scan_window whole behind ps seek
        ≡ find_in_window whole behind (bytes_at m seek 256) ps 256 0
  unfolding scan_window
  scan_window-whole ps seek = refl

  -- One round, by what it sees.
  module _ (ps : Bytes) (offset end fuel seek : ℕ) where
    ended : ltb seek end ≡ false → scan_windows whole behind ps offset end (suc fuel) seek ≡ some 0
    unfolding scan_windows
    ended f = rw f refl

    found :
        (j : ℕ)
        → ltb seek end ≡ true
        → scan_window whole behind ps seek ≡ some j
        → scan_windows whole behind ps offset end (suc fuel) seek
          ≡ some ((seek + j + offset) % 2 ^ 32)
    unfolding scan_windows
    found j t s = rw (t, s) refl

    passed :
        ltb seek end ≡ true
        → scan_window whole behind ps seek ≡ none
        → scan_windows whole behind ps offset end (suc fuel) seek
          ≡ scan_windows whole behind ps offset end fuel ((seek + 256) % 2 ^ 32)
    unfolding scan_windows
    passed t s = rw (t, s) refl

  -- A match that starts in a window in front of the end: every byte of the signature that is not
  -- 0xff, compared with what the search sees from that window on.
  abbrev pub Hit : Bytes → ℕ → ℕ → Type 0
  Hit ps end at =
      (seek : ℕ) × (seek < end) × (seek ≤ at) × (at < seek + 256) × Match (view m behind seek) at ps

  -- What a result stands for: nothing found, or a match.
  abbrev pub Found : Bytes → ℕ → ℕ → ℕ → Type 0
  Found ps offset end r = (r ≡ 0) ⊎ ((at : ℕ) × (r ≡ (at + offset) % 2 ^ 32) × Hit ps end at)

  scan_window-Hit :
      (ps : Bytes) (end seek j : ℕ)
      → ltb seek end ≡ true
      → scan_window whole behind ps seek ≡ some j
      → Hit ps end (seek + j)
  scan_window-Hit ps end seek j t s = (
    seek,
    ltb→lt seek end t,
    omega arith,
    omega (arith, in_window),
    (matches_at_iff m whole behind seek ps j).0 in_window.2,
  )
    where
      in_window : (0 ≤ j) × (j < 256) × (matches_at whole behind (bytes_at m seek 256) j ps ≡ true)
      in_window = found_sound m whole behind seek ps 256 0 j (sym (scan_window-whole ps seek) ∙ s)

  some_inj : {a b : ℕ} → some a ≡ some b → a ≡ b
  some_inj e = cc

  pub scan_windows_sound :
      (ps : Bytes) (offset end fuel seek r : ℕ)
      → scan_windows whole behind ps offset end fuel seek ≡ some r
      → Found ps offset end r
  scan_windows_sound ps offset end zero seek r e = absurd (no_fuel e)
    where
      no_fuel : scan_windows whole behind ps offset end zero seek ≡ some r → ⊥
      no_fuel e = unfold scan_windows in cc
  scan_windows_sound ps offset end (suc fuel) seek r e = elim (Bool-cases (ltb seek end)) [
    | inr f ↦ inl (some_inj (sym e ∙ ended ps offset end fuel seek f))
    | inl t ↦ elim (Option-cases (scan_window whole behind ps seek)) [
      | inl s ↦
          scan_windows_sound ps offset end fuel ((seek + 256) % 2 ^ 32) r
            (sym (passed ps offset end fuel seek t s) ∙ e)
      | inr (j, s) ↦ inr (
        seek + j,
        some_inj (sym e ∙ found ps offset end fuel seek j t s),
        scan_window-Hit ps end seek j t s,
      )
    ]
  ]

  -- A match that ends in its window is found, unless an earlier one is.
  pub scan_windows_complete :
      (ps : Bytes) (offset end fuel seek k i : ℕ)
      → k < fuel
      → seek + (k + 1) * 256 ≤ 2 ^ 32
      → seek + k * 256 < end
      → i + length ps ≤ 256
      → 1 ≤ length ps
      → Match m (seek + k * 256 + i) ps
      → (at : ℕ) × (scan_windows whole behind ps offset end fuel seek
          ≡ some ((at + offset) % 2 ^ 32))
        × Hit ps end at
        × (seek ≤ at)
        × (at ≤ seek + k * 256 + i)
  scan_windows_complete ps offset end zero seek k i f w l il pl match = absurd (omega arith)
  scan_windows_complete ps offset end (suc fuel) seek zero i f w l il pl match = (
    seek + here.0,
    found ps offset end fuel seek here.0 (ground arith) (scan_window-whole ps seek ∙ here.1),
    scan_window-Hit ps end seek here.0 (ground arith) (scan_window-whole ps seek ∙ here.1),
    omega arith,
    omega (arith, here.2),
  )
    where
      here :
          (g : ℕ) × (find_in_window whole behind (bytes_at m seek 256) ps 256 0 ≡ some g) × (g ≤ i)
      here = found_first m whole behind seek ps 256 0 i (omega arith) (omega arith) (
          (matches_at_iff m whole behind seek ps i).1 (
            Match-view m behind seek ps (seek + i) (omega arith)
              (subst (λ a. Match m (a + i) ps) (omega arith) match)))
  scan_windows_complete ps offset end (suc fuel) seek (suc k) i f w l il pl match =
      elim (Option-cases (scan_window whole behind ps seek)) [
        | inr (j, s) ↦ (
          seek + j,
          found ps offset end fuel seek j before s,
          scan_window-Hit ps end seek j before s,
          omega arith,
          omega (
            arith,
            (found_sound m whole behind seek ps 256 0 j (sym (scan_window-whole ps seek) ∙ s)).1,
          ),
        )
        | inl s ↦ later s (
            scan_windows_complete ps offset end fuel ((seek + 256) % 2 ^ 32) k i (omega arith)
              (omega arith) (omega arith) il pl (subst (λ a. Match m a ps) moved match))
      ]
    where
      before : ltb seek end ≡ true
      before = ground arith

      moved : seek + suc k * 256 + i ≡ (seek + 256) % 2 ^ 32 + k * 256 + i
      moved = omega arith

      later :
          scan_window whole behind ps seek ≡ none
          → (at : ℕ) × (scan_windows whole behind ps offset end fuel ((seek + 256) % 2 ^ 32)
              ≡ some ((at + offset) % 2 ^ 32))
            × Hit ps end at
            × ((seek + 256) % 2 ^ 32 ≤ at)
            × (at ≤ (seek + 256) % 2 ^ 32 + k * 256 + i)
          → (at : ℕ) × (scan_windows whole behind ps offset end (suc fuel) seek
              ≡ some ((at + offset) % 2 ^ 32))
            × Hit ps end at
            × (seek ≤ at)
            × (at ≤ seek + suc k * 256 + i)
      later s (at, e, hit, lo, hi) =
          (at, passed ps offset end fuel seek before s ∙ e, hit, omega arith, omega arith)

  -- The walk ends, where the module ends below the last window of 32 bits.
  pub scan_windows_total :
      (ps : Bytes) (offset end fuel seek : ℕ)
      → end + 256 ≤ 2 ^ 32
      → end + 256 ≤ seek + fuel * 256
      → 1 ≤ fuel
      → (r : ℕ) × (scan_windows whole behind ps offset end fuel seek ≡ some r)
  scan_windows_total ps offset end zero seek w f p = absurd (omega arith)
  scan_windows_total ps offset end (suc fuel) seek w f p = elim (Bool-cases (ltb seek end)) [
    | inr o ↦ (0, ended ps offset end fuel seek o)
    | inl t ↦ elim (Option-cases (scan_window whole behind ps seek)) [
      | inr (j, s) ↦ ((seek + j + offset) % 2 ^ 32, found ps offset end fuel seek j t s)
      | inl s ↦
          further s
            (scan_windows_total ps offset end fuel ((seek + 256) % 2 ^ 32) w
              (omega (arith, ltb→lt seek end t)) (omega (arith, ltb→lt seek end t)))
            t
    ]
  ]
    where
      further :
          scan_window whole behind ps seek ≡ none
          → (r : ℕ) × (scan_windows whole behind ps offset end fuel ((seek + 256) % 2 ^ 32)
              ≡ some r)
          → ltb seek end ≡ true
          → (r : ℕ) × (scan_windows whole behind ps offset end (suc fuel) seek ≡ some r)
      further s (r, e) t = (r, passed ps offset end fuel seek t s ∙ e)
