-- ===== src/Vsh/Scan/Window.antt =====
-- What the search finds in one window.
use mathlib.Core.Path.{subst}
use ps3_plugins.Base.{
  ℕ, zero, suc, ◌+◌, ◌-◌, ◌≤◌, ◌<◌, ◌≡◌, refl, sym, ap, ◌∙◌, ◌↔◌, ◌⊎◌, inl, inr, Bool, true, false,
  ◌&&◌, ◌||◌, Option, some, [], ◌∷◌, arith, ltb, ◌==◌, if◌then◌else◌, Bool-cases, Bytes, length,
  get_or,
}
use ps3_plugins.Vsh.Scan.{matches_at, find_in_window}

-- The bytes of memory from an address.
unfoldable pub bytes_at : (ℕ → ℕ) → ℕ → ℕ → Bytes
bytes_at m a zero = []
bytes_at m a (suc n) = m a ∷ bytes_at m (a + 1) n

-- Every byte of the signature that is not 0xff stands in memory.
abbrev pub Match : (ℕ → ℕ) → ℕ → Bytes → Type 0
Match m a [] = Unit
Match m a (p ∷ ps) = ((m a ≡ p) ⊎ (p ≡ 0xff)) × Match m (a + 1) ps

get_or-bytes_at : (m : ℕ → ℕ) (n a i d : ℕ) → i < n → get_or (bytes_at m a n) i d ≡ m (a + i)
unfolding bytes_at
get_or-bytes_at m zero a i d h = absurd (omega arith)
get_or-bytes_at m (suc n) a zero d h = ap m (omega arith)
get_or-bytes_at m (suc n) a (suc i) d h =
    get_or-bytes_at m n (a + 1) i d (omega arith) ∙ ap m (omega arith)

and_iff :
    {P Q : Type 0} (a b : Bool) → ((a ≡ true) ↔ P) → ((b ≡ true) ↔ Q) → ((a && b) ≡ true) ↔ (P × Q)
and_iff true b p q = (λ e. (p.0 refl, q.0 e), λ h. q.1 h.1)
and_iff false b p q = (λ e. absurd (absurd_of e), λ h. p.1 h.0)
  where
    absurd_of : false ≡ true → ⊥
    absurd_of e = cc

byte_iff : (x p : ℕ) → ((x == p || p == 0xff) ≡ true) ↔ ((x ≡ p) ⊎ (p ≡ 0xff))
byte_iff x p = ground arith

-- What the comparison sees from a window on: the bytes that were read, and behind them those
-- behind the buffer.
abbrev pub view : (ℕ → ℕ) → (ℕ → ℕ) → ℕ → ℕ → ℕ
view m behind seek q = if ltb q (seek + 256) then m q else behind (q - (seek + 256))

get_or-bytes_at_behind : (m : ℕ → ℕ) (n a i d : ℕ) → n ≤ i → get_or (bytes_at m a n) i d ≡ d
unfolding bytes_at
get_or-bytes_at_behind m zero a i d h = refl
get_or-bytes_at_behind m (suc n) a zero d h = absurd (omega arith)
get_or-bytes_at_behind m (suc n) a (suc i) d h =
    get_or-bytes_at_behind m n (a + 1) i d (omega arith)

get_or-view :
    (m behind : ℕ → ℕ) (seek i : ℕ)
    → get_or (bytes_at m seek 256) i (behind (i - 256)) ≡ view m behind seek (seek + i)
get_or-view m behind seek i = elim (Bool-cases (ltb i 256)) [
  | inl t ↦
      get_or-bytes_at m 256 seek i (behind (i - 256)) (ground (arith, t)) ∙ sym (rw (inside t) refl)
  | inr f ↦
      get_or-bytes_at_behind m 256 seek i (behind (i - 256)) (ground (arith, f))
      ∙ ap behind place
      ∙ sym (rw (outside f) refl)
]
  where
    place : i - 256 ≡ seek + i - (seek + 256)
    place = omega arith

    inside : ltb i 256 ≡ true → ltb (seek + i) (seek + 256) ≡ true
    inside t = ground arith

    outside : ltb i 256 ≡ false → ltb (seek + i) (seek + 256) ≡ false
    outside f = ground arith

-- Inside the window the view is memory.
pub Match-view :
    (m behind : ℕ → ℕ) (seek : ℕ) (ps : Bytes) (a : ℕ)
    → a + length ps ≤ seek + 256
    → Match m a ps
    → Match (view m behind seek) a ps
Match-view m behind seek [] a h e = tt
Match-view m behind seek (p ∷ ps) a h (e, es) = (
  subst (λ x. (x ≡ p) ⊎ (p ≡ 0xff)) (sym (rw inside refl)) e,
  Match-view m behind seek ps (a + 1) (omega arith) es,
)
  where
    inside : ltb a (seek + 256) ≡ true
    inside = ground arith

module _ (m : ℕ → ℕ) (read : ℕ → Option Bytes) (behind : ℕ → ℕ) (seek : ℕ) where
  -- The comparison is exact.
  pub matches_at_iff :
      (ps : Bytes) (i : ℕ)
      → (matches_at read behind (bytes_at m seek 256) i ps ≡ true)
        ↔ Match (view m behind seek) (seek + i) ps
  unfolding matches_at
  matches_at_iff [] i = (λ _. tt, λ _. refl)
  matches_at_iff (p ∷ ps) i =
      and_iff _ _ (rw (get_or-view m behind seek i) (byte_iff (view m behind seek (seek + i)) p)) (
        subst
          (λ a.
            (matches_at read behind (bytes_at m seek 256) (i + 1) ps ≡ true)
            ↔ Match (view m behind seek) a ps)
          next (matches_at_iff ps (i + 1)))
    where
      next : seek + (i + 1) ≡ seek + i + 1
      next = omega arith

  -- The window that was read.
  abbrev buf : Bytes
  buf = bytes_at m seek 256

  pub found_sound :
      (ps : Bytes) (n i j : ℕ)
      → find_in_window read behind buf ps n i ≡ some j
      → (i ≤ j) × (j < i + n) × (matches_at read behind buf j ps ≡ true)
  unfolding find_in_window
  found_sound ps zero i j e = cc
  found_sound ps (suc n) i j e = elim (Bool-cases (matches_at read behind buf i ps)) [
    | inl t ↦ ground (arith, t, e)
    | inr f ↦ ground (arith, f, e, found_sound ps n (i + 1) j)
  ]

  pub found_first :
      (ps : Bytes) (n i j : ℕ)
      → i ≤ j
      → j < i + n
      → matches_at read behind buf j ps ≡ true
      → (g : ℕ) × (find_in_window read behind buf ps n i ≡ some g) × (g ≤ j)
  unfolding find_in_window
  found_first ps zero i j a b e = absurd (omega arith)
  found_first ps (suc n) i j a b e = elim (Bool-cases (matches_at read behind buf i ps)) [
    | inl t ↦ (i, rw t refl, a)
    | inr f ↦ rw f (found_first ps n (i + 1) j (later f) (omega arith) e)
  ]
    where
      later : matches_at read behind buf i ps ≡ false → i + 1 ≤ j
      later f = ground (arith, f, e)
