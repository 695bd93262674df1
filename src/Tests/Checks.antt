-- ===== src/Tests/Checks.antt =====
-- Decisions on the bytes of a given text.
use ps3_plugins.FileIo.Lines.{newline, carriage_return}
use ps3_plugins.FileIo.Text.{IsLine}
use ps3_plugins.Base.{
  ℕ, zero, suc, ◌≤◌, ◌<◌, ◌≡◌, sym, ap, ◌∙◌, ◌≢◌, inl, inr, Bool, true, not, ◌&&◌, [], ◌∷◌, arith,
  ltb, ◌==◌, Bool-cases, ltb→lt, ==_self, Bytes, length, replicate, All,
}

abbrev pub avoids : ℕ → Bytes → Bool
avoids n [] = true
avoids n (c ∷ s) = not (c == n) && avoids n s

pub avoids-All : (n : ℕ) (s : Bytes) → avoids n s ≡ true → All (λ c. c ≢ n) s
avoids-All n [] h = tt
avoids-All n (c ∷ s) h = elim (Bool-cases (c == n)) [
  | inl e ↦ cc (rw e at h)
  | inr e ↦ ((λ k. cc (sym (==_self c) ∙ ap (λ m. c == m) k ∙ e)), avoids-All n s (rw e at h))
]

abbrev pub all_below : ℕ → Bytes → Bool
all_below n [] = true
all_below n (c ∷ s) = ltb c n && all_below n s

pub all_below-All : (n : ℕ) (s : Bytes) → all_below n s ≡ true → All (λ c. c < n) s
all_below-All n [] h = tt
all_below-All n (c ∷ s) h = elim (Bool-cases (ltb c n)) [
  | inl e ↦ (ltb→lt c n e, all_below-All n s (rw e at h))
  | inr e ↦ cc (rw e at h)
]

-- Empty buffers keep to any size.
pub All-empty : (size n : ℕ) → All {A = Bytes} (λ b. length b ≤ size) (replicate n [])
All-empty size zero = tt
All-empty size (suc n) = (omega arith, All-empty size n)

-- The text of a line, from what it avoids.
All-IsLine :
    (s : Bytes)
    → All (λ c. c ≢ 0) s
    → All (λ c. c ≢ newline) s
    → All (λ c. c ≢ carriage_return) s
    → IsLine s
All-IsLine [] h k l = tt
All-IsLine (b ∷ s) h k l = ((h.0, k.0, l.0), All-IsLine s h.1 k.1 l.1)

pub plain-IsLine :
    (s : Bytes)
    → avoids 0 s ≡ true
    → avoids newline s ≡ true
    → avoids carriage_return s ≡ true
    → IsLine s
plain-IsLine s h k l =
    All-IsLine s (avoids-All 0 s h) (avoids-All newline s k) (avoids-All carriage_return s l)
