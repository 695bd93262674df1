-- ===== src/Detour/PowerPc/Holding.antt =====
-- Words that a write has put into memory, and those that it spares.
use mathlib.Core.Path.{subst}
use ps3_plugins.Base.{
  ℕ, zero, suc, ◌+◌, ◌*◌, ◌≤◌, ◌<◌, ◌≡◌, refl, ap, ◌∙◌, List, [], ◌∷◌, ◌++◌, arith, length,
}
use ps3_plugins.ProcessMemory.{Memory, update, write_words, read_words}
use ps3_plugins.Detour.PowerPc.{Holds}

-- A write reaches no address below it, and none behind its words.
pub write_words-below : (ws : List ℕ) (m : Memory) (a q : ℕ) → q < a → write_words m a ws q ≡ m q
unfolding write_words
write_words-below [] m a q h = refl
write_words-below (w ∷ ws) m a q h =
    write_words-below ws (update m a w) (a + 4) q (omega arith) ∙ ground arith

pub write_words-behind :
    (ws : List ℕ) (m : Memory) (a q : ℕ) → a + length ws * 4 ≤ q → write_words m a ws q ≡ m q
unfolding write_words
write_words-behind [] m a q h = refl
write_words-behind (w ∷ ws) m a q h =
    write_words-behind ws (update m a w) (a + 4) q (omega arith) ∙ ground arith

pub Holds-write_words : (ws : List ℕ) (m : Memory) (a : ℕ) → Holds (write_words m a ws) a ws
unfolding write_words
Holds-write_words [] m a = tt
Holds-write_words (w ∷ ws) m a = (
  write_words-below ws (update m a w) (a + 4) a (omega arith) ∙ ground arith,
  Holds-write_words ws (update m a w) (a + 4),
)

pub Holds-below :
    (us ws : List ℕ) (m : Memory) (a q : ℕ)
    → q + length us * 4 ≤ a
    → Holds m q us
    → Holds (write_words m a ws) q us
Holds-below [] ws m a q h held = tt
Holds-below (u ∷ us) ws m a q h (e, held) =
    (write_words-below ws m a q (omega arith) ∙ e, Holds-below us ws m a (q + 4) (omega arith) held)

pub Holds-behind :
    (us ws : List ℕ) (m : Memory) (a q : ℕ)
    → a + length ws * 4 ≤ q
    → Holds m q us
    → Holds (write_words m a ws) q us
Holds-behind [] ws m a q h held = tt
Holds-behind (u ∷ us) ws m a q h (e, held) =
    (write_words-behind ws m a q h ∙ e, Holds-behind us ws m a (q + 4) (omega arith) held)

-- Reading gives what lies there.
pub Holds-read_words : (n : ℕ) (m : Memory) (a : ℕ) → Holds m a (read_words m a n)
unfolding read_words
Holds-read_words zero m a = tt
Holds-read_words (suc n) m a = (refl, Holds-read_words n m (a + 4))

pub read_words-Holds :
    (ws : List ℕ) (m : Memory) (a : ℕ) → Holds m a ws → read_words m a (length ws) ≡ ws
unfolding read_words
read_words-Holds [] m a h = refl
read_words-Holds (w ∷ ws) m a (e, h) =
    ap (λ t. t ∷ read_words m (a + 4) (length ws)) e
    ∙ ap (λ t. w ∷ t) (read_words-Holds ws m (a + 4) h)

-- The words behind the first ones.
pub Holds-drop :
    (us ws : List ℕ) (m : Memory) (a : ℕ) → Holds m a (us ++ ws) → Holds m (a + length us * 4) ws
Holds-drop [] ws m a h = subst (λ s. Holds m s ws) (omega arith) h
Holds-drop (u ∷ us) ws m a (e, h) =
    subst (λ s. Holds m s ws) (omega arith) (Holds-drop us ws m (a + 4) h)
