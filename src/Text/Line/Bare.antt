-- ===== src/Text/Line/Bare.antt =====
-- `trim` on a text that ends in no blank.
use mathlib.Core.List.{reverse-reverse, reverse-cons, reverse-append, reverse}
use ps3_plugins.CString.{isspace}
use ps3_plugins.Text.Line.{step_back}
use ps3_plugins.Base.{ℕ, ◌≡◌, refl, ap, ◌∙◌, false, [], ◌∷◌, ◌++◌, Bytes}

step_back_kept : (c : ℕ) (s : Bytes) → isspace c ≡ false → step_back (c ∷ s) ≡ c ∷ s
unfolding step_back
step_back_kept c [] h = refl
step_back_kept c (d ∷ s) h = rw h

-- Nothing is cut off behind a byte that is no blank.
pub step_back-reverse :
    (p : Bytes) (c : ℕ)
    → isspace c ≡ false
    → reverse (step_back (reverse (p ++ (c ∷ [])))) ≡ p ++ (c ∷ [])
step_back-reverse p c h =
    ap (λ t. reverse (step_back t)) (reverse-append p (c ∷ []))
    ∙ ap reverse (step_back_kept c (reverse p) h)
    ∙ rw (reverse-cons, reverse-reverse)
