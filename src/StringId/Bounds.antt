-- ===== src/StringId/Bounds.antt =====
-- The range of a hash.
use ps3_plugins.Base.{ℕ, ◌%◌, ◌<◌, inl, inr, Bool, List, [], ◌∷◌, arith, ◌==◌, Bool-cases, Bytes}
use ps3_plugins.StringId.{u32, fnv, fnv_offset, stringid}
use ps3_plugins.StringId.Concat.{stringid_all}

fnv-below :
    (signed_char : Bool) (str : Bytes) (base : ℕ) → base < u32 → fnv signed_char str base < u32
unfolding fnv
fnv-below signed_char [] base h = h
fnv-below signed_char (c ∷ str) base h = fnv-below signed_char str _ (mod-lt _)
  where
    mod-lt : (n : ℕ) → n % u32 < u32
    mod-lt n = omega arith

pub stringid-below :
    (signed_char : Bool) (str : Bytes) (base : ℕ) → base < u32 → stringid signed_char str base < u32
unfolding stringid
stringid-below signed_char str base h = elim (Bool-cases (base == 0)) [
  | inl e ↦ rw e (fnv-below signed_char str fnv_offset (omega arith))
  | inr e ↦ rw e (fnv-below signed_char str base h)
]

pub stringid_all-below :
    (signed_char : Bool) (strs : List Bytes) (base : ℕ)
    → base < u32
    → stringid_all signed_char strs base < u32
stringid_all-below signed_char [] base h = h
stringid_all-below signed_char (s ∷ strs) base h =
    stringid_all-below signed_char strs _ (stringid-below signed_char s base h)
