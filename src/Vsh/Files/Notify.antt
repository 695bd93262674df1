-- ===== src/Vsh/Files/Notify.antt =====
-- The thread that shows the notice of the patch plugin.
use ps3_plugins.Base.{
  ℕ, zero, suc, ◌+◌, ◌-◌, ◌/◌, ◌%◌, ◌≤◌, ◌<◌, ◌≡◌, refl, ◌≢◌, inl, inr, true, none, some, [], ◌∷◌,
  ◌++◌, arith, ltb, if◌then◌else◌, Bool-cases, ==_ne, Bytes, codes, same_self, length, replicate,
  length-append, All, All-append,
}
use ps3_plugins.Text.Escape.{c_string}
use ps3_plugins.Patch.Metadata.{decimal, decimal_loop}
use ps3_plugins.Patch.Run.{notice_text}
use ps3_plugins.Vsh.Files.{file, FileSystem, Stdio, notify_path, check_byte, notify_round}
use ps3_plugins.Vsh.Files.Calls.{
  Works, remove, file_exists-file, file_exists-none, read_file_into_lem,
}

c_string-zeros :
    (n : ℕ) (text : Bytes) → All (λ c. c ≢ 0) text → c_string (text ++ replicate n 0) ≡ text
unfolding c_string
c_string-zeros zero [] h = refl
c_string-zeros (suc n) [] h = refl
c_string-zeros n (c ∷ text) (ne, h) = rw (==_ne c 0 ne, c_string-zeros n text h) refl

-- A text that is to be shown: it fits the buffer, is longer than the mark, and does not begin
-- like it.
abbrev pub Shows : Bytes → Type 0
Shows [] = ⊥
Shows (c ∷ text) =
    (c ≢ check_byte) × (1 ≤ length text) × (length text < 256) × All (λ d. d ≢ 0) (c ∷ text)

module _ (io : Stdio) (works : Works io) (fs : FileSystem) where
  quiet : fs notify_path ≡ none → notify_round io fs ≡ (fs, none)
  unfolding notify_round
  quiet e = rw (file_exists-none fs notify_path e) refl

  -- The mark alone is left where it is, and nothing is shown.
  pub notify_round_waits :
      fs notify_path ≡ some (file (check_byte ∷ [])) → notify_round io fs ≡ (fs, none)
  unfolding notify_round
  notify_round_waits e =
      rw
        (
          file_exists-file fs notify_path (check_byte ∷ []) e,
          read_file_into_lem io works 257 fs notify_path (check_byte ∷ []) e (omega arith),
        )
        refl

  shows :
      (c : ℕ) (text : Bytes)
      → Shows (c ∷ text)
      → fs notify_path ≡ some (file (c ∷ text))
      → notify_round io fs ≡ (remove fs notify_path, some (c ∷ text))
  unfolding notify_round
  shows c text (ne, more, fits, nonzero) e =
      rw
        (
          file_exists-file fs notify_path (c ∷ text) e,
          read_file_into_lem io works 257 fs notify_path (c ∷ text) e (omega arith),
          ==_ne c check_byte ne,
          long,
          works.unlinks fs notify_path,
          c_string-zeros (257 - length (c ∷ text)) (c ∷ text) nonzero,
        )
        refl
    where
      long : ltb 1 (length (c ∷ text)) ≡ true
      long = ground arith

-- The notice of `run_patch` is such a text, whatever the count.
decimal_loop-digits :
    (fuel n : ℕ) (out : Bytes)
    → All (λ c. c ≢ 0) out
    → All (λ c. c ≢ 0) (decimal_loop fuel n out)
      × (length (decimal_loop fuel n out) ≤ fuel + length out)
unfolding decimal_loop
decimal_loop-digits zero n out h = (h, omega arith)
decimal_loop-digits (suc fuel) n out h = elim (Bool-cases (ltb n 10)) [
  | inl e ↦ rw e (digits.0, omega arith)
  | inr e ↦ rw e (
    (decimal_loop-digits fuel (n / 10) ((b'0' + n % 10) ∷ out) digits.0).0,
    omega (arith, (decimal_loop-digits fuel (n / 10) ((b'0' + n % 10) ∷ out) digits.0).1),
  )
]
  where
    digits : All (λ c. c ≢ 0) ((b'0' + n % 10) ∷ out) × (1 ≤ 1)
    digits = ((omega arith, h), omega arith)

decimal-digits : (n : ℕ) → All (λ c. c ≢ 0) (decimal n) × (length (decimal n) ≤ 20)
unfolding decimal
decimal-digits n = decimal_loop-digits 20 n [] tt

abbrev ending : ℕ → Bytes
ending count = if ltb 1 count then codes "es" else []

ending-nonzero : (count : ℕ) → All (λ c. c ≢ 0) (ending count) × (length (ending count) ≤ 2)
ending-nonzero count = elim (Bool-cases (ltb 1 count)) [
  | inl e ↦ rw e (omega arith, omega arith)
  | inr e ↦ rw e (tt, omega arith)
]

notice_text-Shows : (count : ℕ) → Shows (notice_text count)
notice_text-Shows count = (omega arith, omega (arith, size), omega (arith, size), nonzero)
  where
    start : All (λ c. c ≢ 0) (codes "Applied ")
    start = omega arith

    middle : All (λ c. c ≢ 0) (codes " patch")
    middle = omega arith

    nonzero : All (λ c. c ≢ 0) (notice_text count)
    nonzero =
        All-append (λ c. c ≢ 0) ((codes "Applied " ++ decimal count) ++ codes " patch")
          (ending count)
          (All-append (λ c. c ≢ 0) (codes "Applied " ++ decimal count) (codes " patch")
            (All-append (λ c. c ≢ 0) (codes "Applied ") (decimal count) start
              (decimal-digits count).0)
            middle)
          (ending-nonzero count).0

    size : (14 ≤ length (notice_text count)) × (length (notice_text count) ≤ 36)
    size = omega (
      arith,
      length-append ((codes "Applied " ++ decimal count) ++ codes " patch") (ending count),
      length-append (codes "Applied " ++ decimal count) (codes " patch"),
      length-append (codes "Applied ") (decimal count),
      (decimal-digits count).1,
      (ending-nonzero count).1,
    )

-- One round shows the notice of the patch plugin and takes its file away; the next shows nothing.
pub notify_round-notice_text :
    (io : Stdio) (works : Works io) (fs : FileSystem) (count : ℕ)
    → fs notify_path ≡ some (file (notice_text count))
    → (notify_round io fs ≡ (remove fs notify_path, some (notice_text count)))
      × (notify_round io (remove fs notify_path) ≡ (remove fs notify_path, none))
notify_round-notice_text io works fs count e = (
  shows io works fs _ _ (notice_text-Shows count) e,
  quiet io works (remove fs notify_path) (rw (same_self notify_path) refl),
)
