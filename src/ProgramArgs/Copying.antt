-- ===== src/ProgramArgs/Copying.antt =====
-- `copy_main_args` sets the argument vector up.
use ps3_plugins.ProgramArgs.Bounds.{IsValid, get_elem?-set_self, get_elem?-set_ne}
use ps3_plugins.Base.{
  ℕ, zero, suc, ◌+◌, ◌-◌, ◌≤◌, ◌<◌, min, ◌≡◌, refl, ap, ◌∙◌, ◌≢◌, inl, inr, Option, none, some,
  List, [], ◌∷◌, arith, ltb, ◌==◌, if◌then◌else◌, Bool-cases, Bytes, length, get_elem?, set,
  length-set, All,
}
use ps3_plugins.ProgramArgs.{
  max_args, max_arg_buf, ProgramArgs, copy_loop, clear_loop, copy_main_args,
}

-- A pointer of `argv`, or what `new_argv` had where it is NULL.
abbrev pub entry_or : Option (Option Bytes) → Option (Option Bytes) → Option (Option Bytes)
entry_or none old = old
entry_or (some none) old = old
entry_or (some (some a)) old = some (some a)

copy_loop_size :
    (n i : ℕ) (argv new_argv : List (Option Bytes))
    → length (copy_loop n i argv new_argv) ≡ length new_argv
unfolding copy_loop
copy_loop_size zero i argv new_argv = refl
copy_loop_size (suc n) i [] new_argv = refl
copy_loop_size (suc n) i (none ∷ argv) new_argv = copy_loop_size n (i + 1) argv new_argv
copy_loop_size (suc n) i (some a ∷ argv) new_argv =
    copy_loop_size n (i + 1) argv (set new_argv i (some a)) ∙ length-set new_argv i (some a)

-- The places below `i` are left alone, and place `i + k` gets the pointer `k` of `argv`.
copy_loop_below :
    (n i j : ℕ) (argv new_argv : List (Option Bytes))
    → j < i
    → get_elem? (copy_loop n i argv new_argv) j ≡ get_elem? new_argv j
unfolding copy_loop
copy_loop_below zero i j argv new_argv h = refl
copy_loop_below (suc n) i j [] new_argv h = refl
copy_loop_below (suc n) i j (none ∷ argv) new_argv h =
    copy_loop_below n (i + 1) j argv new_argv (omega arith)
copy_loop_below (suc n) i j (some a ∷ argv) new_argv h =
    let ne : i ≢ j = omega arith in
    copy_loop_below n (i + 1) j argv (set new_argv i (some a)) (omega arith)
    ∙ get_elem?-set_ne new_argv i j (some a) ne

copy_loop_entry :
    (n i k j : ℕ) (argv new_argv : List (Option Bytes))
    → k < n
    → i + k ≡ j
    → j < length new_argv
    → get_elem? (copy_loop n i argv new_argv) j ≡ entry_or (get_elem? argv k) (get_elem? new_argv j)
unfolding copy_loop
copy_loop_entry zero i k j argv new_argv h e p = absurd (omega arith)
copy_loop_entry (suc n) i k j [] new_argv h e p = refl
copy_loop_entry (suc n) i zero j (none ∷ argv) new_argv h e p =
    copy_loop_below n (i + 1) j argv new_argv (omega arith)
copy_loop_entry (suc n) i (suc k) j (none ∷ argv) new_argv h e p =
    copy_loop_entry n (i + 1) k j argv new_argv (omega arith) (omega arith) p
copy_loop_entry (suc n) i zero j (some a ∷ argv) new_argv h e p =
    let same_place : j ≡ i = omega arith in
    copy_loop_below n (i + 1) j argv (set new_argv i (some a)) (omega arith)
    ∙ rw same_place (get_elem?-set_self new_argv i (some a) (omega arith))
copy_loop_entry (suc n) i (suc k) j (some a ∷ argv) new_argv h e p =
    let ne : i ≢ j = omega arith in
    copy_loop_entry n (i + 1) k j argv (set new_argv i (some a)) (omega arith) (omega arith)
      (omega (arith, length-set new_argv i (some a)))
    ∙ ap (entry_or (get_elem? argv k)) (get_elem?-set_ne new_argv i j (some a) ne)

clear_loop_size :
    (n i : ℕ) (new_argv : List (Option Bytes)) → length (clear_loop n i new_argv) ≡ length new_argv
unfolding clear_loop
clear_loop_size zero i new_argv = refl
clear_loop_size (suc n) i new_argv =
    clear_loop_size n (i + 1) (set new_argv i none) ∙ length-set new_argv i none

clear_loop_below :
    (n i j : ℕ) (new_argv : List (Option Bytes))
    → j < i
    → get_elem? (clear_loop n i new_argv) j ≡ get_elem? new_argv j
unfolding clear_loop
clear_loop_below zero i j new_argv h = refl
clear_loop_below (suc n) i j new_argv h =
    let ne : i ≢ j = omega arith in
    clear_loop_below n (i + 1) j (set new_argv i none) (omega arith)
    ∙ get_elem?-set_ne new_argv i j none ne

clear_loop_entry :
    (n i j : ℕ) (new_argv : List (Option Bytes))
    → i ≤ j
    → j < i + n
    → j < length new_argv
    → get_elem? (clear_loop n i new_argv) j ≡ some none
unfolding clear_loop
clear_loop_entry zero i j new_argv h k p = absurd (omega arith)
clear_loop_entry (suc n) i j new_argv h k p = elim (Bool-cases (i == j)) [
  | inl e ↦
      let here : j ≡ i = ground arith in
      clear_loop_below n (i + 1) j (set new_argv i none) (omega arith)
      ∙ rw here (get_elem?-set_self new_argv i none (omega arith))
  | inr e ↦
      let later : i + 1 ≤ j = ground arith in
      clear_loop_entry n (i + 1) j (set new_argv i none) later (omega arith)
        (omega (arith, length-set new_argv i none))
]

-- `copy_main_args` makes the vector valid if its arrays have their sizes and the count is in range.
-- The place `j` then has the pointer `j` of `argv`, or its old one where that is NULL, and is NULL
-- from `argc` on.
pub copy_main_args_lem :
    (p : ProgramArgs) (argc j : ℕ) (argv : List (Option Bytes))
    → length p.new_argv ≡ max_args
    → length p.replace_args ≡ max_args
    → All (λ b. length b ≤ max_arg_buf) p.replace_args
    → argc ≤ max_args
    → j < max_args
    → IsValid (copy_main_args p argc argv)
      × (get_elem? (copy_main_args p argc argv).new_argv j ≡ (
          if ltb j argc then entry_or (get_elem? argv j) (get_elem? p.new_argv j) else some none))
unfolding copy_main_args
copy_main_args_lem p argc j argv size size' ends fits inside =
    let copied = copy_loop (min argc max_args) 0 argv p.new_argv in
    let copied_size : length copied ≡ max_args =
      copy_loop_size (min argc max_args) 0 argv p.new_argv ∙ size in
    (
      record {
        argc_le = fits;
        new_argv_size = clear_loop_size (max_args - argc) argc copied ∙ copied_size;
        replace_args_size = size';
        terminated = ends;
      },
      elim (Bool-cases (ltb j argc)) [
        | inl e ↦ rw e (
            clear_loop_below (max_args - argc) argc j copied (ground arith)
            ∙ copy_loop_entry (min argc max_args) 0 j j argv p.new_argv (ground arith) (omega arith)
                (omega arith))
        | inr e ↦ rw e (
            clear_loop_entry (max_args - argc) argc j copied (ground arith) (omega arith)
              (omega arith))
      ],
    )
