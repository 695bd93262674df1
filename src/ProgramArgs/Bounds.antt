-- ===== src/ProgramArgs/Bounds.antt =====
-- `append_arg` and the arrays of the argument vector.
use ps3_plugins.Base.{
  ℕ, zero, suc, ◌+◌, ◌≤◌, ◌<◌, ◌≡◌, refl, ap, ◌∙◌, ◌≢◌, inl, inr, true, false, none, some, List, [],
  ◌∷◌, arith, ltb, leb, if◌then◌else◌, Bool-cases, Bytes, length, get_elem?, set, take, length-set,
  length-take-le, All,
}
use ps3_plugins.ProgramArgs.{max_args, max_arg_buf, ProgramArgs, append_arg}

-- The arrays have their sizes, every buffer keeps its final NUL, and the count is in range.
pub record IsValid (p : ProgramArgs) : Type 0 where
  pub argc_le : p.argc ≤ max_args
  pub new_argv_size : length p.new_argv ≡ max_args
  pub replace_args_size : length p.replace_args ≡ max_args
  pub terminated : All (λ b. length b ≤ max_arg_buf) p.replace_args

All-set :
    (bs : List Bytes) (i : ℕ) (b : Bytes)
    → All (λ b. length b ≤ max_arg_buf) bs
    → length b ≤ max_arg_buf
    → All (λ b. length b ≤ max_arg_buf) (set bs i b)
All-set [] i b h k = tt
All-set (x ∷ bs) zero b h k = (k, h.1)
All-set (x ∷ bs) (suc i) b h k = (h.0, All-set bs i b h.1 k)

pub get_elem?-set_self :
    {A : Type 0} (xs : List A) (i : ℕ) (v : A) → i < length xs → get_elem? (set xs i v) i ≡ some v
get_elem?-set_self [] i v h = elim h [ ]
get_elem?-set_self (x ∷ xs) zero v h = refl
get_elem?-set_self (x ∷ xs) (suc i) v h = get_elem?-set_self xs i v (omega arith)

pub get_elem?-set_ne :
    {A : Type 0} (xs : List A) (i j : ℕ) (v : A) → i ≢ j → get_elem? (set xs i v) j ≡ get_elem? xs j
get_elem?-set_ne [] i j v h = refl
get_elem?-set_ne (x ∷ xs) zero zero v h = absurd (h refl)
get_elem?-set_ne (x ∷ xs) zero (suc j) v h = refl
get_elem?-set_ne (x ∷ xs) (suc i) zero v h = refl
get_elem?-set_ne (x ∷ xs) (suc i) (suc j) v h = get_elem?-set_ne xs i j v (λ e. h (ap suc e))

get_elem?_beyond : {A : Type 0} (xs : List A) (i : ℕ) → length xs ≤ i → get_elem? xs i ≡ none
get_elem?_beyond [] i h = refl
get_elem?_beyond (x ∷ xs) zero h = absurd (omega arith)
get_elem?_beyond (x ∷ xs) (suc i) h = get_elem?_beyond xs i (omega arith)

-- `append_arg` keeps the arrays valid, whatever the argument is, and every write that it makes has a
-- place in its array. Behind the entries there were stands, where the vector was not full, the
-- argument, cut to its buffer, in both arrays, and nothing where it was.
pub append_arg-IsValid :
    (p : ProgramArgs) (arg : Bytes)
    → IsValid p
    → let cut = if ltb p.argc max_args then some (take max_arg_buf arg) else none in
      IsValid (append_arg p arg).1
      × ((append_arg p arg).1.overruns ≡ p.overruns)
      × (get_elem? (append_arg p arg).1.replace_args p.argc ≡ cut)
      × (get_elem? (append_arg p arg).1.new_argv p.argc
          ≡ (if ltb p.argc max_args then some (some (take max_arg_buf arg)) else none))
unfolding append_arg
append_arg-IsValid p arg v = elim (Bool-cases (leb max_args p.argc)) [
  | inl full ↦
      let none_left : ltb p.argc max_args ≡ false = ground (arith, full) in
      rw (full, append_arg, none_left)
        (
          v,
          refl,
          get_elem?_beyond p.replace_args p.argc (ground (arith, v.replace_args_size)),
          get_elem?_beyond p.new_argv p.argc (ground (arith, v.new_argv_size)),
        )
  | inr room ↦
      let idx = p.argc in
      let stored = take max_arg_buf arg in
      let size = length-set p.new_argv idx (some stored) in
      let inside_argv = v.new_argv_size in
      let inside_buffers = v.replace_args_size in
      let pointed = set p.new_argv idx (some stored) in
      let before : idx < max_args = ground (arith, room) in
      let one_left : ltb idx max_args ≡ true = ground (arith, room) in
      let ne : idx + 1 ≢ idx = omega arith in
      rw (room, append_arg, one_left)
        (
          record {
            argc_le = ground arith;
            new_argv_size = ground (
              arith,
              length-set p.new_argv idx (some stored),
              length-set (set p.new_argv idx (some stored)) (idx + 1) none,
              v.new_argv_size,
            );
            replace_args_size = length-set p.replace_args idx stored ∙ v.replace_args_size;
            terminated =
                All-set p.replace_args idx stored v.terminated (length-take-le max_arg_buf arg);
          },
          ground arith,
          get_elem?-set_self p.replace_args idx stored (omega arith),
          ground (
            arith,
            get_elem?-set_self p.new_argv idx (some stored) (omega arith),
            get_elem?-set_ne pointed (idx + 1) idx none ne,
          ),
        )
]

-- Where the vector is not full, the argument, cut to its buffer, becomes the last entry; the
-- entries before it stay, and the entry behind it is NULL if the array has one.
pub append_arg_entries :
    (p : ProgramArgs) (arg : Bytes) (i : ℕ)
    → IsValid p
    → p.argc < max_args
    → i < p.argc
    → ((append_arg p arg).1.argc ≡ p.argc + 1)
      × (get_elem? (append_arg p arg).1.new_argv p.argc ≡ some (some (take max_arg_buf arg)))
      × (get_elem? (append_arg p arg).1.replace_args p.argc ≡ some (take max_arg_buf arg))
      × (get_elem? (append_arg p arg).1.new_argv i ≡ get_elem? p.new_argv i)
      × (get_elem? (append_arg p arg).1.new_argv (p.argc + 1)
          ≡ (if ltb (p.argc + 1) max_args then some none else none))
unfolding append_arg
append_arg_entries p arg i v room before =
    let idx = p.argc in
    let stored = take max_arg_buf arg in
    let pointed = set p.new_argv idx (some stored) in
    let full : leb max_args idx ≡ false = ground arith in
    let ne : idx + 1 ≢ idx = omega arith in
    let ne_i : idx ≢ i = omega arith in
    let ne_i' : idx + 1 ≢ i = omega arith in
    let size : length pointed ≡ max_args =
      length-set p.new_argv idx (some stored) ∙ v.new_argv_size in
    let old_size = v.new_argv_size in
    let old_size' = v.replace_args_size in
    rw (full, append_arg)
      (
        refl,
        ground (
          arith,
          get_elem?-set_self p.new_argv idx (some stored) (omega arith),
          get_elem?-set_ne pointed (idx + 1) idx none ne,
        ),
        get_elem?-set_self p.replace_args idx stored (omega arith),
        ground (
          arith,
          get_elem?-set_ne p.new_argv idx i (some stored) ne_i,
          get_elem?-set_ne pointed (idx + 1) i none ne_i',
        ),
        ground (
          arith,
          λ (h : idx + 1 < length pointed). get_elem?-set_self pointed (idx + 1) none h,
          get_elem?_beyond pointed (idx + 1),
        ),
      )
