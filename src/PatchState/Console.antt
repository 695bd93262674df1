-- ===== src/PatchState/Console.antt =====
-- game_patch/patch.c: `read_patch_states_internal` and `read_patch_state` in the build of the console
-- plugin, beside those of the build for tools. The outer `none` is a read behind the array of
-- the states.
use ps3_plugins.Base.{
  ℕ, zero, suc, ◌*◌, ◌%◌, ◌≤◌, ◌<◌, ◌≡◌, refl, ap, inl, inr, Bool, ◌&&◌, Option, none, some, List,
  [], ◌∷◌, ◌++◌, arith, leb, ◌==◌, if◌then◌else◌, Bool-cases, ==_ne, Bytes, length, take, drop,
  ◌>>=◌,
}
use ps3_plugins.PatchState.{
  read_patch_states_internal, read_patch_state, get_u32, u32, header_size, state_size, PatchState,
  PatchStateFileHeader, patch_state_magic, patch_state_version, get_header, get_state, get_states,
  states_of_header, find_state,
}

-- `malloc(nbytes)` and a read of `nbytes`, which have to be there.
unfoldable pub console_states : PatchStateFileHeader → Bytes → Option (List PatchState)
unfolding get_states
console_states header rest =
    if header.magic == patch_state_magic && header.version == patch_state_version
    then (let nbytes = header.count * state_size % u32 in
        if leb nbytes (length rest) then get_states header.count (take nbytes rest) else some [])
    else some []

-- `header` has the bytes of `stack` where a short file has none.
unfoldable pub console_read_patch_states : Bytes → Option Bytes → Option (List PatchState)
unfolding get_header console_states
console_read_patch_states stack none = some []
console_read_patch_states stack (some content) =
    if length content == 0
    then some []
    else elim (get_header (take header_size content ++ drop (length content) stack)) [
      | none ↦ some []
      | some r ↦ console_states r.0 (drop header_size content)
    ]

unfoldable pub console_read_patch_state : Bytes → Option Bytes → ℕ → Option (Option Bool)
unfolding console_read_patch_states find_state
console_read_patch_state stack file hash = do
  states ← console_read_patch_states stack file
  some (find_state hash states)

size_suc : (n : ℕ) → suc n * 5 ≡ suc (suc (suc (suc (suc (n * 5)))))
size_suc n = omega arith

-- Too few bytes for the states.
pub get_states_short :
    (n : ℕ) (rest : Bytes) → length rest < n * state_size → get_states n rest ≡ none
unfolding get_states get_state
get_states_short zero rest h = absurd (omega arith)
get_states_short (suc n) [] h = refl
get_states_short (suc n) (a ∷ []) h = refl
get_states_short (suc n) (a ∷ b ∷ []) h = refl
get_states_short (suc n) (a ∷ b ∷ c ∷ []) h = refl
get_states_short (suc n) (a ∷ b ∷ c ∷ d ∷ []) h = refl
get_states_short (suc n) (a ∷ b ∷ c ∷ d ∷ e ∷ rest) h =
    rw (get_states_short n rest (omega (arith, size_suc n)))

-- With enough bytes there are states, and the bytes behind them do not matter.
get_states-take :
    (n : ℕ) (rest : Bytes)
    → n * state_size ≤ length rest
    → (states : List PatchState) × (get_states n rest ≡ some states)
      × (get_states n (take (n * state_size) rest) ≡ some states)
unfolding get_states get_state
get_states-take zero rest h = ([], refl, refl)
get_states-take (suc n) (a ∷ b ∷ c ∷ d ∷ e ∷ rest) h =
    let (states, whole, cut) = get_states-take n rest (omega (arith, size_suc n)) in
    (record { hash = get_u32 a b c d; enabled = e } ∷ states, rw whole, rw (size_suc n) (rw cut))
get_states-take (suc n) [] h = absurd (omega (arith, size_suc n))
get_states-take (suc n) (a ∷ []) h = absurd (omega (arith, size_suc n))
get_states-take (suc n) (a ∷ b ∷ []) h = absurd (omega (arith, size_suc n))
get_states-take (suc n) (a ∷ b ∷ c ∷ []) h = absurd (omega (arith, size_suc n))
get_states-take (suc n) (a ∷ b ∷ c ∷ d ∷ []) h = absurd (omega (arith, size_suc n))

array_read :
    (n : ℕ) (rest : Bytes)
    → n * state_size < u32
    → (if leb (n * state_size % u32) (length rest)
        then get_states n (take (n * state_size % u32) rest)
        else some [])
      ≡ some (elim (get_states n rest) [ none ↦ [] | some states ↦ states ])
array_read n rest h =
    let exact : n * state_size % u32 ≡ n * state_size = omega arith in
    rw exact (elim (Bool-cases (leb (n * state_size) (length rest))) [
      | inl e ↦
          let (states, whole, cut) = get_states-take n rest (ground (arith, e)) in
          rw e (rw cut (rw whole))
      | inr e ↦ rw e (rw (get_states_short n rest (ground (arith, e))))
    ])

-- The reads of the states, where the size of the array does not wrap.
console_states-states_of_header :
    (header : PatchStateFileHeader) (rest : Bytes)
    → header.count * state_size < u32
    → console_states header rest ≡ some (states_of_header header rest)
unfolding console_states states_of_header
console_states-states_of_header header rest h =
    elim (Bool-cases (header.magic == patch_state_magic)) [
      | inr e ↦ simp e
      | inl e ↦ elim (Bool-cases (header.version == patch_state_version)) [
        | inr k ↦ simp (e, k)
        | inl k ↦ simp (e, k) (array_read header.count rest h)
      ]
    ]

console_states_of_file :
    (stack content : Bytes) (header : PatchStateFileHeader) (rest : Bytes)
    → get_header content ≡ some (header, rest)
    → header.count * state_size < u32
    → console_read_patch_states stack (some content)
      ≡ some (read_patch_states_internal (some content))
unfolding console_read_patch_states read_patch_states_internal get_header
console_states_of_file stack (a ∷ b ∷ c ∷ d ∷ e ∷ f ∷ g ∷ h ∷ i ∷ j ∷ k ∷ l ∷ rest) header r found
      fits =
    let count : get_u32 i j k l ≡ header.count =
      ap (λ (o : Option (PatchStateFileHeader × Bytes)). elim o [ none ↦ 0 | some q ↦ q.0.count ])
        found in
    rw (==_ne (length (a ∷ b ∷ c ∷ d ∷ e ∷ f ∷ g ∷ h ∷ i ∷ j ∷ k ∷ l ∷ rest)) 0 (omega arith)) (
      console_states-states_of_header
        (record { magic = get_u32 a b c d; version = get_u32 e f g h; count = get_u32 i j k l })
        rest (omega (arith, count)))
console_states_of_file stack _ header r found fits = cc

-- The console plugin finds the flag that the tools have written: on a file with a whole header, whose
-- states fit into 32 bits of size, both builds read the same, and no read leaves the array.
pub console_read_patch_state-read_patch_state :
    (stack content : Bytes) (header : PatchStateFileHeader) (rest : Bytes) (hash : ℕ)
    → get_header content ≡ some (header, rest)
    → header.count * state_size < u32
    → console_read_patch_state stack (some content) hash
      ≡ some (read_patch_state (some content) hash)
unfolding console_read_patch_state read_patch_state
console_read_patch_state-read_patch_state stack content header rest hash found fits =
    rw (console_states_of_file stack content header rest found fits)
