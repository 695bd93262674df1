-- ===== src/PatchState/Toggle.antt =====
-- The file of patch states as a map from hashes to flags.
use ps3_plugins.Base.{
  ℕ, zero, suc, ◌+◌, ◌≤◌, ◌<◌, ◌≡◌, refl, ap, ◌∙◌, inl, inr, Bool, true, Option, none, some, List,
  [], ◌∷◌, arith, ◌==◌, if◌then◌else◌, Bytes, length, All, Option-cases,
}
use ps3_plugins.PatchState.{
  u32, PatchState, PatchStateFileHeader, get_state, get_states, get_header, states_of_header,
  read_patch_states_internal, completes, flag, updated_states, write_patch_state, find_state,
  read_patch_state, toggle_target, toggle_patch_state,
}
use ps3_plugins.PatchState.Codec.{FitsState, read-write_patch_states_internal}

abbrev IsBytes : Bytes → Type 0
IsBytes = All (λ c. c < 256)

-- The bytes of a file, where it is there.
abbrev pub IsFile : Option Bytes → Type 0
IsFile none = Unit
IsFile (some content) = All (λ c. c < 256) content

get_state-FitsState :
    (file : Bytes) (s : PatchState) (rest : Bytes)
    → IsBytes file
    → get_state file ≡ some (s, rest)
    → FitsState s × IsBytes rest
unfolding get_state
get_state-FitsState (a ∷ b ∷ c ∷ d ∷ e ∷ rest) s r h k = ground arith
get_state-FitsState _ s r h k = cc

get_states-FitsState :
    (n : ℕ) (file : Bytes) (states : List PatchState)
    → IsBytes file
    → get_states n file ≡ some states
    → All FitsState states
unfolding get_states
get_states-FitsState zero file [] h e = tt
get_states-FitsState zero file (s ∷ states) h e = cc
get_states-FitsState (suc n) file states h e = elim (Option-cases (get_state file)) [
  | inl k ↦ cc (rw (k, get_states) at e)
  | inr ((s, rest), k) ↦ elim (Option-cases (get_states n rest)) [
    | inl m ↦ cc (rw (k, get_states, m) at e)
    | inr (later, m) ↦
        let (fits, bytes) = get_state-FitsState file s rest h k in
        let found : s ∷ later ≡ states = cc (rw (k, get_states, m) at e) in
        rw (← found) (fits, get_states-FitsState n rest later bytes m)
  ]
]

get_header-IsBytes :
    (content : Bytes) (header : PatchStateFileHeader) (rest : Bytes)
    → IsBytes content
    → get_header content ≡ some (header, rest)
    → IsBytes rest
unfolding get_header
get_header-IsBytes (a ∷ b ∷ c ∷ d ∷ e ∷ f ∷ g ∷ h ∷ i ∷ j ∷ k ∷ l ∷ rest) header r p q =
    ground arith
get_header-IsBytes _ header r p q = cc

states_of_header-FitsState :
    (header : PatchStateFileHeader) (rest : Bytes)
    → IsBytes rest
    → All FitsState (states_of_header header rest)
unfolding states_of_header
states_of_header-FitsState header rest h = elim (Option-cases (get_states header.count rest)) [
  | inl e ↦ ground arith
  | inr (states, e) ↦ ground (arith, get_states-FitsState header.count rest states h e)
]

-- Whatever a file holds, the states read from it fit into their fields.
pub read_patch_states_internal-FitsState :
    (file : Option Bytes) → IsFile file → All FitsState (read_patch_states_internal file)
unfolding read_patch_states_internal
read_patch_states_internal-FitsState none h = tt
read_patch_states_internal-FitsState (some content) h = elim (Option-cases (get_header content)) [
  | inl e ↦ rw (e, read_patch_states_internal) tt
  | inr ((header, rest), e) ↦
      rw (e, read_patch_states_internal)
        (states_of_header-FitsState header rest (get_header-IsBytes content header rest h e))
]

pub updated_states_step :
    (hash : ℕ) (enabled : Bool) (s : PatchState) (states : List PatchState)
    → updated_states hash enabled (s ∷ states) ≡ (
        if s.hash == hash
        then record s { enabled = flag enabled } ∷ states
        else s ∷ updated_states hash enabled states)
unfolding updated_states
updated_states_step hash enabled s states = ground arith

find_state-updated_states :
    (hash other : ℕ) (enabled : Bool) (states : List PatchState)
    → find_state other (updated_states hash enabled states)
      ≡ (if hash == other then some enabled else find_state other states)
unfolding find_state
find_state-updated_states hash other enabled [] = unfold updated_states in ground arith
find_state-updated_states hash other enabled (s ∷ states) =
    rw (updated_states_step hash enabled s states)
      (ground (arith, find_state-updated_states hash other enabled states))

pub updated_states-FitsState :
    (hash : ℕ) (enabled : Bool) (states : List PatchState)
    → hash < u32
    → All FitsState states
    → All FitsState (updated_states hash enabled states)
      × (length (updated_states hash enabled states) ≤ length states + 1)
updated_states-FitsState hash enabled [] h k = unfold updated_states in ground arith
updated_states-FitsState hash enabled (s ∷ states) h k =
    rw (updated_states_step hash enabled s states)
      (ground (arith, updated_states-FitsState hash enabled states h k.1))

-- After `write_patch_state` the hash has the flag written and every other hash the flag it had,
-- whatever the file held before (a file that is refused counts as empty), as long as one more state
-- can be counted in 32 bits.
pub read-write_patch_state :
    (file : Option Bytes) (hash other : ℕ) (enabled : Bool)
    → IsFile file
    → hash < u32
    → length (read_patch_states_internal file) + 1 < u32
    → ((write_patch_state completes file hash enabled).0 ≡ true)
      × (read_patch_state (write_patch_state completes file hash enabled).1 other
          ≡ (if hash == other then some enabled else read_patch_state file other))
unfolding read_patch_state write_patch_state
read-write_patch_state file hash other enabled h fits few =
    let states = read_patch_states_internal file in
    let old = read_patch_states_internal-FitsState file h in
    let (new, longer) = updated_states-FitsState hash enabled states fits old in
    let (done, back) =
      read-write_patch_states_internal file (updated_states hash enabled states) new
        (omega arith) in
    (done, ap (find_state other) back ∙ find_state-updated_states hash other enabled states)

-- Toggling turns the flag of one hash round, or sets it where the hash has none, leaves every
-- other hash alone and returns the flag that is then read.
pub read-toggle_patch_state :
    (file : Option Bytes) (hash other : ℕ)
    → IsFile file
    → hash < u32
    → length (read_patch_states_internal file) + 1 < u32
    → ((toggle_patch_state completes file hash).0
        ≡ some (toggle_target (read_patch_state file hash)))
      × (read_patch_state (toggle_patch_state completes file hash).1 other ≡ (
          if hash == other
          then (toggle_patch_state completes file hash).0
          else read_patch_state file other))
unfolding toggle_patch_state
read-toggle_patch_state file hash other h fits few =
    let (_, after) =
      read-write_patch_state file hash other (toggle_target (read_patch_state file hash)) h fits
        few in
    (refl, after)
