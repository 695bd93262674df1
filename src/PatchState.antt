-- ===== src/PatchState.antt =====
-- game_patch/patch.c: the file of patch states (`PatchState`, `PatchStateFileHeader`,
-- `read_patch_states_internal`, `write_patch_states_internal`, `read_patch_state`,
-- `write_patch_state`, `toggle_patch_state`). The structs are packed and written as they lie in the
-- memory of the console's processor, the most significant byte first.
-- A file is its content, or `none` where it cannot be opened. A result of -1 is `none`, 0 and 1 are
-- `some false` and `some true`. Allocations succeed.
pub mod Codec
pub mod Toggle
pub mod Full
pub mod Console
use ps3_plugins.Base.{
  ℕ, zero, suc, ◌+◌, ◌-◌, ◌*◌, ◌/◌, ◌%◌, ◌^◌, min, Bool, true, false, not, ◌&&◌, Option, none, some,
  List, [], ◌∷◌, ◌++◌, ltb, ◌==◌, if◌then◌else◌, Bytes, length, take, ◌>>=◌,
}

abbrev pub u32 : ℕ
u32 = 2 ^ 32

-- PATCH_STATE_MAGIC, 'ILNY', and PATCH_STATE_VERSION.
abbrev pub patch_state_magic : ℕ
patch_state_magic = 0x494c4e59

abbrev pub patch_state_version : ℕ
patch_state_version = 1

pub record PatchState : Type 0 where
  pub hash : ℕ
  pub enabled : ℕ

pub record PatchStateFileHeader : Type 0 where
  pub magic : ℕ
  pub version : ℕ
  pub count : ℕ

-- A uint32_t in memory, and back.
abbrev pub put_u32 : ℕ → Bytes
put_u32 n = n / 2 ^ 24 % 256 ∷ n / 2 ^ 16 % 256 ∷ n / 2 ^ 8 % 256 ∷ n % 256 ∷ []

abbrev pub get_u32 : ℕ → ℕ → ℕ → ℕ → ℕ
get_u32 a b c d = a * 2 ^ 24 + b * 2 ^ 16 + c * 2 ^ 8 + d

unfoldable pub put_header : PatchStateFileHeader → Bytes
put_header h = put_u32 h.magic ++ (put_u32 h.version ++ put_u32 h.count)

unfoldable pub put_state : PatchState → Bytes
put_state s = put_u32 s.hash ++ (s.enabled % 256 ∷ [])

unfoldable pub put_states : List PatchState → Bytes
unfolding put_state
put_states [] = []
put_states (s ∷ states) = put_state s ++ put_states states

-- `fread(&header, sizeof(header), 1, f)`: the header and the rest of the file.
unfoldable pub get_header : Bytes → Option (PatchStateFileHeader × Bytes)
get_header (a ∷ b ∷ c ∷ d ∷ e ∷ f ∷ g ∷ h ∷ i ∷ j ∷ k ∷ l ∷ rest) =
    some
      (record { magic = get_u32 a b c d; version = get_u32 e f g h; count = get_u32 i j k l }, rest)
get_header _ = none

unfoldable pub get_state : Bytes → Option (PatchState × Bytes)
get_state (a ∷ b ∷ c ∷ d ∷ e ∷ rest) = some (record { hash = get_u32 a b c d; enabled = e }, rest)
get_state _ = none

-- `fread(states, sizeof(PatchState), count, f) == count`
unfoldable pub get_states : ℕ → Bytes → Option (List PatchState)
unfolding get_state
get_states zero file = some []
get_states (suc n) file = do
  (s, rest) ← get_state file
  states ← get_states n rest
  some (s ∷ states)

-- The states that the header announces.
unfoldable pub states_of_header : PatchStateFileHeader → Bytes → List PatchState
unfolding get_states
states_of_header header rest =
    if not (header.magic == patch_state_magic)
    then []
    else if not (header.version == patch_state_version)
    then []
    else elim (get_states header.count rest) [ none ↦ [] | some states ↦ states ]

-- The build for tools. The states and their count, none where the file is refused: NULL and 0.
unfoldable pub read_patch_states_internal : Option Bytes → List PatchState
unfolding get_header states_of_header
read_patch_states_internal file = elim file [
  | none ↦ []
  | some content ↦ elim (get_header content) [ none ↦ [] | some r ↦ states_of_header r.0 r.1 ]
]

-- What the file system does: it takes all, it does not open the file, or it has room for so many bytes.
pub data WriteOutcome : Type 0 where
  completes open_fails : WriteOutcome
  has_room : ℕ → WriteOutcome

-- `fwrite(data, size, count, f)` where there is room: the number of whole items, and the bytes that
-- reach the file.
abbrev pub fwrite : ℕ → ℕ → ℕ → Bytes → ℕ × Bytes
fwrite room size count bytes = (min count (room / size), take room bytes)

abbrev pub header_size : ℕ
header_size = 12

abbrev pub state_size : ℕ
state_size = 5

-- The two calls of `fwrite`, their results and the new content of the file.
abbrev pub write_within : ℕ → ℕ → Bytes → Bytes → Bool × Option Bytes
write_within room count header body =
    let head = fwrite room header_size 1 header in
    let tail = fwrite (room - header_size) state_size count body in
    if not (head.0 == 1)
    then (false, some head.1)
    else if ltb 0 count && not (tail.0 == count)
    then (false, some (head.1 ++ tail.1))
    else (true, some (head.1 ++ (if ltb 0 count then tail.1 else [])))

-- Whether the result is 0, and the file afterwards. `fopen` has emptied the file.
unfoldable pub write_patch_states_internal :
    WriteOutcome → Option Bytes → List PatchState → Bool × Option Bytes
unfolding put_header put_states
write_patch_states_internal outcome file states =
    let header = put_header (record {
      magic = patch_state_magic;
      version = patch_state_version;
      count = length states % u32;
    }) in
    elim outcome [
      | completes ↦ (true, some (header ++ put_states states))
      | open_fails ↦ (false, file)
      | has_room room ↦ write_within room (length states) header (put_states states)
    ]

abbrev pub flag : Bool → ℕ
flag enabled = if enabled then 1 else 0

-- The loop of `write_patch_state`, up to its `break`: `none` where no state has the hash.
unfoldable pub update_state : ℕ → Bool → List PatchState → Option (List PatchState)
update_state hash enabled [] = none
update_state hash enabled (s ∷ states) =
    if s.hash == hash
    then some (record s { enabled = flag enabled } ∷ states)
    else (do later ← update_state hash enabled states; some (s ∷ later))

unfoldable pub updated_states : ℕ → Bool → List PatchState → List PatchState
unfolding update_state
updated_states hash enabled states = elim (update_state hash enabled states) [
  | some found ↦ found
  | none ↦ states ++ (record { hash = hash; enabled = flag enabled } ∷ [])
]

unfoldable pub write_patch_state : WriteOutcome → Option Bytes → ℕ → Bool → Bool × Option Bytes
unfolding read_patch_states_internal updated_states write_patch_states_internal
write_patch_state outcome file hash enabled =
    write_patch_states_internal outcome file
      (updated_states hash enabled (read_patch_states_internal file))

-- The loop of `read_patch_state`.
unfoldable pub find_state : ℕ → List PatchState → Option Bool
find_state hash [] = none
find_state hash (s ∷ states) =
    if s.hash == hash then some (not (s.enabled == 0)) else find_state hash states

unfoldable pub read_patch_state : Option Bytes → ℕ → Option Bool
unfolding read_patch_states_internal find_state
read_patch_state file hash = find_state hash (read_patch_states_internal file)

-- The state written, and the file afterwards.
abbrev pub toggle_target : Option Bool → Bool
toggle_target none = true
toggle_target (some b) = not b

unfoldable pub toggle_patch_state : WriteOutcome → Option Bytes → ℕ → Option Bool × Option Bytes
unfolding read_patch_state write_patch_state
toggle_patch_state outcome file hash =
    let new_state = toggle_target (read_patch_state file hash) in
    let (done, file') = write_patch_state outcome file hash new_state in
    (if done then some new_state else none, file')
