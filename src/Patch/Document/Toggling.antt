-- ===== src/Patch/Document/Toggling.antt =====
-- From the tools, which turn a patch on or off, to the console plugin, which does it or not.
use ps3_plugins.Base.{
  ℕ, ◌+◌, ◌*◌, ◌/◌, ◌%◌, ◌^◌, ◌≤◌, ◌<◌, ◌≡◌, refl, ap, ◌∙◌, Bool, true, not, ◌&&◌, Option, none,
  some, List, [], ◌∷◌, ◌++◌, arith, if◌then◌else◌, ==_self, Bytes, same, same_self, length,
}
use ps3_plugins.GamePatchInfo.{GamePatchInfo, titleid_text}
use ps3_plugins.StringId.{fnv_offset}
use ps3_plugins.StringId.Bounds.{stringid-below, stringid_all-below}
use ps3_plugins.PatchState.{
  u32, state_size, PatchState, PatchStateFileHeader, patch_state_magic, patch_state_version,
  get_u32, get_header, put_header, put_states, updated_states, write_patch_state,
  write_patch_states_internal, read_patch_states_internal, read_patch_state, toggle_patch_state,
  toggle_target, completes,
}
use ps3_plugins.PatchState.Toggle.{
  IsFile, read-toggle_patch_state, updated_states-FitsState, read_patch_states_internal-FitsState,
}
use ps3_plugins.PatchState.Console.{
  console_read_patch_state, console_read_patch_state-read_patch_state,
}
use ps3_plugins.Patch.Metadata.{
  settings_path, patch_matches_game, calculate_patch_hash, decimal, hash_list, is_one,
}
use ps3_plugins.Patch.File.{parse_patch_file_low_mem, file_lines}
use ps3_plugins.Patch.Apply.{Game, metadata_callback, entry_callback}
use ps3_plugins.Patch.Document.{PatchText, IsPatch, document}
use ps3_plugins.Patch.Document.Rounds.{Console, console, metadata_of}
use ps3_plugins.Patch.Document.Matching.{NoVersion}
use ps3_plugins.Patch.Document.Applying.{apply_all, parse_patch_file_low_mem-apply_all}
use ps3_plugins.Patch.{Patch, low_mem, ParseContext, create_parse_context}

calculate_patch_hash-below :
    (signed_char : Bool) (number : ℕ) (titleid : Bytes) (patch : Patch) (app_ver : Option Bytes)
    → calculate_patch_hash signed_char number titleid patch app_ver < u32
unfolding calculate_patch_hash
calculate_patch_hash-below signed_char number titleid patch app_ver =
    stringid_all-below signed_char (hash_list titleid patch app_ver) _
      (stringid-below signed_char (decimal number) fnv_offset (omega arith))

-- A read behind the array of the states, which the fit of the file rules out, has no result.
abbrev pub result_of : Option (Option Bool) → Option Bool
result_of none = none
result_of (some state) = state

-- The console with its files of patch states by their paths, read by its own reader; `stack` is what
-- its header has in it before.
abbrev pub with_files : Console → Bytes → (Bytes → Option Bytes) → Console
with_files c stack files = record c {
  read_patch_state = λ path hash. result_of (console_read_patch_state stack (files path) hash);
}

-- The files with another one at a path.
abbrev pub replaced : (Bytes → Option Bytes) → Bytes → Option Bytes → Bytes → Option Bytes
replaced files path file q = if same q path then file else files q

-- The hash of a patch for its first version, and the file behind a toggle of it.
abbrev pub first_hash : Console → GamePatchInfo → PatchText → ℕ
first_hash c info p = (metadata_of c info p 0 0 p.first).hash

abbrev pub toggled_file : Console → GamePatchInfo → PatchText → Option Bytes → Option Bytes
toggled_file c info p file = (toggle_patch_state completes file (first_hash c info p)).1

-- The console reads what a toggle has written as the tools do.
console_read-toggle_patch_state :
    (stack : Bytes) (file : Option Bytes) (hash : ℕ)
    → IsFile file
    → hash < u32
    → (length (read_patch_states_internal file) + 1) * state_size < u32
    → console_read_patch_state stack (toggle_patch_state completes file hash).1 hash
      ≡ some (read_patch_state (toggle_patch_state completes file hash).1 hash)
unfolding toggle_patch_state write_patch_state write_patch_states_internal put_header
console_read-toggle_patch_state stack file hash h below few =
    console_read_patch_state-read_patch_state stack _ _ (put_states states) hash whole
      (omega (arith, longer))
  where
    states : List PatchState
    states =
        updated_states hash (toggle_target (read_patch_state file hash))
          (read_patch_states_internal file)

    longer : length states ≤ length (read_patch_states_internal file) + 1
    longer =
        (updated_states-FitsState hash (toggle_target (read_patch_state file hash))
          (read_patch_states_internal file) below (read_patch_states_internal-FitsState file h)).1

    header : PatchStateFileHeader
    header = record {
      magic = patch_state_magic;
      version = patch_state_version;
      count = length states % u32;
    }

    back :
        get_u32
          (length states % u32 / 2 ^ 24 % 256)
          (length states % u32 / 2 ^ 16 % 256)
          (length states % u32 / 2 ^ 8 % 256)
          (length states % u32 % 256)
        ≡ length states % u32
    back = omega arith

    whole : get_header (put_header header ++ put_states states) ≡ some (header, put_states states)
    whole =
        unfold get_header in
        ap
          (λ n. some (
            record { magic = patch_state_magic; version = patch_state_version; count = n },
            put_states states,
          ))
          back

toggle_target-is_one : (o : Option Bool) → toggle_target o ≡ not (is_one o)
toggle_target-is_one none = refl
toggle_target-is_one (some b) = refl

toggled_enabled :
    (c : Console) (info : GamePatchInfo) (p : PatchText) (file : Option Bytes)
    → IsFile file
    → length (read_patch_states_internal file) + 1 < u32
    → is_one (read_patch_state (toggled_file c info p file) (first_hash c info p))
      ≡ not (is_one (read_patch_state file (first_hash c info p)))
toggled_enabled c info p file h few =
    let hash = first_hash c info p in
    let (done, flag) =
      read-toggle_patch_state file hash hash h (calculate_patch_hash-below c.signed_char _ _ _ _)
        few in
    let same_hash = λ (b : Bool).
      if b then (toggle_patch_state completes file hash).0 else read_patch_state file hash in
    ap is_one (flag ∙ ap same_hash (==_self hash) ∙ done)
    ∙ toggle_target-is_one (read_patch_state file hash)

-- After the tools have toggled, in the file of the title, a patch that is for the game by its first
-- version alone, the console plugin, which reads that file with its own reader, does the patch's
-- entries exactly where it was off or unknown before and is for the started program. The states and
-- one more fit into 32 bits of size.
pub parse_patch_file_low_mem-toggle_patch_state :
    (c : Console) (info : GamePatchInfo) (p : PatchText) (stack : Bytes)
    (files : Bytes → Option Bytes) (game : Game)
    → IsPatch p
    → patch_matches_game info (some p.first) ≡ true
    → NoVersion info p.others
    → IsFile (files (settings_path (titleid_text info)))
    → (length (read_patch_states_internal (files (settings_path (titleid_text info)))) + 1)
        * state_size
      < u32
    → let path = settings_path (titleid_text info) in
      let before = read_patch_state (files path) (first_hash c info p) in
      let toggled = replaced files path (toggled_file c info p (files path)) in
      (ctx' : ParseContext) × (parse_patch_file_low_mem
          (console (with_files c stack toggled))
          (some metadata_callback)
          (some entry_callback)
          (file_lines (document (p ∷ [])))
          (create_parse_context info low_mem, game)
        ≡ some (
          true,
          ctx',
          if not (is_one before) && c.exe_matched p.app_bin
              then apply_all p.entries (record game { count = (game.count + 1) % 2 ^ 32 })
              else record game { count = (game.count + 1) % 2 ^ 32 },
        ))
unfolding metadata_callback
parse_patch_file_low_mem-toggle_patch_state c info p stack files game h matches others valid few =
    let counted : Game = record game { count = (game.count + 1) % 2 ^ 32 } in
    let path = settings_path (titleid_text info) in
    let hash = first_hash c info p in
    let file = files path in
    let toggled = replaced files path (toggled_file c info p file) in
    let (ctx', r) =
      parse_patch_file_low_mem-apply_all (with_files c stack toggled) info p game h matches
        others in
    let read =
      ap (λ f. result_of (console_read_patch_state stack f hash))
        (ap (λ b. if b then toggled_file c info p file else file) (same_self path))
      ∙ ap result_of (
          console_read-toggle_patch_state stack file hash valid
            (calculate_patch_hash-below c.signed_char _ _ _ _) few) in
    (
      ctx',
      r
          ∙ ap
              (λ (b : Bool). some (
                true,
                ctx',
                if b && c.exe_matched p.app_bin then apply_all p.entries counted else counted,
              ))
              (ap is_one read ∙ toggled_enabled c info p file valid (omega arith)),
    )
