-- ===== src/Tests/OfFiles.antt =====
-- game_patch/lib/file.c and the patch states of game_patch/patch.c on given files.
use ps3_plugins.Base.{
  ◌+◌, ◌<◌, ◌≡◌, refl, ap, true, false, none, some, List, [], ◌∷◌, arith, Bytes, codes, length,
  drop, replicate, All,
}
use ps3_plugins.Tests.Checks.{avoids-All, all_below-All}
use ps3_plugins.FileIo.{file_read_line, read_lines, stream_of}
use ps3_plugins.FileIo.Lines.{file_read_line_stuck}
use ps3_plugins.FileIo.Text.{text_of, IsLine, read_lines-text_of_whole}
use ps3_plugins.PatchState.{
  patch_state_magic, PatchState, u32, completes, header_size, read_patch_states_internal,
  write_patch_state, read_patch_state,
}
use ps3_plugins.PatchState.{get_header, PatchStateFileHeader}
use ps3_plugins.PatchState.Console.{
  console_read_patch_state, console_read_patch_state-read_patch_state,
}
use ps3_plugins.PatchState.Codec.{FitsState}
use ps3_plugins.PatchState.Toggle.{IsFile, read-write_patch_state}

file_read_line_stuck_example : file_read_line 100 (stream_of (codes "b\r")) 0 ≡ none
file_read_line_stuck_example =
    file_read_line_stuck 100 (codes "b\r") 0 (avoids-All 10 (codes "b\r") refl) refl

abbrev two_lines : List Bytes
two_lines = codes "a" ∷ codes "" ∷ []

two_lines-IsLine : All IsLine two_lines
two_lines-IsLine = (((omega arith, omega arith, omega arith), tt), (tt, tt))

read_lines-text_of_whole_example :
    read_lines 6 5 (stream_of (text_of true two_lines)) 0 0 ≡ some two_lines
read_lines-text_of_whole_example = read_lines-text_of_whole true two_lines two_lines-IsLine

abbrev states : List PatchState
states = record { hash = 7; enabled = 1 } ∷ record { hash = 258; enabled = 0 } ∷ []

states-FitsState : All FitsState states
states-FitsState = (
  record { hash_fits = omega arith; enabled_fits = omega arith },
  (record { hash_fits = omega arith; enabled_fits = omega arith }, tt),
)

-- A file with one state.
abbrev file : Bytes
file = 0x49 ∷ 0x4c ∷ 0x4e ∷ 0x59 ∷ 0 ∷ 0 ∷ 0 ∷ 1 ∷ 0 ∷ 0 ∷ 0 ∷ 1 ∷ 0 ∷ 0 ∷ 0 ∷ 7 ∷ 1 ∷ []

file-states : read_patch_states_internal (some file) ≡ record { hash = 7; enabled = 1 } ∷ []
unfolding read_patch_states_internal
file-states = refl

file-IsFile : IsFile (some file)
file-IsFile = all_below-All 256 file refl

file-length : length (read_patch_states_internal (some file)) + 1 < u32
file-length = omega (arith, ap length file-states)

read-write_patch_state_example :
    ((write_patch_state completes (some file) 9 false).0 ≡ true)
    × (read_patch_state (write_patch_state completes (some file) 9 false).1 7
        ≡ read_patch_state (some file) 7)
read-write_patch_state_example =
    read-write_patch_state (some file) 9 7 false file-IsFile (omega arith) file-length

abbrev file_header : PatchStateFileHeader
file_header = record { magic = patch_state_magic; version = 1; count = 1 }

get_header-file : get_header file ≡ some (file_header, drop header_size file)
unfolding get_header
get_header-file = refl

console_read_patch_state-read_patch_state_example :
    console_read_patch_state (replicate 12 0) (some file) 7 ≡ some (read_patch_state (some file) 7)
console_read_patch_state-read_patch_state_example =
    console_read_patch_state-read_patch_state (replicate 12 0) file file_header
      (drop header_size file) 7 get_header-file (omega arith)
