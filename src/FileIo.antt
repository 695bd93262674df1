-- ===== src/FileIo.antt =====
-- game_patch/lib/file.c: `fileReadLine`, byte by byte over the reads of one byte that the system
-- answers, and the loop of its callers.
pub mod Lines
pub mod System
pub mod Text
use ps3_plugins.Text.Escape.{c_string}
use ps3_plugins.Base.{
  ℕ, zero, suc, ◌+◌, Bool, true, false, not, ◌||◌, Option, none, some, List, [], ◌∷◌, ◌++◌, ltb,
  ◌==◌, if◌then◌else◌, Bytes, ◌>>=◌,
}

-- The answers to reads of one byte, up to the end of the file or to a failure.
pub data Stream : Type 0 where
  fails ends : Stream
  byte : ℕ → Stream → Stream

-- The bytes of a file that can be read to its end.
abbrev pub stream_of : Bytes → Stream
stream_of [] = ends
stream_of (b ∷ file) = byte b (stream_of file)

-- What `fileReadLine` leaves: whether its status is FILE_STATUS_OK, the bytes stored in front of the
-- NUL, `*bytesRead`, `*bytesWritten` and the rest of the file.
pub record LineRead : Type 0 where
  pub ok : Bool
  pub line : Bytes
  pub bytes_read : ℕ
  pub bytes_written : ℕ
  pub rest : Stream

-- `while (true)`. `under` is the byte at `bufferCursor`, which is NUL in a cleared buffer and stays
-- as it was where nothing is read. `bufferSize` is not looked at. `none` is a loop that goes on.
unfoldable pub read_line_loop : ℕ → Stream → Bytes → ℕ → ℕ → ℕ → Option LineRead
read_line_loop zero file line under bytes_read bytes_written = none
read_line_loop (suc fuel) fails line under bytes_read bytes_written = some (record {
  ok = false;
  line = line;
  bytes_read = bytes_read;
  bytes_written = bytes_written;
  rest = fails;
})
read_line_loop (suc fuel) ends line under bytes_read bytes_written = elim (under == b'\r') [
  | true ↦ read_line_loop fuel ends line under bytes_read bytes_written
  | false ↦ some (record {
    ok = true;
    line = if under == b'\n' then line else line ++ (under ∷ []);
    bytes_read = bytes_read;
    bytes_written = bytes_written;
    rest = ends;
  })
]
read_line_loop (suc fuel) (byte b file) line under bytes_read bytes_written = elim (b == b'\r') [
  | true ↦ read_line_loop fuel file line b (bytes_read + 1) bytes_written
  | false ↦ elim (b == b'\n') [
    | true ↦ some (record {
      ok = true;
      line = line;
      bytes_read = bytes_read + 1;
      bytes_written = bytes_written;
      rest = file;
    })
    | false ↦ read_line_loop fuel file (line ++ (b ∷ [])) 0 (bytes_read + 1) (bytes_written + 1)
  ]
]

-- A call with a cleared buffer; `*bytesRead` starts from 0, `*bytesWritten` from what it had.
unfoldable pub file_read_line : ℕ → Stream → ℕ → Option LineRead
unfolding read_line_loop
file_read_line fuel file bytes_written = read_line_loop fuel file [] 0 0 bytes_written

-- The loop of `parse_patch_file`, `parse_patch_file_low_mem` and `parse_plugin` for a file of
-- `size` bytes: the lines, read as C strings. `fuel` bounds the lines and each of them.
unfoldable pub read_lines : ℕ → ℕ → Stream → ℕ → ℕ → Option (List Bytes)
unfolding file_read_line
read_lines zero size file bufread_add bytes_written = none
read_lines (suc fuel) size file bufread_add bytes_written = elim (ltb bufread_add size) [
  | false ↦ some []
  | true ↦ elim (file_read_line (suc fuel) file bytes_written) [
    | none ↦ none
    | some r ↦ elim (not r.ok || r.bytes_read == 0) [
      | true ↦ some []
      | false ↦ do
        lines ← read_lines fuel size r.rest (bufread_add + r.bytes_read) r.bytes_written
        some (c_string r.line ∷ lines)
    ]
  ]
]
