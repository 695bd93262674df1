-- ===== src/FileIo/Text.antt =====
-- The lines of a text file, with LF or CRLF ends.
use ps3_plugins.FileIo.Lines.{
  newline, carriage_return, without_cr, NoNewline, file_read_line-newline,
}
use ps3_plugins.Base.{
  ℕ, zero, suc, ◌+◌, ◌≤◌, ◌<◌, ◌≡◌, refl, sym, ap, ◌∙◌, ◌≢◌, Bool, true, false, some, List, [], ◌∷◌,
  ◌++◌, append_assoc, arith, ltb, ◌==◌, if◌then◌else◌, Bytes, length, length-append, All,
  All-append,
}
use ps3_plugins.Text.Escape.Quote.{c_string_whole}
use ps3_plugins.FileIo.{stream_of, file_read_line, read_lines}

-- The end of a line of a text file, of one kind or the other.
abbrev pub line_end : Bool → Bytes
line_end crlf = if crlf then carriage_return ∷ newline ∷ [] else newline ∷ []

abbrev pub text_of : Bool → List Bytes → Bytes
text_of crlf [] = []
text_of crlf (l ∷ lines) = l ++ (line_end crlf ++ text_of crlf lines)

-- The text of a line: no NUL, newline or carriage return.
abbrev pub IsLine : Bytes → Type 0
IsLine = All (λ b. (b ≢ 0) × (b ≢ newline) × (b ≢ carriage_return))

without_cr_plain : (l : Bytes) → IsLine l → without_cr l ≡ l
without_cr_plain [] h = refl
without_cr_plain (b ∷ l) h = ground (arith, without_cr_plain l h.1)

without_cr_concat : (l : Bytes) → IsLine l → without_cr (l ++ (carriage_return ∷ [])) ≡ l
without_cr_concat [] h = refl
without_cr_concat (b ∷ l) h = ground (arith, without_cr_concat l h.1)

IsLine-NoNewline : (l : Bytes) → IsLine l → NoNewline l
IsLine-NoNewline [] h = tt
IsLine-NoNewline (b ∷ l) h = (h.0.1, IsLine-NoNewline l h.1)

IsLine-no_nul : (l : Bytes) → IsLine l → All (λ b. b ≢ 0) l
IsLine-no_nul [] h = tt
IsLine-no_nul (b ∷ l) h = (h.0.0, IsLine-no_nul l h.1)

-- One line of a text file.
file_read_line-line_end :
    (crlf : Bool) (fuel : ℕ) (l after : Bytes) (w : ℕ)
    → IsLine l
    → length l + 1 < fuel
    → file_read_line fuel (stream_of (l ++ (line_end crlf ++ after))) w
      ≡ some (record {
        ok = true;
        line = l;
        bytes_read = length l + length (line_end crlf);
        bytes_written = w + length l;
        rest = stream_of after;
      })
file_read_line-line_end false fuel l after w h p =
    file_read_line-newline fuel l after w (IsLine-NoNewline l h) (omega arith)
    ∙ rw (without_cr_plain l h)
file_read_line-line_end true fuel l after w h p =
    let before = l ++ (carriage_return ∷ []) in
    ap (λ t. file_read_line fuel (stream_of t) w)
      (sym (append_assoc l (carriage_return ∷ []) (newline ∷ after)))
    ∙ file_read_line-newline fuel before after w
        (All-append _ l (carriage_return ∷ []) (IsLine-NoNewline l h) (omega arith))
        (omega (arith, length-append l (carriage_return ∷ [])))
    ∙ rw (without_cr_concat l h, length-append l (carriage_return ∷ [])) (ground arith)

line_end_size : (crlf : Bool) → (1 ≤ length (line_end crlf)) × (length (line_end crlf) ≤ 2)
line_end_size true = omega arith
line_end_size false = omega arith

read_lines-text_of :
    (crlf : Bool) (lines : List Bytes) (fuel size add w : ℕ)
    → All IsLine lines
    → length (text_of crlf lines) < fuel
    → add + length (text_of crlf lines) ≡ size
    → read_lines fuel size (stream_of (text_of crlf lines)) add w ≡ some lines
unfolding read_lines
read_lines-text_of crlf lines zero size add w h p e = absurd (omega arith)
read_lines-text_of crlf [] (suc fuel) size add w h p e =
    let over : ltb add size ≡ false = ground arith in rw (over, read_lines)
read_lines-text_of crlf (l ∷ lines) (suc fuel) size add w h p e =
    let text = text_of crlf lines in
    let n = length (line_end crlf) in
    let whole : length (l ++ (line_end crlf ++ text)) ≡ length l + (n + length text) =
      omega (arith, length-append l (line_end crlf ++ text), length-append (line_end crlf) text) in
    let pos = line_end_size crlf in
    let more : ltb add size ≡ true = ground arith in
    let some_read : (length l + n == 0) ≡ false = ground arith in
    rw (more, read_lines, file_read_line-line_end crlf (suc fuel) l text w h.0 (omega arith))
      (rw (
        some_read,
        read_lines-text_of crlf lines fuel size (add + (length l + n)) (w + length l) h.1
            (omega arith) (omega arith),
        c_string_whole l (IsLine-no_nul l h.0),
      ))

-- The lines of a text file, with LF or CRLF ends, are handed to the line parsers one by one as they
-- are; the file's length is fuel enough.
pub read_lines-text_of_whole :
    (crlf : Bool) (lines : List Bytes)
    → All IsLine lines
    → read_lines
        (length (text_of crlf lines) + 1)
        (length (text_of crlf lines))
        (stream_of (text_of crlf lines))
        0
        0
      ≡ some lines
read_lines-text_of_whole crlf lines h =
    read_lines-text_of crlf lines (length (text_of crlf lines) + 1) (length (text_of crlf lines)) 0
      0 h (omega arith) (omega arith)
