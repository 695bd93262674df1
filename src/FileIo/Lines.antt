-- ===== src/FileIo/Lines.antt =====
-- What `fileReadLine` returns for each kind of line.
use ps3_plugins.Base.{
  ℕ, zero, suc, ◌+◌, ◌<◌, ◌≡◌, refl, ◌∙◌, ◌≢◌, ◌⊎◌, inl, inr, true, false, none, some, [], ◌∷◌,
  ◌++◌, append_assoc, append-nil, arith, ◌==◌, if◌then◌else◌, Bool-cases, ==_iff, ==_ne, Bytes,
  length, All,
}
use ps3_plugins.FileIo.{ends, stream_of, read_line_loop, file_read_line}

abbrev pub newline : ℕ
newline = b'\n'

abbrev pub carriage_return : ℕ
carriage_return = b'\r'

abbrev pub without_cr : Bytes → Bytes
without_cr [] = []
without_cr (b ∷ s) = if b == carriage_return then without_cr s else b ∷ without_cr s

abbrev pub NoNewline : Bytes → Type 0
NoNewline = All (λ b. b ≢ newline)

-- The last byte of a text, or the one in front of it.
abbrev pub last_byte : ℕ → Bytes → ℕ
last_byte prev [] = prev
last_byte prev (c ∷ s) = last_byte c s

last_byte-zero_ne :
    (b : ℕ) (s : Bytes) → last_byte b s ≢ carriage_return → last_byte 0 s ≢ carriage_return
last_byte-zero_ne b [] h = omega arith
last_byte-zero_ne b (c ∷ s) h = h

last_byte-zero :
    (b : ℕ) (s : Bytes)
    → (b == carriage_return) ≡ false
    → last_byte b s ≡ carriage_return
    → last_byte 0 s ≡ carriage_return
last_byte-zero b [] h e = ground arith
last_byte-zero b (c ∷ s) h e = e

read_line_loop-newline :
    (fuel : ℕ) (before after line : Bytes) (under r w : ℕ)
    → NoNewline before
    → length before < fuel
    → read_line_loop fuel (stream_of (before ++ newline ∷ after)) line under r w
      ≡ some (record {
        ok = true;
        line = line ++ without_cr before;
        bytes_read = r + (length before + 1);
        bytes_written = w + length (without_cr before);
        rest = stream_of after;
      })
unfolding read_line_loop
read_line_loop-newline zero before after line under r w h p = absurd (omega arith)
read_line_loop-newline (suc fuel) [] after line under r w h p = ground (arith, append-nil line)
read_line_loop-newline (suc fuel) (b ∷ before) after line under r w h p =
    elim (Bool-cases (b == carriage_return)) [
      | inl cr ↦
          rw (cr, read_line_loop)
            (read_line_loop-newline fuel before after line b (r + 1) w h.1 (omega arith)
              ∙ ground arith)
      | inr other ↦
          rw (other, read_line_loop, ==_ne b newline h.0)
            (read_line_loop-newline fuel before after (line ++ (b ∷ [])) 0 (r + 1) (w + 1) h.1
                (omega arith)
              ∙ ground (arith, append_assoc line (b ∷ []) (without_cr before)))
    ]

read_line_loop_end :
    (fuel : ℕ) (before line : Bytes) (under r w : ℕ)
    → NoNewline before
    → length before < fuel
    → (under ≡ 0) ⊎ (under ≡ carriage_return)
    → last_byte under before ≢ carriage_return
    → read_line_loop fuel (stream_of before) line under r w
      ≡ some (record {
        ok = true;
        line = (line ++ without_cr before) ++ (0 ∷ []);
        bytes_read = r + length before;
        bytes_written = w + length (without_cr before);
        rest = ends;
      })
unfolding read_line_loop
read_line_loop_end zero before line under r w h p u l = absurd (omega arith)
read_line_loop_end (suc fuel) [] line under r w h p u l = ground (arith, append-nil line)
read_line_loop_end (suc fuel) (b ∷ before) line under r w h p u l =
    elim (Bool-cases (b == carriage_return)) [
      | inl cr ↦
          rw (cr, read_line_loop)
            (read_line_loop_end fuel before line b (r + 1) w h.1 (omega arith)
                (inr ((==_iff b carriage_return).0 cr)) l
              ∙ ground arith)
      | inr other ↦
          rw (other, read_line_loop, ==_ne b newline h.0)
            (read_line_loop_end fuel before (line ++ (b ∷ [])) 0 (r + 1) (w + 1) h.1 (omega arith)
                (inl refl) (last_byte-zero_ne b before l)
              ∙ ground (arith, append_assoc line (b ∷ []) (without_cr before)))
    ]

read_line_loop_stuck :
    (fuel : ℕ) (before line : Bytes) (under r w : ℕ)
    → NoNewline before
    → last_byte under before ≡ carriage_return
    → read_line_loop fuel (stream_of before) line under r w ≡ none
unfolding read_line_loop
read_line_loop_stuck zero before line under r w h l = refl
read_line_loop_stuck (suc fuel) [] line under r w h l =
    let waits : (under == carriage_return) ≡ true = rw l in
    rw (waits, read_line_loop) (read_line_loop_stuck fuel [] line under r w h l)
read_line_loop_stuck (suc fuel) (b ∷ before) line under r w h l =
    elim (Bool-cases (b == carriage_return)) [
      | inl cr ↦ rw (cr, read_line_loop) (read_line_loop_stuck fuel before line b (r + 1) w h.1 l)
      | inr other ↦
          rw (other, read_line_loop, ==_ne b newline h.0)
            (read_line_loop_stuck fuel before (line ++ (b ∷ [])) 0 (r + 1) (w + 1) h.1
              (last_byte-zero b before other l))
    ]

-- A line that ends in a newline is returned without it and without carriage returns; all its bytes
-- are counted as read and the stored ones as written, and the file stands behind the newline. A
-- round for every byte is enough.
pub file_read_line-newline :
    (fuel : ℕ) (before after : Bytes) (bytes_written : ℕ)
    → NoNewline before
    → length before < fuel
    → file_read_line fuel (stream_of (before ++ newline ∷ after)) bytes_written
      ≡ some (record {
        ok = true;
        line = without_cr before;
        bytes_read = length before + 1;
        bytes_written = bytes_written + length (without_cr before);
        rest = stream_of after;
      })
unfolding file_read_line
file_read_line-newline fuel before after bytes_written h p =
    read_line_loop-newline fuel before after [] 0 0 bytes_written h p ∙ ground arith

-- The last line, with no newline behind it, is returned in the same way, unless the file ends in a
-- carriage return.
pub file_read_line_end :
    (fuel : ℕ) (before : Bytes) (bytes_written : ℕ)
    → NoNewline before
    → length before < fuel
    → last_byte 0 before ≢ carriage_return
    → file_read_line fuel (stream_of before) bytes_written
      ≡ some (record {
        ok = true;
        line = without_cr before ++ (0 ∷ []);
        bytes_read = length before;
        bytes_written = bytes_written + length (without_cr before);
        rest = ends;
      })
unfolding file_read_line
file_read_line_end fuel before bytes_written h p l =
    read_line_loop_end fuel before [] 0 0 bytes_written h p (inl refl) l ∙ ground arith

-- Where a file ends in a carriage return behind its last newline, `fileReadLine` never returns: no
-- number of rounds is enough.
pub file_read_line_stuck :
    (fuel : ℕ) (before : Bytes) (bytes_written : ℕ)
    → NoNewline before
    → last_byte 0 before ≡ carriage_return
    → file_read_line fuel (stream_of before) bytes_written ≡ none
unfolding file_read_line
file_read_line_stuck fuel before bytes_written h l =
    read_line_loop_stuck fuel before [] 0 0 bytes_written h l
