-- ===== src/Tests/OfSystem.antt =====
-- Runs of the file operations over the system calls, and of bin2c.
use ps3_plugins.Base.{
  ℕ, ◌+◌, ◌≤◌, ◌≡◌, refl, ap, true, false, Option, none, some, List, [], ◌∷◌, ◌++◌, arith, ◌==◌,
  if◌then◌else◌, Bytes, codes, same, length, take, drop,
}
use ps3_plugins.FileIo.System.{
  Constants, Kernel, ok, not_exists, open_failed, cell_fs_error_to_file_status, file_size,
  file_write2,
}
use ps3_plugins.FileIo.System.Sizes.{Seeks, file_size_lem}
use ps3_plugins.FileIo.System.Writing.{Files, file_write2_lem}
use ps3_plugins.Bin2c.{Options, items, ending, main, written, exit_one}
use ps3_plugins.Bin2c.Reading.{read_items, widest, read_items-items}

abbrev constants : Constants
constants = record {
  rdonly = 0;
  wronly = 1;
  rdwr = 2;
  creat = 64;
  cur = 1;
  set_ = 0;
  end_ = 2;
  fs_ok = 0;
  eexist = 0x80010014;
}

-- One file: its bytes, the place of its handle, and the open handles, the last one first.
record Disk : Type 0 where
  pub bytes : Bytes
  pub place : ℕ
  pub open_handles : List ℕ

abbrev seek_to : Disk → ℕ → ℕ → ℕ
seek_to d offset whence =
    if whence == 1
    then d.place + offset
    else if whence == 2
    then length d.bytes + offset
    else offset

-- A handle that is not the last one opened cannot be closed here.
abbrev close : Disk → ℕ → List ℕ → ℕ × Disk
close d handle [] = (0x80010009, d)
close d handle (h ∷ others) =
    if h == handle then (0, record d { open_handles = others }) else (0x80010009, d)

close_last :
    (d : Disk) (handle : ℕ) (others handles : List ℕ)
    → handles ≡ handle ∷ others
    → close d handle handles ≡ (0, record d { open_handles = others })
close_last d handle others [] e = absurd cc
close_last d handle others (h ∷ hs) e = ground arith

abbrev kernel : Kernel Disk
kernel = record {
  sys_open = λ d path flags mode. (0, 3, record d { place = 0; open_handles = 3 ∷ d.open_handles });
  sys_read = λ d handle n. (0, take n (drop d.place d.bytes), d);
  sys_write = λ d handle bytes. (
    0,
    length bytes,
    record d { bytes = bytes ++ drop (length bytes) d.bytes; place = length bytes },
  );
  sys_lseek = λ d handle offset whence.
      (0, seek_to d offset whence, record d { place = seek_to d offset whence });
  sys_close = λ d handle. close d handle d.open_handles;
  sys_unlink = λ d path. (0, d);
}

abbrev length_of : Disk → ℕ → ℕ
length_of d handle = length d.bytes

abbrev position : Disk → ℕ → ℕ
position d handle = d.place

stays : (n : ℕ) → n + 0 ≡ n
stays n = omega arith

kernel-Seeks : Seeks constants kernel position length_of 3
kernel-Seeks = record {
  zero_ok = refl;
  current = λ d. ap (λ n. (0, n, record d { place = n })) (stays d.place);
  to_end = λ d. (
    record d { place = length d.bytes },
    ap (λ n. (0, n, record d { place = n })) (stays (length d.bytes)),
    refl,
    refl,
  );
  to_start = λ d offset. (record d { place = offset }, refl, refl, refl);
}

abbrev disk : Disk
disk = record { bytes = codes "!"; place = 1; open_handles = 7 ∷ [] }

file_size_lem_example :
    (d : Disk) × (file_size constants kernel disk 3 ≡ (ok, some 1, d))
    × (position d 3 ≡ 1)
    × (length_of d 3 ≡ 1)
file_size_lem_example = file_size_lem constants kernel position length_of disk 3 kernel-Seeks

abbrev content : Disk → Bytes → Option Bytes
content d path = some d.bytes

abbrev AtStart : Disk → ℕ → Bytes → Type 0
AtStart d handle path = Unit

kernel-Files : Files constants kernel content (λ d. d.open_handles) AtStart (codes "notify.bin")
kernel-Files = record {
  no_creation = refl;
  opens =
      λ d old e. (3, record d { place = 0; open_handles = 3 ∷ d.open_handles }, refl, tt, e, refl);
  writes = λ d handle old bytes at e. (
    record d { bytes = bytes ++ drop (length bytes) d.bytes; place = length bytes },
    refl,
    ap
        (λ (b : Option Bytes). elim b as (λ _. Option Bytes) [
          | none ↦ none
          | some b' ↦ some (bytes ++ drop (length bytes) b')
        ])
        e,
    refl,
  );
  closes = λ d handle others h.
      (record d { open_handles = others }, close_last d handle others d.open_handles h, refl, refl);
}

-- Over the mark of the XMB plugin, the text alone is left.
file_write2_lem_example :
    (d : Disk) × (file_write2 constants kernel disk (codes "notify.bin") (codes "Applied")
      ≡ (ok, d))
    × (content d (codes "notify.bin") ≡ some (codes "Applied"))
    × (d.open_handles ≡ 7 ∷ [])
file_write2_lem_example =
    file_write2_lem constants kernel content (λ d. d.open_handles) AtStart (codes "notify.bin")
      kernel-Files disk (codes "!") (codes "Applied") refl

-- The code for a file that exists already is the status of one that does not.
statuses :
    (cell_fs_error_to_file_status constants 0 ≡ ok)
    × (cell_fs_error_to_file_status constants 0x80010014 ≡ not_exists)
    × (cell_fs_error_to_file_status constants 0x80010006 ≡ open_failed)
unfolding cell_fs_error_to_file_status
statuses = (refl, refl, refl)

abbrev two_bytes : Bytes
two_bytes = 0x12 ∷ 0xab ∷ []

abbrev terminated : Options
terminated = record { use_const = false; zero_terminated = true }

read_items-items_example :
    (read_items (items terminated two_bytes ++ ending) ≡ 0x12 ∷ 0xab ∷ 0 ∷ [])
    × (widest 0 (items terminated two_bytes ++ ending) ≤ 72)
read_items-items_example = read_items-items terminated two_bytes (omega arith)

abbrev inputs : Bytes → Option Bytes
inputs path = some two_bytes

-- A whole run, and one with an option that is not known.
runs :
    (main inputs (λ path. true) (codes "-cz" ∷ codes "in" ∷ codes "out" ∷ codes "name" ∷ [])
      ≡ written (
          codes "// clang-format off"
          ++ (10 ∷ [])
          ++ codes "static const unsigned char name[] = {"
          ++ (10 ∷ [])
          ++ codes "0x12, 0xab, 0x00, "
          ++ (10 ∷ [])
          ++ codes "};"
          ++ (10 ∷ [])
          ++ codes "// clang-format on"
          ++ (10 ∷ [])))
    × (main inputs (λ path. true) (codes "-x" ∷ codes "in" ∷ codes "out" ∷ codes "name" ∷ [])
        ≡ exit_one)
unfolding main same
runs = (refl, refl)
