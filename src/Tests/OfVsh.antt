-- ===== src/Tests/OfVsh.antt =====
-- Runs of the XMB plugin, and of a game from its start to its patches.
use mathlib.Core.Path.{fun_ext}
use ps3_plugins.Base.{
  ℕ, ◌+◌, ◌-◌, ◌≡◌, refl, ap, ◌≢◌, Bool, true, false, Option, none, some, [], ◌∷◌, arith, ◌==◌,
  if◌then◌else◌, Bool-cases, Bytes, codes, same, length,
}
use ps3_plugins.CString.{strstr, has_prefix}
use ps3_plugins.Vsh.Scan.{pattern_scan, matches_at, find_in_window, scan_window, scan_windows}
use ps3_plugins.Vsh.Scan.Window.{bytes_at}
use ps3_plugins.Vsh.Scan.Walk.{whole, Found}
use ps3_plugins.Vsh.Scan.Finds.{pattern_scan_sound}
use ps3_plugins.Vsh.Files.{
  Node, file, folder, FileSystem, Stdio, load_plugin_main, make_folders, notify_round,
  game_info_path, notify_path, plugins_path, bootloader_path,
}
use ps3_plugins.Vsh.Files.Calls.{Works, put, remove, made_folder}
use ps3_plugins.Vsh.Files.Start.{content, info_of, make_folders_lem}
use ps3_plugins.Vsh.Files.Notify.{notify_round-notice_text}
use ps3_plugins.Patch.Metadata.{patch_matches_game}
use ps3_plugins.Patch.File.{file_lines}
use ps3_plugins.Patch.Apply.{Game}
use ps3_plugins.Patch.Document.{document}
use ps3_plugins.Patch.Document.Rounds.{console}
use ps3_plugins.Patch.Document.Applying.{apply_all}
use ps3_plugins.Patch.Run.{written, notice_text, module_start}
use ps3_plugins.Patch.Run.Started.{module_start-load_plugin_main}
use ps3_plugins.Tests.Samples.{args, all_enabled, entry, patch, patch-IsPatch}

-- Two words at 0x150 in memory of zeros, and a signature for them with one masked byte.
abbrev code : ℕ → ℕ
code a = if a == 0x150 then 0x12 else if a == 0x151 then 0x34 else if a == 0x152 then 0x56 else 0

abbrev signature : Bytes
signature = 0x12 ∷ 0xff ∷ 0x56 ∷ []

pattern_scan_sound_example :
    (r : ℕ) × (pattern_scan (whole code (λ i. 0)) (λ i. 0) 5 0x100 0x300 signature 20 ≡ some r)
    × Found code (λ i. 0) signature 20 (0x100 + 0x300 - 3) r
pattern_scan_sound_example =
    pattern_scan_sound code (λ i. 0) 0x100 0x300 20 signature (omega arith) (omega arith)
      (omega arith) (omega arith) (omega arith) 5 (omega arith)

-- A signature that crosses the end of a window is missed.
crossing : ℕ → ℕ
crossing a =
    if a == 0x1ff then 0x12 else if a == 0x200 then 0x34 else if a == 0x201 then 0x56 else 0

missed :
    pattern_scan (λ a. some (bytes_at crossing a 256)) (λ i. 0) 5 0x100 0x300 signature 20 ≡ some 0
unfolding pattern_scan scan_windows scan_window find_in_window matches_at bytes_at crossing
missed = refl

-- A disk on which every call works.
abbrev is_file : Option Node → Bool
is_file (some (file bytes)) = true
is_file (some folder) = false
is_file none = false

abbrev size_of : Option Node → Option ℕ
size_of (some (file bytes)) = some (length bytes)
size_of (some folder) = none
size_of none = none

abbrev bytes_of : Option Node → Bytes
bytes_of (some (file bytes)) = bytes
bytes_of (some folder) = []
bytes_of none = []

abbrev pub disk : Stdio
disk = record {
  create = λ fs path. some (put fs path (file []));
  fwrite = λ fs path bytes. put fs path (file bytes);
  mkdir = made_folder;
  unlink = remove;
  opens = λ fs path. is_file (fs path);
  size_of = λ fs path. size_of (fs path);
  fread = λ fs path n. bytes_of (fs path);
  malloc = λ n. true;
}

put-put : (fs : FileSystem) (path : Bytes) (a b : Node) → put (put fs path a) path b ≡ put fs path b
put-put fs path a b = fun_ext λ q. ground (arith, Bool-cases (same q path))

pub disk-Works : Works disk
disk-Works = record {
  creates = λ fs path h p. refl;
  writes = λ fs path bytes. put-put fs path (file []) (file bytes);
  makes = λ fs path. refl;
  unlinks = λ fs path. refl;
  opens_files = λ fs path bytes e. ap is_file e;
  sizes = λ fs path bytes e. ap size_of e;
  reads = λ fs path bytes e. ap bytes_of e;
}

abbrev pub empty : FileSystem
empty path = none

pub no_folder : ◌≢◌ {A = Option Node} none (some folder)
no_folder e = cc

make_folders_lem_example :
    let fs' = make_folders disk (codes "a") (codes "b") empty in
    (fs' plugins_path ≡ some (file (codes "a")))
    × (fs' bootloader_path ≡ some (file (codes "b")))
    × (fs' notify_path ≡ none)
    × (fs' game_info_path ≡ none)
make_folders_lem_example =
    make_folders_lem disk disk-Works (codes "a") (codes "b") empty no_folder no_folder

abbrev with_notice : FileSystem
with_notice path = some (file (notice_text 2))

notify_round-notice_text_example :
    (notify_round disk with_notice ≡ (remove with_notice notify_path, some (notice_text 2)))
    × (notify_round disk (remove with_notice notify_path) ≡ (remove with_notice notify_path, none))
notify_round-notice_text_example = notify_round-notice_text disk disk-Works with_notice 2 refl

game_matches :
    patch_matches_game (info_of (codes "BLES1") (codes "01.00")) (some (codes "01.00")) ≡ true
unfolding patch_matches_game same ps3_plugins.Text.Escape.c_string
game_matches = refl

abbrev game : Game
game = record { writes = []; g_args = none; count = 0 }

-- The plugins' folder alone.
abbrev pub work_only : FileSystem
work_only path = if same path (codes "/dev_hdd0/game_patch/work") then some folder else none

pub work_only_spares :
    (work_only game_info_path ≢ some folder)
    × (work_only notify_path ≢ some folder)
    × (work_only (codes "/dev_hdd0/game_patch/work") ≡ some folder)
unfolding same
work_only_spares = (λ e. no_folder e, λ e. no_folder e, refl)

module_start-load_plugin_main_example :
    module_start
      (console all_enabled)
      (λ path. file_lines (document (patch ∷ [])))
      (content (
        load_plugin_main disk true work_only
          (codes "game_plugin")
          (some (codes "BLES1", codes "01.00"))
          game_info_path))
      args
      game
    ≡ some (
      true,
      some (written (codes "Applied 1 patch")),
      apply_all (entry ∷ []) (record game { g_args = some args; count = 1 }),
    )
unfolding ps3_plugins.Patch.Metadata.contains strstr has_prefix
module_start-load_plugin_main_example =
    let (a, b, w) = work_only_spares in
    module_start-load_plugin_main disk disk-Works true work_only (codes "BLES1") (codes "01.00") a b
      w (omega arith) (omega arith) all_enabled (λ path. file_lines (document (patch ∷ []))) patch
      args (codes "/EBOOT.BIN") [] game refl refl patch-IsPatch game_matches tt
