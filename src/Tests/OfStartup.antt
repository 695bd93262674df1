-- ===== src/Tests/OfStartup.antt =====
-- The bootloader from the bytes of its files on.
use ps3_plugins.Base.{
  ◌≡◌, refl, ◌≢◌, true, false, none, some, [], ◌∷◌, ◌++◌, arith, Bytes, codes, same, length,
  get_elem?, replicate, All,
}
use ps3_plugins.Tests.Checks.{avoids-All, plain-IsLine, All-empty}
use ps3_plugins.Tests.OfVsh.{disk, disk-Works, work_only, work_only_spares}
use ps3_plugins.CString.{strstr, has_prefix}
use ps3_plugins.Text.Escape.Quote.{quote}
use ps3_plugins.Text.Items.Brackets.{items_text}
use ps3_plugins.FileIo.Text.{text_of, IsLine}
use ps3_plugins.ProgramArgs.{ProgramArgs, max_arg_buf}
use ps3_plugins.ProgramArgs.Bounds.{IsValid}
use ps3_plugins.Plugins.Document.{
  Entry, IsEntry, IsPath, document, app_line, app_ver_line, path_line,
}
use ps3_plugins.Bootloader.{PrxLoader, LoadPluginData}
use ps3_plugins.Bootloader.Matching.{loads, starts, started}
use ps3_plugins.Bootloader.Startup.{check_bytes, module_start}
use ps3_plugins.Bootloader.Startup.Loads.{any_wanted, wanted_paths}
use ps3_plugins.Bootloader.Startup.Started.{module_start-document}
use ps3_plugins.Vsh.Files.{load_plugin_main, game_info_path}
use ps3_plugins.Vsh.Files.Start.{content, info_of}

check_bytes-two : check_bytes (codes "a" ++ (0 ∷ 1 ∷ 0 ∷ [])) 0 ≡ (false, 2)
unfolding check_bytes
check_bytes-two = refl

abbrev path : Bytes
path = codes "/p.sprx"

-- An entry for every game, and one for another game.
abbrev entry : Entry
entry = record { app_id = codes "all"; versions = codes "01.00" ∷ []; paths = path ∷ [] }

abbrev other_entry : Entry
other_entry = record entry { app_id = codes "BLES2" }

path-IsPath : IsPath path
unfolding strstr quote has_prefix
path-IsPath = record { no_nul = avoids-All 0 path refl; no_app_ver = refl; no_plugins = refl }

versioned-IsEntry :
    (app_id : Bytes) → All (λ c. c ≢ 0) app_id → IsEntry (record entry { app_id = app_id })
unfolding quote items_text
versioned-IsEntry app_id h = record {
  id_no_nul = h;
  versions_listable = ((avoids-All 0 (codes "01.00") refl, omega arith), tt);
  versions_some = omega arith;
  versions_fit = omega arith;
  line_fits = omega arith;
  paths_plain = (path-IsPath, tt);
}

entries-IsEntry : All IsEntry (entry ∷ other_entry ∷ [])
entries-IsEntry = (
  versioned-IsEntry (codes "all") (avoids-All 0 (codes "all") refl),
  (versioned-IsEntry (codes "BLES2") (avoids-All 0 (codes "BLES2") refl), tt),
)

entries-IsLine : All IsLine (document (entry ∷ other_entry ∷ []))
unfolding quote items_text
entries-IsLine = (
  plain-IsLine (app_line entry.app_id) refl refl refl,
  (
    plain-IsLine (app_ver_line entry.versions) refl refl refl,
    (
      plain-IsLine (codes "  plugins:") refl refl refl,
      (
        plain-IsLine (path_line path) refl refl refl,
        (
          plain-IsLine (app_line other_entry.app_id) refl refl refl,
          (
            plain-IsLine (app_ver_line other_entry.versions) refl refl refl,
            (
              plain-IsLine (codes "  plugins:") refl refl refl,
              (plain-IsLine (path_line path) refl refl refl, tt),
            ),
          ),
        ),
      ),
    ),
  ),
)

abbrev loader : PrxLoader
loader = record {
  load_module = λ p. some (length p);
  start_module = λ prx arg. (true, record arg { changed = true });
}

-- The arguments of a game with its one path.
abbrev args : ProgramArgs
args = record {
  argc = 1;
  argv = some (codes "EBOOT.BIN") ∷ [];
  new_argv = replicate 32 none;
  replace_args = replicate 32 [];
  changed = false;
  overruns = 0;
}

module_start-document_example :
    let fs' =
      load_plugin_main disk true work_only
        (codes "game_plugin")
        (some (codes "BLES1", codes "01.00")) in
    (arg' : ProgramArgs) × (result : LoadPluginData) × (module_start loader args
        (content (fs' game_info_path))
        (some (text_of true (document (entry ∷ other_entry ∷ []))))
      ≡ some (result.main_arg, some result))
    × (result.found_match
        ≡ any_wanted (info_of (codes "BLES1") (codes "01.00")) (entry ∷ other_entry ∷ []))
    × (loads result.calls
        ≡ wanted_paths (info_of (codes "BLES1") (codes "01.00")) (entry ∷ other_entry ∷ []))
    × (starts result.calls
        ≡ started loader arg'
            (wanted_paths (info_of (codes "BLES1") (codes "01.00")) (entry ∷ other_entry ∷ [])))
    × IsValid arg'
    × (get_elem? arg'.new_argv 0 ≡ some (some (codes "EBOOT.BIN")))
module_start-document_example =
    let (a, b, w) = work_only_spares in
    module_start-document disk disk-Works true work_only (codes "BLES1") (codes "01.00") a b w
      (omega arith) (omega arith) loader args true (entry ∷ other_entry ∷ []) 0 entries-IsEntry
      entries-IsLine refl refl (All-empty max_arg_buf 32) (omega arith) (omega arith)

-- The first entry alone is for the game.
wanted_paths-info :
    wanted_paths (info_of (codes "BLES1") (codes "01.00")) (entry ∷ other_entry ∷ []) ≡ path ∷ []
unfolding same strstr has_prefix ps3_plugins.Bootloader.any_version ps3_plugins.Text.Escape.c_string
wanted_paths-info = refl
