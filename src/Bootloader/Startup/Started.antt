-- ===== src/Bootloader/Startup/Started.antt =====
-- From the XMB plugin to the game's plugins: a game that is started.
use ps3_plugins.Base.{
  ℕ, ◌≤◌, ◌<◌, ◌≡◌, ap, ◌≢◌, Bool, Option, none, some, List, arith, ltb, if◌then◌else◌, Bytes,
  codes, length, get_elem?, All, ◌>>=◌,
}
use ps3_plugins.FileIo.Text.{text_of, IsLine}
use ps3_plugins.GamePatchInfo.{GamePatchInfo, load_game_info}
use ps3_plugins.ProgramArgs.{max_args, max_arg_buf, ProgramArgs, copy_main_args}
use ps3_plugins.ProgramArgs.Bounds.{IsValid}
use ps3_plugins.ProgramArgs.Copying.{entry_or, copy_main_args_lem}
use ps3_plugins.Plugins.Document.{Entry, IsEntry, document}
use ps3_plugins.Bootloader.{PrxLoader, LoadPluginData}
use ps3_plugins.Bootloader.Matching.{loads, starts, started}
use ps3_plugins.Bootloader.Startup.{left_of, module_start}
use ps3_plugins.Bootloader.Startup.Loads.{any_wanted, wanted_paths, parse_load_file-document}
use ps3_plugins.Vsh.Files.{
  folder, FileSystem, Stdio, load_plugin_main, game_info_path, notify_path, plugins_path,
}
use ps3_plugins.Vsh.Files.Calls.{Works}
use ps3_plugins.Vsh.Files.Start.{content, info_of, load_game_info-load_plugin_main}

-- The calls and the arguments, for a game that is known.
module_start_known :
    (loader : PrxLoader) (info : GamePatchInfo) (file : Option Bytes)
    → load_game_info file ≡ some info
    → (arg : ProgramArgs) (crlf : Bool) (entries : List Entry) → All IsEntry entries
    → All IsLine (document entries)
    → (result : LoadPluginData) × (module_start loader arg file
          (some (text_of crlf (document entries)))
        ≡ some (result.main_arg, some result))
      × (result.found_match ≡ any_wanted info entries)
      × (loads result.calls ≡ wanted_paths info entries)
      × (starts result.calls
          ≡ started loader (copy_main_args arg arg.argc arg.argv) (wanted_paths info entries))
unfolding module_start load_game_info
module_start_known loader info none known arg crlf entries h lines = absurd cc
module_start_known loader info (some bytes) known arg crlf entries h lines =
    let copied = copy_main_args arg arg.argc arg.argv in
    let (result, e, found, asked, ran) =
      parse_load_file-document loader info plugins_path bytes copied crlf entries (λ e. cc) known h
        lines in
    (result, ap (λ r. r >>= λ read. some (left_of copied read, read)) e, found, asked, ran)

-- The XMB plugin notes the started game, whose title id and version fit into their arrays with a NUL.
-- The bootloader, started with it and a printed file of plugins, asks the system for the paths of the
-- entries that are for that game, in the order of the file. The first module that the system gives is
-- started with a valid copy of the game's arguments, whose place `j` is that of `argv`, and each other
-- one with what those before it leave of that. The folder of the plugins is there.
pub module_start-document :
    (io : Stdio) (works : Works io) (signed_char : Bool) (fs : FileSystem) (titleid app_ver : Bytes)
    → fs game_info_path ≢ some folder
    → fs notify_path ≢ some folder
    → fs (codes "/dev_hdd0/game_patch/work") ≡ some folder
    → length titleid < 16
    → length app_ver < 8
    → (loader : PrxLoader) (arg : ProgramArgs) (crlf : Bool) (entries : List Entry) (j : ℕ)
    → All IsEntry entries
    → All IsLine (document entries)
    → length arg.new_argv ≡ max_args
    → length arg.replace_args ≡ max_args
    → All (λ b. length b ≤ max_arg_buf) arg.replace_args
    → arg.argc ≤ max_args
    → j < max_args
    → let fs' =
        load_plugin_main io signed_char fs (codes "game_plugin") (some (titleid, app_ver)) in
      let info = info_of titleid app_ver in
      (arg' : ProgramArgs) × (result : LoadPluginData) × (module_start loader arg
          (content (fs' game_info_path))
          (some (text_of crlf (document entries)))
        ≡ some (result.main_arg, some result))
      × (result.found_match ≡ any_wanted info entries)
      × (loads result.calls ≡ wanted_paths info entries)
      × (starts result.calls ≡ started loader arg' (wanted_paths info entries))
      × IsValid arg'
      × (get_elem? arg'.new_argv j ≡ (
          if ltb j arg.argc
          then entry_or (get_elem? arg.argv j) (get_elem? arg.new_argv j)
          else some none))
module_start-document io works signed_char fs titleid app_ver hi hn hw ht ha loader arg crlf entries
      j h lines size size' ends fits inside =
    let known =
      load_game_info-load_plugin_main io works signed_char fs titleid app_ver hi hn hw (omega arith)
        (omega arith) in
    let (result, e, found, asked, ran) =
      module_start_known loader (info_of titleid app_ver) _ known.0 arg crlf entries h lines in
    let (valid, place) = copy_main_args_lem arg arg.argc j arg.argv size size' ends fits inside in
    (copy_main_args arg arg.argc arg.argv, result, e, found, asked, ran, valid, place)
