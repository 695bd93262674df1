-- ===== src/Bootloader/Startup.antt =====
-- game_plugin_bootloader/prx.cpp `check_bytes`, `parse_load_file` and `module_start`, and game_patch/plugins.c
-- `load_plugins`, from the bytes of the files on. A file is its content, or `none` where it cannot be
-- opened and measured.
pub mod Loads
pub mod Started
use ps3_plugins.Base.{
  ℕ, ◌+◌, Bool, false, ◌&&◌, Option, none, some, List, [], ◌∷◌, ◌==◌, if◌then◌else◌, Bytes, same,
  length, ◌>>=◌,
}
use ps3_plugins.FileIo.{stream_of, read_lines}
use ps3_plugins.GamePatchInfo.{load_game_info}
use ps3_plugins.Plugins.{PluginConfig, init_plugin_parse_context, parse_plugin}
use ps3_plugins.ProgramArgs.{ProgramArgs, copy_main_args}
use ps3_plugins.Vsh.Files.{plugins_path}
use ps3_plugins.Bootloader.{PrxLoader, LoadPluginData, load_plugin_callback}

-- The number of bytes that are not `num`.
unfoldable pub diff_bytes : ℕ → Bytes → ℕ
diff_bytes num [] = 0
diff_bytes num (b ∷ p) = if b == num then diff_bytes num p else diff_bytes num p + 1

unfoldable pub check_bytes : Bytes → ℕ → Bool × ℕ
unfolding diff_bytes
check_bytes p num = (diff_bytes num p == 0, diff_bytes num p)

-- `load_plugins`, on the lines of the file: whether the result is 0, and the data.
unfoldable pub load_plugins :
    (PluginConfig → LoadPluginData → LoadPluginData)
    → Option (List Bytes)
    → LoadPluginData
    → Bool × LoadPluginData
load_plugins callback file plugin_data =
    let (done, ctx, user_data) =
      parse_plugin (some callback) init_plugin_parse_context plugin_data file in
    (done && user_data.found_match, user_data)

-- The lines that the loop of `parse_plugin` reads; `none` where it does not end.
unfoldable pub lines_of_file : Option Bytes → Option (Option (List Bytes))
lines_of_file none = some none
lines_of_file (some content) = do
  lines ← read_lines (length content + 1) (length content) (stream_of content) 0 0
  some (some lines)

-- `parse_load_file`, with the file of the game's information and that of the plugins. The inner
-- `none` is the result -1; the outer one is a call that does not end.
unfoldable pub parse_load_file :
    PrxLoader → Bytes → ProgramArgs → Option Bytes → Option Bytes → Option (Option LoadPluginData)
unfolding load_plugins lines_of_file
parse_load_file loader filename args game_info_file plugins_file =
    if same filename [] then some none else elim (load_game_info game_info_file) [
      | none ↦ some none
      | some info ↦ do
        file ← lines_of_file plugins_file
        some (
            some
              (load_plugins (load_plugin_callback loader) file (record {
                game_info = some info;
                found_match = false;
                main_arg = args;
                calls = [];
              })).1)
    ]

-- The arguments that are left.
abbrev pub left_of : ProgramArgs → Option LoadPluginData → ProgramArgs
left_of arg none = arg
left_of arg (some user_data) = user_data.main_arg

-- `module_start` up to its result, which is always the same, and what it prints: the arguments
-- afterwards, and what `parse_load_file` gives, which is called with the copied arguments.
unfoldable pub module_start :
    PrxLoader
    → ProgramArgs
    → Option Bytes
    → Option Bytes
    → Option (ProgramArgs × Option LoadPluginData)
unfolding parse_load_file
module_start loader arg game_info_file plugins_file =
    let copied = copy_main_args arg arg.argc arg.argv in
    do
      read ← parse_load_file loader plugins_path copied game_info_file plugins_file
      some (left_of copied read, read)
