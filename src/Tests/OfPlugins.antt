-- ===== src/Tests/OfPlugins.antt =====
-- game_patch/plugins.c and game_plugin_bootloader/prx.cpp on given inputs.
use ps3_plugins.Base.{
  ◌≡◌, refl, true, false, none, some, List, [], ◌∷◌, arith, Bytes, codes, get_elem?, replicate,
}
use ps3_plugins.Tests.Checks.{avoids-All, All-empty}
use ps3_plugins.CString.{strstr}
use ps3_plugins.Text.Escape.Quote.{quote}
use ps3_plugins.Plugins.{PluginConfig, init_plugin_parse_context, parse_plugin}
use ps3_plugins.Plugins.Document.{Entry, IsEntry, IsPath, document}
use ps3_plugins.Plugins.Document.Reading.{call_all, parse_plugin-document}
use ps3_plugins.ProgramArgs.{ProgramArgs, append_arg, copy_main_args, max_arg_buf}
use ps3_plugins.ProgramArgs.Bounds.{IsValid, append_arg-IsValid}
use ps3_plugins.ProgramArgs.Copying.{copy_main_args_lem}

-- A vector of one argument.
abbrev args : ProgramArgs
args = record {
  argc = 1;
  argv = [];
  new_argv = some (codes "EBOOT.BIN") ∷ replicate 31 none;
  replace_args = replicate 32 [];
  changed = false;
  overruns = 0;
}

args-IsValid : IsValid args
args-IsValid = record {
  argc_le = omega arith;
  new_argv_size = refl;
  replace_args_size = refl;
  terminated = All-empty max_arg_buf 32;
}

append_arg-IsValid_example :
    IsValid (append_arg args (codes "-x")).1
    × ((append_arg args (codes "-x")).1.overruns ≡ 0)
    × (get_elem? (append_arg args (codes "-x")).1.replace_args 1 ≡ some (codes "-x"))
    × (get_elem? (append_arg args (codes "-x")).1.new_argv 1 ≡ some (some (codes "-x")))
append_arg-IsValid_example = append_arg-IsValid args (codes "-x") args-IsValid

copy_main_args_lem_example :
    IsValid (copy_main_args args 2 (some (codes "a") ∷ none ∷ []))
    × (get_elem? (copy_main_args args 2 (some (codes "a") ∷ none ∷ [])).new_argv 0
        ≡ some (some (codes "a")))
copy_main_args_lem_example =
    copy_main_args_lem args 2 0 (some (codes "a") ∷ none ∷ []) refl refl (All-empty max_arg_buf 32)
      (omega arith) (omega arith)

abbrev path : Bytes
path = codes "/p.sprx"

abbrev entry : Entry
entry = record {
  app_id = codes "BLES1";
  versions = codes "01.00" ∷ codes "all" ∷ [];
  paths = path ∷ [];
}

path-IsPath : IsPath path
unfolding strstr quote ps3_plugins.CString.has_prefix
path-IsPath = record { no_nul = avoids-All 0 path refl; no_app_ver = refl; no_plugins = refl }

entry-IsEntry : IsEntry entry
unfolding quote ps3_plugins.Text.Items.Brackets.items_text
entry-IsEntry = record {
  id_no_nul = avoids-All 0 (codes "BLES1") refl;
  versions_listable = (
    (avoids-All 0 (codes "01.00") refl, omega arith),
    ((avoids-All 0 (codes "all") refl, omega arith), tt),
  );
  versions_some = omega arith;
  versions_fit = omega arith;
  line_fits = omega arith;
  paths_plain = (path-IsPath, tt);
}

-- A callback that collects the configurations.
abbrev collect : PluginConfig → List PluginConfig → List PluginConfig
collect config configs = config ∷ configs

parse_plugin-document_example :
    ((parse_plugin (some collect) init_plugin_parse_context [] (some (document (entry ∷ [])))).0
      ≡ true)
    × ((parse_plugin
          (some collect)
          init_plugin_parse_context
          []
          (some (document (entry ∷ [])))).1.has_current_config
        ≡ false)
    × ((parse_plugin (some collect) init_plugin_parse_context [] (some (document (entry ∷ [])))).2
        ≡ call_all collect (entry ∷ []) [])
parse_plugin-document_example = parse_plugin-document collect (entry ∷ []) [] (entry-IsEntry, tt)
