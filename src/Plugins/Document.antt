-- ===== src/Plugins/Document.antt =====
-- A printed game_plugins.yml. Lines has the parser on its lines, Reading the parser on the whole file.
pub mod Lines
pub mod Reading
use ps3_plugins.Base.{
  ◌-◌, ◌≤◌, ◌<◌, ◌≡◌, ◌≢◌, true, none, some, List, [], ◌∷◌, ◌++◌, Bytes, codes, length, All,
}
use ps3_plugins.CString.{skip_space, has_prefix, strstr, isspace}
use ps3_plugins.Text.Line.{is_comment_or_empty, get_indent_level, is_list_value}
use ps3_plugins.Text.Escape.Quote.{quote}
use ps3_plugins.Text.Quoted.{parse_quoted_string}
use ps3_plugins.Text.Quoted.RoundTrip.{parse_quoted_string-quote}
use ps3_plugins.Text.Items.{parse_string_list, max_line_length}
use ps3_plugins.Text.Items.RoundTrip.{list_line, parse_string_list-list_line}
use ps3_plugins.Text.Items.Brackets.{IsListable}
use ps3_plugins.Plugins.{
  parse_plugin, empty_config, init_plugin_parse_context, emit_current_config, max_app_vers,
  PluginConfig, PluginParseContext, add_plugin, start_config, set_app_versions, process_path,
  process_section, process_entry, process_line, process_lines,
}

-- An entry as it is written: an id, versions and paths.
pub record Entry : Type 0 where
  pub app_id : Bytes
  pub versions : List Bytes
  pub paths : List Bytes

abbrev pub app_line : Bytes → Bytes
app_line app_id = codes "- app: " ++ quote app_id

abbrev pub app_ver_line : List Bytes → Bytes
app_ver_line versions = list_line (codes "  app_ver: ") versions []

abbrev pub path_line : Bytes → Bytes
path_line path = codes "    - " ++ quote path

abbrev pub path_lines : List Bytes → List Bytes
path_lines [] = []
path_lines (p ∷ paths) = path_line p ∷ path_lines paths

abbrev pub entry_lines : Entry → List Bytes
entry_lines e =
    app_line e.app_id ∷ app_ver_line e.versions ∷ codes "  plugins:" ∷ path_lines e.paths

abbrev pub document : List Entry → List Bytes
document [] = []
document (e ∷ entries) = entry_lines e ++ document entries

-- The configuration that an entry stands for.
abbrev pub entry_config : Entry → PluginConfig
entry_config e = record {
  app_id = some e.app_id;
  app_versions = e.versions;
  is_app_ver_list = true;
  plugins = e.paths;
}

-- A path that is not mistaken for another kind of line: it holds no NUL and none of the words that
-- the parser searches a whole line for.
pub record IsPath (p : Bytes) : Type 0 where
  pub no_nul : All (λ c. c ≢ 0) p
  pub no_app_ver : strstr (quote p) (codes "app_ver:") ≡ none
  pub no_plugins : strstr (quote p) (codes "plugins:") ≡ none

-- An entry that can be written: its version list fits into the array and its line into the buffer.
pub record IsEntry (e : Entry) : Type 0 where
  pub id_no_nul : All (λ c. c ≢ 0) e.app_id
  pub versions_listable : All IsListable e.versions
  pub versions_some : 0 < length e.versions
  pub versions_fit : length e.versions ≤ max_app_vers
  pub line_fits : length (app_ver_line e.versions) ≤ max_line_length
  pub paths_plain : All IsPath e.paths
