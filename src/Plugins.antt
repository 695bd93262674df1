-- ===== src/Plugins.antt =====
-- game_patch/plugins.c and game_patch/plugins.h: the parser of game_plugins.yml, line by line, with
-- a callback for each finished entry. Allocations succeed.
pub mod Document
use ps3_plugins.Base.{
  ℕ, ◌-◌, Bool, true, false, not, ◌&&◌, Option, none, some, List, [], ◌∷◌, ◌++◌, ◌==◌,
  if◌then◌else◌, Bytes, codes, length, drop,
}
use ps3_plugins.CString.{skip_space, has_prefix, strstr, peek}
use ps3_plugins.Text.Line.{is_comment_or_empty, get_indent_level, is_list_value}
use ps3_plugins.Text.Quoted.{parse_quoted_string}
use ps3_plugins.Text.Items.{parse_string_list}

-- MAX_APP_VERS of shared/macros.h.
abbrev pub max_app_vers : ℕ
max_app_vers = 16

-- `app_versions` holds the `app_ver_count` strings in use, `plugins` the `plugin_count` ones.
pub record PluginConfig : Type 0 where
  pub app_id : Option Bytes
  pub app_versions : List Bytes
  pub is_app_ver_list : Bool
  pub plugins : List Bytes

abbrev pub empty_config : PluginConfig
empty_config = record { app_id = none; app_versions = []; is_app_ver_list = false; plugins = [] }

-- The callback and the data behind `user_data` are parameters of the functions below.
pub record PluginParseContext : Type 0 where
  pub current_config : PluginConfig
  pub in_plugins_section : Bool
  pub has_current_config : Bool
  pub current_indent : ℕ

-- `init_plugin_parse_context`
abbrev pub init_plugin_parse_context : PluginParseContext
init_plugin_parse_context = record {
  current_config = empty_config;
  in_plugins_section = false;
  has_current_config = false;
  current_indent = 0;
}

-- `config` keeps what it had where the text holds no quoted string.
unfoldable pub add_plugin : PluginConfig → Bytes → PluginConfig
add_plugin config plugin_path = elim (parse_quoted_string plugin_path) [
  | none ↦ config
  | some plugin_str ↦ record config { plugins = config.plugins ++ (plugin_str ∷ []) }
]

-- The branch for `- app:`, behind the call of `emit_current_config`.
unfoldable pub start_config : ℕ → Bytes → PluginParseContext → PluginParseContext
start_config indent content ctx = record {
  current_config = elim (parse_quoted_string (drop 6 content)) [
    | none ↦ ctx.current_config
    | some app_str ↦ record (ctx.current_config) { app_id = some app_str }
  ];
  in_plugins_section = false;
  has_current_config = true;
  current_indent = indent;
}

-- The branch for `app_ver:`; `found` is what `strstr` points at.
unfoldable pub set_app_versions : Bytes → Bytes → PluginConfig → PluginConfig
set_app_versions content found config =
    if is_list_value content
    then (let versions = parse_string_list content max_app_vers in
        if length versions == 0
        then record config { is_app_ver_list = true }
        else record config { is_app_ver_list = true; app_versions = versions })
    else elim (parse_quoted_string (drop 8 found)) [
      | none ↦ record config { is_app_ver_list = false }
      | some version ↦ record config { is_app_ver_list = false; app_versions = version ∷ [] }
    ]

-- The branch for a path: behind the dash and blanks.
unfoldable pub process_path : Bytes → PluginParseContext → PluginParseContext
process_path content ctx =
    if ctx.in_plugins_section && ctx.has_current_config && peek content == b'-'
    then record ctx { current_config = add_plugin ctx.current_config (skip_space (drop 1 content)) }
    else ctx

-- The branches for `plugins:` and for a path behind a dash.
unfoldable pub process_section : ℕ → Bytes → PluginParseContext → PluginParseContext
unfolding process_path
process_section indent content ctx = elim (strstr content (codes "plugins:")) [
  | some found ↦
      if ctx.has_current_config
      then record ctx { in_plugins_section = true; current_indent = indent }
      else process_path content ctx
  | none ↦ process_path content ctx
]

-- The chain of tests behind the one for `- app:`.
unfoldable pub process_entry : ℕ → Bytes → PluginParseContext → PluginParseContext
unfolding set_app_versions process_section
process_entry indent content ctx = elim (strstr content (codes "app_ver:")) [
  | some found ↦
      if ctx.has_current_config
      then record ctx { current_config = set_app_versions content found ctx.current_config }
      else process_section indent content ctx
  | none ↦ process_section indent content ctx
]

module _ {ℓ} {S : Type ℓ} (callback : Option (PluginConfig → S → S)) where
  -- The context afterwards, and the data of the callback.
  unfoldable pub emit_current_config : PluginParseContext × S → PluginParseContext × S
  emit_current_config (ctx, user_data) = if not ctx.has_current_config then (ctx, user_data) else (
    record ctx {
      current_config = empty_config;
      has_current_config = false;
      in_plugins_section = false;
    },
    elim callback [ none ↦ user_data | some call ↦ call ctx.current_config user_data ],
  )

  unfoldable pub process_line : PluginParseContext × S → Bytes → PluginParseContext × S
  unfolding start_config process_entry emit_current_config
  process_line (ctx, user_data) line =
      if is_comment_or_empty line
      then (ctx, user_data)
      else (let indent = get_indent_level line in
          let content = skip_space line in
          if has_prefix (codes "- app:") content
          then (let (ctx', user_data') = emit_current_config (ctx, user_data) in
              (start_config indent content ctx', user_data'))
          else (process_entry indent content ctx, user_data))

  unfoldable pub process_lines : PluginParseContext × S → List Bytes → PluginParseContext × S
  process_lines state [] = state
  process_lines state (line ∷ lines) = process_lines (process_line state line) lines

  -- The lines that `parse_plugin` reads before it closes the file; `none` where the file could not
  -- be opened or measured, or has no name. The result is -1 or 0.
  unfoldable pub parse_plugin :
      PluginParseContext → S → Option (List Bytes) → Bool × PluginParseContext × S
  parse_plugin ctx user_data none = (false, ctx, user_data)
  parse_plugin ctx user_data (some lines) =
      let (ctx', user_data') = emit_current_config (process_lines (ctx, user_data) lines) in
      (true, ctx', user_data')
