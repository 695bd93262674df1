-- ===== src/Plugins/Document/Lines.antt =====
-- What the parser of game_plugins.yml makes of the lines of a printed file.
use ps3_plugins.Plugins.Document.{IsPath, app_line, app_ver_line, path_line, path_lines}
use ps3_plugins.Base.{
  ℕ, ◌≤◌, ◌<◌, ◌≡◌, refl, sym, ap, ◌∙◌, ◌≢◌, true, false, none, some, List, [], ◌∷◌, ◌++◌,
  append_assoc, append-nil, arith, Bytes, codes, length, take_all, All,
}
use ps3_plugins.CString.{skip_space, has_prefix, strstr, isspace}
use ps3_plugins.Text.Line.{is_comment_or_empty, get_indent_level, is_list_value}
use ps3_plugins.Text.Escape.Quote.{quote}
use ps3_plugins.Text.Quoted.{parse_quoted_string}
use ps3_plugins.Text.Quoted.RoundTrip.{parse_quoted_string-quote}
use ps3_plugins.Text.Items.{parse_string_list, max_line_length}
use ps3_plugins.Text.Items.RoundTrip.{list_line, parse_string_list-list_line}
use ps3_plugins.Text.Items.Brackets.{IsListable}
use ps3_plugins.Plugins.{
  max_app_vers, PluginConfig, PluginParseContext, add_plugin, start_config, set_app_versions,
  process_path, process_section, process_entry, process_line, process_lines,
}

parse_quoted_string_at : (s : Bytes) → All (λ c. c ≢ 0) s → parse_quoted_string (quote s) ≡ some s
parse_quoted_string_at s h =
    ap parse_quoted_string (sym (append-nil (quote s))) ∙ parse_quoted_string-quote [] s [] tt h

parse_quoted_string_blank :
    (s : Bytes) → All (λ c. c ≢ 0) s → parse_quoted_string (b' ' ∷ quote s) ≡ some s
parse_quoted_string_blank s h =
    ap (λ t. parse_quoted_string (b' ' ∷ t)) (sym (append-nil (quote s)))
    ∙ parse_quoted_string-quote (b' ' ∷ []) s [] (omega arith) h

pub start_config-app_line :
    (app_id : Bytes) (ctx : PluginParseContext)
    → All (λ c. c ≢ 0) app_id
    → start_config 0 (app_line app_id) ctx ≡ record {
      current_config = record (ctx.current_config) { app_id = some app_id };
      in_plugins_section = false;
      has_current_config = true;
      current_indent = 0;
    }
unfolding start_config
start_config-app_line app_id ctx h = rw (parse_quoted_string_blank app_id h)

add_plugin-quote :
    (config : PluginConfig) (path : Bytes)
    → All (λ c. c ≢ 0) path
    → add_plugin config (quote path) ≡ record config { plugins = config.plugins ++ (path ∷ []) }
unfolding add_plugin
add_plugin-quote config path h = rw (parse_quoted_string_at path h, add_plugin)

-- A line that holds neither word goes on to the branch for paths.
process_entry-process_path :
    (indent : ℕ) (content : Bytes) (ctx : PluginParseContext)
    → strstr content (codes "app_ver:") ≡ none
    → strstr content (codes "plugins:") ≡ none
    → process_entry indent content ctx ≡ process_path content ctx
unfolding process_entry
process_entry-process_path indent content ctx h k = rw (h, process_entry) (rw (k, process_section))

process_path-quote :
    (path : Bytes) (ctx : PluginParseContext)
    → All (λ c. c ≢ 0) path
    → ctx.in_plugins_section ≡ true
    → ctx.has_current_config ≡ true
    → process_path (codes "- " ++ quote path) ctx ≡ record ctx {
      current_config = record (ctx.current_config) {
        plugins = ctx.current_config.plugins ++ (path ∷ []);
      };
    }
unfolding process_path skip_space isspace quote
process_path-quote path ctx h in_section has_config =
    let added : PluginConfig = add_plugin ctx.current_config (quote path) in
    let taken : process_path (codes "- " ++ quote path) ctx
        ≡ record ctx { current_config = added } =
      ground arith in
    taken
    ∙ ap (λ (c : PluginConfig). record ctx { current_config = c })
        (add_plugin-quote ctx.current_config path h)

strstr_dash :
    (s needle : Bytes)
    → has_prefix needle (codes "- " ++ s) ≡ false
    → has_prefix needle (b' ' ∷ s) ≡ false
    → strstr (codes "- " ++ s) needle ≡ strstr s needle
unfolding strstr
strstr_dash s needle h k = rw h (rw k)

set_app_versions-list_line :
    (versions : List Bytes) (found : Bytes) (config : PluginConfig)
    → All IsListable versions
    → 0 < length versions
    → length versions ≤ max_app_vers
    → length (list_line (codes "app_ver: ") versions []) ≤ max_line_length
    → set_app_versions (list_line (codes "app_ver: ") versions []) found config
      ≡ record config { is_app_ver_list = true; app_versions = versions }
unfolding set_app_versions is_list_value isspace
set_app_versions-list_line versions found config listable some_versions fit line_fits =
    let parsed : parse_string_list (list_line (codes "app_ver: ") versions []) max_app_vers
        ≡ versions =
      (parse_string_list-list_line (codes "app_ver: ") versions [] max_app_vers (omega arith)
        listable line_fits).0
      ∙ take_all max_app_vers versions fit in
    rw (parsed, set_app_versions) (ground arith)

module _ {ℓ} {S : Type ℓ} (call : PluginConfig → S → S) where
  -- A line for a path adds it to the entry at hand.
  pub process_line-path_line :
      (path : Bytes) (ctx : PluginParseContext) (user_data : S)
      → IsPath path
      → ctx.in_plugins_section ≡ true
      → ctx.has_current_config ≡ true
      → process_line (some call) (ctx, user_data) (path_line path) ≡ (
        record ctx {
          current_config = record (ctx.current_config) {
            plugins = ctx.current_config.plugins ++ (path ∷ []);
          };
        },
        user_data,
      )
  unfolding process_line quote is_comment_or_empty get_indent_level skip_space has_prefix isspace
  process_line-path_line path ctx user_data p in_section has_config =
      ap (λ c. (c, user_data))
        (process_entry-process_path 4 (codes "- " ++ quote path) ctx
            (strstr_dash (quote path) (codes "app_ver:") refl refl ∙ p.no_app_ver)
            (strstr_dash (quote path) (codes "plugins:") refl refl ∙ p.no_plugins)
          ∙ process_path-quote path ctx p.no_nul in_section has_config)

  pub process_lines-path_lines :
      (paths : List Bytes) (ctx : PluginParseContext) (user_data : S) (rest : List Bytes)
      → All IsPath paths
      → ctx.in_plugins_section ≡ true
      → ctx.has_current_config ≡ true
      → process_lines (some call) (ctx, user_data) (path_lines paths ++ rest)
        ≡ process_lines
            (some call)
            (
              record ctx {
                current_config = record (ctx.current_config) {
                  plugins = ctx.current_config.plugins ++ paths;
                };
              },
              user_data,
            )
            rest
  unfolding process_lines
  process_lines-path_lines [] ctx user_data rest h in_section has_config = simp append-nil
  process_lines-path_lines (p ∷ paths) ctx user_data rest h in_section has_config =
      ap (λ st. process_lines (some call) st (path_lines paths ++ rest))
        (process_line-path_line p ctx user_data h.0 in_section has_config)
      ∙ process_lines-path_lines paths
          (record ctx {
            current_config = record (ctx.current_config) {
              plugins = ctx.current_config.plugins ++ (p ∷ []);
            };
          })
          user_data rest h.1 in_section has_config
      ∙ simp append_assoc

  pub process_line-plugins :
      (ctx : PluginParseContext) (user_data : S)
      → ctx.has_current_config ≡ true
      → process_line (some call) (ctx, user_data) (codes "  plugins:")
        ≡ (record ctx { in_plugins_section = true; current_indent = 2 }, user_data)
  unfolding process_line is_comment_or_empty get_indent_level skip_space has_prefix isspace
      process_entry process_section strstr
  process_line-plugins ctx user_data has_config = simp has_config

  pub process_line-app_ver_line :
      (versions : List Bytes) (ctx : PluginParseContext) (user_data : S)
      → All IsListable versions
      → 0 < length versions
      → length versions ≤ max_app_vers
      → length (app_ver_line versions) ≤ max_line_length
      → ctx.has_current_config ≡ true
      → process_line (some call) (ctx, user_data) (app_ver_line versions) ≡ (
        record ctx {
          current_config = record (ctx.current_config) {
            is_app_ver_list = true;
            app_versions = versions;
          };
        },
        user_data,
      )
  unfolding process_line is_comment_or_empty get_indent_level skip_space has_prefix isspace
      process_entry strstr
  process_line-app_ver_line versions ctx user_data listable some_versions fit line_fits has_config =
      let content = list_line (codes "app_ver: ") versions [] in
      let taken : process_line (some call) (ctx, user_data) (app_ver_line versions) ≡ (
        record ctx { current_config = set_app_versions content content ctx.current_config },
        user_data,
      ) =
        simp has_config in
      taken
      ∙ ap (λ (c : PluginConfig). (record ctx { current_config = c }, user_data))
          (set_app_versions-list_line versions content ctx.current_config listable some_versions fit
            (omega arith))
