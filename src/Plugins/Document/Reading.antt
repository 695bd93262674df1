-- ===== src/Plugins/Document/Reading.antt =====
-- What the parser of game_plugins.yml makes of a printed file.
use ps3_plugins.Plugins.Document.Lines.{
  start_config-app_line, process_lines-path_lines, process_line-plugins, process_line-app_ver_line,
}
use ps3_plugins.Plugins.Document.{
  Entry, IsEntry, app_line, app_ver_line, path_lines, entry_lines, document, entry_config,
}
use ps3_plugins.Base.{
  ◌≡◌, refl, ap, ◌∙◌, ◌≢◌, true, false, some, List, [], ◌∷◌, ◌++◌, Bytes, codes, All,
}
use ps3_plugins.CString.{skip_space, has_prefix, isspace}
use ps3_plugins.Text.Line.{is_comment_or_empty, get_indent_level}
use ps3_plugins.Plugins.{
  parse_plugin, empty_config, init_plugin_parse_context, emit_current_config, PluginConfig,
  PluginParseContext, process_line, process_lines,
}

module _ {ℓ} {S : Type ℓ} (call : PluginConfig → S → S) where
  -- The context behind the lines of an entry.
  abbrev entry_context : Entry → PluginParseContext
  entry_context e = record {
    current_config = entry_config e;
    in_plugins_section = true;
    has_current_config = true;
    current_indent = 2;
  }

  process_line-app_line :
      (app_id : Bytes) (ctx : PluginParseContext) (user_data : S)
      → All (λ c. c ≢ 0) app_id
      → (emit_current_config (some call) (ctx, user_data)).0.current_config ≡ empty_config
      → process_line (some call) (ctx, user_data) (app_line app_id) ≡ (
        record {
          current_config = record empty_config { app_id = some app_id };
          in_plugins_section = false;
          has_current_config = true;
          current_indent = 0;
        },
        (emit_current_config (some call) (ctx, user_data)).1,
      )
  unfolding process_line is_comment_or_empty get_indent_level skip_space has_prefix isspace
  process_line-app_line app_id ctx user_data h fresh =
      let after = emit_current_config (some call) (ctx, user_data) in
      ap (λ c. (c, after.1))
        (start_config-app_line app_id after.0 h
          ∙ ap
              (λ (c : PluginConfig). record {
                current_config = record c { app_id = some app_id };
                in_plugins_section = false;
                has_current_config = true;
                current_indent = 0;
              })
              fresh)

  process_lines-entry_lines :
      (e : Entry) (ctx : PluginParseContext) (user_data : S) (rest : List Bytes)
      → IsEntry e
      → (emit_current_config (some call) (ctx, user_data)).0.current_config ≡ empty_config
      → process_lines (some call) (ctx, user_data) (entry_lines e ++ rest)
        ≡ process_lines
            (some call)
            (entry_context e, (emit_current_config (some call) (ctx, user_data)).1)
            rest
  unfolding process_lines
  process_lines-entry_lines e ctx user_data rest h fresh =
      let user_data' = (emit_current_config (some call) (ctx, user_data)).1 in
      let started : PluginParseContext = record {
        current_config = record empty_config { app_id = some e.app_id };
        in_plugins_section = false;
        has_current_config = true;
        current_indent = 0;
      } in
      let versioned : PluginParseContext = record started {
        current_config = record (started.current_config) {
          is_app_ver_list = true;
          app_versions = e.versions;
        };
      } in
      let run =
        λ (lines : List Bytes) (st : PluginParseContext × S). process_lines (some call) st lines in
      let last_lines : List Bytes = path_lines e.paths ++ rest in
      let more_lines : List Bytes = codes "  plugins:" ∷ last_lines in
      ap (run (app_ver_line e.versions ∷ more_lines))
        (process_line-app_line e.app_id ctx user_data h.id_no_nul fresh)
      ∙ ap (run more_lines) (
          process_line-app_ver_line call e.versions started user_data' h.versions_listable
            h.versions_some h.versions_fit h.line_fits refl)
      ∙ ap (run last_lines) (process_line-plugins call versioned user_data' refl)
      ∙ process_lines-path_lines call e.paths
          (record versioned { in_plugins_section = true; current_indent = 2 }) user_data' rest
          h.paths_plain refl refl

  -- The callback's data after a call for every entry, in order.
  abbrev pub call_all : List Entry → S → S
  call_all [] user_data = user_data
  call_all (e ∷ entries) user_data = call_all entries (call (entry_config e) user_data)

  process_lines-document :
      (entries : List Entry) (e : Entry) (user_data : S)
      → All IsEntry entries
      → emit_current_config
          (some call)
          (process_lines (some call) (entry_context e, user_data) (document entries))
        ≡ (
          record init_plugin_parse_context { current_indent = 2 },
          call_all entries (call (entry_config e) user_data),
        )
  unfolding process_lines emit_current_config
  process_lines-document [] e user_data h = refl
  process_lines-document (d ∷ entries) e user_data h =
      ap (emit_current_config (some call))
        (process_lines-entry_lines d (entry_context e) user_data (document entries) h.0 refl)
      ∙ process_lines-document entries d (call (entry_config e) user_data) h.1

  -- The parser of game_plugins.yml calls back once for every entry of a printed file, in order and
  -- with the entry's id, versions and paths, and then has no entry at hand.
  pub parse_plugin-document :
      (entries : List Entry) (user_data : S)
      → All IsEntry entries
      → ((parse_plugin (some call) init_plugin_parse_context user_data (some (document entries))).0
          ≡ true)
        × ((parse_plugin
              (some call)
              init_plugin_parse_context
              user_data
              (some (document entries))).1.has_current_config
            ≡ false)
        × ((parse_plugin
              (some call)
              init_plugin_parse_context
              user_data
              (some (document entries))).2
            ≡ call_all entries user_data)
  unfolding parse_plugin process_lines emit_current_config
  parse_plugin-document [] user_data h = (refl, refl, refl)
  parse_plugin-document (e ∷ entries) user_data h =
      let all_lines =
        ap (emit_current_config (some call)) (
          process_lines-entry_lines e init_plugin_parse_context user_data (document entries) h.0
            refl)
        ∙ process_lines-document entries e user_data h.1 in
      (
        refl,
        ap (λ (st : PluginParseContext × S). st.0.has_current_config) all_lines,
        ap (λ (st : PluginParseContext × S). st.1) all_lines,
      )
