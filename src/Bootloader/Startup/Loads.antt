-- ===== src/Bootloader/Startup/Loads.antt =====
-- From the bytes of a printed game_plugins.yml to the modules that are loaded.
use ps3_plugins.Base.{
  ◌≡◌, refl, sym, ap, ◌∙◌, ◌≢◌, inl, inr, Bool, true, false, ◌&&◌, ◌||◌, Option, none, some, List,
  [], ◌∷◌, ◌++◌, if◌then◌else◌, Bool-cases, Bytes, same_ne, All, ◌>>=◌,
}
use ps3_plugins.FileIo.Text.{text_of, IsLine, read_lines-text_of_whole}
use ps3_plugins.GamePatchInfo.{GamePatchInfo, load_game_info, titleid_text, app_ver_text}
use ps3_plugins.ProgramArgs.{ProgramArgs}
use ps3_plugins.Plugins.{init_plugin_parse_context, parse_plugin}
use ps3_plugins.Plugins.Document.{Entry, IsEntry, document, entry_config}
use ps3_plugins.Plugins.Document.Reading.{call_all, parse_plugin-document}
use ps3_plugins.Bootloader.{
  PrxLoader, LoadPluginData, matches_or_all, any_version, load_loop, load_for_game,
  load_plugin_callback,
}
use ps3_plugins.Bootloader.Matching.{
  loads, starts, started, load_loop-append, load_loop_found, load_loop_kept, load_loop_lem,
}
use ps3_plugins.Bootloader.Startup.{load_plugins, lines_of_file, parse_load_file}

-- An entry of the file is for the game.
abbrev pub wanted : GamePatchInfo → Entry → Bool
wanted info e =
    matches_or_all e.app_id (titleid_text info) && any_version (app_ver_text info) e.versions

abbrev pub any_wanted : GamePatchInfo → List Entry → Bool
any_wanted info [] = false
any_wanted info (e ∷ entries) = wanted info e || any_wanted info entries

-- The paths of the entries for the game, in the order of the file.
abbrev pub wanted_paths : GamePatchInfo → List Entry → List Bytes
wanted_paths info [] = []
wanted_paths info (e ∷ entries) =
    (if wanted info e then e.paths else []) ++ wanted_paths info entries

or_swap : (a b c : Bool) → a || (b || c) ≡ (b || a) || c
or_swap true true c = refl
or_swap true false c = refl
or_swap false true c = refl
or_swap false false c = refl

or_false : (a : Bool) → a || false ≡ a
or_false true = refl
or_false false = refl

abbrev found : Bool → LoadPluginData → LoadPluginData
found b d = record d { found_match = b }

module _ (loader : PrxLoader) (info : GamePatchInfo) where
  callback-entry_config :
      (e : Entry) (d : LoadPluginData)
      → d.game_info ≡ some info
      → load_plugin_callback loader (entry_config e) d
        ≡ found
            (wanted info e || d.found_match)
            (load_loop loader (if wanted info e then e.paths else []) d)
  unfolding load_plugin_callback load_for_game
  callback-entry_config e d known =
      ap
        (λ g. elim g as (λ _. LoadPluginData) [
          | none ↦ d
          | some i ↦ load_for_game loader (entry_config e) e.app_id i d
        ])
        known
      ∙ elim (Bool-cases (matches_or_all e.app_id (titleid_text info))) [
        | inl k ↦ elim (Bool-cases (any_version (app_ver_text info) e.versions)) [
          | inl m ↦ rw (k, m) (load_loop_found loader e.paths true d)
          | inr m ↦ rw (k, m) (unfold load_loop in refl)
        ]
        | inr k ↦ rw k (unfold load_loop in refl)
      ]

  call_all-wanted :
      (entries : List Entry) (d : LoadPluginData)
      → d.game_info ≡ some info
      → call_all (load_plugin_callback loader) entries d
        ≡ found
            (any_wanted info entries || d.found_match)
            (load_loop loader (wanted_paths info entries) d)
  call_all-wanted [] d known = unfold load_loop in refl
  call_all-wanted (e ∷ entries) d known =
      let mine = if wanted info e then e.paths else [] in
      let flag = wanted info e || d.found_match in
      let after = load_loop loader mine d in
      ap (call_all (load_plugin_callback loader) entries) (callback-entry_config e d known)
      ∙ call_all-wanted entries (found flag after) ((load_loop_kept loader mine d).0 ∙ known)
      ∙ ap (found (any_wanted info entries || flag))
          (load_loop_found loader (wanted_paths info entries) flag after)
      ∙ ap (λ b. found b (load_loop loader (wanted_paths info entries) after))
          (or_swap (any_wanted info entries) (wanted info e) d.found_match)
      ∙ ap (found (any_wanted info (e ∷ entries) || d.found_match))
          (sym (load_loop-append loader mine (wanted_paths info entries) d))

  -- The data that the plugins file is read with.
  abbrev at_first : ProgramArgs → LoadPluginData
  at_first args = record { game_info = some info; found_match = false; main_arg = args; calls = [] }

  abbrev at_last : ProgramArgs → List Entry → LoadPluginData
  at_last args entries =
      found (any_wanted info entries) (load_loop loader (wanted_paths info entries) (at_first args))

  load_plugins-document :
      (args : ProgramArgs) (entries : List Entry)
      → All IsEntry entries
      → load_plugins (load_plugin_callback loader) (some (document entries)) (at_first args)
        ≡ (any_wanted info entries, at_last args entries)
  unfolding load_plugins
  load_plugins-document args entries h =
      let ran =
        parse_plugin (some (load_plugin_callback loader)) init_plugin_parse_context (at_first args)
          (some (document entries)) in
      let (done, idle, called) =
        parse_plugin-document (load_plugin_callback loader) entries (at_first args) h in
      ap (λ b. (b && ran.2.found_match, ran.2)) done
      ∙ ap (λ (d : LoadPluginData). (d.found_match, d))
          (called
            ∙ call_all-wanted entries (at_first args) refl
            ∙ ap (λ b. found b (load_loop loader (wanted_paths info entries) (at_first args)))
                (or_false (any_wanted info entries)))

  -- What is done with the lines, where they come to an end.
  abbrev read_file : ProgramArgs → Option (List Bytes) → Option (Option LoadPluginData)
  read_file args lines = do
    file ← (do ls ← lines; some (some ls))
    some (some (load_plugins (load_plugin_callback loader) file (at_first args)).1)

  -- For a printed file of plugins, with LF or CRLF ends, the bootloader asks the system for the paths
  -- of the entries that are for the game, in the order of the file, starts the modules that it is
  -- given with the arguments that it has and what the started ones leave of them, and notes whether
  -- there was such an entry.
  pub parse_load_file-document :
      (filename game_info_file : Bytes) (args : ProgramArgs) (crlf : Bool) (entries : List Entry)
      → filename ≢ []
      → load_game_info (some game_info_file) ≡ some info
      → All IsEntry entries
      → All IsLine (document entries)
      → (result : LoadPluginData) × (parse_load_file loader filename args
            (some game_info_file)
            (some (text_of crlf (document entries)))
          ≡ some (some result))
        × (result.found_match ≡ any_wanted info entries)
        × (loads result.calls ≡ wanted_paths info entries)
        × (starts result.calls ≡ started loader args (wanted_paths info entries))
  unfolding parse_load_file lines_of_file
  parse_load_file-document filename game_info_file args crlf entries named known h lines =
      let (asked, ran) = load_loop_lem loader (wanted_paths info entries) (at_first args) in
      (
        at_last args entries,
        rw (same_ne filename [] named, parse_load_file)
            (rw known (
              ap (read_file args) (read_lines-text_of_whole crlf (document entries) lines)
              ∙ ap (λ (r : Bool × LoadPluginData). some (some r.1))
                  (load_plugins-document args entries h))),
        refl,
        asked,
        ran,
      )
