-- ===== src/Bootloader.antt =====
-- game_plugin_bootloader/prx.cpp: the plugins that are loaded for the started game.
pub mod Matching
pub mod Startup
use ps3_plugins.Base.{
  ℕ, Bool, true, false, not, ◌||◌, Option, none, some, List, [], ◌∷◌, ◌++◌, if◌then◌else◌, Bytes,
  codes, same,
}
use ps3_plugins.CString.{has_prefix}
use ps3_plugins.GamePatchInfo.{GamePatchInfo, titleid_text, app_ver_text}
use ps3_plugins.ProgramArgs.{ProgramArgs}
use ps3_plugins.Plugins.{PluginConfig}

-- `sys_prx_load_module` and `sys_prx_start_module` of the system: the module's number, or `none`
-- for an error; whether a loaded module starts with a pointer to the arguments, and what it leaves
-- of them.
pub record PrxLoader : Type 0 where
  pub load_module : Bytes → Option ℕ
  pub start_module : ℕ → ProgramArgs → Bool × ProgramArgs

-- The calls made, in order; a start is with the arguments as they are then.
pub data PrxCall : Type 0 where
  load : Bytes → PrxCall
  start : ℕ → ProgramArgs → PrxCall

-- `LoadPluginData`, with what `main_arg` points to, and with the calls made so far. The callback is
-- always `load_plugin_callback`.
pub record LoadPluginData : Type 0 where
  pub game_info : Option GamePatchInfo
  pub found_match : Bool
  pub main_arg : ProgramArgs
  pub calls : List PrxCall

-- `strncmp2(text, "all") == 0 || strcmp(text, wanted) == 0`
abbrev pub matches_or_all : Bytes → Bytes → Bool
matches_or_all text wanted = has_prefix (codes "all") text || same text wanted

-- The loop over `app_versions`, up to its `break`.
unfoldable pub any_version : Bytes → List Bytes → Bool
any_version app_ver [] = false
any_version app_ver (v ∷ versions) = matches_or_all v app_ver || any_version app_ver versions

module _ (loader : PrxLoader) where
  -- One round of the loop over `plugins`; a module that is not loaded is not started. A failure
  -- does not stop the loop.
  unfoldable pub load_plugin : Bytes → LoadPluginData → LoadPluginData
  load_plugin path user_data = elim (loader.load_module path) [
    | none ↦ record user_data { calls = user_data.calls ++ (load path ∷ []) }
    | some prx ↦ record user_data {
      main_arg = (loader.start_module prx user_data.main_arg).1;
      calls = user_data.calls ++ (load path ∷ start prx user_data.main_arg ∷ []);
    }
  ]

  unfoldable pub load_loop : List Bytes → LoadPluginData → LoadPluginData
  load_loop [] user_data = user_data
  load_loop (path ∷ plugins) user_data = load_loop plugins (load_plugin path user_data)

  -- What the callback does for a matching game.
  unfoldable pub load_for_game :
      PluginConfig → Bytes → GamePatchInfo → LoadPluginData → LoadPluginData
  unfolding any_version load_loop
  load_for_game config app_id info user_data =
      if not (matches_or_all app_id (titleid_text info))
      then user_data
      else if not (any_version (app_ver_text info) config.app_versions)
      then user_data
      else load_loop config.plugins (record user_data { found_match = true })

  unfoldable pub load_plugin_callback : PluginConfig → LoadPluginData → LoadPluginData
  unfolding load_for_game
  load_plugin_callback config user_data = elim config.app_id [
    | none ↦ user_data
    | some app_id ↦ elim user_data.game_info [
      | none ↦ user_data
      | some info ↦ load_for_game config app_id info user_data
    ]
  ]
