-- ===== src/Patch/Run/Started.antt =====
-- From the XMB plugin to the patches: a game that is started.
use ps3_plugins.Base.{
  ◌<◌, ◌≡◌, refl, ap, ◌∙◌, ◌≢◌, Bool, true, ◌&&◌, Option, some, List, [], ◌∷◌, arith, if◌then◌else◌,
  Bytes, codes, length,
}
use ps3_plugins.ProgramArgs.{ProgramArgs}
use ps3_plugins.GamePatchInfo.{titleid_text}
use ps3_plugins.Patch.Metadata.{patch_matches_game, contains, is_exe_matched, is_one, settings_path}
use ps3_plugins.Patch.File.{Source, file_lines}
use ps3_plugins.Patch.Apply.{Game}
use ps3_plugins.Patch.Document.{PatchText, IsPatch, document}
use ps3_plugins.Patch.Document.Rounds.{Console, console, metadata_of}
use ps3_plugins.Patch.Document.Matching.{NoVersion}
use ps3_plugins.Patch.Document.Applying.{apply_all}
use ps3_plugins.Patch.Run.{written, patch_path, after_load, init_list, module_start}
use ps3_plugins.Patch.Run.Notices.{run_patch-apply_all}
use ps3_plugins.Vsh.Files.{folder, FileSystem, Stdio, load_plugin_main, game_info_path, notify_path}
use ps3_plugins.Vsh.Files.Calls.{Works}
use ps3_plugins.Vsh.Files.Start.{content, info_of, load_game_info-load_plugin_main}

is_exe_matched-argv :
    (arg : ProgramArgs) (exe : Bytes) (others : List (Option Bytes))
    → arg.argv ≡ some exe ∷ others
    → (bin : Bytes) → is_exe_matched (some arg) bin ≡ some (contains exe bin)
unfolding is_exe_matched
is_exe_matched-argv arg exe others e bin = rw e refl

-- The console once the arguments of the program, which is `exe`, are set.
abbrev started_with :
    Console
    → (arg : ProgramArgs) (exe : Bytes) (others : List (Option Bytes))
    → arg.argv ≡ some exe ∷ others
    → Console
started_with c arg exe others e = record c {
  g_args = some arg;
  exe_matched = λ bin. contains exe bin;
  exe_known = is_exe_matched-argv arg exe others e;
}

-- The XMB plugin notes the started game, whose title id and version fit into their arrays with a NUL.
-- The patch plugin, started with it, with the arguments of the program and with a file with one patch,
-- which is for the game by its first version alone, does the entries of the patch where it is enabled
-- and for that program, reports success and writes the notice. The folder of the plugins is there.
pub module_start-load_plugin_main :
    (io : Stdio) (works : Works io) (signed_char : Bool) (fs : FileSystem) (titleid app_ver : Bytes)
    → fs game_info_path ≢ some folder
    → fs notify_path ≢ some folder
    → fs (codes "/dev_hdd0/game_patch/work") ≡ some folder
    → length titleid < 16
    → length app_ver < 8
    → (c : Console) (files : Bytes → Source) (p : PatchText) (arg : ProgramArgs) (exe : Bytes)
      (others : List (Option Bytes)) (game : Game)
    → arg.argv ≡ some exe ∷ others
    → files (patch_path (info_of titleid app_ver)) ≡ file_lines (document (p ∷ []))
    → IsPatch p
    → patch_matches_game (info_of titleid app_ver) (some p.first) ≡ true
    → NoVersion (info_of titleid app_ver) p.others
    → let fs' =
        load_plugin_main io signed_char fs (codes "game_plugin") (some (titleid, app_ver)) in
      let started : Game = record game { g_args = some arg; count = 1 } in
      let info = info_of titleid app_ver in
      let hash = (metadata_of c info p 0 0 p.first).hash in
      module_start (console c) files (content (fs' game_info_path)) arg game
      ≡ some (
        true,
        some (written (codes "Applied 1 patch")),
        if is_one (c.read_patch_state (settings_path (titleid_text info)) hash)
              && contains exe p.app_bin
            then apply_all p.entries started
            else started,
      )
unfolding module_start init_list
module_start-load_plugin_main io works signed_char fs titleid app_ver hi hn hw ht ha c files p arg
      exe others game argv e h m o =
    let c' = started_with c arg exe others argv in
    ap (λ i. after_load (console c') files i (record game { g_args = some arg }))
      (load_game_info-load_plugin_main io works signed_char fs titleid app_ver hi hn hw
        (omega arith) (omega arith)).0
    ∙ rw
        (run_patch-apply_all c' (info_of titleid app_ver) files p
          (record game { g_args = some arg }) e h m o)
        refl
