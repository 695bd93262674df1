-- ===== src/Patch/Run.antt =====
-- game_patch/patch.c: `run_patch`, and game_patch/prx.cpp: `init_list` and `module_start`, on the patch files of the console, which a function gives by their
-- paths.
pub mod Notices
pub mod Started
use ps3_plugins.Base.{
  ℕ, Bool, false, ◌&&◌, Option, none, some, [], ◌++◌, ltb, ◌==◌, if◌then◌else◌, Bytes, codes, ◌>>=◌,
}
use ps3_plugins.GamePatchInfo.{GamePatchInfo, titleid_text, load_game_info}
use ps3_plugins.ProgramArgs.{ProgramArgs}
use ps3_plugins.Patch.Metadata.{decimal}
use ps3_plugins.Patch.File.{Source, parse_patch_file_low_mem}
use ps3_plugins.Patch.Apply.{Game, metadata_callback, entry_callback}
use ps3_plugins.Patch.{low_mem, Env, create_parse_context}

-- What becomes of the file that the XMB plugin shows to the user.
pub data Notice : Type 0 where
  written : Bytes → Notice
  deleted kept : Notice

-- `snprintf(path, …, GAME_PATCH_FILES_PATH "/%s.yml", titleid)`; a title id has at most 16 bytes, so
-- that nothing is cut off.
abbrev pub patch_path : GamePatchInfo → Bytes
patch_path info = codes "/dev_hdd0/game_patch/yml/" ++ titleid_text info ++ codes ".yml"

-- `"Applied %ld patch%s"`
abbrev pub notice_text : ℕ → Bytes
notice_text count =
    codes "Applied " ++ decimal count ++ codes " patch" ++ (if ltb 1 count then codes "es" else [])

-- The result and the notice, by the result of the parser and the count.
unfoldable pub outcome : Bool → ℕ → ℕ × Notice
outcome ok count = (
  if ltb 0 count then 0 else 1,
  if ok && ltb 0 count then written (notice_text count) else if count == 0 then deleted else kept,
)

-- The result and the notice, and the game afterwards. `count` starts from 0.
unfoldable pub run_patch :
    Env → (Bytes → Source) → GamePatchInfo → Game → Option ((ℕ × Notice) × Game)
unfolding outcome
run_patch env files info game = do
  (ok, ctx, done) ←
      parse_patch_file_low_mem env (some metadata_callback) (some entry_callback)
        (files (patch_path info)) (create_parse_context info low_mem, record game { count = 0 })
  some (outcome ok done.count, done)

-- What is left of `init_list`: whether the patch is reported as done, the notice where `run_patch` was
-- called, and the game.
abbrev pub after_load :
    Env → (Bytes → Source) → Option GamePatchInfo → Game → Option (Bool × Option Notice × Game)
after_load env files none game = some (false, none, game)
after_load env files (some info) game = do
  ((result, notice), done) ← run_patch env files info game
  some (result == 0, some notice, done)

-- `init_list`, on the content of the file of information on the game.
unfoldable pub init_list :
    Env → (Bytes → Source) → Option Bytes → Game → Option (Bool × Option Notice × Game)
unfolding run_patch
init_list env files info_file game = after_load env files (load_game_info info_file) game

-- `module_start`, with the arguments of the started program: `g_args = &arg`, which the parser compares
-- the program with and the entries append to. An entry leaves `argv`, which the comparison reads.
unfoldable pub module_start :
    Env
    → (Bytes → Source)
    → Option Bytes
    → ProgramArgs
    → Game
    → Option (Bool × Option Notice × Game)
unfolding init_list
module_start env files info_file arg game =
    init_list (record env { g_args = some arg }) files info_file (record game { g_args = some arg })
