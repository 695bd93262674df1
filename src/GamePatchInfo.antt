-- ===== src/GamePatchInfo.antt =====
-- shared/GamePatchInfo.h and shared/GamePatchInfo.cpp: what the XMB plugin leaves on disk about
-- the started game.
use ps3_plugins.Base.{
  ℕ, ◌+◌, Option, none, some, ◌++◌, ◌==◌, if◌then◌else◌, Bytes, length, take, drop,
}
use ps3_plugins.Text.Escape.{c_string}

-- The two character arrays, of 16 and 8 bytes.
pub record GamePatchInfo : Type 0 where
  pub titleid : Bytes
  pub app_ver : Bytes

abbrev pub titleid_size : ℕ
titleid_size = 16

abbrev pub app_ver_size : ℕ
app_ver_size = 8

-- `load_game_info`, where the file is its content or cannot be opened. The structure is filled
-- only from a file of its exact size; the result is 0 (`none`) otherwise.
unfoldable pub load_game_info : Option Bytes → Option GamePatchInfo
load_game_info none = none
load_game_info (some content) =
    if length content == titleid_size + app_ver_size
    then some (record { titleid = take titleid_size content; app_ver = drop titleid_size content })
    else none

-- What `strcmp` and `%s` read of an array: up to the first NUL, which for a full array of the title id
-- is one of the version behind it. Behind a full array of the version nothing is known.
abbrev pub titleid_text : GamePatchInfo → Bytes
titleid_text info = c_string (info.titleid ++ info.app_ver)

abbrev pub app_ver_text : GamePatchInfo → Bytes
app_ver_text info = c_string info.app_ver
