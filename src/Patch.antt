-- ===== src/Patch.antt =====
-- game_patch/patch.h and game_patch/patch.c: the parser of game patches. The children model the
-- metadata of a patch (Metadata), the end of a patch (Complete), a line (Line), a whole file (File)
-- and what is done to the game (Apply).
pub mod Metadata
pub mod Complete
pub mod Line
pub mod File
pub mod Apply
pub mod Document
pub mod Bounds
pub mod Run
use ps3_plugins.Base.{ℕ, ◌^◌, Bool, false, Option, none, List, [], Bytes}
use ps3_plugins.GamePatchInfo.{GamePatchInfo}
use ps3_plugins.ProgramArgs.{ProgramArgs}

-- size_t has 32 bits on the console.
abbrev pub size_mod : ℕ
size_mod = 2 ^ 32

abbrev pub max_title_ids : ℕ
max_title_ids = 16

abbrev pub max_app_vers : ℕ
max_app_vers = 16

abbrev pub min_patch_params : ℕ
min_patch_params = 3

-- `app_ver` holds the `app_ver_count` strings in use.
pub record Patch : Type 0 where
  pub title : Option Bytes
  pub name : Option Bytes
  pub notes : Option Bytes
  pub author : Option Bytes
  pub version : Option Bytes
  pub app_bin : Option Bytes
  pub app_ver : List Bytes
  pub is_app_ver_list : Bool

abbrev pub empty_patch : Patch
empty_patch = record {
  title = none;
  name = none;
  notes = none;
  author = none;
  version = none;
  app_bin = none;
  app_ver = [];
  is_app_ver_list = false;
}

pub record PatchMetadata : Type 0 where
  pub hash : ℕ
  pub patch_number : ℕ
  pub title : Option Bytes
  pub name : Option Bytes
  pub author : Option Bytes
  pub version : Option Bytes
  pub app_bin : Option Bytes
  pub app_ver : Option Bytes
  pub matches_game : Bool
  pub enabled : Bool
  pub is_prx : Bool

-- A structure of zeros.
abbrev pub empty_metadata : PatchMetadata
empty_metadata = record {
  hash = 0;
  patch_number = 0;
  title = none;
  name = none;
  author = none;
  version = none;
  app_bin = none;
  app_ver = none;
  matches_game = false;
  enabled = false;
  is_prx = false;
}

-- The parameters in use; their number is `param_count`.
abbrev pub PatchEntry : Type 0
PatchEntry = List Bytes

pub record PatchData : Type 0 where
  pub metadata : PatchMetadata
  pub entries : List PatchEntry

-- PARSE_MODE_ALL, PARSE_MODE_LOW_MEM, PARSE_MODE_METADATA.
pub data ParseMode : Type 0 where
  all low_mem metadata : ParseMode

-- The two builds: the console plugin (`__PRX__`) and the one for tools.
pub data Build : Type 0 where
  prx tools : Build

-- What the code takes from outside: the compiler's `char`, the build, the arguments of the game, and
-- `read_patch_state` over the files on disk.
pub record Env : Type 0 where
  pub signed_char : Bool
  pub build : Build
  pub g_args : Option ProgramArgs
  pub read_patch_state : Bytes → ℕ → Option Bool

-- The arrays hold the `_count` elements in use, beside their capacities. The callbacks and their
-- data are parameters of the functions.
pub record ParseContext : Type 0 where
  pub mode : ParseMode
  pub game_info : GamePatchInfo
  pub global_titleids : List Bytes
  pub current_patch_number : ℕ
  pub current_patch : Patch
  pub in_patches_section : Bool
  pub title : Option Bytes
  pub all_patches : List PatchData
  pub all_patches_capacity : ℕ
  pub current_entries : List PatchEntry
  pub current_entries_capacity : ℕ
  pub metadata_array : List PatchMetadata
  pub metadata_capacity : ℕ
  pub current_meta : PatchMetadata
  pub processing_enabled_patch : Bool

-- `create_parse_context`, on a context of zeros.
unfoldable pub create_parse_context : GamePatchInfo → ParseMode → ParseContext
create_parse_context game_info mode = record {
  mode = mode;
  game_info = game_info;
  global_titleids = [];
  current_patch_number = 0;
  current_patch = empty_patch;
  in_patches_section = false;
  title = none;
  all_patches = [];
  all_patches_capacity = elim mode [ all ↦ 8 | _ ↦ 0 ];
  current_entries = [];
  current_entries_capacity = elim mode [ all ↦ 16 | _ ↦ 0 ];
  metadata_array = [];
  metadata_capacity = elim mode [ metadata ↦ 8 | _ ↦ 0 ];
  current_meta = empty_metadata;
  processing_enabled_patch = false;
}
