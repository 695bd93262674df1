-- ===== src/Vsh/Files.antt =====
-- The files of game_patch_vsh_data/prx.cpp: what it leaves about the started game, the default
-- files, and the notice that it shows. The file system and the calls of stdio are parameters.
pub mod Calls
pub mod Start
pub mod Notify
use ps3_plugins.Base.{
  ℕ, ◌+◌, ◌-◌, Bool, true, false, not, ◌&&◌, Option, none, some, [], ◌∷◌, ◌++◌, ltb, ◌==◌,
  if◌then◌else◌, Bytes, codes, length, get_or, replicate, ◌>>=◌,
}
use ps3_plugins.StringId.{fnv, fnv_offset}
use ps3_plugins.Text.Escape.{c_string}

pub data Node : Type 0 where
  file : Bytes → Node
  folder : Node

abbrev pub FileSystem : Type 0
FileSystem = Bytes → Option Node

-- `fopen(path, "wb")`, where `none` is NULL; `fwrite`; `mkdir`; `unlink`; `fopen(path, "rb")`;
-- `ftell` at the end, where `none` is a negative result; what `fread` delivers; `malloc`.
pub record Stdio : Type 0 where
  pub create : FileSystem → Bytes → Option FileSystem
  pub fwrite : FileSystem → Bytes → Bytes → FileSystem
  pub mkdir : FileSystem → Bytes → FileSystem
  pub unlink : FileSystem → Bytes → FileSystem
  pub opens : FileSystem → Bytes → Bool
  pub size_of : FileSystem → Bytes → Option ℕ
  pub fread : FileSystem → Bytes → ℕ → Bytes
  pub malloc : ℕ → Bool

-- The paths of shared/GamePatchInfo.h.
abbrev pub plugins_path : Bytes
plugins_path = codes "/dev_hdd0/game_plugins.yml"

abbrev pub bootloader_path : Bytes
bootloader_path = codes "/dev_hdd0/game_plugin_bootloader.sprx"

abbrev pub game_info_path : Bytes
game_info_path = codes "/dev_hdd0/game_patch/work/game_patch_data.bin"

abbrev pub notify_path : Bytes
notify_path = codes "/dev_hdd0/game_patch/work/notify.bin"

abbrev pub check_byte : ℕ
check_byte = b'!'

-- `stringid` of this file: a base of 0 is not replaced.
unfoldable pub vsh_stringid : Bool → Bytes → ℕ
unfolding fnv
vsh_stringid signed_char str = fnv signed_char str fnv_offset

-- `file_exists(path) == 0`
unfoldable pub file_exists : FileSystem → Bytes → Bool
file_exists fs path = elim (fs path) [ some (file _) ↦ true | some folder ↦ false | none ↦ false ]

-- `memcpy` into the zeroed structure: the first array has 16 bytes, the second 8.
abbrev pub game_info_bytes : Bytes → Bytes → Bytes
game_info_bytes titleid app_ver =
    titleid ++ replicate (16 - length titleid) 0 ++ app_ver ++ replicate (8 - length app_ver) 0

module _ (io : Stdio) where
  -- `fopen` for writing, `fwrite` and `fclose`; nothing happens where the file cannot be opened.
  unfoldable pub write_file : FileSystem → Bytes → Bytes → FileSystem
  write_file fs path bytes = elim (io.create fs path) [
    | none ↦ fs
    | some fs' ↦ io.fwrite fs' path bytes
  ]

  -- The bytes of a file, where it opens, has a size and is read whole; `limit` is the test on the
  -- size that differs between the two overloads.
  unfoldable pub read_bytes : (ℕ → Bool) → FileSystem → Bytes → Option Bytes
  read_bytes limit fs path =
      if io.opens fs path
      then (do
        size ← io.size_of fs path
        let bytes = io.fread fs path size
        if limit size && length bytes == size then some bytes else none)
      else none

  -- `read_file(filename, file_size)`: the text in new memory with a NUL behind it, and its size.
  unfoldable pub read_file : FileSystem → Bytes → Option (Bytes × ℕ)
  unfolding read_bytes
  read_file fs path = do
    bytes ← read_bytes (λ size. io.malloc (size + 1)) fs path
    some (bytes ++ (0 ∷ []), length bytes)

  -- `read_file(filename, buffer, max_size, file_size)`: the whole buffer, and the size.
  unfoldable pub read_file_into : ℕ → FileSystem → Bytes → Option (Bytes × ℕ)
  unfolding read_bytes
  read_file_into max_size fs path = do
    bytes ← read_bytes (λ size. ltb size max_size) fs path
    some (bytes ++ replicate (max_size - length bytes) 0, length bytes)

  unfoldable pub write_default_blob : FileSystem → Bytes → Bytes → FileSystem
  unfolding file_exists write_file
  write_default_blob fs path blob = if file_exists fs path then fs else write_file fs path blob

  -- `make_folders`, with the two files that the build puts into the plugin.
  unfoldable pub make_folders : Bytes → Bytes → FileSystem → FileSystem
  unfolding write_default_blob
  make_folders game_plugins_yml bootloader_sprx fs =
      let made =
        io.mkdir
          (io.mkdir
            (io.mkdir (io.mkdir fs (codes "/dev_hdd0/game_patch"))
              (codes "/dev_hdd0/game_patch/settings"))
            (codes "/dev_hdd0/game_patch/yml"))
          (codes "/dev_hdd0/game_patch/work") in
      let cleared = io.unlink (io.unlink made notify_path) game_info_path in
      write_default_blob (write_default_blob cleared plugins_path game_plugins_yml) bootloader_path
        bootloader_sprx

  -- `load_plugin_main` up to the call of the function that it replaces. The arguments are the name
  -- of the plugin and, where its interface is there, what `GameInfo` and `GetAppVer` fill in.
  unfoldable pub load_plugin_main : Bool → FileSystem → Bytes → Option (Bytes × Bytes) → FileSystem
  unfolding write_file vsh_stringid
  load_plugin_main signed_char fs plugin_name none = fs
  load_plugin_main signed_char fs plugin_name (some (titleid, app_ver)) =
      if vsh_stringid signed_char plugin_name == vsh_stringid signed_char (codes "game_plugin")
      then write_file (write_file fs game_info_path (game_info_bytes titleid app_ver)) notify_path
          (check_byte ∷ [])
      else fs

  -- One round of `notify_thread`: the files, and the text that is shown.
  unfoldable pub notify_round : FileSystem → FileSystem × Option Bytes
  unfolding file_exists read_file_into
  notify_round fs =
      if file_exists fs notify_path
      then elim (read_file_into 257 fs notify_path) [
        | none ↦ (fs, none)
        | some (notify_buf, size) ↦
            if not (get_or notify_buf 0 0 == check_byte) && ltb 1 size
            then (io.unlink fs notify_path, some (c_string notify_buf))
            else (fs, none)
      ]
      else (fs, none)
