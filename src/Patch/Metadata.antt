-- ===== src/Patch/Metadata.antt =====
-- game_patch/patch.c: `calculate_patch_hash`, `patch_matches_game` and
-- `process_patch_metadata_for_app_ver`. `none` is a crash: a NULL that is read as a string.
use ps3_plugins.Base.{
  ℕ, zero, suc, ◌+◌, ◌*◌, ◌/◌, ◌%◌, Bool, true, false, not, ◌&&◌, ◌||◌, Option, none, some, List,
  [], ◌∷◌, ◌++◌, ltb, if◌then◌else◌, Bytes, codes, same, get_elem?, ◌>>=◌,
}
use ps3_plugins.CString.{strstr}
use ps3_plugins.GamePatchInfo.{GamePatchInfo, titleid_text, app_ver_text}
use ps3_plugins.ProgramArgs.{ProgramArgs}
use ps3_plugins.StringId.{fnv_offset, stringid}
use ps3_plugins.StringId.Concat.{stringid_all}
use ps3_plugins.Patch.{Patch, PatchMetadata, Build, prx, tools, Env, ParseContext, size_mod}

-- `"%ld"`: the decimal digits of a number below 10 ^ 20.
unfoldable pub decimal_loop : ℕ → ℕ → Bytes → Bytes
decimal_loop zero n out = out
decimal_loop (suc fuel) n out =
    let out' = (b'0' + n % 10) ∷ out in
    let more = decimal_loop fuel (n / 10) out' in if ltb n 10 then out' else more

unfoldable pub decimal : ℕ → Bytes
unfolding decimal_loop
decimal n = decimal_loop 20 n []

-- `text ? text : ""`
abbrev pub or_empty : Option Bytes → Bytes
or_empty none = []
or_empty (some s) = s

-- The strings of `hash_list`.
abbrev pub hash_list : Bytes → Patch → Option Bytes → List Bytes
hash_list titleid_cat patch app_ver =
    titleid_cat
    ∷ or_empty patch.title
    ∷ or_empty patch.name
    ∷ or_empty patch.author
    ∷ or_empty patch.version
    ∷ or_empty patch.app_bin
    ∷ or_empty app_ver
    ∷ []

unfoldable pub calculate_patch_hash : Bool → ℕ → Bytes → Patch → Option Bytes → ℕ
unfolding stringid decimal
calculate_patch_hash signed_char patch_number titleid_cat patch app_ver =
    stringid_all signed_char (hash_list titleid_cat patch app_ver)
      (stringid signed_char (decimal patch_number) fnv_offset)

unfoldable pub patch_matches_game : GamePatchInfo → Option Bytes → Bool
patch_matches_game game none = false
patch_matches_game game (some app_ver) =
    not (same (app_ver_text game) []) && same (app_ver_text game) app_ver

-- `strstr(text, needle) != 0`
unfoldable pub contains : Bytes → Bytes → Bool
unfolding strstr
contains text needle = elim (strstr text needle) [ none ↦ false | some _ ↦ true ]

-- `g_args && strstr(g_args->argv[0].c.lo, app_bin) != 0`; a crash if the string is NULL.
unfoldable pub is_exe_matched : Option ProgramArgs → Bytes → Option Bool
is_exe_matched none app_bin = some false
is_exe_matched (some g_args) app_bin = do
  first ← get_elem? g_args.argv 0
  exe ← first
  some (contains exe app_bin)

-- `str_dup`: the one for tools crashes on a NULL.
unfoldable pub str_dup : Build → Option Bytes → Option (Option Bytes)
str_dup build (some s) = some (some s)
str_dup prx none = some none
str_dup tools none = none

-- The path of the settings of a title.
abbrev pub settings_path : Bytes → Bytes
settings_path titleid = codes "/dev_hdd0/game_patch/settings/" ++ titleid ++ codes ".bin"

unfoldable pub is_prx_name : Bytes → Bool
is_prx_name app_bin =
    contains app_bin (codes ".prx")
    || contains app_bin (codes ".PRX")
    || contains app_bin (codes ".sprx")
    || contains app_bin (codes ".SPRX")

-- `read_patch_state(…) == 1`
abbrev pub is_one : Option Bool → Bool
is_one none = false
is_one (some b) = b

unfoldable pub process_patch_metadata_for_app_ver :
    Env → ParseContext → Option Bytes → ℕ → Option PatchMetadata
process_patch_metadata_for_app_ver env ctx app_ver app_ver_index = do
  let patch = ctx.current_patch
  let number = (ctx.current_patch_number * 100 + app_ver_index) % size_mod
  let titleid = titleid_text ctx.game_info
  let hash = calculate_patch_hash env.signed_char number titleid patch app_ver
  title ← str_dup env.build patch.title
  name ← str_dup env.build patch.name
  author ← str_dup env.build patch.author
  version ← str_dup env.build patch.version
  app_bin ← patch.app_bin
  own_app_ver ← str_dup env.build app_ver
  exe_matched ← is_exe_matched env.g_args app_bin
  some (record {
    hash = hash;
    patch_number = number;
    title = title;
    name = name;
    author = author;
    version = version;
    app_bin = some app_bin;
    app_ver = own_app_ver;
    matches_game = patch_matches_game ctx.game_info app_ver;
    enabled = is_one (env.read_patch_state (settings_path titleid) hash) && exe_matched;
    is_prx = is_prx_name app_bin;
  })
